-- ===== src/Nodes/Prepare/Upgrade.antt =====
-- The nodes of native/src/core/module.cpp that an upgrade to a tmpfs_node leaves.
use kitsune_ufork.Common.{Bool, true, false, ◌&&◌, ◌≡◌, refl, Text, arith}
use kitsune_ufork.Nodes.Prepare.{
  Real, real, Reals, closed, end_of_dir, entry, Tree, inner, tmpfs, leaf, Trees, no_trees, tree,
  put_tree, dummy, fill, upgrade, upgrade_all, in_dir, listing,
}

-- Below a tmpfs_node every directory is one.
unfoldable mutual
  pub covers : Tree → Bool
  covers (inner e r ks) = false
  covers (tmpfs t e r ks) = covered ks
  covers (leaf s t e) = true

  pub covered : Trees → Bool
  covered no_trees = true
  covered (tree n k ks) = covers k && covered ks

-- Wherever there is a tmpfs_node, that holds below it.
unfoldable mutual
  pub layers : Tree → Bool
  layers (inner e r ks) = layered ks
  layers (tmpfs t e r ks) = covered ks
  layers (leaf s t e) = true

  pub layered : Trees → Bool
  layered no_trees = true
  layered (tree n k ks) = layers k && layered ks

put_tree-covered :
    (n : Text) (k : Tree) (ks : Trees)
    → covers k ≡ true
    → covered ks ≡ true
    → covered (put_tree n k ks) ≡ true
unfolding covered put_tree
put_tree-covered n k no_trees c d = ground arith
put_tree-covered n k (tree m old ks) c d = ground (arith, put_tree-covered n k ks c)

mutual
  unfolding covers dummy fill covered

  dummy-covers : (r : Real) → covers (dummy r) ≡ true
  dummy-covers (real t rs) = fill-covered rs no_trees refl

  pub fill-covered : (rs : Reals) (ks : Trees) → covered ks ≡ true → covered (fill rs ks) ≡ true
  fill-covered closed ks c = c
  fill-covered end_of_dir ks c = c
  fill-covered (entry n r rs) ks c = ground (
    arith,
    fill-covered rs ks c,
    fill-covered rs (put_tree n (dummy r) ks) (put_tree-covered n (dummy r) ks (dummy-covers r) c),
  )

mutual
  unfolding upgrade covers layers

  pub upgrade-covers : (rs : Reals) (k : Tree) → layers k ≡ true → covers (upgrade rs k) ≡ true
  upgrade-covers rs (inner e r ks) l =
      let below = upgrade_all-covered rs ks l in
      ground (arith, below, fill-covered rs (upgrade_all rs ks) below)
  upgrade-covers rs (tmpfs t e r ks) l = l
  upgrade-covers rs (leaf s t e) l = l

  upgrade_all-covered :
      (rs : Reals) (ks : Trees) → layered ks ≡ true → covered (upgrade_all rs ks) ≡ true
  upgrade_all-covered rs no_trees l = refl
  upgrade_all-covered rs (tree n k ks) l =
      ground (arith, l, upgrade-covers (listing (in_dir n rs)) k, upgrade_all-covered rs ks)
