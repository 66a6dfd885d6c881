-- ===== src/Nodes/Prepare/Ready.antt =====
-- What `prepare` of native/src/core/module.cpp leaves below a partition.
use kitsune_ufork.Common.{Bool, true, false, not, ◌&&◌, ◌||◌, ◌≡◌, refl, Option, some, arith}
use kitsune_ufork.OrderedMap.{is_some}
use kitsune_ufork.Nodes.{dir_type}
use kitsune_ufork.Nodes.Prepare.{
  Real, Reals, Source, from_module, magisk, zygisk, Tree, inner, tmpfs, leaf, Trees, no_trees, tree,
  is_wht, type_of, cannot_mount, exists_now, in_dir, listing, upgrade, prepare_child, prepare_all,
  prepare_root,
}
use kitsune_ufork.Nodes.Prepare.Upgrade.{covered, layers, layered, covers, upgrade-covers}

abbrev pub is_module : Source → Bool
is_module (from_module m) = true
is_module (magisk target) = false
is_module (zygisk wide) = false

-- Whiteouts come from modules.
abbrev pub is_plain : Source → Bool → Bool
is_plain s wht = is_module s || not wht

-- A tree before `prepare`: no tmpfs_node yet.
unfoldable mutual
  pub fresh : Tree → Bool
  fresh (inner e r ks) = all_fresh ks
  fresh (tmpfs t e r ks) = false
  fresh (leaf s t e) = is_plain s (is_wht t)

  pub all_fresh : Trees → Bool
  all_fresh no_trees = true
  all_fresh (tree n k ks) = fresh k && all_fresh ks

-- A node in a directory that is no tmpfs_node can be mounted over what is there, and a directory
-- goes on so unless it is a tmpfs_node, below which each directory is one.
unfoldable mutual
  pub ready : Option Real → Tree → Bool
  ready found (inner e r ks) =
      not (cannot_mount found (type_of (inner e r ks))) && all_ready (listing found) ks
  ready found (tmpfs t e r ks) = not (cannot_mount found t) && covered ks
  ready found (leaf s t e) = not (cannot_mount found t) && is_plain s (is_wht t)

  pub all_ready : Reals → Trees → Bool
  all_ready rs no_trees = true
  all_ready rs (tree n k ks) = ready (in_dir n rs) k && all_ready rs ks

covers-layers : (k : Tree) → covers k ≡ true → layers k ≡ true
unfolding covers layers
covers-layers (inner e r ks) c = ground (arith, c)
covers-layers (tmpfs t e r ks) c = c
covers-layers (leaf s t e) c = refl

mutual
  unfolding fresh layers covered prepare_child

  prepare_child-layers :
      (replace : Bool) (found : Option Real) (k : Tree)
      → fresh k ≡ true
      → layers (prepare_child replace found k) ≡ true
  prepare_child-layers replace found (leaf s t e) f = refl
  prepare_child-layers replace found (tmpfs t e r ks) f = ground (arith, f)
  prepare_child-layers replace found (inner e r ks) f =
      let below = prepare_all-layered false (replace || r) (listing found) ks f in
      let e' = exists_now e found in
      let ks' = (prepare_all false (replace || r) (listing found) ks).0 in
      let up = upgrade-covers (listing found) (inner e' (replace || r) ks') below in
      ground
        (arith, below, covers-layers (upgrade (listing found) (inner e' (replace || r) ks')) up)

  prepare_all-layered :
      (is_root replace : Bool) (rs : Reals) (ks : Trees)
      → all_fresh ks ≡ true
      → layered (prepare_all is_root replace rs ks).0 ≡ true
  prepare_all-layered is_root replace rs no_trees f = refl
  prepare_all-layered is_root replace rs (tree n k ks) f = ground (
    arith,
    f,
    prepare_child-layers replace (in_dir n rs) k,
    prepare_all-layered is_root replace rs ks,
  )

upgrade-ready :
    (found : Option Real) (rs : Reals) (e r : Bool) (ks : Trees)
    → layered ks ≡ true
    → cannot_mount found dir_type ≡ false
    → ready found (upgrade rs (inner e r ks)) ≡ true
unfolding ready upgrade covers layers
upgrade-ready found rs e r ks l n = ground (arith, upgrade-covers rs (inner e r ks) l, n)

mutual
  unfolding fresh ready layers covered prepare_child

  prepare_child-ready :
      (replace : Bool) (found : Option Real) (k : Tree)
      → fresh k ≡ true
      → cannot_mount found (type_of k) ≡ false
      → ready found (prepare_child replace found k) ≡ true
  prepare_child-ready replace found (leaf s t e) f n = ground (arith, f, n)
  prepare_child-ready replace found (tmpfs t e r ks) f n = ground (arith, f)
  prepare_child-ready replace found (inner e r ks) f n =
      let ks' = (prepare_all false (replace || r) (listing found) ks).0 in
      ground (
        arith,
        n,
        prepare_all-ready false (replace || r) (listing found) ks f,
        upgrade-ready found (listing found) (exists_now e found) (replace || r) ks'
            (prepare_all-layered false (replace || r) (listing found) ks f) n,
      )

  prepare_all-ready :
      (is_root replace : Bool) (rs : Reals) (ks : Trees)
      → all_fresh ks ≡ true
      → (is_root || not (prepare_all is_root replace rs ks).1) ≡ true
      → all_ready rs (prepare_all is_root replace rs ks).0 ≡ true
  prepare_all-ready is_root replace rs no_trees f u = refl
  prepare_all-ready is_root replace rs (tree n k ks) f u = ground (
    arith,
    f,
    u,
    prepare_child-ready replace (in_dir n rs) k,
    prepare_all-ready is_root replace rs ks,
  )

-- After `prepare` of a partition, unless that goes wrong: every child of a directory that is not
-- upgraded can be mounted over a path that is there, without a link at either side, and below a
-- tmpfs_node every directory is a tmpfs_node.
pub prepare_root-all_ready :
    (replace : Bool) (rs : Reals) (ks ks' : Trees)
    → all_fresh ks ≡ true
    → prepare_root replace rs ks ≡ some ks'
    → all_ready rs ks' ≡ true
unfolding prepare_root
prepare_root-all_ready replace rs ks ks' f e =
    ground (arith, e, prepare_all-ready true replace rs ks f refl)

never_up : (replace : Bool) (rs : Reals) (ks : Trees) → (prepare_all true replace rs ks).1 ≡ false
unfolding prepare_all
never_up replace rs no_trees = refl
never_up replace rs (tree n k ks) = ground (arith, never_up replace rs ks)

-- It goes wrong exactly for a partition with the bit `replace`.
pub prepare_root_fails :
    (replace : Bool) (rs : Reals) (ks : Trees) → is_some (prepare_root replace rs ks) ≡ not replace
unfolding prepare_root
prepare_root_fails replace rs ks = ground (arith, never_up replace rs ks)
