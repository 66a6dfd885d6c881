-- ===== src/Nodes/Prepare.antt =====
-- `dir_node::prepare` and the constructor of `tmpfs_node` in native/src/core/module.cpp: the
-- collected tree against the real file system.
pub mod Upgrade
pub mod Ready
use kitsune_ufork.Common.{
  Bool, true, false, not, ◌&&◌, ◌||◌, Option, none, some, Text, str_eql, str_less, if◌then◌else◌,
}
use kitsune_ufork.OrderedMap.{is_some}
use kitsune_ufork.Nodes.{DType, dir_type, reg, lnk, chr, null_device, whiteout}

-- The real file system below a directory: for each entry its type, as lstat and readdir tell it, and
-- what open_dir finds under its path, which is `closed` where that fails.
mutual
  pub data Real : Type 0 where
    real : DType → Reals → Real

  pub data Reals : Type 0 where
    closed end_of_dir : Reals
    entry : Text → Real → Reals → Reals

unfoldable pub in_dir : Text → Reals → Option Real
in_dir name closed = none
in_dir name end_of_dir = none
in_dir name (entry n r rs) = let rest = in_dir name rs in if str_eql n name then some r else rest

abbrev pub listing : Option Real → Reals
listing none = closed
listing (some (real t rs)) = rs

abbrev pub opened : Reals → Bool
opened closed = false
opened end_of_dir = true
opened (entry n r rs) = true

-- Where a file comes from: a module, the Magisk binaries with the target of a link, or zygisk.
pub data Source : Type 0 where
  from_module : Text → Source
  magisk : Option Text → Source
  zygisk : Bool → Source

-- An inter_node with the bits `exist` and `replace`, a tmpfs_node with its file type and the bits,
-- and a node that has no children with its file type and `exist`.
mutual
  pub data Tree : Type 0 where
    inner : Bool → Bool → Trees → Tree
    tmpfs : DType → Bool → Bool → Trees → Tree
    leaf : Source → DType → Bool → Tree

  pub data Trees : Type 0 where
    no_trees : Trees
    tree : Text → Tree → Trees → Trees

abbrev pub has_tree : Text → Trees → Bool
has_tree name no_trees = false
has_tree name (tree n k ks) = str_eql n name || has_tree name ks

-- The place of a new name in the map.
unfoldable pub put_tree : Text → Tree → Trees → Trees
put_tree name k no_trees = tree name k no_trees
put_tree name k (tree n old ks) =
    let behind = put_tree name k ks in
    if str_less n name then tree n old behind else tree name k (tree n old ks)

-- emplace<inter_node> for each entry that has no node yet, and the upgrade of this node, which
-- has neither children nor `replace`, to a tmpfs_node in turn.
unfoldable mutual
  pub dummy : Real → Tree
  dummy (real t rs) = tmpfs t (opened rs) false (fill rs no_trees)

  pub fill : Reals → Trees → Trees
  fill closed ks = ks
  fill end_of_dir ks = ks
  fill (entry n r rs) ks = fill rs (if has_tree n ks then ks else put_tree n (dummy r) ks)

-- upgrade<tmpfs_node>: an inter_node with all resting inter_nodes below it; `rs` is what open_dir
-- finds under its path. With `replace` it is not looked at.
unfoldable mutual
  pub upgrade : Reals → Tree → Tree
  upgrade rs (inner e r ks) =
      let below = upgrade_all rs ks in
      if r then tmpfs dir_type e r below else tmpfs dir_type (e || opened rs) r (fill rs below)
  upgrade rs (tmpfs t e r ks) = tmpfs t e r ks
  upgrade rs (leaf s t e) = leaf s t e

  pub upgrade_all : Reals → Trees → Trees
  upgrade_all rs no_trees = no_trees
  upgrade_all rs (tree n k ks) = tree n (upgrade (listing (in_dir n rs)) k) (upgrade_all rs ks)

abbrev pub type_of : Tree → DType
type_of (inner e r ks) = dir_type
type_of (tmpfs t e r ks) = t
type_of (leaf s t e) = t

abbrev pub is_lnk : DType → Bool
is_lnk lnk = true
is_lnk dir_type = false
is_lnk reg = false
is_lnk chr = false
is_lnk null_device = false
is_lnk whiteout = false

abbrev pub is_wht : DType → Bool
is_wht whiteout = true
is_wht dir_type = false
is_wht reg = false
is_wht lnk = false
is_wht chr = false
is_wht null_device = false

-- `cannot_mnt`
unfoldable pub cannot_mount : Option Real → DType → Bool
cannot_mount none t = not (is_wht t)
cannot_mount (some (real there rs)) t = is_lnk t || (is_lnk there || is_wht t)

-- The bits that a child has before its own `prepare`.
abbrev pub exists_now : Bool → Option Real → Bool
exists_now e found = e || is_some found

-- A child with its bits set; a directory is prepared and, if that asks for it, upgraded. For the
-- children of a directory: what is left of them, and whether one of them cannot be mounted; a
-- partition's root drops those.
unfoldable mutual
  pub prepare_child : Bool → Option Real → Tree → Tree
  prepare_child replace found (leaf s t e) = leaf s t (exists_now e found)
  prepare_child replace found (tmpfs t e r ks) = tmpfs t (exists_now e found) (replace || r) ks
  prepare_child replace found (inner e r ks) =
      let e' = exists_now e found in
      let r' = replace || r in
      let (ks', up) = prepare_all false r' (listing found) ks in
      let node = inner e' r' ks' in
      if r' || (not e' || up) then upgrade (listing found) node else node

  pub prepare_all : Bool → Bool → Reals → Trees → Trees × Bool
  prepare_all is_root replace rs no_trees = (no_trees, false)
  prepare_all is_root replace rs (tree n k ks) =
      let found = in_dir n rs in
      let cannot = cannot_mount found (type_of k) in
      let k' = prepare_child replace found k in
      let (ks', up) = prepare_all is_root replace rs ks in
      if cannot && is_root then (ks', up) else (tree n k' ks', cannot || up)

-- `prepare` of a partition's root_node, which exists; `none` is the upgrade that fails, after
-- which an iterator at the end moves on.
unfoldable pub prepare_root : Bool → Reals → Trees → Option Trees
unfolding prepare_all
prepare_root replace rs ks =
    let (ks', up) = prepare_all true replace rs ks in if replace || up then none else some ks'
