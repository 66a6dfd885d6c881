-- ===== src/Nodes/Mount.antt =====
-- The functions `mount` of the nodes in native/src/core/module.cpp, as the calls that they make.
pub mod Places
use kitsune_ufork.Common.{
  Bool, true, false, not, ◌&&◌, ◌||◌, Option, none, some, List, [], ◌∷◌, ◌++◌, Text, codes,
  if◌then◌else◌,
}
use kitsune_ufork.Nodes.{DType, dir_type, reg, lnk, chr, null_device, whiteout}
use kitsune_ufork.Nodes.Prepare.{
  Source, from_module, magisk, zygisk, Tree, inner, tmpfs, leaf, Trees, no_trees, tree, is_wht,
}

-- A node_path, by its names from the last one up.
abbrev pub NodePath : Type 0
NodePath = List Text

-- Paths that calls take: a node_path, the same below the worker directory, below a module in
-- MODULEROOT or in MODULEMNT, with whether the prefix "/system" is put before it, and a name in the
-- directory of Magisk's own files.
pub data Place : Type 0 where
  node_path worker_path : NodePath → Place
  module_root module_mnt : Text → Bool → NodePath → Place
  magisk_file : Text → Place

-- cp_afc, xsymlink with the text of the link, xmkdir or mkdirs, open with O_CREAT, a bind mount, the
-- remount to read only, and clone_attr.
pub data Call : Type 0 where
  copy_link : Place → Place → Call
  symlink : Text → Place → Call
  mkdir create read_only : Place → Call
  bind : Text → Place → Place → Call
  clone_attr : Place → Place → Call

-- What access finds in get_magisk_tmp(), and the build.
pub record Bins : Type 0 where
  pub has_bin : Text → Bool
  pub is_lp64 : Bool

-- The node's own place: isa<tmpfs_node>(parent()) decides.
abbrev pub dest_of : Bool → NodePath → Place
dest_of in_tmpfs p = if in_tmpfs then worker_path p else node_path p

abbrev bind_ro : Text → Place → Place → Bool → List Call
bind_ro reason src dest ro = bind reason src dest ∷ (if ro then read_only dest ∷ [] else [])

unfoldable pub create_and_mount : Text → Place → Bool → DType → Place → List Call
create_and_mount reason src ro lnk dest = copy_link src dest ∷ []
create_and_mount reason src ro dir_type dest = mkdir dest ∷ bind_ro reason src dest ro
create_and_mount reason src ro reg dest = create dest ∷ bind_ro reason src dest ro
create_and_mount reason src ro chr dest = []
create_and_mount reason src ro null_device dest = []
create_and_mount reason src ro whiteout dest = []

-- module_node::mount
unfoldable pub mount_module : Bool → Bool → NodePath → Text → DType → Bool → List Call
unfolding create_and_mount
mount_module prefix in_tmpfs p m t exist =
    let src = module_mnt m prefix p in
    let attrs = if exist then clone_attr (node_path p) (module_root m prefix p) ∷ [] else [] in
    let calls =
      if in_tmpfs
      then create_and_mount (codes "module") src false t (worker_path p)
      else bind (codes "module") src (node_path p) ∷ [] in
    if is_wht t then [] else attrs ++ calls

abbrev pub last_name : NodePath → Text
last_name [] = []
last_name (n ∷ p) = n

-- magisk_node::mount and zygisk_node::mount
unfoldable pub mount_magisk : Bins → Bool → NodePath → Option Text → DType → List Call
unfolding create_and_mount
mount_magisk b in_tmpfs p (some target) t = symlink target (dest_of in_tmpfs p) ∷ []
mount_magisk b in_tmpfs p none t =
    if b.has_bin (last_name p)
    then create_and_mount (codes "magisk") (magisk_file (last_name p)) true t (dest_of in_tmpfs p)
    else []

unfoldable pub mount_zygisk : Bins → Bool → NodePath → Bool → DType → List Call
unfolding create_and_mount
mount_zygisk b in_tmpfs p is64bit t =
    let bin = if b.is_lp64 && not is64bit then codes "magisk32" else codes "magisk" in
    if b.has_bin bin
    then create_and_mount (codes "zygisk") (magisk_file bin) true t (dest_of in_tmpfs p)
    else []

-- tmpfs_node::mount of a directory, around the calls of its children; `up` is the parent's path.
unfoldable pub mount_tmpfs : Bool → NodePath → NodePath → Bool → Bool → List Call → List Call
mount_tmpfs in_tmpfs up p exist replace below =
    let attrs = if exist then node_path p else dest_of in_tmpfs up in
    let head = mkdir (worker_path p) ∷ clone_attr attrs (worker_path p) ∷ below in
    let reason = if replace then codes "replace" else codes "move" in
    if in_tmpfs
    then head
    else head ++ (bind reason (worker_path p) (node_path p) ∷ read_only (node_path p) ∷ [])

abbrev pub is_dir_type : DType → Bool
is_dir_type dir_type = true
is_dir_type reg = false
is_dir_type lnk = false
is_dir_type chr = false
is_dir_type null_device = false
is_dir_type whiteout = false

-- `mount` of a node with the path `n ∷ up`, and of the children of the directory `up`.
unfoldable mutual
  unfolding mount_module mount_magisk mount_zygisk mount_tmpfs create_and_mount

  pub mount_tree : Bins → Bool → Bool → NodePath → Text → Tree → List Call
  mount_tree b prefix in_tmpfs up n (inner e r ks) = mount_all b prefix false (n ∷ up) ks
  mount_tree b prefix in_tmpfs up n (tmpfs t e r ks) =
      let below = mount_all b prefix true (n ∷ up) ks in
      if is_dir_type t
      then mount_tmpfs in_tmpfs up (n ∷ up) e r below
      else create_and_mount (codes "mirror") (node_path (n ∷ up)) false t
          (dest_of in_tmpfs (n ∷ up))
  mount_tree b prefix in_tmpfs up n (leaf (from_module m) t e) =
      mount_module prefix in_tmpfs (n ∷ up) m t e
  mount_tree b prefix in_tmpfs up n (leaf (magisk target) t e) =
      mount_magisk b in_tmpfs (n ∷ up) target t
  mount_tree b prefix in_tmpfs up n (leaf (zygisk wide) t e) =
      mount_zygisk b in_tmpfs (n ∷ up) wide t

  pub mount_all : Bins → Bool → Bool → NodePath → Trees → List Call
  mount_all b prefix in_tmpfs up no_trees = []
  mount_all b prefix in_tmpfs up (tree n k ks) =
      mount_tree b prefix in_tmpfs up n k ++ mount_all b prefix in_tmpfs up ks
