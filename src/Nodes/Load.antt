-- ===== src/Nodes/Load.antt =====
-- `load_modules` of native/src/core/module.cpp from the collected tree on: the partitions, `prepare`
-- and `mount` of the root. `none` is undefined behaviour.
pub mod Safe
use kitsune_ufork.Common.{
  ℕ, Bool, true, false, not, ◌&&◌, ◌||◌, Option, none, some, List, [], ◌∷◌, ◌++◌, Text, codes,
  str_eql, str_less, if◌then◌else◌,
}
use kitsune_ufork.Base.Strings.{str_contains}
use kitsune_ufork.Nodes.{
  DType, dir_type, reg, lnk, chr, null_device, whiteout, Module, Dir, dir, no_children, replace_of,
  load_files,
}
use kitsune_ufork.Nodes.Prepare.{
  Real, real, Reals, Tree, inner, tmpfs, leaf, Trees, no_trees, tree, in_dir, listing, cannot_mount,
  prepare_root,
}
use kitsune_ufork.Nodes.Mount.{Call, Bins, mount_all}
use kitsune_ufork.Nodes.Inject.{
  Setup, plant, plant_all, find_tree, inject_magisk_bins, inject_zygisk_libs,
}

-- A root_node below "/": its name, its file type, `replace`, and its children.
pub record Part : Type 0 where
  pub name : Text
  pub part_type : DType
  pub replace : Bool
  pub kids : Trees

-- new root_node(old): a node without children has none to take over.
unfoldable pub new_root : Text → Tree → Part
new_root name (inner e r ks) = record { name = name; part_type = dir_type; replace = r; kids = ks }
new_root name (tmpfs t e r ks) = record { name = name; part_type = t; replace = r; kids = ks }
new_root name (leaf s t e) = record { name = name; part_type = t; replace = false; kids = no_trees }

unfoldable pub erase_tree : Text → Trees → Trees
erase_tree name no_trees = no_trees
erase_tree name (tree n k ks) =
    let rest = erase_tree name ks in if str_eql n name then ks else tree n k rest

-- The map of the root's children is ordered by name.
unfoldable pub put_part : Part → List Part → List Part
put_part p [] = p ∷ []
put_part p (q ∷ qs) =
    let behind = put_part p qs in if str_less q.name p.name then q ∷ behind else p ∷ q ∷ qs

abbrev is_dir_real : Option Real → Bool
is_dir_real none = false
is_dir_real (some (real dir_type rs)) = true
is_dir_real (some (real reg rs)) = false
is_dir_real (some (real lnk rs)) = false
is_dir_real (some (real chr rs)) = false
is_dir_real (some (real null_device rs)) = false
is_dir_real (some (real whiteout rs)) = false

abbrev extracted : Text → Option Tree → Trees → List Part → Trees × List Part
extracted name none system parts = (system, parts)
extracted name (some old) system parts =
    (erase_tree name system, put_part (new_root name old) parts)

-- The partitions that are directories of their own are taken out of the system's tree.
unfoldable pub take_part : Reals → Text → Trees → List Part → Trees × List Part
unfolding find_tree new_root erase_tree put_part
take_part top name system parts =
    if is_dir_real (in_dir name top)
    then extracted name (find_tree name system) system parts
    else (system, parts)

unfoldable pub take_parts : Reals → List Text → Trees → List Part → Trees × List Part
unfolding take_part
take_parts top [] system parts = (system, parts)
take_parts top (name ∷ names) system parts =
    let (system', parts') = take_part top name system parts in take_parts top names system' parts'

abbrev pub part_names : List Text
part_names = codes "vendor" ∷ codes "product" ∷ codes "system_ext" ∷ []

abbrev pub and_part : Part → Option Trees → Option (List Part) → Option (List Part)
and_part p none ps = none
and_part p (some ks) none = none
and_part p (some ks) (some ps) = some (record p { kids = ks } ∷ ps)

-- `prepare` of the root of the roots: a partition that cannot be mounted over is dropped.
unfoldable pub prepare_parts : Reals → List Part → Option (List Part)
unfolding cannot_mount prepare_root
prepare_parts top [] = some []
prepare_parts top (p ∷ ps) =
    let rest = prepare_parts top ps in
    let found = in_dir p.name top in
    if cannot_mount found p.part_type
    then rest
    else and_part p (prepare_root p.replace (listing found) p.kids) rest

-- `mount` of the root: only the partitions beside "system" have the prefix "/system".
unfoldable pub mount_parts : Bins → List Part → List Call
unfolding mount_all
mount_parts b [] = []
mount_parts b (p ∷ ps) =
    mount_all b (not (str_eql p.name (codes "system"))) false (p.name ∷ []) p.kids
    ++ mount_parts b ps

abbrev pub mounted : Bins → Option (List Part) → Option (List Call)
mounted b none = none
mounted b (some ps) = some (mount_parts b ps)

abbrev pub no_kids : Trees → Bool
no_kids no_trees = true
no_kids (tree n k ks) = false

abbrev pub system_part : Bool → Trees → Part
system_part replace kids = record {
  name = codes "system";
  part_type = dir_type;
  replace = replace;
  kids = kids;
}

-- The end of load_modules: nothing is done for an empty tree.
unfoldable pub mount_system : Reals → Bins → Bool → Option Trees → Option (List Call)
unfolding take_parts prepare_parts mount_parts
mount_system top b replace none = none
mount_system top b replace (some system) =
    let (kids, parts) = take_parts top part_names system [] in
    if no_kids system
    then some []
    else mounted b (prepare_parts top (put_part (system_part replace kids) parts))

abbrev pub with_bins : Setup → Trees → Option Trees
with_bins s system =
    if not s.tmp_is_sbin
      || not (elim s.path [ none ↦ false | some p ↦ str_contains p (codes "/sbin") ])
    then inject_magisk_bins s system
    else some system

abbrev pub with_zygisk : Setup → Option Trees → Option Trees
with_zygisk s none = none
with_zygisk s (some system) = if s.zygisk_enabled then inject_zygisk_libs s system else some system

abbrev pub planted : Dir → Trees
planted (dir r cs) = plant_all cs

-- load_modules, but for the properties.
unfoldable pub load_modules : Setup → Reals → List Module → Option (List Call)
unfolding load_files inject_magisk_bins inject_zygisk_libs mount_system plant str_contains
load_modules s top modules =
    let collected = load_files modules (dir false no_children) in
    mount_system top s.bins (replace_of collected) (with_zygisk s (with_bins s (planted collected)))
