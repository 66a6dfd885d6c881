-- ===== src/Nodes/Examples.antt =====
-- The theorems on native/src/core/module.cpp at concrete inputs.
use kitsune_ufork.Common.{
  ◌≡◌, refl, Bool, true, false, Option, none, some, List, all, drop, [], ◌∷◌, Text, codes, str_eql,
}
use kitsune_ufork.OrderedMap.{is_some}
use kitsune_ufork.Nodes.{
  Entries, no_entries, next, sub_dir, file, dir_type, reg, Dir, dir, no_children, find_child,
  put_child, emplace_file, open_child, collect, Module, load_files,
}
use kitsune_ufork.Nodes.Owner.{owner, blocks}
use kitsune_ufork.Nodes.Prepare.{
  real, Reals, closed, end_of_dir, entry, from_module, magisk, inner, leaf, Trees, no_trees, tree,
}
use kitsune_ufork.Nodes.Prepare.Ready.{all_fresh}
use kitsune_ufork.Nodes.Mount.{Call, bind, clone_attr, node_path, module_root, module_mnt}
use kitsune_ufork.Nodes.Inject.{
  Setup, bin_dirs, find_tree, set_tree, in_dirs, insert_all, own_files, plant_all,
  inject_magisk_bins,
}
use kitsune_ufork.Nodes.Inject.Own.{AllOwn, inject_magisk_bins-AllOwn}
use kitsune_ufork.Nodes.Load.{Part, prepare_parts, load_modules}
use kitsune_ufork.Nodes.Load.Safe.{safe_calls, load_modules-safe, may_go_on, prepare_parts_fails}
use kitsune_ufork.Nodes.Complete.{load_files-keeps}

abbrev etc : Text
etc = codes "etc"

abbrev hosts : Text
hosts = codes "hosts"

abbrev with_hosts : Entries
with_hosts = next (sub_dir etc (next (file hosts reg) no_entries)) no_entries

abbrev first : Module
first = record { name = codes "first"; skip_mount = false; system = some with_hosts }

abbrev second : Module
second = record { name = codes "second"; skip_mount = false; system = some with_hosts }

abbrev third : Module
third = record {
  name = codes "third";
  skip_mount = false;
  system = some (next (file etc reg) no_entries);
}

abbrev empty : Dir
empty = dir false no_children

load_files-keeps_example :
    owner (etc ∷ hosts ∷ []) (load_files (second ∷ []) (load_files (first ∷ []) empty))
    ≡ some (codes "first")
unfolding blocks owner load_files collect open_child find_child put_child emplace_file str_eql
load_files-keeps_example =
    load_files-keeps (second ∷ []) (codes "first") (etc ∷ hosts ∷ [])
      (load_files (first ∷ []) empty) refl refl

-- A file of a later module takes the place of a directory.
directory_lost :
    owner (etc ∷ hosts ∷ []) (load_files (first ∷ third ∷ []) empty) ≡ some (codes "third")
unfolding owner load_files collect open_child find_child put_child emplace_file str_eql
directory_lost = refl

abbrev setup : Setup
setup = record {
  tmp_is_sbin = false;
  path = some (codes "/system/bin");
  can_search = λ path. true;
  has_file = λ path. true;
  native_bridge = codes "libzygisk.so";
  zygisk_enabled = true;
  applets = codes "su" ∷ [];
  bins = record { has_bin = λ name. true; is_lp64 = true };
}

abbrev system_dir : Reals
system_dir =
    entry (codes "bin") (real dir_type (entry (codes "sh") (real reg closed) end_of_dir))
      (entry etc (real dir_type (entry hosts (real reg closed) end_of_dir)) end_of_dir)

abbrev top_dir : Reals
top_dir = entry (codes "system") (real dir_type system_dir) end_of_dir

load_modules-safe_example : safe_calls top_dir (load_modules setup top_dir (first ∷ [])) ≡ true
unfolding inject_magisk_bins load_files collect open_child find_child plant_all put_child str_eql
    kitsune_ufork.Base.Strings.split_loop kitsune_ufork.Common.str_starts
    kitsune_ufork.Nodes.Inject.inject_zygisk_libs set_tree kitsune_ufork.Common.str_less all_fresh
    emplace_file
load_modules-safe_example = load_modules-safe setup top_dir (first ∷ []) refl

-- A module has a file under the name of an applet.
abbrev with_su : Trees
with_su =
    tree (codes "bin")
      (inner false false
        (tree (codes "su") (leaf (from_module (codes "first")) reg false) no_trees))
      no_trees

abbrev or_empty : Option Trees → Trees
or_empty none = no_trees
or_empty (some ks) = ks

inject_magisk_bins-AllOwn_example :
    AllOwn setup (bin_dirs setup with_su) (or_empty (inject_magisk_bins setup with_su))
unfolding inject_magisk_bins find_tree in_dirs str_eql
inject_magisk_bins-AllOwn_example =
    inject_magisk_bins-AllOwn setup with_su (or_empty (inject_magisk_bins setup with_su)) refl

abbrev replaced : Part
replaced = record { name = codes "system"; part_type = dir_type; replace = true; kids = no_trees }

prepare_parts_fails_example :
    is_some (prepare_parts top_dir (replaced ∷ [])) ≡ all (may_go_on top_dir) (replaced ∷ [])
prepare_parts_fails_example = prepare_parts_fails top_dir (replaced ∷ [])

abbrev calls_of : Option (List Call) → List Call
calls_of none = []
calls_of (some calls) = calls

abbrev the_calls : List Call
the_calls = calls_of (load_modules setup top_dir (first ∷ []))

mounts_hosts :
    drop 14 the_calls
    ≡ clone_attr
        (node_path (hosts ∷ etc ∷ codes "system" ∷ []))
        (module_root (codes "first") false (hosts ∷ etc ∷ codes "system" ∷ []))
      ∷ bind
          (codes "module")
          (module_mnt (codes "first") false (hosts ∷ etc ∷ codes "system" ∷ []))
          (node_path (hosts ∷ etc ∷ codes "system" ∷ []))
      ∷ []
unfolding load_modules collect open_child find_child put_child str_eql
    kitsune_ufork.Base.Strings.split_loop kitsune_ufork.Common.str_starts set_tree
    kitsune_ufork.Common.str_less kitsune_ufork.Nodes.Prepare.in_dir
    kitsune_ufork.Nodes.Prepare.upgrade kitsune_ufork.Nodes.Prepare.fill
    kitsune_ufork.Nodes.Prepare.put_tree emplace_file kitsune_ufork.Nodes.file_type
mounts_hosts = refl
