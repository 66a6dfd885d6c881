-- ===== src/Nodes/Inject.antt =====
-- `inject_magisk_bins` and `inject_zygisk_libs` of native/src/core/module.cpp, on the tree that
-- `load_files` collects. `none` is undefined behaviour.
pub mod Own
use kitsune_ufork.Common.{
  ℕ, Bool, true, false, not, ◌&&◌, ◌||◌, Option, none, some, List, [], ◌∷◌, ◌++◌, Text, codes, drop,
  str_eql, str_less, str_starts, if◌then◌else◌,
}
use kitsune_ufork.OrderedMap.{is_some}
use kitsune_ufork.Base.Strings.{split, str_contains}
use kitsune_ufork.Nodes.{
  DType, dir_type, reg, lnk, Module, Node, inter, module_file, Dir, dir, Children, no_children,
  child, load_files,
}
use kitsune_ufork.Nodes.Prepare.{
  Reals, Source, from_module, magisk, zygisk, Tree, inner, tmpfs, leaf, Trees, no_trees, tree, Real,
  in_dir, listing, cannot_mount, prepare_root,
}
use kitsune_ufork.Nodes.Mount.{Call, Bins, mount_all}

-- The collected nodes, none of which is known to exist yet.
unfoldable mutual
  pub plant : Node → Tree
  plant (inter d) = plant_dir d
  plant (module_file t m) = leaf (from_module m) t false

  plant_dir : Dir → Tree
  plant_dir (dir r cs) = inner false r (plant_all cs)

  pub plant_all : Children → Trees
  plant_all no_children = no_trees
  plant_all (child n node cs) = tree n (plant node) (plant_all cs)

unfoldable pub find_tree : Text → Trees → Option Tree
find_tree name no_trees = none
find_tree name (tree n k ks) =
    let rest = find_tree name ks in if str_eql n name then some k else rest

-- The entry of the map, put in or exchanged.
unfoldable pub set_tree : Text → Tree → Trees → Trees
set_tree name k no_trees = tree name k no_trees
set_tree name k (tree n old ks) =
    let behind = set_tree name k ks in
    if str_eql n name
    then tree name k ks
    else if str_less n name
    then tree n old behind
    else tree name k (tree n old ks)

-- A node of the custom type takes the place of any other one, with its file type and bits; a custom
-- one that is there stays.
abbrev pub taken_by : Source → DType → Option Tree → Tree
taken_by s t none = leaf s t false
taken_by s t (some (inner e r ks)) = leaf s dir_type e
taken_by s t (some (tmpfs t' e r ks)) = leaf s t' e
taken_by s t (some (leaf (from_module m) t' e)) = leaf s t' e
taken_by s t (some (leaf (magisk target) t' e)) = leaf (magisk target) t' e
taken_by s t (some (leaf (zygisk wide) t' e)) = leaf (zygisk wide) t' e

unfoldable pub insert_own : Text → Source → DType → Trees → Trees
insert_own name s t ks = set_tree name (taken_by s t (find_tree name ks)) ks

-- get_child<inter_node>, and a new inter_node where there is none. The cast is not checked: another
-- node is used as what it is not.
unfoldable pub get_inter : Text → Trees → Option (Bool × Bool × Trees)
get_inter name ks = elim (find_tree name ks) [
  | none ↦ some (false, false, no_trees)
  | some k ↦ elim k [
    | inner e r below ↦ some (e, r, below)
    | tmpfs t e r below ↦ none
    | leaf s t e ↦ none
  ]
]

abbrev pub into_dir :
    Text → (Trees → Option Trees) → Option (Bool × Bool × Trees) → Trees → Option Trees
into_dir name f none ks = none
into_dir name f (some (e, r, below)) ks = elim (f below) [
  | none ↦ none
  | some below' ↦ some (set_tree name (inner e r below') ks)
]

-- The change of the directory at a path.
unfoldable pub in_dirs : List Text → (Trees → Trees) → Trees → Option Trees
unfolding get_inter
in_dirs [] f ks = some (f ks)
in_dirs (name ∷ path) f ks = into_dir name (in_dirs path f) (get_inter name ks) ks

-- The binaries and the links to them.
unfoldable pub own_files : List Text → List (Text × Source × DType)
own_files [] = (codes "supolicy", magisk (some (codes "./magiskpolicy")), lnk) ∷ []
own_files (applet ∷ applets) = (applet, magisk (some (codes "./magisk")), lnk) ∷ own_files applets

unfoldable pub insert_all : List (Text × Source × DType) → Trees → Trees
unfolding insert_own
insert_all [] ks = ks
insert_all ((name, s, t) ∷ files) ks = insert_all files (insert_own name s t ks)

abbrev pub magisk_bins : List Text → List (Text × Source × DType)
magisk_bins applets =
    (codes "magisk", magisk none, reg)
    ∷ (codes "magiskpolicy", magisk none, reg)
    ∷ own_files applets

-- The environment and the system: PATH, whether stat finds something with S_IXOTH, which paths are
-- there, the name of the native bridge, and applet_names.
pub record Setup : Type 0 where
  pub tmp_is_sbin : Bool
  pub path : Option Text
  pub can_search : Text → Bool
  pub has_file : Text → Bool
  pub native_bridge : Text
  pub zygisk_enabled : Bool
  pub applets : List Text
  pub bins : Bins

-- Below /system, the first directory of PATH that can be searched. `split` always answers.
unfoldable pub first_dir : (Text → Bool) → List Text → Option (List Text)
unfolding split
first_dir can_search [] = some []
first_dir can_search (item ∷ items) =
    let rest = drop (if str_starts item (codes "/system/") then 8 else 1) item in
    let behind = first_dir can_search items in
    if can_search (codes "/system/" ++ rest) then split (codes "/") rest else behind

abbrev path_dirs : Setup → Option Text → Option (List Text)
path_dirs s none = none
path_dirs s (some path) = elim (split (codes ":") path) [
  | none ↦ none
  | some items ↦ first_dir s.can_search items
]

abbrev pub bin_dirs : Setup → Trees → Option (List Text)
bin_dirs s system =
    if is_some (find_tree (codes "bin") system) then some (codes "bin" ∷ []) else path_dirs s s.path

abbrev in_found : (Trees → Trees) → Trees → Option (List Text) → Option Trees
in_found f system none = none
in_found f system (some dirs) = in_dirs dirs f system

unfoldable pub inject_magisk_bins : Setup → Trees → Option Trees
unfolding find_tree first_dir in_dirs insert_all own_files split
inject_magisk_bins s system =
    in_found (insert_all (magisk_bins s.applets)) system (bin_dirs s system)

abbrev inject_lib : Setup → Text → Text → Bool → Trees → Option Trees
inject_lib s linker lib wide system =
    if s.has_file linker
    then in_dirs (lib ∷ []) (insert_own s.native_bridge (zygisk wide) reg) system
    else some system

unfoldable pub inject_zygisk_libs : Setup → Trees → Option Trees
unfolding in_dirs insert_own
inject_zygisk_libs s system =
    elim (inject_lib s (codes "/system/bin/linker") (codes "lib") false system) [
      | none ↦ none
      | some system' ↦ inject_lib s (codes "/system/bin/linker64") (codes "lib64") true system'
    ]
