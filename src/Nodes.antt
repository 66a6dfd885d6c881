-- ===== src/Nodes.antt =====
-- The tree of module files: `dir_node` and its insertions in native/src/core/node.hpp, and
-- `collect_module_files` of native/src/core/module.cpp.
pub mod Owner
pub mod Complete
pub mod Prepare
pub mod Mount
pub mod Inject
pub mod Load
mod Examples
use kitsune_ufork.Common.{
  ℕ, Bool, true, false, Option, none, some, List, [], ◌∷◌, Text, str_eql, str_less, if◌then◌else◌,
}

-- The file types of a directory entry; `null_device` is a character device whose number is 0.
pub data DType : Type 0 where
  dir_type reg lnk chr null_device whiteout : DType

-- What a directory of a module holds, in the order in which it is read: `.replace`, a directory
-- with what it holds, or another file.
mutual
  pub data Entry : Type 0 where
    replace_mark : Entry
    sub_dir : Text → Entries → Entry
    file : Text → DType → Entry

  pub data Entries : Type 0 where
    no_entries : Entries
    next : Entry → Entries → Entries

-- While modules are collected the nodes are `inter_node`s, with their children and the bit
-- `replace`, and `module_node`s, with file type and module.
mutual
  pub data Node : Type 0 where
    inter : Dir → Node
    module_file : DType → Text → Node

  pub data Dir : Type 0 where
    dir : Bool → Children → Dir

  pub data Children : Type 0 where
    no_children : Children
    child : Text → Node → Children → Children

-- children.find(name)
unfoldable pub find_child : Text → Children → Option Node
find_child name no_children = none
find_child name (child n node cs) = if str_eql n name then some node else find_child name cs

-- The entry under the name, put in or exchanged; the map is ordered by name.
unfoldable pub put_child : Text → Node → Children → Children
put_child name node no_children = child name node no_children
put_child name node (child n old cs) =
    let behind = put_child name node cs in
    if str_eql n name
    then child name node cs
    else if str_less n name
    then child n old behind
    else child name node (child n old cs)

-- emplace<module_node>: a new node, or an upgrade of an inter_node, whose file type it takes over
-- in `consume` and whose children are deleted; a module_node that is there stays.
unfoldable pub emplace_file : Text → DType → Text → Children → Children
emplace_file name type m cs = elim (find_child name cs) [
  | none ↦ put_child name (module_file type m) cs
  | some node ↦ elim node [
    | inter d ↦ put_child name (module_file dir_type m) cs
    | module_file t owner ↦ cs
  ]
]

-- A whiteout is told by its device number.
unfoldable pub file_type : DType → DType
file_type null_device = whiteout
file_type dir_type = dir_type
file_type reg = reg
file_type lnk = lnk
file_type chr = chr
file_type whiteout = whiteout

-- The inter_node to go on with, a new one or the one there; `none` where a module_node is.
unfoldable pub open_child : Option Node → Option Dir
open_child none = some (dir false no_children)
open_child (some (inter d)) = some d
open_child (some (module_file t m)) = none

abbrev pub children_of : Dir → Children
children_of (dir r cs) = cs

abbrev pub replace_of : Dir → Bool
replace_of (dir r cs) = r

-- collect_module_files, over a directory that can be opened.
unfoldable mutual
  pub collect : Text → Entries → Dir → Dir
  collect m no_entries d = d
  collect m (next e es) d = collect m es (collect_entry m e d)

  pub collect_entry : Text → Entry → Dir → Dir
  collect_entry m replace_mark d = dir true (children_of d)
  collect_entry m (file name type) d =
      dir (replace_of d) (emplace_file name (file_type type) m (children_of d))
  collect_entry m (sub_dir name es) d = elim (open_child (find_child name (children_of d))) [
    | none ↦ d
    | some old ↦ dir (replace_of d) (put_child name (inter (collect m es old)) (children_of d))
  ]

-- A module as load_modules finds it: its name, whether it has `skip_mount`, and what its `system`
-- holds, if that is there.
pub record Module : Type 0 where
  pub name : Text
  pub skip_mount : Bool
  pub system : Option Entries

abbrev pub collect_system : Text → Option Entries → Dir → Dir
collect_system m none d = d
collect_system m (some es) d = collect m es d

-- The loop over module_list, as far as the tree goes.
unfoldable pub load_files : List Module → Dir → Dir
load_files [] d = d
load_files (m ∷ ms) d = load_files ms (if m.skip_mount then d else collect_system m.name m.system d)
