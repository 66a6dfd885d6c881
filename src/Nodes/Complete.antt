-- ===== src/Nodes/Complete.antt =====
-- Every file of every module has a place in the tree of native/src/core/module.cpp.
use kitsune_ufork.Common.{
  ◌≡◌, refl, inl, inr, Bool, not, ◌&&◌, ◌||◌, true, false, Option, none, some, List, [], ◌∷◌, Text,
  arith, all, any, str_eql, str_eql_iff, if◌then◌else◌, Option-cases, Bool-cases,
}
use kitsune_ufork.OrderedMap.{is_some}
use kitsune_ufork.Nodes.{
  DType, dir_type, Entry, replace_mark, sub_dir, file, Entries, no_entries, next, Node, inter,
  module_file, Dir, dir, Children, no_children, find_child, emplace_file, file_type, open_child,
  collect, collect_entry, Module, collect_system, load_files,
}
use kitsune_ufork.Nodes.Owner.{owner, collect-Or, find_child-put_child, blocks, collect-keeps}

-- A module's directory has a file at the path.
unfoldable mutual
  pub gives : Entries → List Text → Bool
  gives no_entries path = false
  gives (next e es) path = gives_entry e path || gives es path

  pub gives_entry : Entry → List Text → Bool
  gives_entry e [] = false
  gives_entry replace_mark (n ∷ path) = false
  gives_entry (file name type) (n ∷ []) = str_eql name n
  gives_entry (file name type) (n ∷ q ∷ path) = false
  gives_entry (sub_dir name es) (n ∷ path) = str_eql name n && gives es path

abbrev has_owner : List Text → Dir → Bool
has_owner path d = is_some (owner path d)

owned_later :
    (m : Text) (es : Entries) (path : List Text) (d : Dir)
    → has_owner path d ≡ true
    → has_owner path (collect m es d) ≡ true
owned_later m es path d h = elim (Option-cases (owner path d)) [
  | inl e ↦ absurd (ground (arith, h, e))
  | inr (o, e) ↦ ground (arith, collect-Or m o es path d e)
]

file-gives :
    (m name n : Text) (type : DType) (path : List Text) (d : Dir)
    → gives_entry (file name type) (n ∷ path) ≡ true
    → has_owner (n ∷ path) (collect_entry m (file name type) d) ≡ true
unfolding owner collect_entry emplace_file gives_entry
file-gives m name n type [] (dir r cs) g = ground (
  arith,
  g,
  find_child-put_child name n (module_file (file_type type) m) cs,
  find_child-put_child name n (module_file dir_type m) cs,
  str_eql_iff name n,
)
file-gives m name n type (q ∷ path) d g = absurd (ground (arith, g))

sub-gives :
    (m name n : Text) (es : Entries) (path : List Text) (r : Bool) (cs : Children)
    (found : Option Node)
    → find_child name cs ≡ found
    → gives_entry (sub_dir name es) (n ∷ path) ≡ true
    → ((d : Dir) → gives es path ≡ true → has_owner path (collect m es d) ≡ true)
    → has_owner (n ∷ path) (collect_entry m (sub_dir name es) (dir r cs)) ≡ true
unfolding collect_entry open_child owner gives_entry
sub-gives m name n es path r cs none e g deeper = ground (
  arith,
  g,
  e,
  deeper (dir false no_children),
  find_child-put_child name n (inter (collect m es (dir false no_children))) cs,
  str_eql_iff name n,
)
sub-gives m name n es path r cs (some (inter d)) e g deeper = ground (
  arith,
  g,
  e,
  deeper d,
  find_child-put_child name n (inter (collect m es d)) cs,
  str_eql_iff name n,
)
sub-gives m name n es path r cs (some (module_file t q)) e g deeper =
    ground (arith, g, e, str_eql_iff name n)

later : (a b : Bool) → a ≡ false → (a || b) ≡ true → b ≡ true
later a b h g = ground arith

mutual
  unfolding collect collect_entry gives gives_entry

  collect-gives :
      (m : Text) (es : Entries) (path : List Text) (d : Dir)
      → gives es path ≡ true
      → has_owner path (collect m es d) ≡ true
  collect-gives m no_entries path d g = absurd (ground (arith, g))
  collect-gives m (next e es) path d g = elim (Bool-cases (gives_entry e path)) [
    | inl here ↦ owned_later m es path (collect_entry m e d) (entry-gives m e path d here)
    | inr there ↦
        collect-gives m es path (collect_entry m e d)
          (later (gives_entry e path) (gives es path) there g)
  ]

  entry-gives :
      (m : Text) (e : Entry) (path : List Text) (d : Dir)
      → gives_entry e path ≡ true
      → has_owner path (collect_entry m e d) ≡ true
  entry-gives m e [] d g = absurd (ground (arith, g))
  entry-gives m replace_mark (n ∷ path) d g = absurd (ground (arith, g))
  entry-gives m (file name type) (n ∷ path) d g = file-gives m name n type path d g
  entry-gives m (sub_dir name es) (n ∷ path) (dir r cs) g =
      sub-gives m name n es path r cs (find_child name cs) refl g
        (λ d' k. collect-gives m es path d' k)

-- The module is mounted and has a file at the path; or has a file where the path goes on.
abbrev pub system_gives : Option Entries → List Text → Bool
system_gives none path = false
system_gives (some es) path = gives es path

abbrev pub system_blocks : Option Entries → List Text → Bool
system_blocks none path = false
system_blocks (some es) path = blocks es path

abbrev pub module_gives : List Text → Module → Bool
module_gives path m = not m.skip_mount && system_gives m.system path

abbrev pub module_passes : List Text → Module → Bool
module_passes path m = m.skip_mount || not (system_blocks m.system path)

abbrev step : Module → Dir → Dir
step m d = if m.skip_mount then d else collect_system m.name m.system d

step-owned :
    (m : Module) (path : List Text) (d : Dir)
    → has_owner path d ≡ true
    → has_owner path (step m d) ≡ true
step-owned m path d h = go m.system
  where
    go :
        (system : Option Entries)
        → has_owner path (if m.skip_mount then d else collect_system m.name system d) ≡ true
    go none = ground (arith, h)
    go (some es) = ground (arith, h, owned_later m.name es path d h)

load_files-owned :
    (ms : List Module) (path : List Text) (d : Dir)
    → has_owner path d ≡ true
    → has_owner path (load_files ms d) ≡ true
unfolding load_files
load_files-owned [] path d h = h
load_files-owned (m ∷ ms) path d h = load_files-owned ms path (step m d) (step-owned m path d h)

step-gives :
    (m : Module) (path : List Text) (d : Dir)
    → module_gives path m ≡ true
    → has_owner path (step m d) ≡ true
step-gives m path d g = go m.system g
  where
    go :
        (system : Option Entries)
        → (not m.skip_mount && system_gives system path) ≡ true
        → has_owner path (if m.skip_mount then d else collect_system m.name system d) ≡ true
    go none e = absurd (ground (arith, e))
    go (some es) e = ground (arith, e, collect-gives m.name es path d)

-- Once the modules are loaded, each path at which some mounted module has a file is given by a
-- module, whatever the tree was before.
pub load_files-gives :
    (ms : List Module) (path : List Text) (d : Dir)
    → any (module_gives path) ms ≡ true
    → is_some (owner path (load_files ms d)) ≡ true
unfolding load_files
load_files-gives [] path d g = absurd (ground (arith, g))
load_files-gives (m ∷ ms) path d g = elim (Bool-cases (module_gives path m)) [
  | inl here ↦ load_files-owned ms path (step m d) (step-gives m path d here)
  | inr there ↦
      load_files-gives ms path (step m d)
        (later (module_gives path m) (any (module_gives path) ms) there g)
]

both : (a b : Bool) → (a && b) ≡ true → (a ≡ true) × (b ≡ true)
both a b h = ground arith

step-keeps :
    (m : Module) (o : Text) (path : List Text) (d : Dir)
    → module_passes path m ≡ true
    → owner path d ≡ some o
    → owner path (step m d) ≡ some o
step-keeps m o path d p h = go m.system p
  where
    go :
        (system : Option Entries)
        → (m.skip_mount || not (system_blocks system path)) ≡ true
        → owner path (if m.skip_mount then d else collect_system m.name system d) ≡ some o
    go none e = ground (arith, h)
    go (some es) e = ground (arith, e, h, collect-keeps m.name o es path d)

-- A path that a module gives stays with this module through the loading of any later ones, if none
-- of those that are mounted has a file where the path goes on.
pub load_files-keeps :
    (ms : List Module) (o : Text) (path : List Text) (d : Dir)
    → all (module_passes path) ms ≡ true
    → owner path d ≡ some o
    → owner path (load_files ms d) ≡ some o
unfolding load_files
load_files-keeps [] o path d p h = h
load_files-keeps (m ∷ ms) o path d p h =
    let (first, others) = both (module_passes path m) (all (module_passes path) ms) p in
    load_files-keeps ms o path (step m d) others (step-keeps m o path d first h)
