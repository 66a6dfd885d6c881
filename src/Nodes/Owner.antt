-- ===== src/Nodes/Owner.antt =====
-- Which module gives a path in the tree of native/src/core/module.cpp.
use kitsune_ufork.Common.{
  ◌≡◌, refl, ◌⊎◌, inl, inr, Bool, ◌&&◌, ◌||◌, false, Option, none, some, List, [], ◌∷◌, Text, arith,
  str_eql, str_eql_iff, if◌then◌else◌,
}
use kitsune_ufork.Nodes.{
  DType, dir_type, Entry, replace_mark, sub_dir, file, Entries, no_entries, next, Node, inter,
  module_file, Dir, dir, Children, no_children, child, find_child, put_child, emplace_file,
  file_type, open_child, children_of, collect, collect_entry,
}

-- The module of the first module_node on the way down a path.
unfoldable pub owner : List Text → Dir → Option Text
owner [] d = none
owner (name ∷ path) d = elim (find_child name (children_of d)) [
  | none ↦ none
  | some node ↦ elim node [ inter d' ↦ owner path d' | module_file t m ↦ some m ]
]

pub find_child-put_child :
    (a b : Text) (node : Node) (cs : Children)
    → find_child b (put_child a node cs) ≡ (if str_eql a b then some node else find_child b cs)
unfolding find_child put_child
find_child-put_child a b node no_children = refl
find_child-put_child a b node (child n old cs) =
    ground
      (arith, find_child-put_child a b node cs, str_eql_iff n a, str_eql_iff n b, str_eql_iff a b)

-- What collecting module `m` may make of a path that module `o` gives.
abbrev pub Or : Text → Text → List Text → Dir → Type 0
Or o m path d = (owner path d ≡ some o) ⊎ (owner path d ≡ some m)

file-Or :
    (m o name n : Text) (type : DType) (path : List Text) (d : Dir)
    → owner (n ∷ path) d ≡ some o
    → Or o m (n ∷ path) (collect_entry m (file name type) d)
unfolding owner collect_entry emplace_file
file-Or m o name n type path (dir r cs) h = ground (
  arith,
  h,
  find_child-put_child name n (module_file (file_type type) m) cs,
  find_child-put_child name n (module_file dir_type m) cs,
  str_eql_iff name n,
)

sub-Or :
    (m o name n : Text) (es : Entries) (path : List Text) (r : Bool) (cs : Children)
    (found : Option Node)
    → find_child name cs ≡ found
    → ((d : Dir) → owner path d ≡ some o → Or o m path (collect m es d))
    → owner (n ∷ path) (dir r cs) ≡ some o
    → Or o m (n ∷ path) (collect_entry m (sub_dir name es) (dir r cs))
unfolding collect_entry open_child owner
sub-Or m o name n es path r cs none e deeper h = ground (
  arith,
  h,
  e,
  find_child-put_child name n (inter (collect m es (dir false no_children))) cs,
  str_eql_iff name n,
)
sub-Or m o name n es path r cs (some (inter d)) e deeper h = ground (
  arith,
  h,
  e,
  deeper d,
  find_child-put_child name n (inter (collect m es d)) cs,
  str_eql_iff name n,
)
sub-Or m o name n es path r cs (some (module_file t q)) e deeper h = ground (arith, h, e)

mutual
  unfolding collect collect_entry open_child owner

  pub collect-Or :
      (m o : Text) (es : Entries) (path : List Text) (d : Dir)
      → owner path d ≡ some o
      → Or o m path (collect m es d)
  collect-Or m o no_entries path d h = inl h
  collect-Or m o (next e es) path d h = elim (entry-Or m o e path d h) [
    | inl same ↦ collect-Or m o es path (collect_entry m e d) same
    | inr new ↦ elim (collect-Or m m es path (collect_entry m e d) new) [
      | inl x ↦ inr x
      | inr x ↦ inr x
    ]
  ]

  pub entry-Or :
      (m o : Text) (e : Entry) (path : List Text) (d : Dir)
      → owner path d ≡ some o
      → Or o m path (collect_entry m e d)
  entry-Or m o e [] d h = absurd (ground (arith, h))
  entry-Or m o replace_mark (n ∷ path) d h = inl (ground (arith, h))
  entry-Or m o (file name type) (n ∷ path) d h = file-Or m o name n type path d h
  entry-Or m o (sub_dir name es) (n ∷ path) (dir r cs) h =
      sub-Or m o name n es path r cs (find_child name cs) refl (λ d' k. collect-Or m o es path d' k)
        h

-- A module's directory has a file where the path goes on.
unfoldable mutual
  pub blocks : Entries → List Text → Bool
  blocks no_entries path = false
  blocks (next e es) path = blocks_entry e path || blocks es path

  pub blocks_entry : Entry → List Text → Bool
  blocks_entry e [] = false
  blocks_entry replace_mark (n ∷ path) = false
  blocks_entry (file name type) (n ∷ []) = false
  blocks_entry (file name type) (n ∷ q ∷ path) = str_eql name n
  blocks_entry (sub_dir name es) (n ∷ path) = str_eql name n && blocks es path

neither : (a b : Bool) → (a || b) ≡ false → (a ≡ false) × (b ≡ false)
neither a b h = ground arith

file-keeps :
    (m o name n : Text) (type : DType) (path : List Text) (d : Dir)
    → blocks_entry (file name type) (n ∷ path) ≡ false
    → owner (n ∷ path) d ≡ some o
    → owner (n ∷ path) (collect_entry m (file name type) d) ≡ some o
unfolding owner collect_entry emplace_file blocks_entry
file-keeps m o name n type [] (dir r cs) b h = ground (
  arith,
  h,
  find_child-put_child name n (module_file (file_type type) m) cs,
  find_child-put_child name n (module_file dir_type m) cs,
  str_eql_iff name n,
)
file-keeps m o name n type (q ∷ path) (dir r cs) b h = ground (
  arith,
  h,
  b,
  find_child-put_child name n (module_file (file_type type) m) cs,
  find_child-put_child name n (module_file dir_type m) cs,
  str_eql_iff name n,
)

sub-keeps :
    (m o name n : Text) (es : Entries) (path : List Text) (r : Bool) (cs : Children)
    (found : Option Node)
    → find_child name cs ≡ found
    → blocks_entry (sub_dir name es) (n ∷ path) ≡ false
    → ((d : Dir)
        → blocks es path ≡ false
        → owner path d ≡ some o
        → owner path (collect m es d) ≡ some o)
    → owner (n ∷ path) (dir r cs) ≡ some o
    → owner (n ∷ path) (collect_entry m (sub_dir name es) (dir r cs)) ≡ some o
unfolding collect_entry open_child owner blocks_entry
sub-keeps m o name n es path r cs none e b deeper h = ground (
  arith,
  h,
  e,
  find_child-put_child name n (inter (collect m es (dir false no_children))) cs,
  str_eql_iff name n,
)
sub-keeps m o name n es path r cs (some (inter d)) e b deeper h = ground (
  arith,
  h,
  e,
  b,
  deeper d,
  find_child-put_child name n (inter (collect m es d)) cs,
  str_eql_iff name n,
)
sub-keeps m o name n es path r cs (some (module_file t q)) e b deeper h = ground (arith, h, e)

mutual
  unfolding collect collect_entry open_child owner blocks blocks_entry

  pub collect-keeps :
      (m o : Text) (es : Entries) (path : List Text) (d : Dir)
      → blocks es path ≡ false
      → owner path d ≡ some o
      → owner path (collect m es d) ≡ some o
  collect-keeps m o no_entries path d b h = h
  collect-keeps m o (next e es) path d b h =
      let (here, later) = neither (blocks_entry e path) (blocks es path) b in
      collect-keeps m o es path (collect_entry m e d) later (entry-keeps m o e path d here h)

  pub entry-keeps :
      (m o : Text) (e : Entry) (path : List Text) (d : Dir)
      → blocks_entry e path ≡ false
      → owner path d ≡ some o
      → owner path (collect_entry m e d) ≡ some o
  entry-keeps m o e [] d b h = absurd (ground (arith, h))
  entry-keeps m o replace_mark (n ∷ path) d b h = ground (arith, h)
  entry-keeps m o (file name type) (n ∷ path) d b h = file-keeps m o name n type path d b h
  entry-keeps m o (sub_dir name es) (n ∷ path) (dir r cs) b h =
      sub-keeps m o name n es path r cs (find_child name cs) refl b
        (λ d' c k. collect-keeps m o es path d' c k) h
