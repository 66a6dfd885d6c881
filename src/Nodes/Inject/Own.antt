-- ===== src/Nodes/Inject/Own.antt =====
-- No module overrides the files that `inject_magisk_bins` of native/src/core/module.cpp puts in.
use kitsune_ufork.Common.{
  sym, subst, Bool, true, false, not, ◌≡◌, refl, Option, none, some, List, [], ◌∷◌, Text, codes,
  arith, all, str_eql, str_eql_iff, str_eql_refl, if◌then◌else◌, inl, inr, Option-cases,
}
use mathlib.Core.Option.{some-injective}
use kitsune_ufork.Nodes.{DType}
use kitsune_ufork.Nodes.Prepare.{
  Source, from_module, magisk, zygisk, Tree, inner, tmpfs, leaf, Trees, no_trees, tree,
}
use kitsune_ufork.Nodes.Prepare.Ready.{is_module}
use kitsune_ufork.Nodes.Inject.{
  find_tree, set_tree, taken_by, insert_own, get_inter, in_dirs, own_files, insert_all, magisk_bins,
  Setup, bin_dirs, inject_magisk_bins,
}

-- The node is one of Magisk's own.
abbrev pub is_own : Option Tree → Bool
is_own none = false
is_own (some (inner e r ks)) = false
is_own (some (tmpfs t e r ks)) = false
is_own (some (leaf s t e)) = not (is_module s)

pub find_tree-set_tree :
    (a b : Text) (k : Tree) (ks : Trees)
    → find_tree b (set_tree a k ks) ≡ (if str_eql a b then some k else find_tree b ks)
unfolding find_tree set_tree
find_tree-set_tree a b k no_trees = refl
find_tree-set_tree a b k (tree n old ks) =
    ground (arith, find_tree-set_tree a b k ks, str_eql_iff n a, str_eql_iff n b, str_eql_iff a b)

taken_by-own :
    (s : Source) (t : DType) (old : Option Tree)
    → is_module s ≡ false
    → is_own (some (taken_by s t old)) ≡ true
taken_by-own s t none m = ground (arith, m)
taken_by-own s t (some (inner e r ks)) m = ground (arith, m)
taken_by-own s t (some (tmpfs t' e r ks)) m = ground (arith, m)
taken_by-own s t (some (leaf (from_module o) t' e)) m = ground (arith, m)
taken_by-own s t (some (leaf (magisk target) t' e)) m = refl
taken_by-own s t (some (leaf (zygisk wide) t' e)) m = refl

insert_own-own :
    (name : Text) (s : Source) (t : DType) (ks : Trees)
    → is_module s ≡ false
    → is_own (find_tree name (insert_own name s t ks)) ≡ true
unfolding insert_own
insert_own-own name s t ks m =
    let k = taken_by s t (find_tree name ks) in
    rw (find_tree-set_tree name name k ks, str_eql_refl name)
      (taken_by-own s t (find_tree name ks) m)

insert_own-keeps :
    (name n : Text) (s : Source) (t : DType) (ks : Trees)
    → is_module s ≡ false
    → is_own (find_tree n ks) ≡ true
    → is_own (find_tree n (insert_own name s t ks)) ≡ true
unfolding insert_own
insert_own-keeps name n s t ks m o =
    let k = taken_by s t (find_tree name ks) in
    ground (arith, o, find_tree-set_tree name n k ks, taken_by-own s t (find_tree name ks) m)

abbrev FileList : Type 0
FileList = List (Text × Source × DType)

abbrev pub no_modules : FileList → Bool
no_modules files = all (λ (f : Text × Source × DType). not (is_module f.1)) files

abbrev pub all_own : FileList → Trees → Bool
all_own files ks = all (λ (f : Text × Source × DType). is_own (find_tree f.0 ks)) files

insert_all-keeps :
    (files : FileList) (n : Text) (ks : Trees)
    → no_modules files ≡ true
    → is_own (find_tree n ks) ≡ true
    → is_own (find_tree n (insert_all files ks)) ≡ true
unfolding insert_all
insert_all-keeps [] n ks m o = o
insert_all-keeps ((name, s, t) ∷ files) n ks m o =
    insert_all-keeps files n (insert_own name s t ks) (ground (arith, m))
      (insert_own-keeps name n s t ks (ground (arith, m)) o)

insert_all-own :
    (files : FileList) (ks : Trees)
    → no_modules files ≡ true
    → all_own files (insert_all files ks) ≡ true
unfolding insert_all
insert_all-own [] ks m = refl
insert_all-own ((name, s, t) ∷ files) ks m =
    let first =
      insert_all-keeps files name (insert_own name s t ks) (ground (arith, m))
        (insert_own-own name s t ks (ground (arith, m))) in
    ground (arith, first, insert_all-own files (insert_own name s t ks) (ground (arith, m)))

own_files-no_modules : (applets : List Text) → no_modules (own_files applets) ≡ true
unfolding own_files
own_files-no_modules [] = refl
own_files-no_modules (applet ∷ applets) = own_files-no_modules applets

-- The directory at a path of inter_nodes.
abbrev pub below_dir : Option Tree → Option Trees
below_dir none = none
below_dir (some (inner e r ks)) = some ks
below_dir (some (tmpfs t e r ks)) = none
below_dir (some (leaf s t e)) = none

unfoldable pub kids_at : List Text → Trees → Option Trees
kids_at [] ks = some ks
kids_at (name ∷ path) ks = elim (below_dir (find_tree name ks)) [
  | none ↦ none
  | some below ↦ kids_at path below
]

-- At the path, what was made of some directory.
abbrev pub Changed : List Text → (Trees → Trees) → Trees → Type 0
Changed path f ks' = (ks : Trees) × (kids_at path ks' ≡ some (f ks))

set-Changed :
    (name : Text) (path : List Text) (f : Trees → Trees) (e r : Bool) (below ks ks' : Trees)
    → some (set_tree name (inner e r below) ks) ≡ some ks'
    → Changed path f below
    → Changed (name ∷ path) f ks'
unfolding kids_at
set-Changed name path f e r below ks ks' eq (x, c) = (
  x,
  subst (λ z. kids_at (name ∷ path) z ≡ some (f x))
      (some-injective (set_tree name (inner e r below) ks) ks' eq)
      (rw (kids_at, find_tree-set_tree name name (inner e r below) ks, str_eql_refl name) c),
)

in_dirs-Changed :
    (path : List Text) (f : Trees → Trees) (ks ks' : Trees)
    → in_dirs path f ks ≡ some ks'
    → Changed path f ks'
unfolding in_dirs kids_at
in_dirs-Changed [] f ks ks' e = (ks, sym e)
in_dirs-Changed (name ∷ path) f ks ks' eq = elim (Option-cases (get_inter name ks)) [
  | inl n ↦ ground (arith, eq, n)
  | inr ((e, r, below), g) ↦ elim (Option-cases (in_dirs path f below)) [
    | inl n ↦ ground (arith, eq, g, n)
    | inr (below', d) ↦
        set-Changed name path f e r below' ks ks' (rw (g, d) at eq)
          (in_dirs-Changed path f below below' d)
  ]
]

-- The two binaries, and the link to the second.
abbrev pub magisk_names : List Text
magisk_names = codes "magisk" ∷ codes "magiskpolicy" ∷ codes "supolicy" ∷ []

-- Among the files are all of the applets, and supolicy.
own_files-applets :
    (applets : List Text) (ks : Trees)
    → all_own (own_files applets) ks ≡ true
    → (is_own (find_tree (codes "supolicy") ks) ≡ true)
      × (all (λ n. is_own (find_tree n ks)) applets ≡ true)
unfolding own_files
own_files-applets [] ks h = ground (arith, h)
own_files-applets (a ∷ applets) ks h = ground (arith, h, own_files-applets applets ks)

-- What inject_magisk_bins has put into the directory that it chose.
abbrev pub AllOwn : Setup → Option (List Text) → Trees → Type 0
AllOwn s none system = ⊥
AllOwn s (some dirs) system =
    (ks : Trees) × (kids_at dirs system ≡ some ks)
    × (all (λ n. is_own (find_tree n ks)) magisk_names ≡ true)
    × (all (λ n. is_own (find_tree n ks)) s.applets ≡ true)

-- When inject_magisk_bins returns, it has chosen a directory, and there the nodes called magisk,
-- magiskpolicy and supolicy, and the node of every applet, are Magisk's own, whatever the modules
-- have under these names.
pub inject_magisk_bins-AllOwn :
    (s : Setup) (system system' : Trees)
    → inject_magisk_bins s system ≡ some system'
    → AllOwn s (bin_dirs s system) system'
unfolding inject_magisk_bins
inject_magisk_bins-AllOwn s system system' e = elim (Option-cases (bin_dirs s system)) [
  | inl n ↦ ground (arith, e, n)
  | inr (dirs, d) ↦
      let f = insert_all (magisk_bins s.applets) in
      let (x, c) = in_dirs-Changed dirs f system system' (rw d at e) in
      let own = insert_all-own (magisk_bins s.applets) x (own_files-no_modules s.applets) in
      let (policy, applets) = own_files-applets s.applets (f x) (ground (arith, own)) in
      rw d (f x, c, ground (arith, own, policy), applets)
]
