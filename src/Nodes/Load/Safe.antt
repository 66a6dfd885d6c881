-- ===== src/Nodes/Load/Safe.antt =====
-- Where everything that `load_modules` of native/src/core/module.cpp mounts goes.
use kitsune_ufork.Common.{
  Bool, true, false, not, ◌&&◌, ◌||◌, ◌≡◌, refl, ap, Option, none, some, List, [], ◌∷◌, Text, codes,
  arith, all, all-append, str_eql, inl, inr, Option-cases, Bool-cases,
}
use kitsune_ufork.Nodes.{Module, dir, no_children, replace_of, load_files}
use kitsune_ufork.Nodes.Prepare.{
  Reals, Tree, inner, tmpfs, leaf, Trees, no_trees, tree, in_dir, listing, cannot_mount,
  prepare_root,
}
use kitsune_ufork.OrderedMap.{is_some}
use kitsune_ufork.Nodes.Prepare.Ready.{prepare_root_fails, fresh, all_fresh}
use kitsune_ufork.Nodes.Mount.{Call, Bins, mount_all}
use kitsune_ufork.Nodes.Mount.Places.{is_safe, mount_all-prepare_root}
use kitsune_ufork.Nodes.Inject.{Setup, find_tree}
use kitsune_ufork.Nodes.Load.{
  Part, new_root, erase_tree, put_part, take_part, take_parts, prepare_parts, mount_parts,
  mount_system, system_part, part_names, with_bins, with_zygisk, planted, and_part, mounted,
  load_modules,
}

abbrev pub fresh_part : Part → Bool
fresh_part p = all_fresh p.kids

erase_tree-fresh :
    (n : Text) (ks : Trees) → all_fresh ks ≡ true → all_fresh (erase_tree n ks) ≡ true
unfolding erase_tree all_fresh
erase_tree-fresh n no_trees f = f
erase_tree-fresh n (tree m k ks) f = ground (arith, f, erase_tree-fresh n ks)

find_tree-fresh :
    (n : Text) (k : Tree) (ks : Trees)
    → all_fresh ks ≡ true
    → find_tree n ks ≡ some k
    → fresh k ≡ true
unfolding find_tree all_fresh
find_tree-fresh n k no_trees f e = ground (arith, e)
find_tree-fresh n k (tree m j ks) f e = ground (arith, f, e, find_tree-fresh n k ks)

new_root-fresh : (n : Text) (k : Tree) → fresh k ≡ true → fresh_part (new_root n k) ≡ true
unfolding new_root fresh
new_root-fresh n (inner e r ks) f = f
new_root-fresh n (tmpfs t e r ks) f = ground (arith, f)
new_root-fresh n (leaf s t e) f = refl

put_part-fresh :
    (p : Part) (ps : List Part)
    → fresh_part p ≡ true
    → all fresh_part ps ≡ true
    → all fresh_part (put_part p ps) ≡ true
unfolding put_part
put_part-fresh p [] f g = ground (arith, f)
put_part-fresh p (q ∷ qs) f g = ground (arith, f, g, put_part-fresh p qs f)

abbrev FreshBoth : Trees × List Part → Type 0
FreshBoth (system, parts) = (all_fresh system ≡ true) × (all fresh_part parts ≡ true)

take_part-fresh :
    (top : Reals) (n : Text) (system : Trees) (parts : List Part)
    → all_fresh system ≡ true
    → all fresh_part parts ≡ true
    → FreshBoth (take_part top n system parts)
unfolding take_part
take_part-fresh top n system parts f g = elim (Option-cases (find_tree n system)) [
  | inl e ↦ ground (arith, e, f, g)
  | inr (k, e) ↦
      let r = new_root-fresh n k (find_tree-fresh n k system f e) in
      ground (arith, e, f, g, erase_tree-fresh n system f, put_part-fresh (new_root n k) parts r g)
]

take_parts-fresh :
    (top : Reals) (ns : List Text) (system : Trees) (parts : List Part)
    → all_fresh system ≡ true
    → all fresh_part parts ≡ true
    → FreshBoth (take_parts top ns system parts)
unfolding take_parts
take_parts-fresh top [] system parts f g = (f, g)
take_parts-fresh top (n ∷ ns) system parts f g =
    let (f', g') = take_part-fresh top n system parts f g in
    take_parts-fresh top ns (take_part top n system parts).0 (take_part top n system parts).1 f' g'

-- All calls of the result, if there is one.
abbrev pub all_safe : Reals → Bins → Option (List Part) → Bool
all_safe top b none = true
all_safe top b (some ps) = all (is_safe top) (mount_parts b ps)

and_part-safe :
    (top : Reals) (b : Bins) (p : Part) (kids : Option Trees) (rest : Option (List Part))
    → ((ks : Trees)
        → kids ≡ some ks
        → all
            (is_safe top)
            (mount_all b (not (str_eql p.name (codes "system"))) false (p.name ∷ []) ks)
          ≡ true)
    → all_safe top b rest ≡ true
    → all_safe top b (and_part p kids rest) ≡ true
unfolding mount_parts
and_part-safe top b p none rest k r = refl
and_part-safe top b p (some ks) none k r = refl
and_part-safe top b p (some ks) (some ps) k r =
    let calls = mount_all b (not (str_eql p.name (codes "system"))) false (p.name ∷ []) ks in
    ground (arith, all-append (is_safe top) calls (mount_parts b ps), k ks refl, r)

prepare_parts-safe :
    (top : Reals) (b : Bins) (ps : List Part)
    → all fresh_part ps ≡ true
    → all_safe top b (prepare_parts top ps) ≡ true
unfolding prepare_parts mount_parts
prepare_parts-safe top b [] f = refl
prepare_parts-safe top b (p ∷ ps) f =
    let rest = prepare_parts-safe top b ps (ground (arith, f)) in
    let prefix = not (str_eql p.name (codes "system")) in
    let kids = prepare_root p.replace (listing (in_dir p.name top)) p.kids in
    let one =
      and_part-safe top b p kids (prepare_parts top ps)
        (λ ks.
          mount_all-prepare_root top b prefix p.replace (p.name ∷ []) p.kids ks (ground (arith, f)))
        rest in
    ground (arith, rest, one)

abbrev pub may_go_on : Reals → Part → Bool
may_go_on top p = cannot_mount (in_dir p.name top) p.part_type || not p.replace

and_part-is_some :
    (p : Part) (kids : Option Trees) (rest : Option (List Part))
    → is_some (and_part p kids rest) ≡ (is_some kids && is_some rest)
and_part-is_some p none rest = refl
and_part-is_some p (some ks) none = refl
and_part-is_some p (some ks) (some ps) = refl

-- `prepare` of all partitions goes wrong exactly if one of those that can be mounted over has the
-- bit `replace`, which a module sets with a file `.replace` in `system` itself or in a partition.
pub prepare_parts_fails :
    (top : Reals) (ps : List Part) → is_some (prepare_parts top ps) ≡ all (may_go_on top) ps
unfolding prepare_parts
prepare_parts_fails top [] = refl
prepare_parts_fails top (p ∷ ps) =
    let kids = prepare_root p.replace (listing (in_dir p.name top)) p.kids in
    let fails = prepare_root_fails p.replace (listing (in_dir p.name top)) p.kids in
    let rest = prepare_parts_fails top ps in
    elim (Bool-cases (cannot_mount (in_dir p.name top) p.part_type)) [
      | inl c ↦ rw c rest
      | inr c ↦
          rw (c, and_part-is_some p kids (prepare_parts top ps), fails)
            (ap (λ (x : Bool). not p.replace && x) rest)
    ]

-- The tree that is prepared.
abbrev pub injected : Setup → List Module → Option Trees
injected s modules =
    with_zygisk s (with_bins s (planted (load_files modules (dir false no_children))))

-- It has no tmpfs_node, and no file of Magisk's own in it took the place of a whiteout.
abbrev pub is_fresh : Option Trees → Bool
is_fresh none = true
is_fresh (some system) = all_fresh system

abbrev pub safe_calls : Reals → Option (List Call) → Bool
safe_calls top none = true
safe_calls top (some calls) = all (is_safe top) calls

mounted-safe :
    (top : Reals) (b : Bins) (parts : Option (List Part))
    → all_safe top b parts ≡ true
    → safe_calls top (mounted b parts) ≡ true
mounted-safe top b none s = refl
mounted-safe top b (some ps) s = s

mount_system-safe :
    (top : Reals) (b : Bins) (replace : Bool) (system : Option Trees)
    → is_fresh system ≡ true
    → safe_calls top (mount_system top b replace system) ≡ true
unfolding mount_system
mount_system-safe top b replace none f = refl
mount_system-safe top b replace (some system) f =
    let (kids, g) = take_parts-fresh top part_names system [] f refl in
    let parts = take_parts top part_names system [] in
    let own = system_part replace parts.0 in
    let ready = prepare_parts top (put_part own parts.1) in
    let safe =
      prepare_parts-safe top b (put_part own parts.1) (put_part-fresh own parts.1 kids g) in
    ground (arith, mounted-safe top b ready safe)

-- When load_modules gets through, everything that it mounts or makes is in the worker directory, or
-- over a path of the real file system that exists and is no link, and it sets attributes only in
-- the worker directory or on a module's file: for all modules, provided that in the tree of their files, with Magisk's own in
-- it, none of these took the place of a whiteout.
pub load_modules-safe :
    (s : Setup) (top : Reals) (modules : List Module)
    → is_fresh (injected s modules) ≡ true
    → safe_calls top (load_modules s top modules) ≡ true
unfolding load_modules
load_modules-safe s top modules f =
    mount_system-safe top s.bins (replace_of (load_files modules (dir false no_children)))
      (injected s modules) f
