-- ===== src/Deny/Editing.antt =====
-- What a client sees of `add_list` and `rm_list` of native/src/core/deny/utils.cpp, one after the
-- other.
use kitsune_ufork.Common.{
  ℕ, Bool, true, false, ◌&&◌, Option, none, some, [], ◌∷◌, ◌≡◌, refl, sym, ◌∙◌, ap, arith, Text,
  take, if◌then◌else◌, str_eql, str_eql_iff, str_eql_refl, Bool-cases, inl, inr,
}
use kitsune_ufork.OrderedMap.{Set, text_key, int_key, find, erase, member, is_some}
use kitsune_ufork.OrderedMap.Laws.{find-put, find-erase}
use kitsune_ufork.Deny.Validate.{validate}
use kitsune_ufork.Deny.State.{World, Deny}
use kitsune_ufork.Deny.Table.{
  update_pkg_uid, set_pkg_uid, drop_pkg, drop_pkg_from, installed_app_id,
}
use kitsune_ufork.Deny.Edit.{
  sql_buffer, Response, ok, error, item_exist, item_not_exist, erase_pkg, keep_procs, erase_found,
  remove_entry, rm_sql, exec_sql, persist_rm, rm_list, add_list, proc_or_pkg,
}
use kitsune_ufork.Deny.Removal.{pkg_to_procs-update_pkg_uid, ensure_data-loaded}
use kitsune_ufork.Deny.Adding.{is_listed, add_reply, add_list_lem}

drop_pkg_from-keeps :
    (i : ℕ) (pkg : Text) (s : Set Text) (d : Deny)
    → let d' = drop_pkg_from i pkg s d in (d'.table ≡ d.table) × (d'.loaded ≡ d.loaded)
drop_pkg_from-keeps i pkg [] d = (refl, refl)
drop_pkg_from-keeps i pkg (p ∷ ps) d = (refl, refl)

set_pkg_uid-true-keeps :
    (pkg : Text) (o : Option ℕ) (d : Deny)
    → let d' = set_pkg_uid pkg true o d in (d'.table ≡ d.table) × (d'.loaded ≡ d.loaded)
set_pkg_uid-true-keeps pkg none d = (refl, refl)
set_pkg_uid-true-keeps pkg (some i) d = drop (find i d.app_id_to_pkgs)
  where
    drop :
        (o : Option (Set Text))
        → ((drop_pkg i pkg o d).table ≡ d.table) × ((drop_pkg i pkg o d).loaded ≡ d.loaded)
    drop none = (refl, refl)
    drop (some s) = drop_pkg_from-keeps i pkg (erase pkg s) d

erase_pkg_lem :
    (w : World) (pkg : Text) (d : Deny)
    → let d' = erase_pkg w pkg d in
      (d'.pkg_to_procs ≡ erase pkg d.pkg_to_procs) × (d'.table ≡ d.table) × (d'.loaded ≡ d.loaded)
unfolding erase_pkg update_pkg_uid
erase_pkg_lem w pkg d =
    let (t, l) = set_pkg_uid-true-keeps pkg (installed_app_id w pkg) d in
    (ap (erase pkg) (unfold update_pkg_uid in pkg_to_procs-update_pkg_uid w pkg d), t, l)

-- Does the name `proc` of a removal, empty for a whole package, cover `s`?
abbrev pub covers : Text → Text → Bool
covers [] s = true
covers (c ∷ proc) s = str_eql (c ∷ proc) s

-- Is there something to remove?
abbrev pub has_target : Text → Text → Deny → Bool
has_target pkg [] d = is_some (find pkg d.pkg_to_procs)
has_target pkg (c ∷ proc) d = is_listed pkg (c ∷ proc) d

-- What an edit keeps, and what it takes off the list.
abbrev Removes : Text → Text → Deny → Deny → Type 0
Removes pkg proc d d' =
    ((q s : Text)
      → is_listed q s d' ≡ (if str_eql pkg q && covers proc s then false else is_listed q s d))
    × (d'.table ≡ d.table)
    × (d'.loaded ≡ d.loaded)

member-nil : (s : Text) → member s [] ≡ false
unfolding find
member-nil s = refl

keep_procs-Removes :
    (w : World) (pkg : Text) (c : ℕ) (proc : Text) (set rest : Set Text) (d : Deny)
    → find pkg d.pkg_to_procs ≡ some set
    → erase (c ∷ proc) set ≡ rest
    → Removes pkg (c ∷ proc) d (keep_procs w pkg rest d)
keep_procs-Removes w pkg c proc set [] d e r =
    let (m, t, l) = erase_pkg_lem w pkg d in
    (
      λ q s. ground (
        arith,
        m,
        find-erase pkg q d.pkg_to_procs,
        str_eql_iff pkg q,
        find-erase (c ∷ proc) s set,
        member-nil s,
      ),
      t,
      l,
    )
keep_procs-Removes w pkg c proc set (p ∷ ps) d e r = (
  λ q s. ground (
    arith,
    find-put pkg q (p ∷ ps) d.pkg_to_procs,
    str_eql_iff pkg q,
    find-erase (c ∷ proc) s set,
  ),
  refl,
  refl,
)

erase_found-Removes :
    (w : World) (pkg proc : Text) (o : Option (Set Text)) (d : Deny)
    → find pkg d.pkg_to_procs ≡ o
    → (Removes pkg proc d (erase_found w pkg proc o d).0)
      × ((erase_found w pkg proc o d).1 ≡ has_target pkg proc d)
erase_found-Removes w pkg [] none d e =
    ((λ q s. ground (arith, str_eql_iff pkg q, member-nil s), refl, refl), ground arith)
erase_found-Removes w pkg (c ∷ proc) none d e = (
  (λ q s. ground (arith, str_eql_iff pkg q, str_eql_iff (c ∷ proc) s, member-nil s), refl, refl),
  ground (arith, member-nil (c ∷ proc)),
)
erase_found-Removes w pkg [] (some set) d e =
    let (m, t, l) = erase_pkg_lem w pkg d in
    ((λ q s. ground (arith, m, find-erase pkg q d.pkg_to_procs, member-nil s), t, l), ground arith)
erase_found-Removes w pkg (c ∷ proc) (some set) d e = elim (Bool-cases (member (c ∷ proc) set)) [
  | inl hit ↦
      rw hit (keep_procs-Removes w pkg c proc set (erase (c ∷ proc) set) d e refl, ground arith)
  | inr miss ↦ rw miss (
    (λ q s. ground (arith, str_eql_iff pkg q, str_eql_iff (c ∷ proc) s), refl, refl),
    ground arith,
  )
]

-- The reply of `rm_list`, on every branch.
unfoldable pub rm_reply : World → Text → Text → Deny → Response
rm_reply w pkg proc d =
    if has_target pkg proc d
    then if w.exec_ok (take sql_buffer (rm_sql d.table pkg proc)) then ok else error
    else item_not_exist

-- On maps that are there `rm_list` takes exactly the named process, or every process of the
-- package if none is named, off the list, says so if there was nothing to take, and otherwise
-- reports whether the database took the change.
pub rm_list_lem :
    (w : World) (pkg proc : Text) (d : Deny)
    → d.loaded ≡ true
    → let r = rm_list w pkg proc d in
      (r.1 ≡ rm_reply w pkg proc d)
      × (r.0.loaded ≡ true)
      × ((q s : Text)
          → is_listed q s r.0 ≡ (if str_eql pkg q && covers proc s then false else is_listed q s d))
unfolding rm_list rm_reply exec_sql remove_entry
rm_list_lem w pkg proc d up =
    let ((gone, t, l), hit) = erase_found-Removes w pkg proc (find pkg d.pkg_to_procs) d refl in
    let run : rm_list w pkg proc d ≡ persist_rm w pkg proc (remove_entry w pkg proc d) =
      rw (ensure_data-loaded w d up) in
    (
      ground (arith, run, t, l, hit),
      ground (arith, run, t, l, hit, up),
      λ q s. ground (arith, run, t, l, hit, gone q s),
    )

validate-nil : (proc : Text) → validate [] proc ≡ false
unfolding validate
validate-nil proc = refl

covers-named :
    (w : World) (pkg proc s : Text) (d : Deny)
    → validate pkg (proc_or_pkg pkg proc) ≡ true
    → covers (proc_or_pkg pkg proc) s ≡ str_eql (proc_or_pkg pkg proc) s
covers-named w [] [] s d v = ground (arith, validate-nil [], v)
covers-named w (c ∷ pkg) [] s d v = refl
covers-named w pkg (c ∷ proc) s d v = refl

add_reply-ok :
    (w : World) (pkg proc : Text) (d : Deny)
    → add_reply w pkg proc d ≡ ok
    → (validate pkg proc ≡ true) × (is_listed pkg proc d ≡ false)
unfolding add_reply
add_reply-ok w pkg proc d h = ground arith

add_reply-error :
    (w : World) (pkg proc : Text) (d : Deny)
    → add_reply w pkg proc d ≡ error
    → validate pkg proc ≡ true
unfolding add_reply
add_reply-error w pkg proc d h = ground arith

-- On maps that are there, when `add_list` has answered OK, `rm_list` of the same entry leaves every
-- entry, this one and all others, as it was before the two.
pub rm_list-add_list :
    (w v : World) (pkg proc q s : Text) (d : Deny)
    → d.loaded ≡ true
    → (add_list w pkg proc d).1 ≡ ok
    → is_listed q s (rm_list v pkg (proc_or_pkg pkg proc) (add_list w pkg proc d).0).0
      ≡ is_listed q s d
rm_list-add_list w v pkg proc q s d up done =
    let p = proc_or_pkg pkg proc in
    let (reply, up', listed) = add_list_lem w pkg proc d up in
    let (_, _, left) = rm_list_lem v pkg p (add_list w pkg proc d).0 up' in
    let (valid, absent) = add_reply-ok w pkg p d (sym reply ∙ done) in
    ground (
      arith,
      left q s,
      listed q s,
      covers-named w pkg proc s d valid,
      str_eql_iff pkg q,
      str_eql_iff p s,
    )

-- On maps that are there, an `add_list` that answered ERROR has listed the entry all the same: the
-- next attempt is told that it exists, so that the database does not get it.
pub add_list_lost :
    (w v : World) (pkg proc : Text) (d : Deny)
    → d.loaded ≡ true
    → (add_list w pkg proc d).1 ≡ error
    → (add_list v pkg proc (add_list w pkg proc d).0).1 ≡ item_exist
unfolding add_reply
add_list_lost w v pkg proc d up failed =
    let p = proc_or_pkg pkg proc in
    let (reply, up', listed) = add_list_lem w pkg proc d up in
    let (again, _, _) = add_list_lem v pkg proc (add_list w pkg proc d).0 up' in
    let valid = add_reply-error w pkg p d (sym reply ∙ failed) in
    ground (arith, again, valid, listed pkg p, str_eql_refl pkg, str_eql_refl p)
