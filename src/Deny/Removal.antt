-- ===== src/Deny/Removal.antt =====
-- Taking names off the list: when the maps of native/src/core/deny/utils.cpp still fit, and when
-- a package that is gone stays behind.
pub mod Stale
use kitsune_ufork.Common.{
  ℕ, Bool, true, false, ◌&&◌, Option, none, some, [], ◌∷◌, ◌≡◌, refl, arith, Text, inl, inr,
  if◌then◌else◌, str_eql, str_eql_iff, str_eql_refl, Option-cases, ◌==◌,
}
use kitsune_ufork.OrderedMap.{Set, text_key, int_key, find, erase, member, is_some}
use kitsune_ufork.OrderedMap.Laws.{find-put, find-erase}
use kitsune_ufork.Deny.State.{World, Deny, pkgs_of}
use kitsune_ufork.Deny.Table.{
  update_pkg_uid, drop_pkg, drop_pkg_from, installed_app_id, ensure_data,
}
use kitsune_ufork.Deny.Edit.{
  erase_pkg, remove_entry, rm_list, erase_found, keep_procs, persist_rm, rm_loaded, exec_sql,
}
use kitsune_ufork.Deny.Invariant.{IsConsistent, IsListed, ensure_data-IsConsistent}

-- The second map agrees with the file system: each of its packages is installed, under that app ID.
abbrev pub IsCurrent : World → Deny → Type 0
IsCurrent w d =
    (app_id : ℕ) (pkg : Text)
    → member pkg (pkgs_of app_id d) ≡ true
    → installed_app_id w pkg ≡ some app_id

drop_pkg_from-member :
    (app_id i : ℕ) (pkg q : Text) (s : Set Text) (d : Deny)
    → member q (pkgs_of i (drop_pkg_from app_id pkg s d))
      ≡ (if app_id == i then member q s else member q (pkgs_of i d))
unfolding find
drop_pkg_from-member app_id i pkg q [] d = ground (arith, find-erase app_id i d.app_id_to_pkgs)
drop_pkg_from-member app_id i pkg q (p ∷ ps) d =
    ground (arith, find-put app_id i (p ∷ ps) d.app_id_to_pkgs)

member-nil : (q : Text) → member q [] ≡ false
unfolding find
member-nil q = refl

-- `update_pkg_uid(pkg, true)` takes the package out of the set of one app ID only.
drop_pkg-member :
    (app_id i : ℕ) (pkg q : Text) (o : Option (Set Text)) (d : Deny)
    → find app_id d.app_id_to_pkgs ≡ o
    → member q (pkgs_of i (drop_pkg app_id pkg o d))
      ≡ (if app_id == i && str_eql pkg q then false else member q (pkgs_of i d))
drop_pkg-member app_id i pkg q none d e = ground (arith, member-nil q)
drop_pkg-member app_id i pkg q (some s) d e =
    ground (arith, drop_pkg_from-member app_id i pkg q (erase pkg s) d, find-erase pkg q s)

update_pkg_uid-member :
    (w : World) (pkg q : Text) (i app_id : ℕ) (d : Deny)
    → installed_app_id w pkg ≡ some app_id
    → member q (pkgs_of i (update_pkg_uid w pkg true d))
      ≡ (if app_id == i && str_eql pkg q then false else member q (pkgs_of i d))
unfolding update_pkg_uid
update_pkg_uid-member w pkg q i app_id d e =
    rw e (drop_pkg-member app_id i pkg q (find app_id d.app_id_to_pkgs) d refl)

pub pkg_to_procs-update_pkg_uid :
    (w : World) (pkg : Text) (d : Deny)
    → (update_pkg_uid w pkg true d).pkg_to_procs ≡ d.pkg_to_procs
unfolding update_pkg_uid
pkg_to_procs-update_pkg_uid w pkg d = elim (Option-cases (installed_app_id w pkg)) [
  | inl e ↦ rw e
  | inr (app_id, e) ↦ rw e (found (find app_id d.app_id_to_pkgs) app_id)
]
  where
    found :
        (o : Option (Set Text)) (app_id : ℕ)
        → (drop_pkg app_id pkg o d).pkg_to_procs ≡ d.pkg_to_procs
    found none app_id = refl
    found (some s) app_id = shape (erase pkg s)
      where
        shape : (r : Set Text) → (drop_pkg_from app_id pkg r d).pkg_to_procs ≡ d.pkg_to_procs
        shape [] = refl
        shape (p ∷ ps) = refl

-- A package with no directory leaves the second map as it was.
pub update_pkg_uid-gone :
    (w : World) (pkg : Text) (remove : Bool) (d : Deny)
    → installed_app_id w pkg ≡ none
    → update_pkg_uid w pkg remove d ≡ d
unfolding update_pkg_uid
update_pkg_uid-gone w pkg remove d e = rw e

erase_pkg-listed :
    (w : World) (pkg : Text) (d : Deny) (o : Option ℕ)
    → installed_app_id w pkg ≡ o
    → IsCurrent w d
    → IsConsistent d
    → IsListed (erase_pkg w pkg d).pkg_to_procs (erase_pkg w pkg d).app_id_to_pkgs
unfolding erase_pkg
erase_pkg-listed w pkg d none e cur c i q h = ground (
  arith,
  update_pkg_uid-gone w pkg true d e,
  find-erase pkg q d.pkg_to_procs,
  c.listed i q,
  cur i q,
  str_eql_iff pkg q,
)
erase_pkg-listed w pkg d (some app_id) e cur c i q h = ground (
  arith,
  update_pkg_uid-member w pkg q i app_id d e,
  pkg_to_procs-update_pkg_uid w pkg d,
  find-erase pkg q d.pkg_to_procs,
  c.listed i q,
  cur i q,
  str_eql_iff pkg q,
)

-- With maps that fit and agree with the file system, a whole package can go.
pub erase_pkg-IsConsistent :
    (w : World) (pkg : Text) (d : Deny)
    → IsCurrent w d
    → IsConsistent d
    → IsConsistent (erase_pkg w pkg d)
unfolding erase_pkg
erase_pkg-IsConsistent w pkg d cur c = record {
  listed = erase_pkg-listed w pkg d (installed_app_id w pkg) refl cur c;
  inhabited = λ q.
      ground (
        arith,
        pkg_to_procs-update_pkg_uid w pkg d,
        find-erase pkg q d.pkg_to_procs,
        c.inhabited q,
      );
}

keep_procs-IsConsistent :
    (w : World) (pkg : Text) (s : Set Text) (d : Deny)
    → IsCurrent w d
    → IsConsistent d
    → IsConsistent (keep_procs w pkg s d)
keep_procs-IsConsistent w pkg [] d cur c = erase_pkg-IsConsistent w pkg d cur c
keep_procs-IsConsistent w pkg (p ∷ ps) d cur c = record {
  listed = λ i q h. ground (arith, find-put pkg q (p ∷ ps) d.pkg_to_procs, c.listed i q);
  inhabited = λ q. ground (arith, find-put pkg q (p ∷ ps) d.pkg_to_procs, c.inhabited q);
}

erase_found-IsConsistent :
    (w : World) (pkg proc : Text) (o : Option (Set Text)) (d : Deny)
    → IsCurrent w d
    → IsConsistent d
    → IsConsistent (erase_found w pkg proc o d).0
erase_found-IsConsistent w pkg proc none d cur c = c
erase_found-IsConsistent w pkg [] (some s) d cur c = erase_pkg-IsConsistent w pkg d cur c
erase_found-IsConsistent w pkg (x ∷ proc) (some s) d cur c =
    ground (arith, c, keep_procs-IsConsistent w pkg (erase (x ∷ proc) s) d cur c)

persist_rm-IsConsistent :
    (w : World) (pkg proc : Text) (r : Deny × Bool)
    → IsConsistent r.0
    → IsConsistent (persist_rm w pkg proc r).0
unfolding exec_sql
persist_rm-IsConsistent w pkg proc (d, false) c = c
persist_rm-IsConsistent w pkg proc (d, true) c = record {
  listed = c.listed;
  inhabited = c.inhabited;
}

rm_loaded-IsConsistent :
    (w : World) (pkg proc : Text) (r : Deny × Bool)
    → IsCurrent w r.0
    → IsConsistent r.0
    → IsConsistent (rm_loaded w pkg proc r).0
unfolding remove_entry
rm_loaded-IsConsistent w pkg proc (d, false) cur c = c
rm_loaded-IsConsistent w pkg proc (d, true) cur c =
    persist_rm-IsConsistent w pkg proc (remove_entry w pkg proc d)
      (erase_found-IsConsistent w pkg proc (find pkg d.pkg_to_procs) d cur c)

-- Where the maps that `rm_list` works on agree with the file system, the maps that it leaves fit,
-- on every branch.
pub rm_list-IsConsistent :
    (w : World) (pkg proc : Text) (d : Deny)
    → IsCurrent w (ensure_data w d).0
    → IsConsistent d
    → IsConsistent (rm_list w pkg proc d).0
unfolding rm_list
rm_list-IsConsistent w pkg proc d cur c =
    rm_loaded-IsConsistent w pkg proc (ensure_data w d) cur (ensure_data-IsConsistent w d c)

pub ensure_data-loaded : (w : World) (d : Deny) → d.loaded ≡ true → ensure_data w d ≡ (d, true)
unfolding ensure_data
ensure_data-loaded w d up = ground arith

-- Erasing leaves the second map in agreement with the file system.
pub erase_pkg-IsCurrent :
    (w : World) (pkg : Text) (d : Deny) → IsCurrent w d → IsCurrent w (erase_pkg w pkg d)
unfolding erase_pkg
erase_pkg-IsCurrent w pkg d cur i q = go (installed_app_id w pkg) refl
  where
    go :
        (o : Option ℕ)
        → installed_app_id w pkg ≡ o
        → member q (pkgs_of i (update_pkg_uid w pkg true d)) ≡ true
        → installed_app_id w q ≡ some i
    go none e h = ground (arith, update_pkg_uid-gone w pkg true d e, cur i q)
    go (some a) e h = ground (arith, update_pkg_uid-member w pkg q i a d e, cur i q)
