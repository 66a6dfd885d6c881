-- ===== src/Deny/Removal/Stale.antt =====
-- `rm_list` of native/src/core/deny/utils.cpp for a package that is no longer installed.
use kitsune_ufork.Common.{ℕ, true, Option, none, some, [], ◌≡◌, refl, arith, Text, str_eql_refl}
use kitsune_ufork.OrderedMap.{Set, text_key, int_key, find, erase, member, is_some}
use kitsune_ufork.OrderedMap.Laws.{find-erase}
use kitsune_ufork.Deny.State.{World, Deny, pkgs_of}
use kitsune_ufork.Deny.Table.{installed_app_id}
use kitsune_ufork.Deny.Edit.{erase_pkg, remove_entry, rm_list, erase_found, exec_sql}
use kitsune_ufork.Deny.Invariant.{IsConsistent}
use kitsune_ufork.Deny.Removal.{ensure_data-loaded, update_pkg_uid-gone}

remove_entry-whole :
    (w : World) (pkg : Text) (d : Deny)
    → is_some (find pkg d.pkg_to_procs) ≡ true
    → remove_entry w pkg [] d ≡ (erase_pkg w pkg d, true)
unfolding remove_entry
remove_entry-whole w pkg d found = go (find pkg d.pkg_to_procs) found
  where
    go :
        (o : Option (Set Text))
        → is_some o ≡ true
        → erase_found w pkg [] o d ≡ (erase_pkg w pkg d, true)
    go none e = cc
    go (some s) e = refl

erase_pkg-gone :
    (w : World) (pkg : Text) (d : Deny)
    → installed_app_id w pkg ≡ none
    → erase_pkg w pkg d ≡ record d { pkg_to_procs = erase pkg d.pkg_to_procs }
unfolding erase_pkg
erase_pkg-gone w pkg d gone = rw (update_pkg_uid-gone w pkg true d gone)

-- On maps that fit: a listed package whose directory is gone leaves the list, stays in the second map,
-- and the maps no longer fit: the entry views a key that was freed.
pub rm_list_stale :
    (w : World) (pkg : Text) (app_id : ℕ) (d : Deny)
    → IsConsistent d
    → d.loaded ≡ true
    → installed_app_id w pkg ≡ none
    → member pkg (pkgs_of app_id d) ≡ true
    → is_some (find pkg d.pkg_to_procs) ≡ true
    → (find pkg (rm_list w pkg [] d).0.pkg_to_procs ≡ none)
      × (member pkg (pkgs_of app_id (rm_list w pkg [] d).0) ≡ true)
      × (¬ IsConsistent (rm_list w pkg [] d).0)
unfolding rm_list exec_sql
rm_list_stale w pkg app_id d fit up gone m found =
    let left : find pkg (erase pkg d.pkg_to_procs) ≡ none =
      ground (arith, find-erase pkg pkg d.pkg_to_procs, str_eql_refl pkg) in
    rw (ensure_data-loaded w d up, remove_entry-whole w pkg d found, erase_pkg-gone w pkg d gone)
      (left, m, λ c. ground (arith, c.listed app_id pkg m, left))
