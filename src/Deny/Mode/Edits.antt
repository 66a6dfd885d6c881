-- ===== src/Deny/Mode/Edits.antt =====
-- The edits of the list, in native/src/core/deny/utils.cpp, leave the mode alone.
use kitsune_ufork.Common.{
  take, Bool, true, false, Option, none, some, List, [], ◌∷◌, refl, arith, Text,
}
use kitsune_ufork.OrderedMap.{Set, text_key, int_key, find, erase}
use kitsune_ufork.Deny.State.{World, Deny, procs_of, emit, sql}
use kitsune_ufork.Deny.Validate.{isolated_magic}
use kitsune_ufork.Deny.Table.{add_hide_set, ensure_data}
use kitsune_ufork.Deny.Edit.{
  delete_pkg_sql, delete_proc_sql, sql_buffer, exec_sql, add_list, add_valid, proc_or_pkg,
  persist_add, rm_list, rm_loaded, persist_rm, erase_pkg, erase_found, keep_procs, remove_entry,
}
use kitsune_ufork.Deny.Listing.{
  erase_if_found, rm_pkgs, put_or_erase, rm_isolated, rm_isolated_found, prune, list_loaded,
  ls_list, pkgs_to_rm, isolated_procs_to_rm,
}
use kitsune_ufork.Deny.Mode.{
  SameMode, add_hide_set-SameMode, ensure_data-SameMode, update_pkg_uid-SameMode,
}

persist_add-SameMode :
    (w : World) (pkg proc : Text) (d : Deny) → SameMode d (persist_add w pkg proc d).0
unfolding persist_add
persist_add-SameMode w pkg proc d = ground (arith, update_pkg_uid-SameMode w pkg false d)

add_valid-SameMode :
    (w : World) (pkg proc : Text) (r : Deny × Bool) → SameMode r.0 (add_valid w pkg proc r).0
add_valid-SameMode w pkg proc (d, false) = (refl, refl)
add_valid-SameMode w pkg proc (d, true) = ground (
  arith,
  add_hide_set-SameMode w pkg proc d,
  persist_add-SameMode w pkg proc (add_hide_set w pkg proc d).0,
)

pub add_list-SameMode :
    (w : World) (pkg proc : Text) (d : Deny) → SameMode d (add_list w pkg proc d).0
unfolding add_list
add_list-SameMode w pkg proc d = ground (
  arith,
  ensure_data-SameMode w d,
  add_valid-SameMode w pkg (proc_or_pkg pkg proc) (ensure_data w d),
)

erase_pkg-SameMode : (w : World) (pkg : Text) (d : Deny) → SameMode d (erase_pkg w pkg d)
unfolding erase_pkg
erase_pkg-SameMode w pkg d = ground (arith, update_pkg_uid-SameMode w pkg true d)

keep_procs-SameMode :
    (w : World) (pkg : Text) (s : Set Text) (d : Deny) → SameMode d (keep_procs w pkg s d)
keep_procs-SameMode w pkg [] d = erase_pkg-SameMode w pkg d
keep_procs-SameMode w pkg (p ∷ ps) d = (refl, refl)

erase_found-SameMode :
    (w : World) (pkg proc : Text) (o : Option (Set Text)) (d : Deny)
    → SameMode d (erase_found w pkg proc o d).0
erase_found-SameMode w pkg proc none d = (refl, refl)
erase_found-SameMode w pkg [] (some s) d = erase_pkg-SameMode w pkg d
erase_found-SameMode w pkg (c ∷ proc) (some s) d =
    ground (arith, keep_procs-SameMode w pkg (erase (c ∷ proc) s) d)

persist_rm-SameMode :
    (w : World) (pkg proc : Text) (r : Deny × Bool) → SameMode r.0 (persist_rm w pkg proc r).0
unfolding exec_sql
persist_rm-SameMode w pkg proc (d, false) = (refl, refl)
persist_rm-SameMode w pkg proc (d, true) = (refl, refl)

rm_loaded-SameMode :
    (w : World) (pkg proc : Text) (r : Deny × Bool) → SameMode r.0 (rm_loaded w pkg proc r).0
unfolding remove_entry
rm_loaded-SameMode w pkg proc (d, false) = (refl, refl)
rm_loaded-SameMode w pkg proc (d, true) = ground (
  arith,
  erase_found-SameMode w pkg proc (find pkg d.pkg_to_procs) d,
  persist_rm-SameMode w pkg proc (remove_entry w pkg proc d),
)

pub rm_list-SameMode :
    (w : World) (pkg proc : Text) (d : Deny) → SameMode d (rm_list w pkg proc d).0
unfolding rm_list
rm_list-SameMode w pkg proc d =
    ground (arith, ensure_data-SameMode w d, rm_loaded-SameMode w pkg proc (ensure_data w d))

erase_if_found-SameMode :
    (w : World) (pkg : Text) (o : Option (Set Text)) (d : Deny)
    → SameMode d (erase_if_found w pkg o d)
erase_if_found-SameMode w pkg none d = (refl, refl)
erase_if_found-SameMode w pkg (some s) d = erase_pkg-SameMode w pkg d

rm_pkgs-SameMode : (w : World) (pkgs : List Text) (d : Deny) → SameMode d (rm_pkgs w pkgs d)
unfolding rm_pkgs
rm_pkgs-SameMode w [] d = (refl, refl)
rm_pkgs-SameMode w (pkg ∷ pkgs) d =
    let d' = erase_if_found w pkg (find pkg d.pkg_to_procs) d in
    ground (
      arith,
      erase_if_found-SameMode w pkg (find pkg d.pkg_to_procs) d,
      rm_pkgs-SameMode w pkgs (emit (sql (take sql_buffer (delete_pkg_sql d'.table pkg))) d'),
    )

put_or_erase-SameMode : (pkg : Text) (s : Set Text) (d : Deny) → SameMode d (put_or_erase pkg s d)
put_or_erase-SameMode pkg [] d = (refl, refl)
put_or_erase-SameMode pkg (p ∷ ps) d = (refl, refl)

rm_isolated-SameMode : (procs : List Text) (d : Deny) → SameMode d (rm_isolated procs d)
unfolding rm_isolated
rm_isolated-SameMode [] d = (refl, refl)
rm_isolated-SameMode (proc ∷ procs) d =
    let d' = put_or_erase isolated_magic (erase proc (procs_of isolated_magic d)) d in
    ground (
      arith,
      put_or_erase-SameMode isolated_magic (erase proc (procs_of isolated_magic d)) d,
      rm_isolated-SameMode procs
          (emit (sql (take sql_buffer (delete_proc_sql d'.table isolated_magic proc))) d'),
    )

rm_isolated_found-SameMode :
    (o : Option (Set Text)) (procs : List Text) (d : Deny)
    → SameMode d (rm_isolated_found o procs d)
rm_isolated_found-SameMode none procs d = (refl, refl)
rm_isolated_found-SameMode (some s) procs d = rm_isolated-SameMode procs d

prune-SameMode : (w : World) (d : Deny) → SameMode d (prune w d)
unfolding prune
prune-SameMode w d =
    let d' = rm_pkgs w (pkgs_to_rm w d.pkg_to_procs) d in
    ground (
      arith,
      rm_pkgs-SameMode w (pkgs_to_rm w d.pkg_to_procs) d,
      rm_isolated_found-SameMode (find isolated_magic d'.pkg_to_procs) (isolated_procs_to_rm d) d',
    )

list_loaded-SameMode : (w : World) (r : Deny × Bool) → SameMode r.0 (list_loaded w r).0
list_loaded-SameMode w (d, false) = (refl, refl)
list_loaded-SameMode w (d, true) = prune-SameMode w d

pub ls_list-SameMode : (w : World) (d : Deny) → SameMode d (ls_list w d).0
unfolding ls_list
ls_list-SameMode w d =
    ground (arith, ensure_data-SameMode w d, list_loaded-SameMode w (ensure_data w d))
