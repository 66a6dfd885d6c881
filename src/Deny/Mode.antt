-- ===== src/Deny/Mode.antt =====
-- Which calls of native/src/core/deny/utils.cpp and cli.cpp change the mode: whether the list is
-- enforced, and whether it is the SuList.
pub mod Edits
pub mod Switches
use kitsune_ufork.Common.{
  ℕ, Bool, true, false, Option, none, some, List, [], ◌∷◌, ◌≡◌, ◌≢◌, ◌↔◌, refl, arith, Text,
  str_eql, str_starts, codes, if◌then◌else◌,
}
use kitsune_ufork.OrderedMap.{Set, text_key, int_key, find, erase, is_some}
use kitsune_ufork.Deny.State.{World, Deny, procs_of}
use kitsune_ufork.Deny.Procs.{kill_process, proc_name_match, proc_context_match}
use kitsune_ufork.Deny.Validate.{isolated_magic}
use kitsune_ufork.Deny.Table.{
  put_proc, kill_matching, add_hide_set, scan_entry, scan_user, scan_data_dir, scan_entries,
  scan_users, rescan_apps, drop_pkg, drop_pkg_from, set_pkg_uid, update_pkg_uid, installed_app_id,
  clear_data, add_rows, load_data, ensure_data,
}
use kitsune_ufork.Deny.Invariant.{kill_matching-SameButEffects, kill_process-SameButEffects}

-- Both switches stand as before.
abbrev pub SameMode : Deny → Deny → Type 0
SameMode d d' = (d'.enforced ≡ d.enforced) × (d'.sulist ≡ d.sulist)

-- And the maps are there as before.
abbrev pub Kept : Deny → Deny → Type 0
Kept d d' = (d'.enforced ≡ d.enforced) × (d'.sulist ≡ d.sulist) × (d'.loaded ≡ d.loaded)

add_hide_set-Kept : (w : World) (pkg proc : Text) (d : Deny) → Kept d (add_hide_set w pkg proc d).0
unfolding add_hide_set
add_hide_set-Kept w pkg proc d =
    ground (arith, kill_matching-SameButEffects w pkg proc (put_proc pkg proc d))

scan_entries-Kept :
    (w : World) (user : Text) (entries : List Text) (d : Deny)
    → Kept d (scan_entries w user entries d)
unfolding scan_entries
scan_entries-Kept w user [] d = (refl, refl, refl)
scan_entries-Kept w user (e ∷ es) d =
    ground
      (arith, one (w.stat user e), scan_entries-Kept w user es (scan_entry (w.stat user e) e d))
  where
    one : (o : Option ℕ) → Kept d (scan_entry o e d)
    one none = (refl, refl, refl)
    one (some uid) = ground arith

scan_users-Kept : (w : World) (users : List Text) (d : Deny) → Kept d (scan_users w users d)
unfolding scan_users
scan_users-Kept w [] d = (refl, refl, refl)
scan_users-Kept w (u ∷ us) d =
    ground (arith, one (w.packages u), scan_users-Kept w us (scan_user w u (w.packages u) d))
  where
    one : (o : Option (List Text)) → Kept d (scan_user w u o d)
    one none = (refl, refl, refl)
    one (some es) = scan_entries-Kept w u es d

scan_data_dir-Kept : (w : World) (o : Option (List Text)) (d : Deny) → Kept d (scan_data_dir w o d)
scan_data_dir-Kept w none d = (refl, refl, refl)
scan_data_dir-Kept w (some us) d = scan_users-Kept w us d

pub rescan_apps-Kept : (w : World) (d : Deny) → Kept d (rescan_apps w d)
unfolding rescan_apps
rescan_apps-Kept w d =
    let d' = if d.sulist then (add_hide_set w w.manager_pkg w.manager_pkg d).0 else d in
    ground (
      arith,
      add_hide_set-Kept w w.manager_pkg w.manager_pkg d,
      scan_data_dir-Kept w w.users (record d' { app_id_to_pkgs = [] }),
    )

pub add_hide_set-SameMode :
    (w : World) (pkg proc : Text) (d : Deny) → SameMode d (add_hide_set w pkg proc d).0
add_hide_set-SameMode w pkg proc d = let k = add_hide_set-Kept w pkg proc d in (k.0, k.1)

pub rescan_apps-SameMode : (w : World) (d : Deny) → SameMode d (rescan_apps w d)
rescan_apps-SameMode w d = let k = rescan_apps-Kept w d in (k.0, k.1)

add_rows-SameMode :
    (w : World) (rows : List (Text × Text)) (d : Deny) → SameMode d (add_rows w rows d)
unfolding add_rows
add_rows-SameMode w [] d = (refl, refl)
add_rows-SameMode w ((pkg, proc) ∷ rows) d = ground (
  arith,
  add_hide_set-SameMode w pkg proc d,
  add_rows-SameMode w rows (add_hide_set w pkg proc d).0,
)

pub ensure_data-SameMode : (w : World) (d : Deny) → SameMode d (ensure_data w d).0
unfolding ensure_data load_data
ensure_data-SameMode w d =
    let fresh = record d { loaded = true; pkg_to_procs = []; app_id_to_pkgs = [] } in
    let filled = add_rows w (w.rows d.table) fresh in
    ground (arith, add_rows-SameMode w (w.rows d.table) fresh, rescan_apps-SameMode w filled)

pub update_pkg_uid-SameMode :
    (w : World) (pkg : Text) (remove : Bool) (d : Deny) → SameMode d (update_pkg_uid w pkg remove d)
unfolding update_pkg_uid
update_pkg_uid-SameMode w pkg remove d = go remove (installed_app_id w pkg)
  where
    left : (i : ℕ) (s : Set Text) → SameMode d (drop_pkg_from i pkg s d)
    left i [] = (refl, refl)
    left i (p ∷ ps) = (refl, refl)

    drop : (i : ℕ) (o : Option (Set Text)) → SameMode d (drop_pkg i pkg o d)
    drop i none = (refl, refl)
    drop i (some s) = left i (erase pkg s)

    go : (b : Bool) (o : Option ℕ) → SameMode d (set_pkg_uid pkg b o d)
    go b none = (refl, refl)
    go false (some i) = (refl, refl)
    go true (some i) = drop i (find i d.app_id_to_pkgs)
