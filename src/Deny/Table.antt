-- ===== src/Deny/Table.antt =====
-- The two maps and how they are filled: `add_hide_set`, `rescan_apps`, `update_pkg_uid`,
-- `clear_data` and `ensure_data` of native/src/core/deny/utils.cpp.
use kitsune_ufork.Common.{
  ℕ, Bool, true, false, Option, none, some, List, [], ◌∷◌, Text, str_eql, str_starts, if◌then◌else◌,
}
use kitsune_ufork.OrderedMap.{text_key, int_key, Set, find, put, erase, member, insert, is_some}
use kitsune_ufork.Deny.Validate.{isolated_magic}
use kitsune_ufork.Deny.State.{World, Deny, to_app_id, procs_of, pkgs_of}
use kitsune_ufork.Deny.Procs.{kill_process, proc_name_match, hide_all}

abbrev pub put_proc : Text → Text → Deny → Deny
put_proc pkg proc d = record d {
  pkg_to_procs = put pkg (insert proc (procs_of pkg d)) d.pkg_to_procs;
}

-- What follows the insertion, while the list is enforced.
unfoldable pub kill_matching : World → Text → Text → Deny → Deny
kill_matching w pkg proc d =
    let hidden = hide_all w d in
    if str_eql pkg isolated_magic
    then kill_process w (proc_name_match str_starts) proc true hidden
    else kill_process w (proc_name_match str_eql) proc false hidden

-- `pkg_to_procs[pkg]` makes an empty set for a new package, and `emplace` fills it.
unfoldable pub add_hide_set : World → Text → Text → Deny → Deny × Bool
add_hide_set w pkg proc d =
    let added = put_proc pkg proc d in
    if member proc (procs_of pkg d)
    then (d, false)
    else if d.enforced
    then (kill_matching w pkg proc added, true)
    else (added, true)

abbrev pub put_pkg : ℕ → Text → Deny → Deny
put_pkg app_id pkg d = record d {
  app_id_to_pkgs = put app_id (insert pkg (pkgs_of app_id d)) d.app_id_to_pkgs;
}

-- One entry of a user's directory.
abbrev pub scan_entry : Option ℕ → Text → Deny → Deny
scan_entry none entry d = d
scan_entry (some uid) entry d =
    if is_some (find entry d.pkg_to_procs) then put_pkg (to_app_id uid) entry d else d

unfoldable pub scan_entries : World → Text → List Text → Deny → Deny
scan_entries w user [] d = d
scan_entries w user (entry ∷ rest) d =
    scan_entries w user rest (scan_entry (w.stat user entry) entry d)

abbrev pub scan_user : World → Text → Option (List Text) → Deny → Deny
scan_user w user none d = d
scan_user w user (some entries) d = scan_entries w user entries d

unfoldable pub scan_users : World → List Text → Deny → Deny
scan_users w [] d = d
scan_users w (user ∷ rest) d = scan_users w rest (scan_user w user (w.packages user) d)

abbrev pub scan_data_dir : World → Option (List Text) → Deny → Deny
scan_data_dir w none d = d
scan_data_dir w (some users) d = scan_users w users d

unfoldable pub rescan_apps : World → Deny → Deny
rescan_apps w d =
    let d' = if d.sulist then (add_hide_set w w.manager_pkg w.manager_pkg d).0 else d in
    scan_data_dir w w.users (record d' { app_id_to_pkgs = [] })

-- The app ID of a package: the first user for which its directory is there.
unfoldable pub first_app_id : World → Text → List Text → Option ℕ
unfolding to_app_id
first_app_id w pkg [] = none
first_app_id w pkg (user ∷ rest) = elim (w.stat user pkg) [
  | none ↦ first_app_id w pkg rest
  | some uid ↦ some (to_app_id uid)
]

abbrev pub installed_app_id : World → Text → Option ℕ
installed_app_id w pkg = elim w.users [ none ↦ none | some users ↦ first_app_id w pkg users ]

-- `erase(pkg)` from the set of an app ID, which goes when it is empty.
abbrev pub drop_pkg_from : ℕ → Text → Set Text → Deny → Deny
drop_pkg_from app_id pkg [] d = record d { app_id_to_pkgs = erase app_id d.app_id_to_pkgs }
drop_pkg_from app_id pkg (p ∷ ps) d = record d {
  app_id_to_pkgs = put app_id (p ∷ ps) d.app_id_to_pkgs;
}

abbrev pub drop_pkg : ℕ → Text → Option (Set Text) → Deny → Deny
drop_pkg app_id pkg none d = d
drop_pkg app_id pkg (some pkgs) d = drop_pkg_from app_id pkg (erase pkg pkgs) d

abbrev pub set_pkg_uid : Text → Bool → Option ℕ → Deny → Deny
set_pkg_uid pkg remove none d = d
set_pkg_uid pkg true (some app_id) d = drop_pkg app_id pkg (find app_id d.app_id_to_pkgs) d
set_pkg_uid pkg false (some app_id) d = put_pkg app_id pkg d

unfoldable pub update_pkg_uid : World → Text → Bool → Deny → Deny
update_pkg_uid w pkg remove d = set_pkg_uid pkg remove (installed_app_id w pkg) d

unfoldable pub clear_data : Deny → Deny
clear_data d = record d { loaded = false; pkg_to_procs = []; app_id_to_pkgs = [] }

-- The rows that the SELECT delivers.
unfoldable pub add_rows : World → List (Text × Text) → Deny → Deny
add_rows w [] d = d
add_rows w ((pkg, proc) ∷ rows) d = add_rows w rows (add_hide_set w pkg proc d).0

unfoldable pub load_data : World → Deny → Deny × Bool
unfolding clear_data
load_data w d =
    let fresh = record d { loaded = true; pkg_to_procs = []; app_id_to_pkgs = [] } in
    let filled = add_rows w (w.rows d.table) fresh in
    if w.rows_ok d.table then (rescan_apps w filled, true) else (clear_data filled, false)

unfoldable pub ensure_data : World → Deny → Deny × Bool
ensure_data w d = if d.loaded then (d, true) else load_data w d
