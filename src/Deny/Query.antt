-- ===== src/Deny/Query.antt =====
-- `is_deny_target` and `is_uid_on_list` of native/src/core/deny/utils.cpp. `none` is undefined
-- behaviour: a map that is not there is read, or the iterator end().
use kitsune_ufork.Common.{
  ℕ, ◌%◌, Bool, true, false, ◌&&◌, ◌||◌, Option, none, some, [], ◌∷◌, Text, str_eql, str_starts,
  leb, ltb, ◌==◌, length, any, if◌then◌else◌,
}
use kitsune_ufork.OrderedMap.{text_key, int_key, Set, Map, find, member}
use kitsune_ufork.Deny.Validate.{isolated_magic}
use kitsune_ufork.Deny.State.{World, Deny, to_app_id, procs_of}
use kitsune_ufork.Deny.Table.{rescan_apps, ensure_data}

-- The kernel may have cut a long name: it then matches by its beginning.
abbrev pub cut_match : ℕ → Text → Text → Bool
cut_match max_len process s =
    ltb max_len (length s) && ltb max_len (length process) && str_starts s process

-- An isolated process matches an entry that it begins with.
unfoldable pub isolated_match : ℕ → Text → Set Text → Bool
isolated_match max_len process procs =
    any (λ e. cut_match max_len process e.0 || str_starts process e.0) procs

-- Whether the set holds the process, or is not empty.
abbrev pub holds : Option (Set Text) → (Set Text → Bool) → Option Bool
holds none test = none
holds (some procs) test = some (test procs)

-- pkg_to_procs.find(pkg)->second is tested for each package, up to the first that passes.
unfoldable pub any_pkg : (Set Text → Bool) → Map Text (Set Text) → Set Text → Option Bool
any_pkg test m [] = some false
any_pkg test m ((pkg, u) ∷ pkgs) =
    let rest = any_pkg test m pkgs in
    elim (holds (find pkg m) test) [ none ↦ none | some found ↦ if found then some true else rest ]

abbrev pub or_names : Option Bool → Bool → Option Bool
or_names none names = none
or_names (some found) names = some (found || names)

abbrev pub app_match : ℕ → Text → Map Text (Set Text) → Option (Set Text) → Option Bool
app_match max_len process m none = some false
app_match max_len process m (some pkgs) =
    or_names (any_pkg (member process) m pkgs)
      (any (λ e. cut_match max_len process e.0 || str_eql e.0 process) pkgs)

abbrev pub same_app : Option ℕ → ℕ → Bool
same_app none app_id = false
same_app (some manager) app_id = app_id == manager

-- The answer, once the maps are up to date.
unfoldable pub query : World → ℕ → Text → ℕ → Deny → Option Bool
unfolding to_app_id isolated_match
query w uid process max_len d =
    let app_id = to_app_id uid in
    if same_app w.manager_app_id app_id
    then some d.sulist
    else if leb 90000 app_id
    then some (isolated_match max_len process (procs_of isolated_magic d))
    else app_match max_len process d.pkg_to_procs (find app_id d.app_id_to_pkgs)

-- test_and_set of skip_pkg_rescan
abbrev pub rescan_once : World → Deny → Deny
rescan_once w d =
    let scanned = rescan_apps w (record d { skip_rescan = true }) in
    if d.skip_rescan then d else scanned

abbrev pub query_loaded : World → ℕ → Text → ℕ → Deny × Bool → Deny × Option Bool
query_loaded w uid process max_len (d, false) = (d, some false)
query_loaded w uid process max_len (d, true) =
    let d' = rescan_once w d in (d', query w uid process max_len d')

unfoldable pub is_deny_target : World → ℕ → Text → ℕ → Deny → Deny × Option Bool
is_deny_target w uid process max_len d = query_loaded w uid process max_len (ensure_data w d)

abbrev pub not_empty : Set Text → Bool
not_empty [] = false
not_empty (e ∷ s) = true

abbrev pub uid_match : Map Text (Set Text) → Option (Set Text) → Option Bool
uid_match m none = some false
uid_match m (some pkgs) = any_pkg not_empty m pkgs

-- Unlike the others it does not load the maps first.
unfoldable pub is_uid_on_list : ℕ → Deny → Option Bool
is_uid_on_list uid d =
    if d.loaded then uid_match d.pkg_to_procs (find (uid % 100000) d.app_id_to_pkgs) else none

-- scan_deny_apps, which ptrace.cpp and daemon.cpp call: a rescan of maps that may not be there.
unfoldable pub scan_deny_apps : World → Deny → Option Deny
scan_deny_apps w d = if d.loaded then some (rescan_apps w d) else none
