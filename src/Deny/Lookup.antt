-- ===== src/Deny/Lookup.antt =====
-- The questions of native/src/core/deny/utils.cpp are defined on maps that fit.
use kitsune_ufork.Common.{
  ℕ, ◌%◌, Bool, true, false, Option, none, some, [], ◌∷◌, ◌≡◌, ◌≢◌, refl, arith, Text, str_eql_refl,
}
use kitsune_ufork.OrderedMap.{Map, Set, text_key, int_key, find, member, is_some}
use kitsune_ufork.Deny.State.{World, Deny, set_or_empty, to_app_id}
use kitsune_ufork.Deny.Table.{ensure_data, rescan_apps}
use kitsune_ufork.Deny.Query.{
  any_pkg, app_match, query, query_loaded, is_deny_target, rescan_once, uid_match, is_uid_on_list,
  not_empty, scan_deny_apps,
}
use kitsune_ufork.Deny.Invariant.{IsConsistent, ensure_data-IsConsistent, rescan_apps-IsConsistent}

member-head : (pkg : Text) (s : Set Text) → member pkg ((pkg, tt) ∷ s) ≡ true
unfolding find
member-head pkg s = ground (arith, str_eql_refl pkg)

member-tail : (q pkg : Text) (s : Set Text) → member q s ≡ true → member q ((pkg, tt) ∷ s) ≡ true
unfolding find
member-tail q pkg s h = ground arith

any_pkg-defined :
    (test : Set Text → Bool) (m : Map Text (Set Text)) (pkgs : Set Text)
    → ((pkg : Text) → member pkg pkgs ≡ true → is_some (find pkg m) ≡ true)
    → any_pkg test m pkgs ≢ none
unfolding any_pkg
any_pkg-defined test m [] h = λ e. cc
any_pkg-defined test m ((pkg, tt) ∷ pkgs) h =
    let rest = any_pkg-defined test m pkgs (λ q k. h q (member-tail q pkg pkgs k)) in
    ground (arith, rest, h pkg (member-head pkg pkgs))

app_match-defined :
    (max_len : ℕ) (process : Text) (m : Map Text (Set Text)) (o : Option (Set Text))
    → ((pkg : Text) → member pkg (set_or_empty o) ≡ true → is_some (find pkg m) ≡ true)
    → app_match max_len process m o ≢ none
app_match-defined max_len process m none h = λ e. cc
app_match-defined max_len process m (some pkgs) h =
    ground (arith, any_pkg-defined (member process) m pkgs h)

pub query-defined :
    (w : World) (uid : ℕ) (process : Text) (max_len : ℕ) (d : Deny)
    → IsConsistent d
    → query w uid process max_len d ≢ none
unfolding query
query-defined w uid process max_len d c = ground (
  arith,
  app_match-defined max_len process d.pkg_to_procs (find (to_app_id uid) d.app_id_to_pkgs)
      (c.listed (to_app_id uid)),
)

rescan_once-IsConsistent : (w : World) (d : Deny) → IsConsistent d → IsConsistent (rescan_once w d)
rescan_once-IsConsistent w d c = ground (
  arith,
  c,
  rescan_apps-IsConsistent w (record d { skip_rescan = true })
      (record { listed = c.listed; inhabited = c.inhabited }),
)

query_loaded-defined :
    (w : World) (uid : ℕ) (process : Text) (max_len : ℕ) (r : Deny × Bool)
    → IsConsistent r.0
    → (IsConsistent (query_loaded w uid process max_len r).0)
      × ((query_loaded w uid process max_len r).1 ≢ none)
query_loaded-defined w uid process max_len (d, false) c = (c, λ e. cc)
query_loaded-defined w uid process max_len (d, true) c =
    let c' = rescan_once-IsConsistent w d c in
    (c', query-defined w uid process max_len (rescan_once w d) c')

-- On maps that fit `is_deny_target` reads no iterator end(), whoever asks, and the maps that it
-- leaves fit too.
pub is_deny_target-defined :
    (w : World) (uid : ℕ) (process : Text) (max_len : ℕ) (d : Deny)
    → IsConsistent d
    → (IsConsistent (is_deny_target w uid process max_len d).0)
      × ((is_deny_target w uid process max_len d).1 ≢ none)
unfolding is_deny_target
is_deny_target-defined w uid process max_len d c =
    query_loaded-defined w uid process max_len (ensure_data w d) (ensure_data-IsConsistent w d c)

uid_match-defined :
    (m : Map Text (Set Text)) (o : Option (Set Text))
    → ((pkg : Text) → member pkg (set_or_empty o) ≡ true → is_some (find pkg m) ≡ true)
    → uid_match m o ≢ none
uid_match-defined m none h = λ e. cc
uid_match-defined m (some pkgs) h = any_pkg-defined not_empty m pkgs h

-- `is_uid_on_list` is defined exactly on maps that are there, if they fit.
pub is_uid_on_list-defined :
    (uid : ℕ) (d : Deny)
    → IsConsistent d
    → (d.loaded ≡ true → is_uid_on_list uid d ≢ none)
      × (d.loaded ≡ false → is_uid_on_list uid d ≡ none)
unfolding is_uid_on_list
is_uid_on_list-defined uid d c =
    let fits =
      uid_match-defined d.pkg_to_procs (find (uid % 100000) d.app_id_to_pkgs)
        (c.listed (uid % 100000)) in
    (λ up. ground (arith, fits), λ down. ground arith)

-- On maps that are there, scan_deny_apps rescans.
pub scans : (w : World) (d : Deny) → d.loaded ≡ true → scan_deny_apps w d ≡ some (rescan_apps w d)
unfolding scan_deny_apps
scans w d up = rw up refl
