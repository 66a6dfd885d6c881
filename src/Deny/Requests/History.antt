-- ===== src/Deny/Requests/History.antt =====
-- Any history of calls of native/src/core/deny, from the start of the daemon.
use kitsune_ufork.Common.{
  ℕ, Bool, true, false, ◌≡◌, ◌≢◌, refl, sym, subst, Option, none, some, List, [], ◌∷◌, arith, Text,
  codes,
}
use kitsune_ufork.OrderedMap.{text_key, int_key, find}
use kitsune_ufork.Deny.State.{World, Deny}
use kitsune_ufork.Deny.Cli.{Request, denylist_handler}
use kitsune_ufork.Deny.Invariant.{IsConsistent, rescan_apps-IsConsistent}
use kitsune_ufork.Deny.Query.{is_deny_target, is_uid_on_list, scan_deny_apps}
use kitsune_ufork.Deny.Enforce.{initialize_denylist}
use kitsune_ufork.Deny.Lookup.{is_deny_target-defined, is_uid_on_list-defined, scans}
use kitsune_ufork.Deny.Requests.{IsCalm, enable_deny-IsConsistent, denylist_handler-IsConsistent}

-- What reaches the component: the start of the daemon with the two settings, a client's request, a
-- question about a process, one about a user, and a rescan.
pub data Call : Type 0 where
  boot : Bool → Bool → Call
  request : Option Request → Text → Text → Call
  ask : ℕ → Text → ℕ → Call
  look : ℕ → Call
  rescan : Call

-- The state afterwards; `none` is undefined behaviour.
abbrev answered : Deny × Option Bool → Option Deny
answered (d, none) = none
answered (d, some hit) = some d

unfoldable pub step : World → Call → Deny → Option Deny
unfolding initialize_denylist
step w (boot denylist_config sulist_config) d =
    some (initialize_denylist w denylist_config sulist_config d)
step w (request q pkg proc) d = some (denylist_handler w q pkg proc d).0
step w (ask uid process max_len) d = answered (is_deny_target w uid process max_len d)
step w (look uid) d = answered (d, is_uid_on_list uid d)
step w rescan d = scan_deny_apps w d

abbrev and_then : Option Deny → (Deny → Option Deny) → Option Deny
and_then none f = none
and_then (some d) f = f d

unfoldable pub run : List (World × Call) → Deny → Option Deny
unfolding step
run [] d = some d
run ((w, c) ∷ cs) d = and_then (step w c d) (run cs)

-- The globals when the daemon starts.
abbrev pub start : Deny
start = record {
  loaded = false;
  pkg_to_procs = [];
  app_id_to_pkgs = [];
  enforced = false;
  sulist = false;
  table = codes "hidelist";
  skip_rescan = false;
  procfs_open = false;
  effects = [];
}

start-IsConsistent : IsConsistent start
unfolding find
start-IsConsistent = record { listed = λ i q h. cc; inhabited = λ q h. cc }

-- No undefined behaviour, and maps that fit.
abbrev pub Fits : Option Deny → Type 0
Fits none = ⊥
Fits (some d) = IsConsistent d

-- The calls that do not load the maps come when they are there.
abbrev pub IsTimely : Call → Deny → Type 0
IsTimely (boot denylist_config sulist_config) d = Unit
IsTimely (request q pkg proc) d = Unit
IsTimely (ask uid process max_len) d = Unit
IsTimely (look uid) d = (d.loaded ≡ true)
IsTimely rescan d = (d.loaded ≡ true)

initialize_denylist-IsConsistent :
    (w : World) (denylist_config sulist_config : Bool) (d : Deny)
    → IsConsistent d
    → IsConsistent (initialize_denylist w denylist_config sulist_config d)
unfolding initialize_denylist
initialize_denylist-IsConsistent w true true d c =
    let on = record d { sulist = true; table = codes "sulist" } in
    let c' =
      enable_deny-IsConsistent w on (record { listed = c.listed; inhabited = c.inhabited }) in
    ground (arith, c, c')
initialize_denylist-IsConsistent w true false d c =
    ground (arith, c, enable_deny-IsConsistent w d c)
initialize_denylist-IsConsistent w false sulist_config d c = ground (arith, c)

answered-Fits : (r : Deny × Option Bool) → IsConsistent r.0 → r.1 ≢ none → Fits (answered r)
answered-Fits (d, none) c n = n refl
answered-Fits (d, some hit) c n = c

step-Fits :
    (w : World) (x : Call) (d : Deny)
    → IsCalm w d
    → IsTimely x d
    → IsConsistent d
    → Fits (step w x d)
unfolding step
step-Fits w (boot denylist_config sulist_config) d calm t c =
    initialize_denylist-IsConsistent w denylist_config sulist_config d c
step-Fits w (request q pkg proc) d calm t c = denylist_handler-IsConsistent w q pkg proc d calm c
step-Fits w (ask uid process n) d calm t c =
    let (fit, defined) = is_deny_target-defined w uid process n d c in
    answered-Fits (is_deny_target w uid process n d) fit defined
step-Fits w (look uid) d calm t c =
    answered-Fits (d, is_uid_on_list uid d) c ((is_uid_on_list-defined uid d c).0 t)
step-Fits w rescan d calm t c = subst Fits (sym (scans w d t)) (rescan_apps-IsConsistent w d c)

abbrev After : (Deny → Type 0) → Option Deny → Type 0
After p none = Unit
After p (some d) = p d

-- The file system stays in step with the maps along a history, and its calls are timely.
abbrev pub AllCalm : List (World × Call) → Deny → Type 0
AllCalm [] d = Unit
AllCalm ((w, c) ∷ cs) d = IsCalm w d × IsTimely c d × After (AllCalm cs) (step w c d)

and_then-Fits :
    (r : Option Deny) (f : Deny → Option Deny) (p : Deny → Type 0)
    → Fits r
    → After p r
    → ((d : Deny) → p d → IsConsistent d → Fits (f d))
    → Fits (and_then r f)
and_then-Fits none f p k a g = k
and_then-Fits (some d) f p k a g = g d a k

run-Fits : (cs : List (World × Call)) (d : Deny) → AllCalm cs d → IsConsistent d → Fits (run cs d)
unfolding run
run-Fits [] d calm c = c
run-Fits ((w, x) ∷ cs) d (calm, timely, more) c =
    and_then-Fits (step w x d) (run cs) (AllCalm cs) (step-Fits w x d calm timely c) more
      (run-Fits cs)

-- From the globals at the start, any history of calls, the start of SuList included, in which the file
-- system stays in step with the maps, and in which a rescan or a question about a user comes only
-- when the maps have been loaded, has no undefined behaviour and ends with maps that fit.
pub run-IsConsistent : (cs : List (World × Call)) → AllCalm cs start → Fits (run cs start)
run-IsConsistent cs calm = run-Fits cs start calm start-IsConsistent
