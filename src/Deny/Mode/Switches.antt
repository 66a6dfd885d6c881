-- ===== src/Deny/Mode/Switches.antt =====
-- The requests of native/src/core/deny/cli.cpp as a state machine over the mode.
use kitsune_ufork.Common.{
  Bool, true, false, Option, none, some, ◌≡◌, ◌↔◌, refl, arith, Text, str_eql, codes, c_str, ◌⊎◌,
  ◌≢◌, inl, inr, Bool-cases,
}
use kitsune_ufork.Deny.State.{World, Deny}
use kitsune_ufork.Deny.Procs.{kill_process, proc_name_match, proc_context_match}
use kitsune_ufork.Deny.Table.{ensure_data}
use kitsune_ufork.Deny.Edit.{Response, ok, sulist_no_disable}
use kitsune_ufork.Deny.Enforce.{
  add_self, add_defaults, kill_pools, start_monitor, enable_deny, disable_deny, java_package_name,
}
use kitsune_ufork.Deny.Cli.{Request, add, remove, list, denylist_handler}
use kitsune_ufork.Deny.Invariant.{SameButEffects, kill_process-SameButEffects}
use kitsune_ufork.Deny.Mode.{SameMode, add_hide_set-SameMode, ensure_data-SameMode}
use kitsune_ufork.Deny.Mode.Edits.{add_list-SameMode, rm_list-SameMode, ls_list-SameMode}

pub kill_pools-SameButEffects : (w : World) (d : Deny) → SameButEffects d (kill_pools w d)
unfolding kill_pools
kill_pools-SameButEffects w d =
    let a = kill_process w (proc_name_match str_eql) (codes "usap32") true d in
    let b = kill_process w (proc_name_match str_eql) (codes "usap64") true a in
    ground (
      arith,
      kill_process-SameButEffects w (proc_name_match str_eql) (codes "usap32") true d,
      kill_process-SameButEffects w (proc_name_match str_eql) (codes "usap64") true a,
      kill_process-SameButEffects w proc_context_match (codes "u:r:app_zygote:s0") true b,
    )

add_defaults-SameMode : (w : World) (d : Deny) → SameMode d (add_defaults w d)
unfolding add_defaults
add_defaults-SameMode w d =
    let a = add_self w (codes "com.android.systemui") d in
    let b = add_self w (codes "com.android.settings") a in
    ground (
      arith,
      add_hide_set-SameMode w (codes "com.android.systemui") (codes "com.android.systemui") d,
      add_hide_set-SameMode w (codes "com.android.settings") (codes "com.android.settings") a,
      add_hide_set-SameMode w java_package_name java_package_name b,
    )

-- What `start_monitor` answers is what it leaves.
abbrev Tells : Deny × Response → Type 0
Tells r = ((r.1 ≡ ok) × (r.0.enforced ≡ true)) ⊎ ((r.1 ≢ ok) × (r.0.enforced ≡ false))

start_monitor-Tells :
    (w : World) (r : Deny × Bool)
    → r.0.enforced ≡ false
    → (Tells (start_monitor w r)) × ((start_monitor w r).0.sulist ≡ r.0.sulist)
start_monitor-Tells w (d, false) h = (inr (λ e. cc, h), refl)
start_monitor-Tells w (d, true) h =
    let on = record d { enforced = true } in
    let defaults = add_defaults-SameMode w on in
    let pools = kill_pools-SameButEffects w (add_defaults w on) in
    elim (Bool-cases w.thread_starts) [
      | inl starts ↦
          rw starts (inl (refl, ground (arith, defaults, pools)), ground (arith, defaults, pools))
      | inr fails ↦ rw fails (inr (λ e. cc, refl), refl)
    ]

-- `enable_deny` answers OK exactly when the list is enforced afterwards.
pub enable_deny-enforced :
    (w : World) (d : Deny) → ((enable_deny w d).1 ≡ ok) ↔ ((enable_deny w d).0.enforced ≡ true)
unfolding enable_deny
enable_deny-enforced w d =
    let open_d = record d { procfs_open = true } in
    let mode = ensure_data-SameMode w open_d in
    let tells = start_monitor-Tells w (ensure_data w open_d) in
    (λ h. ground (arith, mode, tells), λ h. ground (arith, mode, tells))

-- `disable_deny` refuses while the SuList is on, and changes nothing then; otherwise the list is no
-- longer enforced.
pub disable_deny_lem :
    (d : Deny)
    → ((d.sulist ≡ true) × (disable_deny d ≡ (d, sulist_no_disable)))
      ⊎ ((d.sulist ≡ false) × ((disable_deny d).1 ≡ ok) × ((disable_deny d).0.enforced ≡ false))
unfolding disable_deny
disable_deny_lem d = elim (Bool-cases d.sulist) [
  | inl on ↦ inl (on, ground arith)
  | inr off ↦ inr (off, ground arith, ground arith)
]

-- While the list is enforced and the SuList is on, no request of a client, with whatever names, ends
-- either of the two.
pub sulist_stays :
    (w : World) (q : Option Request) (pkg proc : Text) (d : Deny)
    → d.enforced ≡ true
    → d.sulist ≡ true
    → ((denylist_handler w q pkg proc d).0.enforced ≡ true)
      × ((denylist_handler w q pkg proc d).0.sulist ≡ true)
unfolding denylist_handler enable_deny disable_deny
sulist_stays w none pkg proc d e s = (e, s)
sulist_stays w (some add) pkg proc d e s =
    ground (arith, add_list-SameMode w (c_str pkg) (c_str proc) d)
sulist_stays w (some remove) pkg proc d e s =
    ground (arith, rm_list-SameMode w (c_str pkg) (c_str proc) d)
sulist_stays w (some list) pkg proc d e s = ground (arith, ls_list-SameMode w d)
sulist_stays w (some q) pkg proc d e s = ground arith
