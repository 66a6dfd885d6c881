-- ===== src/Monitor/Sound.antt =====
-- What the monitor of native/src/core/deny/ptrace.cpp keeps along every sequence of events.
pub mod Rounds
pub mod Bounds
use kitsune_ufork.Common.{
  ℕ, ◌≡◌, ◌≢◌, refl, ◌%◌, Bool, true, false, not, ◌&&◌, ◌||◌, Option, none, some, List, [], ◌∷◌,
  arith, if◌then◌else◌, ◌==◌, leb, Bool-cases, Option-cases, inl, inr, Text,
}
use kitsune_ufork.OrderedMap.{int_key, erase}
use kitsune_ufork.Deny.State.{World, Deny}
use kitsune_ufork.Deny.Table.{rescan_apps, ensure_data}
use kitsune_ufork.Deny.Removal.{ensure_data-loaded}
use kitsune_ufork.Deny.Query.{
  is_deny_target, is_uid_on_list, scan_deny_apps, query_loaded, rescan_once,
}
use kitsune_ufork.Deny.Invariant.{IsConsistent, rescan_apps-IsConsistent}
use kitsune_ufork.Deny.Lookup.{is_deny_target-defined, is_uid_on_list-defined}
use kitsune_ufork.Deny.Mode.{rescan_apps-Kept}
use kitsune_ufork.Monitor.{
  Env, Monitor, detach_pid, act, touch, set_bit, syscall, set_options, cont, is_process,
}
use kitsune_ufork.Monitor.Zygote.{check_zygote, new_zygotes, new_zygote, zygote_list}
use kitsune_ufork.Monitor.Check.{check_pid, treat, ask, on_answer, shares_ns, still_zygote}
use kitsune_ufork.Monitor.Treat.{gone, of_root, unread, read_name}
use kitsune_ufork.Monitor.Events.{
  Status, ended, stopped, zygote_event, check_proc, syscall_stop, stop_signal, resend, wait_round,
  Notice, nothing, user_created, list_changed, other, inotify_event, term_thread, start_monitor,
  fresh_monitor, sigstop, sigtrap, syscall_trap, is_traced_zygote, count_and_event, after_check,
  may_be_allowed, on_list, owner,
}

-- A process that is let through was looked at; and the maps of the list are there and fit.
pub record IsSound (m : Monitor) : Type 0 where
  pub ordered : (p : ℕ) → m.allowed p ≡ true → m.checked p ≡ true
  pub fits : IsConsistent m.deny
  pub loaded : m.deny.loaded ≡ true

-- `m'` differs from `m` in nothing that IsSound speaks of.
abbrev SameSets : Monitor → Monitor → Type 0
SameSets m m' = (m'.allowed ≡ m.allowed) × (m'.checked ≡ m.checked) × (m'.deny ≡ m.deny)

IsSound-same : (m m' : Monitor) → SameSets m m' → IsSound m → IsSound m'
IsSound-same m m' (a, c, d) s = record {
  ordered = rw (a, c) s.ordered;
  fits = rw d s.fits;
  loaded = rw d s.loaded;
}

detach_pid-IsSound : (pid signal : ℕ) (m : Monitor) → IsSound m → IsSound (detach_pid pid signal m)
unfolding detach_pid
detach_pid-IsSound pid signal m s = record {
  ordered = λ p h. ground (arith, s.ordered p);
  fits = s.fits;
  loaded = s.loaded;
}

new_zygote-SameSets : (e : Env) (pid : ℕ) (m : Monitor) → SameSets m (new_zygote e pid m)
unfolding new_zygote
new_zygote-SameSets e pid m = ground arith

new_zygotes-SameSets : (e : Env) (pids : List ℕ) (m : Monitor) → SameSets m (new_zygotes e pids m)
unfolding new_zygotes
new_zygotes-SameSets e [] m = (refl, refl, refl)
new_zygotes-SameSets e (pid ∷ pids) m =
    ground (arith, new_zygote-SameSets e pid m, new_zygotes-SameSets e pids (new_zygote e pid m))

check_zygote-SameSets : (e : Env) (m : Monitor) → SameSets m (check_zygote e m)
unfolding check_zygote
check_zygote-SameSets e m = ground (arith, new_zygotes-SameSets e (zygote_list e e.pids) m)

is_deny_target-loaded :
    (w : World) (uid : ℕ) (process : Text) (max_len : ℕ) (d : Deny)
    → d.loaded ≡ true
    → (is_deny_target w uid process max_len d).0.loaded ≡ true
unfolding is_deny_target
is_deny_target-loaded w uid process max_len d up =
    let k = rescan_apps-Kept w (record d { skip_rescan = true }) in
    rw (ensure_data-loaded w d up) (ground (arith, k))

-- No undefined behaviour, and a sound monitor.
abbrev pub Keeps : Option Monitor → Type 0
Keeps none = ⊥
Keeps (some m) = IsSound m

abbrev KeepsBoth : Option (Monitor × Bool) → Type 0
KeepsBoth none = ⊥
KeepsBoth (some (m, done)) = IsSound m

treat-IsSound : (pid : ℕ) (m : Monitor) → IsSound m → IsSound (treat pid m)
unfolding treat
treat-IsSound pid m s =
    IsSound-same (detach_pid pid 0 m) (treat pid m) (refl, refl, refl)
      (detach_pid-IsSound pid 0 m s)

on_answer-IsSound :
    (e : Env) (pid : ℕ) (m : Monitor) (answer : Option Bool)
    → answer ≢ none
    → IsSound m
    → KeepsBoth (on_answer e pid m answer)
on_answer-IsSound e pid m none n s = absurd (n refl)
on_answer-IsSound e pid m (some false) n s = detach_pid-IsSound pid 0 m s
on_answer-IsSound e pid m (some true) n s = elim (Bool-cases (shares_ns e pid)) [
  | inl shared ↦ rw shared (detach_pid-IsSound pid 0 m s)
  | inr apart ↦ rw apart (detach_pid-IsSound pid 0 (treat pid m) (treat-IsSound pid m s))
]

ask-IsSound :
    (e : Env) (pid uid : ℕ) (m : Monitor) (cmdline : Text)
    → IsSound m
    → KeepsBoth (ask e pid uid m cmdline)
ask-IsSound e pid uid m cmdline s =
    let (c, defined) = is_deny_target-defined e.world uid cmdline 95 m.deny s.fits in
    let up = is_deny_target-loaded e.world uid cmdline 95 m.deny s.loaded in
    elim (Bool-cases (still_zygote cmdline)) [
      | inl early ↦ rw early s
      | inr late ↦ rw late (
          on_answer-IsSound e pid _ _ defined
            (record { ordered = s.ordered; fits = c; loaded = up }))
    ]

check_pid-IsSound : (e : Env) (pid : ℕ) (m : Monitor) → IsSound m → KeepsBoth (check_pid e pid m)
check_pid-IsSound e pid m s = elim (Option-cases (e.info pid).uid) [
  | inl u ↦ rw (gone e pid m u) (detach_pid-IsSound pid 0 m s)
  | inr (uid, u) ↦ elim (Bool-cases (uid == 0)) [
    | inl root ↦ rw (of_root e pid uid m u root) s
    | inr app ↦ elim (Option-cases (e.info pid).cmdline) [
      | inl k ↦ rw (unread e pid uid m u app k) (detach_pid-IsSound pid 0 m s)
      | inr (cmdline, k) ↦
          rw (read_name e pid uid m cmdline u app k) (ask-IsSound e pid uid m cmdline s)
    ]
  ]
]

after_check-IsSound :
    (pid : ℕ) (r : Option (Monitor × Bool)) → KeepsBoth r → Keeps (after_check pid r)
after_check-IsSound pid none k = k
after_check-IsSound pid (some (m, true)) k = k
after_check-IsSound pid (some (m, false)) k = IsSound-same m _ (refl, refl, refl) k

check_proc-IsSound : (e : Env) (pid : ℕ) (m : Monitor) → IsSound m → Keeps (check_proc e pid m)
unfolding check_proc
check_proc-IsSound e pid m s =
    let marked = record m { checked = set_bit pid true m.checked } in
    let through = record marked { allowed = set_bit pid true m.allowed } in
    let waits : IsSound marked = record {
      ordered = λ p h. ground (arith, s.ordered p, h);
      fits = s.fits;
      loaded = s.loaded;
    } in
    let goes : IsSound through = record {
      ordered = λ p h. ground (arith, s.ordered p, h);
      fits = s.fits;
      loaded = s.loaded;
    } in
    elim (Bool-cases (m.allowed pid || may_be_allowed (e.info pid))) [
      | inl now ↦
          rw now (
            after_check-IsSound pid (check_pid e pid through)
              (check_pid-IsSound e pid through goes))
      | inr later ↦ rw later (IsSound-same marked _ (refl, refl, refl) waits)
    ]

on_list-IsSound :
    (e : Env) (pid : ℕ) (m : Monitor) (r : Option Bool)
    → r ≢ none
    → IsSound m
    → Keeps (on_list e pid m r)
on_list-IsSound e pid m none n s = absurd (n refl)
on_list-IsSound e pid m (some true) n s = check_proc-IsSound e pid m s
on_list-IsSound e pid m (some false) n s = detach_pid-IsSound pid 0 m s

touch-IsSound : (pid : ℕ) (m : Monitor) → IsSound m → IsSound (touch pid m)
touch-IsSound pid m s = IsSound-same m (touch pid m) (refl, refl, refl) s

Keeps-if : (b : Bool) (r t : Option Monitor) → Keeps r → Keeps t → Keeps (if b then r else t)
Keeps-if true r t k l = k
Keeps-if false r t k l = l

syscall_stop-IsSound : (e : Env) (pid : ℕ) (m : Monitor) → IsSound m → Keeps (syscall_stop e pid m)
unfolding syscall_stop
syscall_stop-IsSound e pid m s =
    let t = touch pid m in
    let s' = touch-IsSound pid m s in
    let uid = owner (e.info pid).uid in
    elim (Bool-cases (m.checked pid)) [
      | inl seen ↦ rw seen (check_proc-IsSound e pid t s')
      | inr new ↦ elim (Bool-cases (uid == 0)) [
        | inl root ↦ rw (new, root) (IsSound-same m _ (refl, refl, refl) s)
        | inr user ↦ elim (Bool-cases (leb 90000 (uid % 100000))) [
          | inl isolated ↦
              rw (new, user, isolated)
                (Keeps-if m.deny.sulist _ _ (detach_pid-IsSound pid 0 t s')
                  (check_proc-IsSound e pid t s'))
          | inr app ↦
              rw (new, user, app)
                (on_list-IsSound e pid t (is_uid_on_list uid m.deny)
                  ((is_uid_on_list-defined uid m.deny s.fits).0 s.loaded) s')
        ]
      ]
    ]
