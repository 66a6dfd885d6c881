-- ===== src/Monitor/Sound/Rounds.antt =====
-- Each event of native/src/core/deny/ptrace.cpp keeps the monitor sound.
use kitsune_ufork.Common.{
  ℕ, ◌≡◌, refl, Bool, true, false, not, ◌&&◌, ◌||◌, [], ◌∷◌, arith, if◌then◌else◌, ◌==◌,
}
use kitsune_ufork.OrderedMap.{int_key, erase}
use kitsune_ufork.Deny.State.{World, Deny}
use kitsune_ufork.Deny.Table.{rescan_apps}
use kitsune_ufork.Deny.Invariant.{IsConsistent, rescan_apps-IsConsistent}
use kitsune_ufork.Deny.Mode.{rescan_apps-Kept}
use kitsune_ufork.Deny.Lookup.{scans}
use kitsune_ufork.Monitor.{
  Env, Monitor, detach_pid, act, touch, set_bit, syscall, set_options, cont, is_process,
}
use kitsune_ufork.Monitor.Zygote.{check_zygote}
use kitsune_ufork.Monitor.Events.{
  Status, ended, stopped, zygote_event, stop_signal, resend, wait_round, Notice, nothing,
  user_created, list_changed, other, inotify_event, start_monitor, fresh_monitor, sigstop, sigtrap,
  syscall_trap, is_traced_zygote, count_and_event,
}
use kitsune_ufork.Monitor.Sound.{
  IsSound, Keeps, IsSound-same, detach_pid-IsSound, check_zygote-SameSets, syscall_stop-IsSound,
  Keeps-if,
}

if-IsSound : (b : Bool) (m t : Monitor) → IsSound m → IsSound t → IsSound (if b then m else t)
if-IsSound true m t k l = k
if-IsSound false m t k l = l

zygote_event-IsSound :
    (pid event msg : ℕ) (m : Monitor) → IsSound m → IsSound (zygote_event pid event msg m)
unfolding zygote_event
zygote_event-IsSound pid event msg m s =
    let child = record (touch msg m) { attaches = set_bit msg true m.attaches } in
    let gone = record m { zygote_map = erase pid m.zygote_map } in
    if-IsSound (event == 1 || event == 2) (act (cont pid 0) child) (detach_pid pid 0 gone)
      (IsSound-same m _ (refl, refl, refl) s)
      (detach_pid-IsSound pid 0 gone (IsSound-same m gone (refl, refl, refl) s))

stop_signal-IsSound : (e : Env) (pid : ℕ) (m : Monitor) → IsSound m → IsSound (stop_signal e pid m)
unfolding stop_signal
stop_signal-IsSound e pid m s =
    let b = m.attaches pid || is_process (e.info pid) 0 in
    let n = record (touch pid m) { attaches = set_bit pid b m.attaches } in
    let s' = IsSound-same m n (refl, refl, refl) s in
    if-IsSound b (act (syscall pid 0) (act (set_options pid (0 ∷ [])) n)) (detach_pid pid 0 n)
      (IsSound-same n _ (refl, refl, refl) s') (detach_pid-IsSound pid 0 n s')

resend-IsSound : (pid signal : ℕ) (m : Monitor) → IsSound m → IsSound (resend pid signal m)
unfolding resend
resend-IsSound pid signal m s =
    let t = touch pid m in
    if-IsSound (not (is_traced_zygote pid m) && m.attaches pid) (act (syscall pid signal) t)
      (act (cont pid signal) t) (IsSound-same m _ (refl, refl, refl) s)
      (IsSound-same m _ (refl, refl, refl) s)

pub wait_round-IsSound :
    (e : Env) (pid : ℕ) (status : Status) (m : Monitor)
    → IsSound m
    → Keeps (wait_round e pid status m)
unfolding wait_round
wait_round-IsSound e pid ended m s = detach_pid-IsSound pid 0 m s
wait_round-IsSound e pid (stopped signal event msg) m s =
    Keeps-if (signal == sigtrap && count_and_event pid event m) _ _
      (zygote_event-IsSound pid event msg m s)
      (Keeps-if (signal == syscall_trap) _ _ (syscall_stop-IsSound e pid m s) (
        if-IsSound (signal == sigstop) _ _ (stop_signal-IsSound e pid m s)
          (resend-IsSound pid signal m s)))

pub check_zygote-IsSound : (e : Env) (m : Monitor) → IsSound m → IsSound (check_zygote e m)
check_zygote-IsSound e m s = IsSound-same m (check_zygote e m) (check_zygote-SameSets e m) s

rescan-IsSound :
    (w : World) (m : Monitor) → IsSound m → IsSound (record m { deny = rescan_apps w m.deny })
rescan-IsSound w m s =
    let k = rescan_apps-Kept w m.deny in
    record {
      ordered = s.ordered;
      fits = rescan_apps-IsConsistent w m.deny s.fits;
      loaded = ground (arith, k, s.loaded);
    }

pub inotify_event-IsSound :
    (e : Env) (n : Notice) (m : Monitor) → IsSound m → Keeps (inotify_event e n m)
unfolding inotify_event
inotify_event-IsSound e nothing m s = s
inotify_event-IsSound e user_created m s = s
inotify_event-IsSound e list_changed m s =
    rw (scans e.world m.deny s.loaded) (check_zygote-IsSound e _ (rescan-IsSound e.world m s))
inotify_event-IsSound e other m s = check_zygote-IsSound e m s

pub start_monitor-IsSound :
    (e : Env) (d : Deny) → IsConsistent d → d.loaded ≡ true → Keeps (start_monitor e d)
unfolding start_monitor
start_monitor-IsSound e d c up =
    let fresh : IsSound (fresh_monitor d) = record {
      ordered = λ p h. ground (arith, h);
      fits = c;
      loaded = up;
    } in
    let s = check_zygote-IsSound e (fresh_monitor d) fresh in
    rw (scans e.world (check_zygote e (fresh_monitor d)).deny s.loaded) (rescan-IsSound e.world _ s)
