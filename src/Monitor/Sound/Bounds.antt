-- ===== src/Monitor/Sound/Bounds.antt =====
-- The bitsets of native/src/core/deny/ptrace.cpp are not indexed outside of their bits while the numbers
-- of the processes are at most 32768.
use kitsune_ufork.Common.{
  ℕ, ◌≡◌, refl, ap, ◌∙◌, Bool, true, false, not, ◌&&◌, ◌||◌, Option, none, some, List, [], ◌∷◌,
  arith, if◌then◌else◌, ◌==◌, leb, ◌%◌, Bool-cases, inl, inr,
}
use kitsune_ufork.OrderedMap.{int_key, erase}
use kitsune_ufork.Deny.Lookup.{scans}
use kitsune_ufork.Deny.Query.{is_uid_on_list}
use kitsune_ufork.Deny.Invariant.{IsConsistent}
use kitsune_ufork.Monitor.{Env, Monitor, detach_pid, touch, in_range, set_bit}
use kitsune_ufork.Monitor.Zygote.{check_zygote, new_zygotes, new_zygote, zygote_list}
use kitsune_ufork.Monitor.Check.{check_pid}
use kitsune_ufork.Monitor.Treat.{Treated, check_pid-Treated}
use kitsune_ufork.Monitor.Events.{
  Status, ended, stopped, zygote_event, check_proc, syscall_stop, stop_signal, resend, wait_round,
  Notice, nothing, user_created, list_changed, other, inotify_event, sigstop, sigtrap, syscall_trap,
  count_and_event, after_check, may_be_allowed, on_list, owner,
}

-- No index outside that was not there before.
abbrev pub Same : Monitor → Option Monitor → Type 0
Same m none = Unit
Same m (some m') = m'.overrun ≡ m.overrun

Same-from : (m t : Monitor) (r : Option Monitor) → t.overrun ≡ m.overrun → Same t r → Same m r
Same-from m t none e s = tt
Same-from m t (some m') e s = s ∙ e

if-Same :
    (m : Monitor) (b : Bool) (r t : Option Monitor)
    → Same m r
    → Same m t
    → Same m (if b then r else t)
if-Same m true r t k l = k
if-Same m false r t k l = l

touch-Same : (pid : ℕ) (m : Monitor) → in_range pid ≡ true → (touch pid m).overrun ≡ m.overrun
touch-Same pid m k = ground (arith, k)

detach_pid-Same :
    (pid signal : ℕ) (m : Monitor)
    → in_range pid ≡ true
    → (detach_pid pid signal m).overrun ≡ m.overrun
unfolding detach_pid
detach_pid-Same pid signal m k = ground (arith, k)

new_zygotes-Same :
    (e : Env) (pids : List ℕ) (m : Monitor) → (new_zygotes e pids m).overrun ≡ m.overrun
unfolding new_zygotes new_zygote
new_zygotes-Same e [] m = refl
new_zygotes-Same e (pid ∷ pids) m = ground (arith, new_zygotes-Same e pids (new_zygote e pid m))

pub check_zygote-Same : (e : Env) (m : Monitor) → (check_zygote e m).overrun ≡ m.overrun
unfolding check_zygote
check_zygote-Same e m = ground (arith, new_zygotes-Same e (zygote_list e e.pids) m)

after_check-Same :
    (e : Env) (pid : ℕ) (m : Monitor) (r : Option (Monitor × Bool))
    → in_range pid ≡ true
    → Treated e pid m r
    → Same m (after_check pid r)
after_check-Same e pid m none k t = tt
after_check-Same e pid m (some (m', true)) k (a, l, c, what, late, over, fit) =
    ground (arith, k, over)
after_check-Same e pid m (some (m', false)) k (same, early, fit) =
    ap (λ (x : Monitor). x.overrun) same

check_proc-Same :
    (e : Env) (pid : ℕ) (m : Monitor)
    → in_range pid ≡ true
    → IsConsistent m.deny
    → Same m (check_proc e pid m)
unfolding check_proc
check_proc-Same e pid m k c =
    let marked = record m { checked = set_bit pid true m.checked } in
    let through = record marked { allowed = set_bit pid true m.allowed } in
    if-Same m (m.allowed pid || may_be_allowed (e.info pid)) _ _
      (after_check-Same e pid through (check_pid e pid through) k
        (check_pid-Treated e pid through c))
      refl

on_list-Same :
    (e : Env) (pid : ℕ) (m : Monitor) (r : Option Bool)
    → in_range pid ≡ true
    → IsConsistent m.deny
    → Same m (on_list e pid m r)
on_list-Same e pid m none k c = tt
on_list-Same e pid m (some true) k c = check_proc-Same e pid m k c
on_list-Same e pid m (some false) k c = detach_pid-Same pid 0 m k

syscall_stop-Same :
    (e : Env) (pid : ℕ) (m : Monitor)
    → in_range pid ≡ true
    → IsConsistent m.deny
    → Same m (syscall_stop e pid m)
unfolding syscall_stop
syscall_stop-Same e pid m k c =
    let t = touch pid m in
    let uid = owner (e.info pid).uid in
    let checks = check_proc-Same e pid t k c in
    Same-from m t (syscall_stop e pid m) (touch-Same pid m k) (
      if-Same t (t.checked pid) _ _ checks (
        if-Same t (uid == 0) _ _ refl (
          if-Same t (leb 90000 (uid % 100000)) _ _
            (if-Same t t.deny.sulist _ _ (detach_pid-Same pid 0 t k) checks)
            (on_list-Same e pid t (is_uid_on_list uid t.deny) k c))))

zygote_event-Same :
    (pid event msg : ℕ) (m : Monitor)
    → in_range pid ≡ true
    → (not (event == 1 || event == 2) || in_range msg) ≡ true
    → (zygote_event pid event msg m).overrun ≡ m.overrun
unfolding zygote_event
zygote_event-Same pid event msg m k n =
    ground (arith, n, detach_pid-Same pid 0 (record m { zygote_map = erase pid m.zygote_map }) k)

stop_signal-Same :
    (e : Env) (pid : ℕ) (m : Monitor)
    → in_range pid ≡ true
    → (stop_signal e pid m).overrun ≡ m.overrun
unfolding stop_signal detach_pid
stop_signal-Same e pid m k = ground (arith, k)

resend-Same :
    (pid signal : ℕ) (m : Monitor) → in_range pid ≡ true → (resend pid signal m).overrun ≡ m.overrun
unfolding resend
resend-Same pid signal m k = ground (arith, k)

-- The numbers that waitpid gives, also of a new child.
abbrev pub in_range_status : Status → Bool
in_range_status ended = true
in_range_status (stopped signal event msg) =
    not (signal == sigtrap && (event == 1 || event == 2)) || in_range msg

pub wait_round-Same :
    (e : Env) (pid : ℕ) (status : Status) (m : Monitor)
    → in_range pid ≡ true
    → in_range_status status ≡ true
    → IsConsistent m.deny
    → Same m (wait_round e pid status m)
unfolding wait_round
wait_round-Same e pid ended m k n c = detach_pid-Same pid 0 m k
wait_round-Same e pid (stopped signal event msg) m k n c = elim (Bool-cases (signal == sigtrap)) [
  | inl trap ↦
      if-Same m (signal == sigtrap && count_and_event pid event m) _ _
        (zygote_event-Same pid event msg m k (ground (arith, n, trap))) others
  | inr quiet ↦ rw quiet others
]
  where
    others : Same m (
        if signal == syscall_trap
        then syscall_stop e pid m
        else some (if signal == sigstop then stop_signal e pid m else resend pid signal m))
    others =
        if-Same m (signal == syscall_trap) _ _ (syscall_stop-Same e pid m k c)
          (ground (arith, stop_signal-Same e pid m k, resend-Same pid signal m k))

pub inotify_event-Same :
    (e : Env) (n : Notice) (m : Monitor) → m.deny.loaded ≡ true → Same m (inotify_event e n m)
unfolding inotify_event
inotify_event-Same e nothing m up = refl
inotify_event-Same e user_created m up = refl
inotify_event-Same e list_changed m up = rw (scans e.world m.deny up) (check_zygote-Same e _)
inotify_event-Same e other m up = check_zygote-Same e m
