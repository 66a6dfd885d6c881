-- ===== src/Monitor/Exit.antt =====
-- The exit of a zygote, as native/src/core/deny/ptrace.cpp sees it.
use kitsune_ufork.Common.{ℕ, ◌≡◌, refl, ap, true, Option, none, some, [], ◌∷◌, arith}
use kitsune_ufork.OrderedMap.{int_key, find, is_some}
use kitsune_ufork.Monitor.{Env, Monitor, detach_pid}
use kitsune_ufork.Monitor.Zygote.{new_zygote}
use kitsune_ufork.Monitor.Events.{ended, stopped, sigtrap, is_traced_zygote, wait_round, resend}
use kitsune_ufork.Monitor.History.{waited, run_events, handle_event}

-- A process that is in the map is never attached to again.
pub new_zygote_again :
    (e : Env) (pid : ℕ) (m : Monitor)
    → is_traced_zygote pid m ≡ true
    → (new_zygote e pid m).acts ≡ m.acts
unfolding new_zygote
new_zygote_again e pid m t = ground (arith, t)

resend-zygotes :
    (pid signal : ℕ) (m : Monitor)
    → (detach_pid pid 0 (resend pid signal m)).zygote_map ≡ m.zygote_map
unfolding resend detach_pid
resend-zygotes pid signal m = ground arith

not_recognised :
    (e : Env) (pid msg : ℕ) (m : Monitor)
    → is_traced_zygote pid m ≡ true
    → wait_round e pid (stopped sigtrap 6 msg) m ≡ some (resend pid sigtrap m)
unfolding wait_round
not_recognised e pid msg m t = rw t refl

abbrev pub Missed : ℕ → Monitor → Option Monitor → Type 0
Missed pid m none = ⊥
Missed pid m (some m') =
    (m'.zygote_map ≡ m.zygote_map) × ((e : Env) → (new_zygote e pid m').acts ≡ m'.acts)

-- When a zygote exits, PTRACE_EVENT_EXIT (6) is not recognised, and the end of the process that is
-- reported next does not erase it either: it stays in zygote_map, and a later zygote with the same
-- number is never attached to.
pub run_events-Missed :
    (e e' : Env) (pid msg : ℕ) (m : Monitor)
    → is_traced_zygote pid m ≡ true
    → Missed pid m (run_events (waited e pid (stopped sigtrap 6 msg) ∷ waited e' pid ended ∷ []) m)
unfolding run_events handle_event wait_round
run_events-Missed e e' pid msg m t =
    let m' = detach_pid pid 0 (resend pid sigtrap m) in
    let same = resend-zygotes pid sigtrap m in
    let runs : run_events (waited e pid (stopped sigtrap 6 msg) ∷ waited e' pid ended ∷ []) m
        ≡ some m' =
      rw (not_recognised e pid msg m t) refl in
    rw runs (same, λ e. new_zygote_again e pid m' (rw (ap (λ z. is_some (find pid z)) same) t))
