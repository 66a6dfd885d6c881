-- ===== src/ThreadPool/Starvation.antt =====
-- A task that native/src/core/thread.cpp hands to a thread which is about to end.
use kitsune_ufork.Common.{ℕ, ◌<◌, Bool, true, false, some, List, [], ◌∷◌, ◌≡◌, ◌⊎◌, inl, inr, arith}
use kitsune_ufork.ThreadPool.{
  waiting, signalled, Worker, Stage, ready, asleep, awake, expired, running, signal, expire,
  exec_task,
}
use kitsune_ufork.ThreadPool.Steps.{
  State, Becomes, TimesOut, Ends, Step, spawns, signals, enters, wakes, times_out, continues,
  expires, finishes, returns, Fault, wakes_caller, no_thread,
}

-- The worker runs a task, or its wait has timed out and it only waits for the lock to end.
abbrev pub is_out : Stage → Bool
is_out expired = true
is_out (running t) = true
is_out s = false

abbrev pub AllOut : List Worker → Type 0
AllOut [] = Unit
AllOut (w ∷ ws) = (is_out w.stage ≡ true) × AllOut ws

Becomes-out : (a b : Stage) {vs ws : List Worker} → Becomes a b vs ws → AllOut vs → is_out a ≡ true
Becomes-out a b (Becomes.here c ws) o = o.0
Becomes-out a b (Becomes.there w r) o = Becomes-out a b r o.1

TimesOut-in : {vs ws : List Worker} → TimesOut vs ws → AllOut vs → ⊥
TimesOut-in (TimesOut.here ws) o = cc (o.0)
TimesOut-in (TimesOut.there w r) o = TimesOut-in r o.1

Ends-AllOut : {vs ws : List Worker} → Ends vs ws → AllOut vs → AllOut ws
Ends-AllOut (Ends.here c ws) o = o.1
Ends-AllOut (Ends.there w r) o = (o.0, Ends-AllOut r o.1)

-- A task is pending, and nobody is there to take it.
pub record IsStarved (t : ℕ) (s : State) : Type 0 where
  pub is_pending : s.pool.pending_task ≡ some t
  pub caller_waits : s.pool.caller ≡ waiting
  pub all_out : AllOut s.workers

-- Some task ended.
abbrev pub Finished : State → State → Type 0
Finished s s' = (t : ℕ) × Becomes (running t) ready s.workers s'.workers

-- When some thread counts as idle while each worker runs a task or has timed out, exec_task starts
-- no thread for the task it is given, and the task has nobody to take it.
pub exec_task-IsStarved :
    (t : ℕ) (s : State)
    → 0 < s.pool.idle_threads
    → AllOut s.workers
    → ((exec_task t s.pool).1 ≡ signal)
      × IsStarved t (record { pool = (exec_task t s.pool).0; workers = s.workers })
unfolding exec_task
exec_task-IsStarved t s h o =
    (ground arith, record { is_pending = ground arith; caller_waits = ground arith; all_out = o })

without_fault :
    (t : ℕ) (s s' : State) → Step s s' → IsStarved t s → (IsStarved t s') ⊎ (Finished s s')
unfolding expire
without_fault t s s' (spawns u c f e w) v = absurd (ground (arith, v.caller_waits))
without_fault t s s' (signals u f e w) v = absurd (ground (arith, v.caller_waits))
without_fault t s s' (enters g e r) v = absurd (ground (arith, Becomes-out ready g r v.all_out))
without_fault t s s' (wakes e r) v = absurd (ground (arith, Becomes-out asleep awake r v.all_out))
without_fault t s s' (times_out e r) v = absurd (TimesOut-in r v.all_out)
without_fault t s s' (continues g e r) v = absurd (ground (arith, Becomes-out awake g r v.all_out))
without_fault t s s' (expires e r) v = inl (record {
  is_pending = ground (arith, v.is_pending);
  caller_waits = ground (arith, v.caller_waits);
  all_out = Ends-AllOut r v.all_out;
})
without_fault t s s' (finishes u e r) v = inr (u, r)
without_fault t s s' (returns f e w) v = absurd (ground (arith, v.caller_waits))

-- The caller is about to return from exec_task with its task still pending.
abbrev pub IsLeft : ℕ → State → Type 0
IsLeft t s = (s.pool.pending_task ≡ some t) × (s.pool.caller ≡ signalled)

-- A task with nobody to take it stays pending, and the caller in exec_task, through every step and
-- every fault, but for two: some other task ends, or the wait on recv_task ends by itself, with which
-- exec_task returns while its task is still pending.
pub Step-IsStarved :
    (t : ℕ) (s s' : State)
    → (Step s s') ⊎ (Fault s s')
    → IsStarved t s
    → (IsStarved t s') ⊎ ((Finished s s') ⊎ (IsLeft t s'))
Step-IsStarved t s s' (inl m) v = elim (without_fault t s s' m v) [
  | inl still ↦ inl still
  | inr ended ↦ inr (inl ended)
]
Step-IsStarved t s s' (inr (wakes_caller f e w)) v =
    inr (inr (ground (arith, e, v.is_pending), ground (arith, e)))
Step-IsStarved t s s' (inr (no_thread u c f e w)) v = absurd (ground (arith, v.caller_waits))
