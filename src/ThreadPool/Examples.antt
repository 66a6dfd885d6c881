-- ===== src/ThreadPool/Examples.antt =====
-- The theorems on native/src/core/thread.cpp at concrete inputs.
use kitsune_ufork.Common.{◌≡◌, refl, ◌⊎◌, inl, true, false, none, some, List, [], ◌∷◌, arith}
use kitsune_ufork.ThreadPool.{
  free, signalled, expired, running, Pool, Worker, exec_task, reset_pool, expire,
}
use kitsune_ufork.ThreadPool.Steps.{
  State, spawns, returns, new_worker, Ends, expires, initial, next, faulty, wakes_caller,
}
use kitsune_ufork.ThreadPool.Faults.{IsCounted, InOrder, IsSoundIf, Reach-IsSound}
use kitsune_ufork.ThreadPool.Starvation.{
  IsStarved, Finished, IsLeft, exec_task-IsStarved, Step-IsStarved,
}

-- exec_task starts a thread.
abbrev given : State
given = record { pool = (exec_task 7 reset_pool).0; workers = new_worker true ∷ [] }

-- The caller's wait ends by itself, and the next task takes the place of the first.
abbrev woken : State
woken = record { pool = record given.pool { caller = signalled }; workers = given.workers }

abbrev left : State
left = record { pool = record given.pool { caller = free }; workers = given.workers }

abbrev second : State
second = record { pool = (exec_task 8 left.pool).0; workers = new_worker true ∷ given.workers }

Reach-IsSound_example : IsCounted second × InOrder second.pool × IsSoundIf false second
unfolding exec_task reset_pool
Reach-IsSound_example = Reach-IsSound false second (
    next second
      (next left
        (faulty woken (next given initial (spawns 7 true refl refl refl))
          (wakes_caller refl refl refl))
        (returns refl refl refl))
      (spawns 8 true refl refl refl))

-- Here the first task is lost.
task_lost : (second.pool.accepted ≡ 7 ∷ 8 ∷ []) × (second.pool.pending_task ≡ some 8)
unfolding exec_task reset_pool
task_lost = (refl, refl)

-- Three threads at their tasks, and one whose wait has timed out, while a task arrives.
abbrev idle_pool : Pool
idle_pool = record {
  idle_threads = 1;
  total_threads = 4;
  pending_task = none;
  caller = free;
  accepted = 1 ∷ 2 ∷ 3 ∷ 4 ∷ [];
  started = 1 ∷ 2 ∷ 3 ∷ 4 ∷ [];
}

abbrev busy : List Worker
busy =
    record { is_core = true; stage = running 1 }
    ∷ record { is_core = true; stage = running 2 }
    ∷ record { is_core = true; stage = running 3 }
    ∷ []

abbrev late : State
late = record { pool = idle_pool; workers = record { is_core = false; stage = expired } ∷ busy }

abbrev handed : State
handed = record { pool = (exec_task 7 idle_pool).0; workers = late.workers }

abbrev gone : State
gone = record { pool = expire handed.pool; workers = busy }

Step-IsStarved_example : (IsStarved 7 gone) ⊎ ((Finished handed gone) ⊎ (IsLeft 7 gone))
unfolding exec_task
Step-IsStarved_example =
    Step-IsStarved 7 handed gone (inl (expires refl (Ends.here false busy)))
      (exec_task-IsStarved 7 late (omega arith) (refl, (refl, (refl, (refl, tt))))).1
