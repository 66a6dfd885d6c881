-- ===== src/ThreadPool.antt =====
-- native/src/core/thread.cpp: the cached thread pool. A thread holds `lock` from where it takes it
-- to where it waits or lets go, so these stretches are functions on the variables under the lock.
pub mod Steps
pub mod Invariant
pub mod Faults
pub mod Starvation
mod Examples
use kitsune_ufork.Common.{
  ℕ, ◌+◌, ◌-◌, Bool, true, false, Option, none, some, List, [], ◌∷◌, ◌++◌, leb, ◌==◌, if◌then◌else◌,
}

-- The one thread that calls exec_task: outside of it, in its wait on recv_task, or signalled.
pub data Caller : Type 0 where
  free waiting signalled : Caller

-- The guarded variables, with a task as a number. `accepted` and `started` record in order which
-- tasks came in and which were taken; the program does not keep them.
pub record Pool : Type 0 where
  pub idle_threads : ℕ
  pub total_threads : ℕ
  pub pending_task : Option ℕ
  pub caller : Caller
  pub accepted : List ℕ
  pub started : List ℕ

-- Where a worker stands: about to take the lock, in its wait on send_task, out of the wait with or
-- without ETIMEDOUT but not yet holding the lock, or at a task.
pub data Stage : Type 0 where
  ready asleep awake expired : Stage
  running : ℕ → Stage

pub record Worker : Type 0 where
  pub is_core : Bool
  pub stage : Stage

abbrev pub core_pool_size : ℕ
core_pool_size = 3

abbrev signal_caller : Caller → Caller
signal_caller waiting = signalled
signal_caller c = c

-- `local_task.swap(pending_task)` and the signal on recv_task.
abbrev pub take_task : ℕ → Pool → Pool
take_task t p = record p {
  pending_task = none;
  caller = signal_caller p.caller;
  started = p.started ++ t ∷ [];
}

-- From the lock to the wait on send_task, or past it if a task is there: ++idle_threads, and
-- --idle_threads at the end.
abbrev enter_with : Option ℕ → Pool → Pool × Stage
enter_with none p = (record p { idle_threads = p.idle_threads + 1 }, asleep)
enter_with (some t) p = (take_task t p, running t)

unfoldable pub enter : Pool → Pool × Stage
enter p = enter_with p.pending_task p

-- From the end of the wait, not by ETIMEDOUT, to the end of the guarded block.
abbrev wake_with : Option ℕ → Pool → Pool × Stage
wake_with none p = (record p { idle_threads = p.idle_threads - 1 }, ready)
wake_with (some t) p =
    let p' = take_task t p in (record p' { idle_threads = p'.idle_threads - 1 }, running t)

unfoldable pub wake : Pool → Pool × Stage
wake p = wake_with p.pending_task p

-- ETIMEDOUT: the thread ends, whatever is pending.
unfoldable pub expire : Pool → Pool
expire p = record p { idle_threads = p.idle_threads - 1; total_threads = p.total_threads - 1 }

-- What exec_task does for its task: a new thread, core or not, or a signal on send_task.
pub data Help : Type 0 where
  spawn : Bool → Help
  signal : Help

-- exec_task up to its wait on recv_task.
unfoldable pub exec_task : ℕ → Pool → Pool × Help
exec_task t p =
    let p' = record p {
      pending_task = some t;
      caller = waiting;
      accepted = p.accepted ++ t ∷ [];
    } in
    let more = record p' { total_threads = p'.total_threads + 1 } in
    if p'.idle_threads == 0
    then (more, spawn (leb more.total_threads core_pool_size))
    else (p', signal)

-- reset_pool, in a child process: no thread of the parent is there.
unfoldable pub reset_pool : Pool
reset_pool = record {
  idle_threads = 0;
  total_threads = 0;
  pending_task = none;
  caller = free;
  accepted = [];
  started = [];
}
