-- ===== src/ThreadPool/Steps.antt =====
-- The interleavings of native/src/core/thread.cpp, as a step relation on the guarded variables and
-- the workers. A wait on send_task may end at any time, as POSIX allows. The wait on recv_task, which
-- the program does not guard, may too, and starting a thread may fail without anyone looking: these
-- two are the steps of Fault.
use kitsune_ufork.Common.{ℕ, Bool, true, false, List, [], ◌∷◌, ◌≡◌}
use kitsune_ufork.ThreadPool.{
  Pool, free, waiting, signalled, Worker, Stage, ready, asleep, awake, expired, running, spawn,
  signal, enter, wake, expire, exec_task, reset_pool,
}

pub record State : Type 0 where
  pub pool : Pool
  pub workers : List Worker

-- One worker of the list takes another stage.
pub data Becomes (a b : Stage) : List Worker → List Worker → Type 0 where
  here :
      (core : Bool) (ws : List Worker)
      → Becomes a b
          (record { is_core = core; stage = a } ∷ ws)
          (record { is_core = core; stage = b } ∷ ws)
  there : (w : Worker) {vs ws : List Worker} → Becomes a b vs ws → Becomes a b (w ∷ vs) (w ∷ ws)

-- A worker that is not core reaches the end of its minute.
pub data TimesOut : List Worker → List Worker → Type 0 where
  here :
      (ws : List Worker)
      → TimesOut
          (record { is_core = false; stage = asleep } ∷ ws)
          (record { is_core = false; stage = expired } ∷ ws)
  there : (w : Worker) {vs ws : List Worker} → TimesOut vs ws → TimesOut (w ∷ vs) (w ∷ ws)

-- An expired worker is gone.
pub data Ends : List Worker → List Worker → Type 0 where
  here :
      (core : Bool) (ws : List Worker) → Ends (record { is_core = core; stage = expired } ∷ ws) ws
  there : (w : Worker) {vs ws : List Worker} → Ends vs ws → Ends (w ∷ vs) (w ∷ ws)

abbrev pub new_worker : Bool → Worker
new_worker core = record { is_core = core; stage = ready }

pub data Step (s : State) (s' : State) : Type 0 where
  -- exec_task starts a thread
  spawns :
      (t : ℕ) (core : Bool)
      → s.pool.caller ≡ free
      → exec_task t s.pool ≡ (s'.pool, spawn core)
      → s'.workers ≡ new_worker core ∷ s.workers
      → Step s s'
  -- exec_task signals; the waiters that it wakes leave their wait by the step `wakes`
  signals :
      (t : ℕ)
      → s.pool.caller ≡ free
      → exec_task t s.pool ≡ (s'.pool, signal)
      → s'.workers ≡ s.workers
      → Step s s'
  -- a worker runs its loop from the lock
  enters :
      (stage : Stage)
      → enter s.pool ≡ (s'.pool, stage)
      → Becomes ready stage s.workers s'.workers
      → Step s s'
  -- a wait on send_task ends, by a signal, by its timeout, or by itself
  wakes : s'.pool ≡ s.pool → Becomes asleep awake s.workers s'.workers → Step s s'
  times_out : s'.pool ≡ s.pool → TimesOut s.workers s'.workers → Step s s'
  -- the worker has the lock back
  continues :
      (stage : Stage)
      → wake s.pool ≡ (s'.pool, stage)
      → Becomes awake stage s.workers s'.workers
      → Step s s'
  expires : s'.pool ≡ expire s.pool → Ends s.workers s'.workers → Step s s'
  -- a task ends
  finishes : (t : ℕ) → s'.pool ≡ s.pool → Becomes (running t) ready s.workers s'.workers → Step s s'
  -- the caller has the lock back and leaves exec_task
  returns :
      s.pool.caller ≡ signalled
      → s'.pool ≡ record s.pool { caller = free }
      → s'.workers ≡ s.workers
      → Step s s'

-- What the program does not reckon with.
pub data Fault (s : State) (s' : State) : Type 0 where
  -- the wait on recv_task ends by itself
  wakes_caller :
      s.pool.caller ≡ waiting
      → s'.pool ≡ record s.pool { caller = signalled }
      → s'.workers ≡ s.workers
      → Fault s s'
  -- exec_task starts a thread, and there is none
  no_thread :
      (t : ℕ) (core : Bool)
      → s.pool.caller ≡ free
      → exec_task t s.pool ≡ (s'.pool, spawn core)
      → s'.workers ≡ s.workers
      → Fault s s'

abbrev pub start : State
start = record { pool = reset_pool; workers = [] }

-- Where the steps lead, and whether there was no fault among them.
pub data Reach : Bool → State → Type 0 where
  initial : Reach true start
  next : {ok : Bool} {s : State} (s' : State) → Reach ok s → Step s s' → Reach ok s'
  faulty : {ok : Bool} {s : State} (s' : State) → Reach ok s → Fault s s' → Reach false s'
