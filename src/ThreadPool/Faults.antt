-- ===== src/ThreadPool/Faults.antt =====
-- What native/src/core/thread.cpp keeps along every interleaving, also when the wait on recv_task ends
-- by itself or a thread is not started.
use kitsune_ufork.Common.{
  ℕ, ◌+◌, ◌≤◌, ◌<◌, Bool, true, false, none, some, List, [], ◌∷◌, ◌++◌, ◌≡◌, refl, sym, ◌∙◌, subst,
  arith, length, Option,
}
use kitsune_ufork.ThreadPool.{
  Pool, Worker, Stage, ready, asleep, awake, running, enter, wake, expire, exec_task, reset_pool,
  spawn, signal,
}
use kitsune_ufork.ThreadPool.Steps.{
  State, Becomes, Step, spawns, signals, enters, wakes, times_out, continues, expires, finishes,
  returns, Fault, wakes_caller, no_thread, Reach, initial, next, faulty,
}
use kitsune_ufork.ThreadPool.Invariant.{
  idle, count_idle, count_core, IsSound, Becomes-counts, TimesOut-counts, Ends-counts,
  count_core-le-length, start-IsSound, Step-IsSound,
}

-- The first list is the second with some elements left out.
pub data Sub : List ℕ → List ℕ → Type 0 where
  nothing : (ys : List ℕ) → Sub [] ys
  kept : (x : ℕ) {xs ys : List ℕ} → Sub xs ys → Sub (x ∷ xs) (x ∷ ys)
  left_out : (y : ℕ) {xs ys : List ℕ} → Sub xs ys → Sub xs (y ∷ ys)

Sub-more : (t : ℕ) {xs ys : List ℕ} → Sub xs ys → Sub xs (ys ++ t ∷ [])
Sub-more t (Sub.nothing ys) = Sub.nothing _
Sub-more t (Sub.kept x r) = Sub.kept x (Sub-more t r)
Sub-more t (Sub.left_out y r) = Sub.left_out y (Sub-more t r)

Sub-one : (t : ℕ) (ys : List ℕ) → Sub (t ∷ []) (ys ++ t ∷ [])
Sub-one t [] = Sub.kept t (Sub.nothing [])
Sub-one t (y ∷ ys) = Sub.left_out y (Sub-one t ys)

Sub-last : (t : ℕ) {xs ys : List ℕ} → Sub xs ys → Sub (xs ++ t ∷ []) (ys ++ t ∷ [])
Sub-last t (Sub.nothing ys) = Sub-one t ys
Sub-last t (Sub.kept x r) = Sub.kept x (Sub-last t r)
Sub-last t (Sub.left_out y r) = Sub.left_out y (Sub-last t r)

-- The tasks that were started, and then the pending one, are accepted ones in their order.
pub record InOrder (p : Pool) : Type 0 where
  pub began : Sub p.started p.accepted
  pub then_pending : (t : ℕ) → p.pending_task ≡ some t → Sub (p.started ++ t ∷ []) p.accepted

-- The counters: total_threads counts also the threads that were not started.
pub record IsCounted (s : State) : Type 0 where
  pub idle_counts : s.pool.idle_threads ≡ count_idle s.workers
  pub total_counts : length s.workers ≤ s.pool.total_threads
  pub few_core : count_core s.workers ≤ 3

given :
    (t : ℕ) (p p' : Pool)
    → InOrder p
    → p'.started ≡ p.started
    → p'.accepted ≡ p.accepted ++ t ∷ []
    → p'.pending_task ≡ some t
    → InOrder p'
given t p p' v s a n = record {
  began = rw (s, a) (Sub-more t v.began);
  then_pending =
      λ u e. let same : t ≡ u = ground (arith, n, e) in rw (s, a, sym same) (Sub-last t v.began);
}

-- Nothing but the counters and the caller has changed.
kept_order :
    (p p' : Pool)
    → InOrder p
    → p'.started ≡ p.started
    → p'.accepted ≡ p.accepted
    → p'.pending_task ≡ p.pending_task
    → InOrder p'
kept_order p p' v s a n = record {
  began = rw (s, a) v.began;
  then_pending = λ u e. rw (s, a) (v.then_pending u (sym n ∙ e));
}

taken :
    (t : ℕ) (p p' : Pool)
    → InOrder p
    → p.pending_task ≡ some t
    → p'.started ≡ p.started ++ t ∷ []
    → p'.accepted ≡ p.accepted
    → p'.pending_task ≡ none
    → InOrder p'
taken t p p' v e s a n = record {
  began = rw (s, a) (v.then_pending t e);
  then_pending = λ u f. absurd (ground (arith, n, f));
}

exec_task-InOrder :
    (t : ℕ) (p p' : Pool) (core : Bool) → InOrder p → exec_task t p ≡ (p', spawn core) → InOrder p'
unfolding exec_task
exec_task-InOrder t p p' core v e =
    given t p p' v (ground (arith, e)) (ground (arith, e)) (ground (arith, e))

signal-InOrder : (t : ℕ) (p p' : Pool) → InOrder p → exec_task t p ≡ (p', signal) → InOrder p'
unfolding exec_task
signal-InOrder t p p' v e =
    given t p p' v (ground (arith, e)) (ground (arith, e)) (ground (arith, e))

enter-InOrder :
    (p p' : Pool) (g : Stage) (o : Option ℕ)
    → p.pending_task ≡ o
    → enter p ≡ (p', g)
    → InOrder p
    → InOrder p'
unfolding enter
enter-InOrder p p' g none n e v =
    kept_order p p' v (ground (arith, n, e)) (ground (arith, n, e)) (ground (arith, n, e))
enter-InOrder p p' g (some t) n e v =
    taken t p p' v n (ground (arith, n, e)) (ground (arith, n, e)) (ground (arith, n, e))

wake-InOrder :
    (p p' : Pool) (g : Stage) (o : Option ℕ)
    → p.pending_task ≡ o
    → wake p ≡ (p', g)
    → InOrder p
    → InOrder p'
unfolding wake
wake-InOrder p p' g none n e v =
    kept_order p p' v (ground (arith, n, e)) (ground (arith, n, e)) (ground (arith, n, e))
wake-InOrder p p' g (some t) n e v =
    taken t p p' v n (ground (arith, n, e)) (ground (arith, n, e)) (ground (arith, n, e))

same_pool : (p p' : Pool) → p' ≡ p → InOrder p → InOrder p'
same_pool p p' e v = subst InOrder (sym e) v

Step-InOrder : (s s' : State) → Step s s' → InOrder s.pool → InOrder s'.pool
unfolding expire
Step-InOrder s s' (spawns t c f e w) v = exec_task-InOrder t s.pool s'.pool c v e
Step-InOrder s s' (signals t f e w) v = signal-InOrder t s.pool s'.pool v e
Step-InOrder s s' (enters g e r) v = enter-InOrder s.pool s'.pool g s.pool.pending_task refl e v
Step-InOrder s s' (wakes e r) v = same_pool s.pool s'.pool e v
Step-InOrder s s' (times_out e r) v = same_pool s.pool s'.pool e v
Step-InOrder s s' (continues g e r) v = wake-InOrder s.pool s'.pool g s.pool.pending_task refl e v
Step-InOrder s s' (expires e r) v =
    kept_order s.pool s'.pool v (ground (arith, e)) (ground (arith, e)) (ground (arith, e))
Step-InOrder s s' (finishes t e r) v = same_pool s.pool s'.pool e v
Step-InOrder s s' (returns f e w) v =
    kept_order s.pool s'.pool v (ground (arith, e)) (ground (arith, e)) (ground (arith, e))

Fault-InOrder : (s s' : State) → Fault s s' → InOrder s.pool → InOrder s'.pool
Fault-InOrder s s' (wakes_caller f e w) v =
    kept_order s.pool s'.pool v (ground (arith, e)) (ground (arith, e)) (ground (arith, e))
Fault-InOrder s s' (no_thread t c f e w) v = exec_task-InOrder t s.pool s'.pool c v e

-- A worker changes its stage, and idle_threads follows.
moved :
    (a b : Stage) (s s' : State)
    → Becomes a b s.workers s'.workers
    → s'.pool.total_threads ≡ s.pool.total_threads
    → s'.pool.idle_threads + idle a ≡ s.pool.idle_threads + idle b
    → IsCounted s
    → IsCounted s'
moved a b s s' r t n v =
    let (i, l, c) = Becomes-counts a b r in
    record {
      idle_counts = omega (arith, v.idle_counts, i, n);
      total_counts = omega (arith, v.total_counts, l, t);
      few_core = omega (arith, v.few_core, c);
    }

Becomes-idle : {g : Stage} {vs ws : List Worker} → Becomes awake g vs ws → 0 < count_idle vs
Becomes-idle (Becomes.here c ws) = omega arith
Becomes-idle (Becomes.there w r) = omega (arith, Becomes-idle r)

enter-counts :
    (p p' : Pool) (g : Stage) (o : Option ℕ)
    → p.pending_task ≡ o
    → enter p ≡ (p', g)
    → (p'.total_threads ≡ p.total_threads)
      × (p'.idle_threads + idle ready ≡ p.idle_threads + idle g)
unfolding enter
enter-counts p p' g none n e = ground (arith, n, e)
enter-counts p p' g (some t) n e = ground (arith, n, e)

wake-counts :
    (p p' : Pool) (g : Stage) (o : Option ℕ)
    → 0 < p.idle_threads
    → p.pending_task ≡ o
    → wake p ≡ (p', g)
    → (p'.total_threads ≡ p.total_threads)
      × (p'.idle_threads + idle awake ≡ p.idle_threads + idle g)
unfolding wake
wake-counts p p' g none k n e = ground (arith, k, n, e)
wake-counts p p' g (some t) k n e = ground (arith, k, n, e)

Step-IsCounted : (s s' : State) → Step s s' → IsCounted s → IsCounted s'
unfolding expire exec_task
Step-IsCounted s s' (spawns t c f e w) v = record {
  idle_counts = ground (arith, v.idle_counts);
  total_counts = ground (arith, v.total_counts);
  few_core = ground (arith, v.few_core, v.total_counts, count_core-le-length s.workers);
}
Step-IsCounted s s' (signals t f e w) v = record {
  idle_counts = ground (arith, v.idle_counts);
  total_counts = ground (arith, v.total_counts);
  few_core = ground (arith, v.few_core);
}
Step-IsCounted s s' (enters g e r) v =
    let (t, n) = enter-counts s.pool s'.pool g s.pool.pending_task refl e in
    moved ready g s s' r t n v
Step-IsCounted s s' (wakes e r) v =
    moved asleep awake s s' r (ground (arith, e)) (ground (arith, e)) v
Step-IsCounted s s' (times_out e r) v =
    let (i, l, c) = TimesOut-counts r in
    record {
      idle_counts = ground (arith, v.idle_counts, i);
      total_counts = ground (arith, v.total_counts, l);
      few_core = ground (arith, v.few_core, c);
    }
Step-IsCounted s s' (continues g e r) v =
    let (i, l, c) = Becomes-counts awake g r in
    let some_idle : 0 < s.pool.idle_threads = omega (arith, v.idle_counts, Becomes-idle r) in
    let (t, n) = wake-counts s.pool s'.pool g s.pool.pending_task some_idle refl e in
    moved awake g s s' r t n v
Step-IsCounted s s' (expires e r) v =
    let (i, l, c) = Ends-counts r in
    record {
      idle_counts = ground (arith, v.idle_counts, i);
      total_counts = ground (arith, v.total_counts, l);
      few_core = ground (arith, v.few_core, c);
    }
Step-IsCounted s s' (finishes t e r) v =
    moved (running t) ready s s' r (ground (arith, e)) (ground (arith, e)) v
Step-IsCounted s s' (returns f e w) v = record {
  idle_counts = ground (arith, v.idle_counts);
  total_counts = ground (arith, v.total_counts);
  few_core = ground (arith, v.few_core);
}

Fault-IsCounted : (s s' : State) → Fault s s' → IsCounted s → IsCounted s'
unfolding exec_task
Fault-IsCounted s s' (wakes_caller f e w) v = record {
  idle_counts = ground (arith, v.idle_counts);
  total_counts = ground (arith, v.total_counts);
  few_core = ground (arith, v.few_core);
}
Fault-IsCounted s s' (no_thread t c f e w) v = record {
  idle_counts = ground (arith, v.idle_counts);
  total_counts = ground (arith, v.total_counts);
  few_core = ground (arith, v.few_core);
}

-- Without a fault, all of it.
abbrev pub IsSoundIf : Bool → State → Type 0
IsSoundIf true s = IsSound s
IsSoundIf false s = Unit

Step-IsSoundIf : (ok : Bool) (s s' : State) → Step s s' → IsSoundIf ok s → IsSoundIf ok s'
Step-IsSoundIf true s s' m v = Step-IsSound s s' m v
Step-IsSoundIf false s s' m v = tt

-- Along every interleaving idle_threads counts the idle threads, total_threads at least the threads,
-- at most three threads are core ones, and the tasks that start are accepted ones in their order,
-- each once. As long as no wait on recv_task has ended by itself and every thread was started,
-- total_threads is exact and no accepted task is lost.
pub Reach-IsSound :
    (ok : Bool) (s : State) → Reach ok s → IsCounted s × InOrder s.pool × IsSoundIf ok s
unfolding reset_pool
Reach-IsSound ok s initial = (
  record { idle_counts = refl; total_counts = omega arith; few_core = omega arith },
  record { began = Sub.nothing []; then_pending = λ t e. absurd (ground (arith, e)) },
  start-IsSound,
)
Reach-IsSound ok s (next {s = r} _ reached step) =
    let (c, o, v) = Reach-IsSound ok r reached in
    (Step-IsCounted r s step c, Step-InOrder r s step o, Step-IsSoundIf ok r s step v)
Reach-IsSound ok s (faulty {ok = before} {s = r} _ reached fault) =
    let (c, o, v) = Reach-IsSound before r reached in
    (Fault-IsCounted r s fault c, Fault-InOrder r s fault o, tt)
