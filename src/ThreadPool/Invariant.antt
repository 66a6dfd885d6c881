-- ===== src/ThreadPool/Invariant.antt =====
-- What native/src/core/thread.cpp keeps along every interleaving without a fault.
use kitsune_ufork.Common.{
  ℕ, ◌+◌, ◌≤◌, Bool, true, false, Option, none, some, List, [], ◌∷◌, ◌++◌, ◌≡◌, ◌≢◌, refl, arith,
  length,
}
use mathlib.Core.List.{append-nil}
use kitsune_ufork.ThreadPool.{
  free, waiting, Worker, Stage, ready, asleep, awake, expired, running, enter, wake, expire,
  exec_task, reset_pool,
}
use kitsune_ufork.ThreadPool.Steps.{
  State, Becomes, TimesOut, Ends, Step, spawns, signals, enters, wakes, times_out, continues,
  expires, finishes, returns, start,
}

-- Between ++idle_threads and --idle_threads.
abbrev pub idle : Stage → ℕ
idle asleep = 1
idle awake = 1
idle expired = 1
idle s = 0

abbrev pub count_idle : List Worker → ℕ
count_idle [] = 0
count_idle (w ∷ ws) = idle w.stage + count_idle ws

abbrev core : Bool → ℕ
core true = 1
core false = 0

abbrev pub count_core : List Worker → ℕ
count_core [] = 0
count_core (w ∷ ws) = core w.is_core + count_core ws

abbrev pub pending : Option ℕ → List ℕ
pending none = []
pending (some t) = t ∷ []

-- The counters count; at most three threads are core ones; tasks start in the order in which they
-- were accepted, each once; a pending task has its caller waiting.
pub record IsSound (s : State) : Type 0 where
  pub idle_counts : s.pool.idle_threads ≡ count_idle s.workers
  pub total_counts : s.pool.total_threads ≡ length s.workers
  pub few_core : count_core s.workers ≤ 3
  pub in_order : s.pool.accepted ≡ s.pool.started ++ pending s.pool.pending_task
  pub waits : s.pool.pending_task ≢ none → s.pool.caller ≡ waiting

pub Becomes-counts :
    (a b : Stage) {vs ws : List Worker}
    → Becomes a b vs ws
    → (count_idle ws + idle a ≡ count_idle vs + idle b)
      × (length ws ≡ length vs)
      × (count_core ws ≡ count_core vs)
Becomes-counts a b (Becomes.here c ws) = (omega arith, refl, refl)
Becomes-counts a b (Becomes.there w r) =
    let (i, l, c) = Becomes-counts a b r in (omega arith, omega arith, omega arith)

pub TimesOut-counts :
    {vs ws : List Worker}
    → TimesOut vs ws
    → (count_idle ws ≡ count_idle vs) × (length ws ≡ length vs) × (count_core ws ≡ count_core vs)
TimesOut-counts (TimesOut.here ws) = (refl, refl, refl)
TimesOut-counts (TimesOut.there w r) =
    let (i, l, c) = TimesOut-counts r in (omega arith, omega arith, omega arith)

pub Ends-counts :
    {vs ws : List Worker}
    → Ends vs ws
    → (count_idle ws + 1 ≡ count_idle vs)
      × (length ws + 1 ≡ length vs)
      × (count_core ws ≤ count_core vs)
Ends-counts (Ends.here c ws) = (omega arith, omega arith, omega arith)
Ends-counts (Ends.there w r) =
    let (i, l, c) = Ends-counts r in (omega arith, omega arith, omega arith)

pub count_core-le-length : (ws : List Worker) → count_core ws ≤ length ws
count_core-le-length [] = omega arith
count_core-le-length (w ∷ ws) = ground (arith, count_core-le-length ws)

caller_free : (s : State) → IsSound s → s.pool.caller ≡ free → s.pool.pending_task ≡ none
caller_free s v f = go s.pool.pending_task refl
  where
    go : (o : Option ℕ) → s.pool.pending_task ≡ o → o ≡ none
    go none e = refl
    go (some t) e = absurd (ground (arith, v.waits (λ n. ground arith)))

enter-IsSound :
    (s s' : State) (g : Stage) (o : Option ℕ)
    → s.pool.pending_task ≡ o
    → enter s.pool ≡ (s'.pool, g)
    → Becomes ready g s.workers s'.workers
    → IsSound s
    → IsSound s'
unfolding enter
enter-IsSound s s' g none n e r v =
    let (i, l, c) = Becomes-counts ready g r in
    record {
      idle_counts = ground (arith, v.idle_counts, i);
      total_counts = ground (arith, v.total_counts, l);
      few_core = ground (arith, v.few_core, c);
      in_order = ground (arith, v.in_order);
      waits = ground (arith, n);
    }
enter-IsSound s s' g (some t) n e r v =
    let (i, l, c) = Becomes-counts ready g r in
    record {
      idle_counts = ground (arith, v.idle_counts, i);
      total_counts = ground (arith, v.total_counts, l);
      few_core = ground (arith, v.few_core, c);
      in_order = ground (arith, v.in_order, append-nil (s.pool.started ++ t ∷ []));
      waits = ground (arith, n);
    }

wake-IsSound :
    (s s' : State) (g : Stage) (o : Option ℕ)
    → s.pool.pending_task ≡ o
    → wake s.pool ≡ (s'.pool, g)
    → Becomes awake g s.workers s'.workers
    → IsSound s
    → IsSound s'
unfolding wake
wake-IsSound s s' g none n e r v =
    let (i, l, c) = Becomes-counts awake g r in
    record {
      idle_counts = ground (arith, v.idle_counts, i);
      total_counts = ground (arith, v.total_counts, l);
      few_core = ground (arith, v.few_core, c);
      in_order = ground (arith, v.in_order);
      waits = ground (arith, n);
    }
wake-IsSound s s' g (some t) n e r v =
    let (i, l, c) = Becomes-counts awake g r in
    record {
      idle_counts = ground (arith, v.idle_counts, i);
      total_counts = ground (arith, v.total_counts, l);
      few_core = ground (arith, v.few_core, c);
      in_order = ground (arith, v.in_order, append-nil (s.pool.started ++ t ∷ []));
      waits = ground (arith, n);
    }

pub Step-IsSound : (s s' : State) → Step s s' → IsSound s → IsSound s'
unfolding enter wake expire exec_task
Step-IsSound s s' (spawns t c f e w) v =
    let none_pending = caller_free s v f in
    record {
      idle_counts = ground (arith, v.idle_counts);
      total_counts = ground (arith, v.total_counts);
      few_core = ground (arith, v.few_core, v.total_counts, count_core-le-length s.workers);
      in_order = ground (arith, none_pending, v.in_order, append-nil s.pool.started);
      waits = λ n. ground arith;
    }
Step-IsSound s s' (signals t f e w) v =
    let none_pending = caller_free s v f in
    record {
      idle_counts = ground (arith, v.idle_counts);
      total_counts = ground (arith, v.total_counts);
      few_core = ground (arith, v.few_core);
      in_order = ground (arith, none_pending, v.in_order, append-nil s.pool.started);
      waits = λ n. ground arith;
    }
Step-IsSound s s' (enters g e r) v = enter-IsSound s s' g s.pool.pending_task refl e r v
Step-IsSound s s' (wakes e r) v =
    let (i, l, c) = Becomes-counts asleep awake r in
    record {
      idle_counts = ground (arith, v.idle_counts, i);
      total_counts = ground (arith, v.total_counts, l);
      few_core = ground (arith, v.few_core, c);
      in_order = ground (arith, v.in_order);
      waits = ground (arith, v.waits);
    }
Step-IsSound s s' (times_out e r) v =
    let (i, l, c) = TimesOut-counts r in
    record {
      idle_counts = ground (arith, v.idle_counts, i);
      total_counts = ground (arith, v.total_counts, l);
      few_core = ground (arith, v.few_core, c);
      in_order = ground (arith, v.in_order);
      waits = ground (arith, v.waits);
    }
Step-IsSound s s' (continues g e r) v = wake-IsSound s s' g s.pool.pending_task refl e r v
Step-IsSound s s' (expires e r) v =
    let (i, l, c) = Ends-counts r in
    record {
      idle_counts = ground (arith, v.idle_counts, i);
      total_counts = ground (arith, v.total_counts, l);
      few_core = ground (arith, v.few_core, c);
      in_order = ground (arith, v.in_order);
      waits = ground (arith, v.waits);
    }
Step-IsSound s s' (finishes t e r) v =
    let (i, l, c) = Becomes-counts (running t) ready r in
    record {
      idle_counts = ground (arith, v.idle_counts, i);
      total_counts = ground (arith, v.total_counts, l);
      few_core = ground (arith, v.few_core, c);
      in_order = ground (arith, v.in_order);
      waits = ground (arith, v.waits);
    }
Step-IsSound s s' (returns f e w) v = record {
  idle_counts = ground (arith, v.idle_counts);
  total_counts = ground (arith, v.total_counts);
  few_core = ground (arith, v.few_core);
  in_order = ground (arith, v.in_order);
  waits = ground (arith, v.waits);
}

pub start-IsSound : IsSound start
unfolding reset_pool
start-IsSound = record {
  idle_counts = refl;
  total_counts = refl;
  few_core = omega arith;
  in_order = refl;
  waits = λ n. absurd (n refl);
}
