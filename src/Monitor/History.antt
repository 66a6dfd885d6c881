-- ===== src/Monitor/History.antt =====
-- Every history of the monitor of native/src/core/deny/ptrace.cpp.
use kitsune_ufork.Common.{
  ℕ, ◌≡◌, refl, ◌∙◌, Bool, true, false, ◌&&◌, Option, none, some, List, [], ◌∷◌, all, arith,
  Bool-cases, inl, inr,
}
use kitsune_ufork.OrderedMap.{int_key}
use kitsune_ufork.Deny.State.{Deny}
use kitsune_ufork.Deny.Invariant.{IsConsistent}
use kitsune_ufork.Deny.Lookup.{scans}
use kitsune_ufork.Monitor.{Env, Monitor, in_range}
use kitsune_ufork.Monitor.Zygote.{check_zygote}
use kitsune_ufork.Monitor.Events.{
  Status, wait_round, Notice, inotify_event, fresh_monitor, start_monitor,
}
use kitsune_ufork.Monitor.Sound.{IsSound, Keeps}
use kitsune_ufork.Monitor.Sound.Bounds.{
  Same, in_range_status, check_zygote-Same, wait_round-Same, inotify_event-Same,
}
use kitsune_ufork.Monitor.Sound.Rounds.{
  wait_round-IsSound, inotify_event-IsSound, check_zygote-IsSound, start_monitor-IsSound,
}

-- What happens to a monitor: waitpid reports, a timer, a notice. Each with its own answers.
pub data Event : Type 0 where
  waited : Env → ℕ → Status → Event
  alarm : Env → Event
  noticed : Env → Notice → Event

unfoldable pub handle_event : Event → Monitor → Option Monitor
unfolding wait_round check_zygote inotify_event
handle_event (waited e pid status) m = wait_round e pid status m
handle_event (alarm e) m = some (check_zygote e m)
handle_event (noticed e n) m = inotify_event e n m

abbrev pub and_next : Option Monitor → (Monitor → Option Monitor) → Option Monitor
and_next none f = none
and_next (some m) f = f m

unfoldable pub run_events : List Event → Monitor → Option Monitor
unfolding handle_event
run_events [] m = some m
run_events (ev ∷ evs) m = and_next (handle_event ev m) (run_events evs)

handle_event-IsSound : (ev : Event) (m : Monitor) → IsSound m → Keeps (handle_event ev m)
unfolding handle_event
handle_event-IsSound (waited e pid status) m s = wait_round-IsSound e pid status m s
handle_event-IsSound (alarm e) m s = check_zygote-IsSound e m s
handle_event-IsSound (noticed e n) m s = inotify_event-IsSound e n m s

and_next-Keeps :
    (r : Option Monitor) (f : Monitor → Option Monitor)
    → Keeps r
    → ((m : Monitor) → IsSound m → Keeps (f m))
    → Keeps (and_next r f)
and_next-Keeps none f k g = k
and_next-Keeps (some m) f k g = g m k

run_events-Keeps : (evs : List Event) (m : Monitor) → IsSound m → Keeps (run_events evs m)
unfolding run_events
run_events-Keeps [] m s = s
run_events-Keeps (ev ∷ evs) m s =
    and_next-Keeps (handle_event ev m) (run_events evs) (handle_event-IsSound ev m s)
      (run_events-Keeps evs)

-- The numbers of processes that an event brings are ones of the bitsets.
abbrev pub in_range_event : Event → Bool
in_range_event (waited e pid status) = in_range pid && in_range_status status
in_range_event (alarm e) = true
in_range_event (noticed e n) = true

-- No index outside of the bitsets, if the numbers are inside.
abbrev pub Within : Bool → Option Monitor → Type 0
Within inside none = Unit
Within inside (some m) = (inside && m.overrun) ≡ false

handle_event-Same :
    (ev : Event) (m : Monitor) → in_range_event ev ≡ true → IsSound m → Same m (handle_event ev m)
unfolding handle_event
handle_event-Same (waited e pid status) m k s =
    wait_round-Same e pid status m (ground (arith, k)) (ground (arith, k)) s.fits
handle_event-Same (alarm e) m k s = check_zygote-Same e m
handle_event-Same (noticed e n) m k s = inotify_event-Same e n m s.loaded

Within-outside : (inside : Bool) (r : Option Monitor) → inside ≡ false → Within inside r
Within-outside inside none h = tt
Within-outside inside (some m) h = ground (arith, h)

and_next-Within :
    (inside : Bool) (m : Monitor) (r : Option Monitor) (f : Monitor → Option Monitor)
    → Same m r
    → Keeps r
    → m.overrun ≡ false
    → ((n : Monitor) → IsSound n → n.overrun ≡ false → Within inside (f n))
    → Within inside (and_next r f)
and_next-Within inside m none f e k o g = tt
and_next-Within inside m (some n) f e k o g = g n k (e ∙ o)

run_events-Within :
    (evs : List Event) (m : Monitor)
    → IsSound m
    → m.overrun ≡ false
    → Within (all in_range_event evs) (run_events evs m)
unfolding run_events
run_events-Within [] m s o = ground (arith, o)
run_events-Within (ev ∷ evs) m s o = elim (Bool-cases (in_range_event ev)) [
  | inl k ↦ rw k (
      and_next-Within (all in_range_event evs) m (handle_event ev m) (run_events evs)
        (handle_event-Same ev m k s) (handle_event-IsSound ev m s) o (run_events-Within evs))
  | inr k ↦
      Within-outside (all in_range_event (ev ∷ evs)) (run_events (ev ∷ evs) m) (ground (arith, k))
]

starts-Same :
    (e : Env) (d : Deny)
    → d.loaded ≡ true
    → IsConsistent d
    → Same (fresh_monitor d) (start_monitor e d)
unfolding start_monitor
starts-Same e d up c =
    let m = check_zygote e (fresh_monitor d) in
    let s =
      check_zygote-IsSound e (fresh_monitor d)
        (record { ordered = λ p h. ground (arith, h); fits = c; loaded = up }) in
    rw (scans e.world m.deny s.loaded) (check_zygote-Same e (fresh_monitor d))

-- Started on a list that is loaded and fits, and after any sequence of events, whatever the system
-- answers, the monitor has read no iterator end() and no map that is not there, its list still fits,
-- and every process that it lets through to the check of its name was marked as looked at; and if
-- all numbers of processes that waitpid gives are from 1 to 32768, it has indexed no bitset outside
-- of its bits.
pub start_monitor-run_events :
    (e : Env) (evs : List Event) (d : Deny)
    → IsConsistent d
    → d.loaded ≡ true
    → Keeps (and_next (start_monitor e d) (run_events evs))
      × Within (all in_range_event evs) (and_next (start_monitor e d) (run_events evs))
start_monitor-run_events e evs d c up =
    let starts = start_monitor-IsSound e d c up in
    (
      and_next-Keeps (start_monitor e d) (run_events evs) starts (run_events-Keeps evs),
      and_next-Within (all in_range_event evs) (fresh_monitor d) (start_monitor e d)
          (run_events evs) (starts-Same e d up c) starts refl (run_events-Within evs),
    )
