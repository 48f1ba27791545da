-- ===== src/Analyze/Scan.antt =====
-- `invariant_scan` of src/analyze.c: the events of the tasks that started, and the sweep over them
-- in the order of time that finds the intervals in which a worker is idle while a task waits.
use comp.Shared.{
  ℕ, suc, ◌+◌, ◌-◌, ◌%◌, ◌^◌, Bool, false, not, ◌&&◌, ◌||◌, List, [], ◌∷◌, ◌==◌, if◌then◌else◌, ltb,
  add32, ℤ, pos, negsuc, ◌+ℤ◌, ltb_ℤ,
}
use comp.Workload.Records.{Record, is_started}
use comp.Analyze.{Doubles}

-- `invariant_event`
pub record Event : Type 0 where
  pub time_ns : ℕ
  pub waiting_delta : ℤ
  pub busy_delta : ℤ

-- `wl_invariant`
pub record Invariant (D : Type 0) : Type 0 where
  pub violation_us : D
  pub episodes : ℕ
  pub span_us : D

-- A difference of two timestamps, as `uint64_t`.
abbrev pub sub64 : ℕ → ℕ → ℕ
sub64 a b = (a + 2 ^ 64 - b) % 2 ^ 64

-- What the first loop keeps.
pub record Span : Type 0 where
  pub started : ℕ
  pub earliest_ready : ℕ
  pub latest_end : ℕ

module _ {D : Type 0} where
  -- The body of the first loop.
  unfoldable pub widen : Span → Record D → Span
  widen s r =
      if is_started r
      then record {
        started = suc s.started;
        earliest_ready =
            if (s.started == 0) || ltb r.ready_ns s.earliest_ready
            then r.ready_ns
            else s.earliest_ready;
        latest_end =
            if (s.started == 0) || ltb s.latest_end r.end_ns then r.end_ns else s.latest_end;
      }
      else s

  unfoldable pub span_of : List (Record D) → Span → Span
  unfolding widen
  span_of [] s = s
  span_of (r ∷ rs) s = span_of rs (widen s r)

  abbrev pub ready_event : Record D → Event
  ready_event r = record { time_ns = r.ready_ns; waiting_delta = pos 1; busy_delta = pos 0 }

  abbrev pub start_event : Record D → Event
  start_event r = record { time_ns = r.start_ns; waiting_delta = negsuc 0; busy_delta = pos 1 }

  abbrev pub end_event : Record D → Event
  end_event r = record { time_ns = r.end_ns; waiting_delta = pos 0; busy_delta = negsuc 0 }

  -- The second loop.
  unfoldable pub events_of : List (Record D) → List Event
  events_of [] = []
  events_of (r ∷ rs) =
      let rest = events_of rs in
      if is_started r then ready_event r ∷ (start_event r ∷ (end_event r ∷ rest)) else rest

-- What the sweep keeps between two groups of events.
pub record Sweep (D : Type 0) : Type 0 where
  pub waiting : ℤ
  pub busy : ℤ
  pub in_episode : Bool
  pub episode_start : ℕ
  pub episodes : ℕ
  pub violation_us : D

abbrev pub now_violated : ℕ → ℤ → ℤ → Bool
now_violated workers waiting busy = ltb_ℤ (pos 0) waiting && ltb_ℤ busy (pos workers)

module _ {D : Type 0} (double : Doubles D) where
  abbrev pub microseconds : ℕ → D
  microseconds ns = double.divide (double.number ns) (double.number 1000)

  abbrev pub at_rest : Sweep D
  at_rest = record {
    waiting = pos 0;
    busy = pos 0;
    in_episode = false;
    episode_start = 0;
    episodes = 0;
    violation_us = double.number 0;
  }

module _ {D : Type 0} (double : Doubles D) (min_episode_us : D) where
  -- An episode that ends is counted if it is longer than the window.
  unfoldable pub close : Sweep D → ℕ → Sweep D
  close s time_ns =
      let duration_us = microseconds double (sub64 time_ns s.episode_start) in
      if double.lt min_episode_us duration_us
      then record s {
        episodes = add32 s.episodes 1;
        violation_us = double.plus s.violation_us duration_us;
      }
      else s

module _ {D : Type 0} (double : Doubles D) (workers : ℕ) (min_episode_us : D) where
  -- The rest of the body of the outer loop, after the group of the events at `time_ns`.
  unfoldable pub group_end : Sweep D → ℕ → ℤ → ℤ → Sweep D
  unfolding close ◌+ℤ◌
  group_end s time_ns waiting_delta busy_delta =
      let waiting = s.waiting +ℤ waiting_delta in
      let busy = s.busy +ℤ busy_delta in
      let now = now_violated workers waiting busy in
      let seen : Sweep D =
        if s.in_episode && not now
        then close double min_episode_us s time_ns
        else if not s.in_episode && now
        then record s { episode_start = time_ns }
        else s in
      record seen { waiting = waiting; busy = busy; in_episode = now }

  -- The two loops as one, from the event at hand and the sums of its group so far: the inner loop
  -- goes on while the next event has the same time.
  unfoldable pub sweep_from : Event → List Event → Sweep D → ℤ → ℤ → Sweep D
  unfolding group_end ◌+ℤ◌
  sweep_from e [] s w b = group_end s e.time_ns (w +ℤ e.waiting_delta) (b +ℤ e.busy_delta)
  sweep_from e (f ∷ es) s w b =
      let w' = w +ℤ e.waiting_delta in
      let b' = b +ℤ e.busy_delta in
      let grouped = sweep_from f es s w' b' in
      let next = sweep_from f es (group_end s e.time_ns w' b') (pos 0) (pos 0) in
      if f.time_ns == e.time_ns then grouped else next

  unfoldable pub sweep : List Event → Sweep D → Sweep D
  unfolding sweep_from
  sweep [] s = s
  sweep (e ∷ es) s = sweep_from e es s (pos 0) (pos 0)

  unfoldable pub invariant_scan : (List Event → List Event) → List (Record D) → Invariant D
  unfolding span_of events_of sweep
  invariant_scan qsort records =
      let span = span_of records (record { started = 0; earliest_ready = 0; latest_end = 0 }) in
      let swept = sweep (qsort (events_of records)) (at_rest double) in
      if span.started == 0
      then record { violation_us = double.number 0; episodes = 0; span_us = double.number 0 }
      else record {
        violation_us = swept.violation_us;
        episodes = swept.episodes;
        span_us = microseconds double (sub64 span.latest_end span.earliest_ready);
      }

module _ {D : Type 0} (double : Doubles D) where
  unfoldable pub episode_window_us : D → D
  episode_window_us median_latency_us =
      if double.lt (double.number 0) median_latency_us
      then double.times (double.number 100) median_latency_us
      else double.number 1
