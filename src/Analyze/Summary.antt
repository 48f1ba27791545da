-- ===== src/Analyze/Summary.antt =====
-- `summarize_run` of src/analyze.c. Counters are plain numbers: none exceeds the number of records.
use comp.Shared.{
  ℕ, suc, not, ◌&&◌, Option, some, List, [], ◌∷◌, ◌==◌, if◌then◌else◌, length, get_elem?, ◌>>=◌,
}
use comp.Workload.Records.{Record, RunResult, is_started}
use comp.Analyze.{Doubles, median_of, spread_of, classify_latency}
use comp.Analyze.Scan.{Event, Invariant, sub64, microseconds, invariant_scan, episode_window_us}

-- `wl_summary`
pub record Summary (D : Type 0) : Type 0 where
  pub queued : ℕ
  pub completed : ℕ
  pub started : ℕ
  pub shard0_count : ℕ
  pub shard1_count : ℕ
  pub median_latency_us : D
  pub spread_latency_us : D
  pub max_latency_us : D
  pub bug_count : ℕ
  pub bug_fraction : D
  pub shard0_median_latency_us : D
  pub shard1_median_latency_us : D
  pub window_us : D
  pub violation_us : D
  pub span_us : D
  pub episodes : ℕ
  pub violation_fraction : D

-- `lat`, `lat0` and `lat1`
pub record Latencies (D : Type 0) : Type 0 where
  pub all : List D
  pub shard0 : List D
  pub shard1 : List D

module _ {D : Type 0} (double : Doubles D) where
  abbrev pub nought : D
  nought = double.number 0

  unfoldable pub latency : Record D → D
  latency r = microseconds double (sub64 r.start_ns r.ready_ns)

  -- The first loop.
  unfoldable pub latencies : List (Record D) → Latencies D
  unfolding latency
  latencies [] = record { all = []; shard0 = []; shard1 = [] }
  latencies (r ∷ rs) =
      let rest = latencies rs in
      let us = latency r in
      if is_started r
      then if r.shard == 0
        then record { all = us ∷ rest.all; shard0 = us ∷ rest.shard0; shard1 = rest.shard1 }
        else record { all = us ∷ rest.all; shard0 = rest.shard0; shard1 = us ∷ rest.shard1 }
      else rest

  -- The second loop, from its maximum and its count so far.
  unfoldable pub max_and_bugs : D → List D → D → ℕ → D × ℕ
  unfolding classify_latency
  max_and_bugs median [] max_us bug = (max_us, bug)
  max_and_bugs median (us ∷ rest) max_us bug =
      max_and_bugs median rest (if double.lt max_us us then us else max_us)
        (if classify_latency double us median then suc bug else bug)

  abbrev pub empty_summary : RunResult D → Summary D
  empty_summary run = record {
    queued = run.queued;
    completed = run.completed;
    started = 0;
    shard0_count = run.shard0_count;
    shard1_count = run.shard1_count;
    median_latency_us = nought;
    spread_latency_us = nought;
    max_latency_us = nought;
    bug_count = 0;
    bug_fraction = nought;
    shard0_median_latency_us = nought;
    shard1_median_latency_us = nought;
    window_us = nought;
    violation_us = nought;
    span_us = nought;
    episodes = 0;
    violation_fraction = double.minus nought (double.number 1);
  }

  module _ (qsort : List D → List D) (qsort_events : List Event → List Event) where
    abbrev pub median_or_nought : List D → Option D
    median_or_nought [] = some nought
    median_or_nought (us ∷ rest) = median_of double qsort (us ∷ rest)

    -- From the medians and the spread on.
    unfoldable pub summary_of : RunResult D → List D → D → D → D → D → D → Summary D
    unfolding max_and_bugs invariant_scan episode_window_us
    summary_of run lat first median spread median0 median1 =
        let (max_us, bug) = max_and_bugs median lat first 0 in
        let window = episode_window_us double median in
        let inv : Invariant D = invariant_scan double run.workers window qsort_events run.records in
        record {
          queued = run.queued;
          completed = run.completed;
          started = length lat;
          shard0_count = run.shard0_count;
          shard1_count = run.shard1_count;
          median_latency_us = median;
          spread_latency_us = spread;
          max_latency_us = max_us;
          bug_count = bug;
          bug_fraction = double.divide (double.number bug) (double.number (length lat));
          shard0_median_latency_us = median0;
          shard1_median_latency_us = median1;
          window_us = window;
          violation_us = inv.violation_us;
          span_us = inv.span_us;
          episodes = inv.episodes;
          violation_fraction =
              if not (double.lt inv.violation_us nought) && double.lt nought inv.span_us
              then double.divide inv.violation_us inv.span_us
              else double.minus nought (double.number 1);
        }

    -- No result where an array is read out of bounds.
    unfoldable pub summarize_run : RunResult D → Option (Summary D)
    unfolding latencies median_of spread_of summary_of
    summarize_run run =
        let lats = latencies run.records in
        if length lats.all == 0 then some (empty_summary run) else do
          median ← median_of double qsort lats.all
          spread ← spread_of double lats.all
          median0 ← median_or_nought lats.shard0
          median1 ← median_or_nought lats.shard1
          first ← get_elem? lats.all 0
          some (summary_of run lats.all first median spread median0 median1)
