-- ===== src/Analyze/Summing.antt =====
-- What `summarize_run` of src/analyze.c says of a run.
use comp.Analyze.Extent.{invariant_scan-Spanning, Spanning}
use mathlib.Core.Path.{subst}
use comp.Analyze.Contract.{SortsByTime, invariant_scan-Maximal}
use comp.Analyze.Deltas.{AllInOrder}
use comp.Analyze.Episodes.{Interval, Maximal, violated_at, is_long, total}
use comp.Shared.{
  ℕ, suc, ◌+◌, ◌-◌, ◌/◌, ◌%◌, ◌≡◌, ◌∙◌, ap, refl, ◌<◌, some, List, [], ◌∷◌, Mem, if◌then◌else◌,
  arith, inl, inr, Bool-cases, length, ◌==◌, ◌^◌, sym, List-cases, true, false, get_elem?,
  bind_some, ◌⊎◌,
}
use comp.Workload.Records.{Record, RunResult, is_started}
use comp.Analyze.{Doubles, median_of, classify_latency, spread_of, true, false, get_elem?}
use comp.Analyze.Order.{Ordered, Sorts, count, length-Rearranged, get_elem?-in, some_inj}
use comp.Analyze.Spread.{AtMost, high_step, Extremes, spread_of-Extremes}
use comp.Analyze.Scan.{Event, episode_window_us, microseconds, sub64}
use comp.Analyze.Summary.{
  latencies, max_and_bugs, median_or_nought, Summary, summary_of, summarize_run, empty_summary,
}

module _ {D : Type 0} (double : Doubles D) where
  latencies-all : (rs : List (Record D)) → length (latencies double rs).all ≡ count is_started rs
  unfolding latencies
  latencies-all [] = refl
  latencies-all (r ∷ rs) =
      let ih = latencies-all rs in
      elim (Bool-cases (is_started r)) [
        | inr n ↦ rw n ih
        | inl y ↦ elim (Bool-cases (r.shard == 0)) [
          | inl z ↦ rw (y, z) (ap suc ih)
          | inr z ↦ rw (y, z) (ap suc ih)
        ]
      ]

  latencies-shards :
      (rs : List (Record D))
      → length (latencies double rs).shard0 + length (latencies double rs).shard1
        ≡ length (latencies double rs).all
  unfolding latencies
  latencies-shards [] = omega arith
  latencies-shards (r ∷ rs) =
      let ih = latencies-shards rs in
      elim (Bool-cases (is_started r)) [
        | inr n ↦ rw n ih
        | inl y ↦ elim (Bool-cases (r.shard == 0)) [
          | inl z ↦ rw (y, z) (omega arith)
          | inr z ↦ rw (y, z) (omega arith)
        ]
      ]

  max_and_bugs-count :
      (median : D) (lat : List D) (max_us : D) (bug : ℕ)
      → (max_and_bugs double median lat max_us bug).1
        ≡ bug + count (λ us. classify_latency double us median) lat
  unfolding max_and_bugs
  max_and_bugs-count median [] max_us bug = omega arith
  max_and_bugs-count median (us ∷ lat) max_us bug =
      max_and_bugs-count median lat _ _ ∙ elim (Bool-cases (classify_latency double us median)) [
        | inl y ↦ rw y (omega arith)
        | inr n ↦ rw n refl
      ]

  max_and_bugs-most :
      (order : Ordered double) (median : D) (lat : List D) (max_us : D) (bug : ℕ)
      → let m = (max_and_bugs double median lat max_us bug).0 in
        Mem m (max_us ∷ lat) × AtMost double m (max_us ∷ lat)
  unfolding max_and_bugs
  max_and_bugs-most order median [] max_us bug = (inl refl, (order.irreflexive max_us, tt))
  max_and_bugs-most order median (us ∷ lat) max_us bug =
      let (mem, most) =
        max_and_bugs-most order median lat (if double.lt max_us us then us else max_us) _ in
      high_step double order us max_us _ lat mem most

  module _ (qsort : List D → List D) (sorts : Sorts double qsort) where
    median_of-some : (v : List D) → 0 < length v → (m : D) × (median_of double qsort v ≡ some m)
    unfolding median_of
    median_of-some v h =
        let len = length-Rearranged (sorts.rearranges v) in
        elim (Bool-cases (length v % 2 == 1)) [
          | inl odd ↦
              let (m, e) = get_elem?-in (qsort v) (length v / 2) (omega arith) in (m, rw odd e)
          | inr even ↦
              let (lo, e) = get_elem?-in (qsort v) (length v / 2 - 1) (omega arith) in
              let (hi, f) = get_elem?-in (qsort v) (length v / 2) (omega arith) in
              (double.halve (double.plus lo hi), rw (even, e, f) refl)
        ]

    median_or_nought-some :
        (qsort_events : List Event → List Event) (v : List D)
        → (m : D) × (median_or_nought double qsort qsort_events v ≡ some m)
    median_or_nought-some qsort_events [] = (double.number 0, refl)
    median_or_nought-some qsort_events (us ∷ v) = median_of-some (us ∷ v) (omega arith)

    spread_of-some : (v : List D) → 0 < length v → (m : D) × (spread_of double v ≡ some m)
    unfolding spread_of
    spread_of-some [] h = absurd (omega arith)
    spread_of-some (us ∷ v) h = (_, refl)

  -- What a summary promises of a run in which a task started.
  pub record Summarises (qsort : List D → List D) (run : RunResult D) (s : Summary D) : Type 0 where
    pub median :
        median_of double qsort (latencies double run.records).all ≡ some s.median_latency_us
    pub spread :
        (low : D) × (high : D) × Extremes double
          (latencies double run.records).all
          (latencies double run.records).all
          (low, high)
        × (s.spread_latency_us ≡ double.minus high low)
    pub span :
        (first : ℕ) × (last : ℕ) × Spanning run.records first last
        × (s.span_us ≡ microseconds double (sub64 last first))
    pub bugs :
        s.bug_count
        ≡ count
            (λ us. double.lt (double.times (double.number 10) s.median_latency_us) us)
            (latencies double run.records).all
    pub bug_part :
        s.bug_fraction ≡ double.divide (double.number s.bug_count) (double.number s.started)
    pub max_in : Mem s.max_latency_us (latencies double run.records).all
    pub max_most : AtMost double s.max_latency_us (latencies double run.records).all
    pub window : s.window_us ≡ (
        if double.lt (double.number 0) s.median_latency_us
        then double.times (double.number 100) s.median_latency_us
        else double.number 1)
    pub episodes :
        (is : List Interval) × Maximal (violated_at run.workers run.records) is
        × (s.episodes ≡ count (is_long double s.window_us) is % 2 ^ 32)
        × (s.violation_us ≡ total double s.window_us (double.number 0) is)

  module _ (qsort : List D → List D) (qsort_events : List Event → List Event) where
    summary_of-Summarises :
        (order : Ordered double)
        → SortsByTime qsort_events
        → (run : RunResult D) → AllInOrder run.records
        → (first : D) (rest : List D) → (latencies double run.records).all ≡ first ∷ rest
        → (median spread median0 median1 : D)
        → median_of double qsort (latencies double run.records).all ≡ some median
        → spread_of double (latencies double run.records).all ≡ some spread
        → let lat = (latencies double run.records).all in
          Summarises qsort run
            (summary_of double qsort qsort_events run lat first median spread median0 median1)
    unfolding summary_of classify_latency episode_window_us
    summary_of-Summarises order sorts run times first rest e median spread median0 median1 em es =
        let lat = (latencies double run.records).all in
        let window = episode_window_us double median in
        let (is, maximal, reports) =
          invariant_scan-Maximal double window run.workers qsort_events sorts run.records times in
        let (mem, most) = max_and_bugs-most order median lat first 0 in
        let started : 0 < count is_started run.records =
          let k = ap length e in let n = latencies-all run.records in omega arith in
        let (earliest, last, spanning, span) =
          invariant_scan-Spanning double run.workers window qsort_events run.records started in
        let (lowhigh, eq, extremes) = spread_of-Extremes double order first rest in
        let same : spread ≡ double.minus lowhigh.1 lowhigh.0 =
          some_inj (sym es ∙ ap (spread_of double) e ∙ eq) in
        record {
          median = em;
          spread = (
            lowhigh.0,
            lowhigh.1,
            subst (λ l. Extremes double l l lowhigh) (sym e) extremes,
            same,
          );
          span = (earliest, last, spanning, span);
          bugs = max_and_bugs-count median lat first 0 ∙ omega arith;
          bug_part = refl;
          max_in = elim mem [ inl m ↦ subst (Mem _) (sym e) (inl m) | inr m ↦ m ];
          max_most = most.1;
          window = refl;
          episodes = (is, maximal, reports.0, reports.1);
        }

    -- With qsorts that sort, ordered doubles, and tasks whose times are in order, summarize_run
    -- reads no array out of bounds and counts the tasks that started. If one did, it reports their
    -- median latency, the greatest, the greatest less the least, as bug-length those above ten
    -- medians, the time from the first ready to the last end, and the episodes of the contract that
    -- are longer than the window for that median; if none did, no episode.
    pub summarize_run-Summarises :
        Ordered double
        → Sorts double qsort
        → SortsByTime qsort_events
        → (run : RunResult D) → AllInOrder run.records
        → (s : Summary D) × (summarize_run double qsort qsort_events run ≡ some s)
          × (s.started ≡ count is_started run.records)
          × (((s.started ≡ 0) × (s.episodes ≡ 0)) ⊎ ((0 < s.started) × Summarises qsort run s))
    unfolding summarize_run
    summarize_run-Summarises order sorts sorts_events run times =
        let lats = latencies double run.records in
        let all = latencies-all run.records in
        elim (List-cases lats.all) [
          | inl none_in ↦
              let z : length lats.all ≡ 0 = ap length none_in in
              let test : (length lats.all == 0) ≡ true = ground arith in
              (empty_summary double run, rw test refl, sym z ∙ all, inl (refl, refl))
          | inr (first, rest, e) ↦
              let n : 0 < length lats.all = let k = ap length e in omega arith in
              let test : (length lats.all == 0) ≡ false = ground arith in
              let (median, em) = median_of-some qsort sorts lats.all n in
              let (spread, es) = spread_of-some qsort sorts lats.all n in
              let (median0, e0) = median_or_nought-some qsort sorts qsort_events lats.shard0 in
              let (median1, e1) = median_or_nought-some qsort sorts qsort_events lats.shard1 in
              let s =
                summary_of double qsort qsort_events run lats.all first median spread median0
                  median1 in
              (
                s,
                rw test (
                    bind_some _ em (
                      bind_some _ es (
                        bind_some _ e0
                          (bind_some _ e1 (bind_some _ (ap (λ l. get_elem? l 0) e) refl))))),
                all,
                inr (
                  n,
                  summary_of-Summarises order sorts_events run times first rest e median spread
                      median0 median1 em es,
                ),
              )
        ]
