-- ===== src/Analyze/Contract.antt =====
-- `invariant_scan` of src/analyze.c against its contract in src/analyze.h.
use comp.Shared.{
  ℕ, ◌+◌, ◌%◌, ◌^◌, ◌≡◌, ◌∙◌, sym, ap, refl, ◌≤◌, ◌<◌, false, ◌&&◌, List, [], ◌∷◌, All, ltb, leb,
  arith, inl, inr, Bool-cases, ℤ, pos, ◌+ℤ◌, int_laws, eq_of_parts, ◌==◌,
}
use comp.Analyze.{Doubles}
use comp.Workload.Records.{Record, is_started}
use comp.Analyze.Order.{Rearranged, count}
use comp.Analyze.Scan.{
  Event, Invariant, now_violated, span_of, events_of, sweep, at_rest, invariant_scan,
}
use comp.Analyze.Deltas.{
  waiting_of, busy_of, sum_to-Rearranged, All-Rearranged, AllInOrder, sum_to-waits, sum_to-works,
  waits-after, span_of-started, count-less,
}
use comp.Analyze.Episodes.{
  Interval, Maximal, Apart-mono, within-before, waits_at, works_at, violated_at, is_long, total,
  tally, tally-total,
}
use comp.Analyze.Sweeping.{ByTime, sum_to, sum_to-before, counts, All-gt}
use comp.Analyze.Sweeping.Loop.{sweep_from-Swept, violated}

-- What the C standard says of qsort with `compare_event_time`: events at the same time may come in
-- any order.
pub record SortsByTime (qsort : List Event → List Event) : Type 0 where
  pub rearranges : (es : List Event) → Rearranged es (qsort es)
  pub sorts : (es : List Event) → ByTime (qsort es)

now_violated-pos :
    (workers w b : ℕ) → now_violated workers (pos w) (pos b) ≡ (ltb 0 w && ltb b workers)
now_violated-pos workers w b = ground arith

module _ {D : Type 0} (double : Doubles D) (min_us : D) where
  -- What a scan reports of a set of intervals.
  abbrev pub Reports : Invariant D → List Interval → Type 0
  Reports out is =
      (out.episodes ≡ count (is_long double min_us) is % 2 ^ 32)
      × (out.violation_us ≡ total double min_us (double.number 0) is)

  module _ (workers : ℕ) (records : List (Record D)) (order : AllInOrder records) where
    abbrev sums_w : List Event → ℕ → ℤ
    sums_w es t = sum_to waiting_of t es

    abbrev sums_b : List Event → ℕ → ℤ
    sums_b es t = sum_to busy_of t es

    violated-violated_at :
        (es : List Event)
        → Rearranged (events_of records) es
        → (t : ℕ)
        → violated double workers min_us (sums_w es) (sums_b es) t ≡ violated_at workers records t
    violated-violated_at es r t =
        ap (λ x. now_violated workers x (sums_b es t))
          (sym (sum_to-Rearranged waiting_of t r) ∙ sum_to-waits t records order)
        ∙ ap (λ x. now_violated workers (pos (count (waits_at t) records)) x)
            (sym (sum_to-Rearranged busy_of t r) ∙ sum_to-works t records order)
        ∙ now_violated-pos workers _ _

    quiet :
        (es : List Event)
        → Rearranged (events_of records) es
        → (t : ℕ) → All (λ (e : Event). e.time_ns ≤ t) es
        → violated double workers min_us (sums_w es) (sums_b es) t ≡ false
    quiet es r t h =
        let z = waits-after t records (All-Rearranged (λ (e : Event). e.time_ns ≤ t) r h) in
        violated-violated_at es r t
        ∙ ap (λ n. ltb 0 n && ltb (count (works_at t) records) workers) z

    -- Before the first event the sums are nought.
    calm :
        (es : List Event) (t : ℕ)
        → All (λ (e : Event). t < e.time_ns) es
        → violated double workers min_us (sums_w es) (sums_b es) t ≡ false
    calm es t h =
        let z = sum_to-before waiting_of t es h in
        ap (λ x. now_violated workers x (sums_b es t)) z ∙ ground arith

    swept-Maximal :
        (es : List Event)
        → Rearranged (events_of records) es
        → ByTime es
        → (is : List Interval) × Maximal (violated_at workers records) is
          × (counts (sweep double workers min_us es (at_rest double))
              ≡ tally double min_us (0, double.number 0) is)
    unfolding sweep
    swept-Maximal [] r sorted = (
      [],
      record { apart = tt; exact = λ t. sym (violated-violated_at [] r t) ∙ calm [] t tt },
      refl,
    )
    swept-Maximal (e ∷ es) r sorted =
        let l = e ∷ es in
        let nought = λ (x : ℤ). eq_of_parts x (pos 0 +ℤ (pos 0 +ℤ x)) (omega int_laws) in
        let (is, closes) =
          sweep_from-Swept double workers min_us (sums_w l) (sums_b l) e es (at_rest double) (pos 0)
            (pos 0) sorted ((λ t k. nought (sums_w l t)), (λ t k. nought (sums_b l t)))
            (λ i. absurd (ground arith)) (quiet l r) in
        (
          is,
          record {
            apart = Apart-mono 0 e.time_ns is (omega arith) closes.1;
            exact = λ t. sym (violated-violated_at l r t) ∙ elim (Bool-cases (leb e.time_ns t)) [
              | inl y ↦ closes.2 t (ground arith)
              | inr n ↦
                  let lt : t < e.time_ns = ground arith in
                  calm l t (lt, All-gt t e.time_ns es lt sorted.0)
                  ∙ sym (within-before t e.time_ns is lt closes.1)
            ];
          },
          closes.0,
        )

    -- Where no task started nothing is violated.
    none_started : count is_started records ≡ 0 → Maximal (violated_at workers records) []
    none_started e = record {
      apart = tt;
      exact = λ t.
          let less = count-less (waits_at t) records (λ r n. rw n refl) in
          let z : count (waits_at t) records ≡ 0 = omega arith in rw z refl;
    }

  -- For tasks whose times are in order, and a qsort that sorts by time and may order ties as it
  -- likes, invariant_scan counts the episodes longer than the window, and adds up their lengths in
  -- order, where the episodes are the maximal intervals in which a task waits while fewer workers
  -- are busy than there are.
  pub invariant_scan-Maximal :
      (workers : ℕ) (qsort : List Event → List Event)
      → SortsByTime qsort
      → (records : List (Record D)) → AllInOrder records
      → (is : List Interval) × Maximal (violated_at workers records) is
        × Reports (invariant_scan double workers min_us qsort records) is
  unfolding invariant_scan
  invariant_scan-Maximal workers qsort sorts records order =
      let events = events_of records in
      let span = span_of records (record { started = 0; earliest_ready = 0; latest_end = 0 }) in
      let started =
        span_of-started records (record { started = 0; earliest_ready = 0; latest_end = 0 }) in
      let (is, maximal, counted) =
        swept-Maximal workers records order (qsort events) (sorts.rearranges events)
          (sorts.sorts events) in
      let zero_add : 0 + count (is_long double min_us) is ≡ count (is_long double min_us) is =
        omega arith in
      let reported = counted ∙ tally-total double min_us 0 (double.number 0) is (omega arith) in
      elim (Bool-cases (span.started == 0)) [
        | inl y ↦ ([], none_started workers records order (ground arith), rw y (refl, refl))
        | inr n ↦ (
          is,
          maximal,
          rw n (ap (λ x. x.0) reported ∙ ap (λ c. c % 2 ^ 32) zero_add, ap (λ x. x.1) reported),
        )
      ]
