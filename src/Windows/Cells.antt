-- ===== src/Windows/Cells.antt =====
-- What the loop over the runs of tools/windows.c keeps of each run: the episodes are those of one
-- list of intervals, whichever the window.
use mathlib.Core.Path.{subst}
use comp.Shared.{
  zero, suc, ℕ, ◌%◌, ◌^◌, ◌≡◌, refl, false, some, List, [], ◌∷◌, if◌then◌else◌, inl, inr,
  Bool-cases, suc,
}
use comp.Workload.Records.{RunResult}
use comp.Analyze.{Doubles}
use comp.Analyze.Order.{Ordered, count}
use comp.Analyze.Scan.{Event, invariant_scan, microseconds, sub64}
use comp.Analyze.Episodes.{Interval, Maximal, violated_at, is_long, total, duration}
use comp.Analyze.Deltas.{AllInOrder}
use comp.Analyze.Contract.{SortsByTime, Reports, invariant_scan-Maximal}
use comp.Analyze.Unique.{Maximal-unique}
use comp.Windows.{WindowCell, scan_windows}

-- What holds of the sums of doubles that stand for lengths of time.
pub record NotNegative {D : Type 0} (double : Doubles D) : Type 0 where
  pub sums :
      (a b : D)
      → double.lt a (double.number 0) ≡ false
      → double.lt b (double.number 0) ≡ false
      → double.lt (double.plus a b) (double.number 0) ≡ false
  pub parts : (n : ℕ) → double.lt (microseconds double n) (double.number 0) ≡ false

module _ {D : Type 0} (double : Doubles D) where
  total-NotNegative :
      (min_us sum : D) (is : List Interval)
      → NotNegative double
      → double.lt sum (double.number 0) ≡ false
      → double.lt (total double min_us sum is) (double.number 0) ≡ false
  total-NotNegative min_us sum [] law h = h
  total-NotNegative min_us sum (i ∷ is) law h = elim (Bool-cases (is_long double min_us i)) [
    | inl y ↦ rw y (
        total-NotNegative min_us (double.plus sum (duration double min_us i)) is law
          (law.sums sum (duration double min_us i) h (law.parts (sub64 i.1 i.0))))
    | inr n ↦ rw n (total-NotNegative min_us sum is law h)
  ]

  module _ (qsort : List D → List D) (qsort_events : List Event → List Event) where
    -- What the window of `m` times the median makes of a run with the intervals `is`.
    abbrev pub cell_seen : RunResult D → List Interval → D → ℕ → WindowCell D
    cell_seen run is median_us m =
        let min_us = double.times (double.number m) median_us in
        let span = (invariant_scan double run.workers min_us qsort_events run.records).span_us in
        record {
          episodes = double.number (count (is_long double min_us) is % 2 ^ 32);
          fraction =
              if double.lt (double.number 0) span
              then double.divide (total double min_us (double.number 0) is) span
              else double.number 0;
        }

    abbrev pub cells_seen : RunResult D → List Interval → D → List ℕ → List (WindowCell D)
    cells_seen run is median_us [] = []
    cells_seen run is median_us (m ∷ ms) =
        cell_seen run is median_us m ∷ cells_seen run is median_us ms

    -- What the window of `m` times the median makes of `left` runs from the `k`-th on.
    abbrev pub window_column :
        (ℕ → RunResult D) → (ℕ → List Interval) → (ℕ → D) → ℕ → ℕ → ℕ → List (WindowCell D)
    window_column run is medians m zero k = []
    window_column run is medians m (suc left) k =
        cell_seen (run k) (is k) (medians k) m ∷ window_column run is medians m left (suc k)

    module _ (order : Ordered double) (law : NotNegative double) (sorts : SortsByTime qsort_events)
        (run : RunResult D) (ok : AllInOrder run.records) where
      -- The intervals that any window sees.
      pub intervals : (is : List Interval) × Maximal (violated_at run.workers run.records) is
      intervals =
          let (is, m, reports) =
            invariant_scan-Maximal double (double.number 0) run.workers qsort_events sorts
              run.records ok in
          (is, m)

      reported :
          (min_us : D)
          → Reports double min_us
              (invariant_scan double run.workers min_us qsort_events run.records)
              intervals.0
      reported min_us =
          let (js, m, reports) =
            invariant_scan-Maximal double min_us run.workers qsort_events sorts run.records ok in
          let same =
            Maximal-unique (violated_at run.workers run.records) js intervals.0 m intervals.1 in
          subst
            (λ l.
              Reports double min_us
                (invariant_scan double run.workers min_us qsort_events run.records) l)
            same reports

      pub scan_windows-cells :
          (median_us : D) (ms : List ℕ)
          → scan_windows double qsort qsort_events run median_us ms
            ≡ some (cells_seen run intervals.0 median_us ms)
      unfolding scan_windows
      scan_windows-cells median_us [] = refl
      scan_windows-cells median_us (m ∷ ms) =
          let min_us = double.times (double.number m) median_us in
          let r = reported min_us in
          let good =
            total-NotNegative min_us (double.number 0) intervals.0 law
              (order.irreflexive (double.number 0)) in
          rw (r.1, r.0, good, scan_windows-cells median_us ms) refl
