-- ===== src/Windows/Tests.antt =====
-- The window tool on runs of four tasks, in whole numbers.
use comp.Shared.{ℕ, ◌≡◌, refl, true, none, some, List, pos, arith, ◌∷◌, []}
use comp.Workload.Records.{RunResult}
use comp.Audit.{number_of_runs}
use comp.Analyze.{median_of, spread_of}
use comp.Analyze.Scan.{invariant_scan}
use comp.Analyze.Episodes.{Interval, Maximal, violated_at}
use comp.Analyze.ScanTests.{sort_events, sort_events-SortsByTime, run, tasks-AllInOrder}
use comp.Analyze.Tests.{whole, whole-Ordered, sort, sort-Sorts}
use comp.Windows.{latencies_us, runs_of, WindowRow, windows_main, printed}
use comp.Windows.Cells.{NotNegative}
use comp.Windows.Columns.{Setting}
use comp.Windows.Rows.{Outcome, windows_main-Outcome}

abbrev runs : ℕ → RunResult ℕ
runs k = run

whole-NotNegative : NotNegative whole
whole-NotNegative = record { sums = λ a b h k. ground arith; parts = λ n. ground arith }

runs-Setting : Setting whole sort sort_events runs
runs-Setting = record {
  order = whole-Ordered;
  law = whole-NotNegative;
  sorts = sort-Sorts;
  sorts_events = sort_events-SortsByTime;
  in_order = λ k. tasks-AllInOrder;
  started = λ k. omega arith;
}

runs_of-edges :
    (runs_of (number_of_runs (pos 0)) ≡ none)
    × (runs_of (number_of_runs (pos 100)) ≡ some 100)
    × (runs_of (number_of_runs (pos 101)) ≡ none)
unfolding runs_of
runs_of-edges = (refl, refl, refl)

windows_main-Outcome_example :
    (is : ℕ → List Interval) × (med : ℕ → ℕ) × ((k : ℕ)
      → Maximal (violated_at (runs k).workers (runs k).records) (is k))
    × ((k : ℕ)
        → median_of whole sort (latencies_us whole sort sort_events (runs k).records)
          ≡ some (med k))
    × Outcome whole sort sort_events runs runs-Setting is med true 3 (number_of_runs (pos 2))
windows_main-Outcome_example =
    windows_main-Outcome whole sort sort_events runs runs-Setting true 3 (number_of_runs (pos 2))

-- The median latency is 0, so that every window counts the one episode, of 4 out of 12.
abbrev row_for : ℕ → WindowRow ℕ
row_for m = record {
  multiple = m;
  window_us = 0;
  episodes = 1;
  episodes_half_spread = 0;
  fraction = 0;
  fraction_half_spread = 0;
}

windows_main-two :
    windows_main whole sort sort_events runs true 3 (number_of_runs (pos 2))
    ≡ printed 2 0 (
        row_for 1
        ∷ (row_for 3
            ∷ (row_for 10 ∷ (row_for 30 ∷ (row_for 100 ∷ (row_for 300 ∷ (row_for 1000 ∷ [])))))))
unfolding windows_main median_of invariant_scan spread_of
windows_main-two = refl
