-- ===== src/Windows/Columns.antt =====
-- The arrays of tools/windows.c after the loop over the runs, and what a column of them holds.
use comp.Shared.{
  none, ℕ, zero, suc, ◌+◌, ◌*◌, ◌≡◌, ◌<◌, ◌≤◌, ◌∙◌, ap, refl, some, List, [], ◌∷◌, ◌++◌, length,
  arith, inl, inr, Bool-cases, get_elem?,
}
use comp.Workload.Records.{Record, RunResult, is_started}
use comp.Analyze.{Doubles, median_of}
use comp.Analyze.Order.{Ordered, Sorts, count}
use comp.Analyze.Scan.{Event}
use comp.Analyze.Episodes.{Interval, Maximal, violated_at}
use comp.Analyze.Deltas.{AllInOrder}
use comp.Analyze.Contract.{SortsByTime}
use comp.Analyze.Median.{median_of-Middle}
use comp.Windows.{
  WindowCell, RunsMeasured, measured, read_outside, still_stub, scan_windows, multiples, n_mult,
  latencies_us, measure_run, measure_runs, column,
}
use comp.Windows.Cells.{
  NotNegative, cell_seen, cells_seen, intervals, scan_windows-cells, window_column,
}

get_elem?-first :
    {A : Type 0} (a b : List A) (i : ℕ) (x : A)
    → get_elem? a i ≡ some x
    → get_elem? (a ++ b) i ≡ some x
get_elem?-first [] b i x h = absurd (ground arith)
get_elem?-first (y ∷ a) b zero x h = h
get_elem?-first (y ∷ a) b (suc i) x h = get_elem?-first a b i x h

get_elem?-later :
    {A : Type 0} (a b : List A) (i j : ℕ) → j ≡ length a + i → get_elem? (a ++ b) j ≡ get_elem? b i
get_elem?-later [] b i j h = let e : j ≡ i = omega arith in ap (get_elem? b) e
get_elem?-later (y ∷ a) b i zero h = absurd (omega arith)
get_elem?-later (y ∷ a) b i (suc j) h = get_elem?-later a b i j (omega arith)

-- What is needed of the doubles, of the two orders of qsort, and of the runs.
pub record Setting {D : Type 0} (double : Doubles D) (qsort : List D → List D)
    (qsort_events : List Event → List Event) (run : ℕ → RunResult D) : Type 0 where
  pub order : Ordered double
  pub law : NotNegative double
  pub sorts : Sorts double qsort
  pub sorts_events : SortsByTime qsort_events
  pub in_order : (k : ℕ) → AllInOrder (run k).records
  pub started : (k : ℕ) → 0 < count is_started (run k).records

module _ {D : Type 0} (double : Doubles D) (qsort : List D → List D)
    (qsort_events : List Event → List Event) where
  length-latencies_us :
      (rs : List (Record D))
      → length (latencies_us double qsort qsort_events rs) ≡ count is_started rs
  unfolding latencies_us
  length-latencies_us [] = refl
  length-latencies_us (r ∷ rs) =
      let ih = length-latencies_us rs in
      elim (Bool-cases (is_started r)) [ inl y ↦ rw y (ap suc ih) | inr n ↦ rw n ih ]

  pub median_of-some :
      Ordered double
      → Sorts double qsort
      → (v : List D) → 0 < length v
      → (m : D) × (median_of double qsort v ≡ some m)
  median_of-some order sorts v h = elim (median_of-Middle double order qsort sorts v h) [
    | inl (m, _, e, _) ↦ (m, e)
    | inr (lo, hi, _, e, _, _) ↦ (_, e)
  ]

  module _ (run : ℕ → RunResult D) (s : Setting double qsort qsort_events run) where
    pub median :
        (k : ℕ)
        → (m : D) × (median_of double qsort (latencies_us double qsort qsort_events (run k).records)
            ≡ some m)
    median k =
        median_of-some s.order s.sorts (latencies_us double qsort qsort_events (run k).records)
          (omega (arith, length-latencies_us (run k).records, s.started k))

    pub seen :
        (k : ℕ) → (is : List Interval) × Maximal (violated_at (run k).workers (run k).records) is
    seen k = intervals double qsort qsort_events s.order s.law s.sorts_events (run k) (s.in_order k)

    abbrev pub cells_of : ℕ → List (WindowCell D)
    cells_of k = cells_seen double qsort qsort_events (run k) (seen k).0 (median k).0 multiples

    abbrev pub medians : ℕ → ℕ → List D
    medians zero k = []
    medians (suc left) k = (median k).0 ∷ medians left (suc k)

    abbrev pub all_cells : ℕ → ℕ → List (WindowCell D)
    all_cells zero k = []
    all_cells (suc left) k = cells_of k ++ all_cells left (suc k)

    measure_run-cells :
        (k : ℕ)
        → measure_run double qsort qsort_events (run k) ≡ measured ((median k).0 ∷ []) (cells_of k)
    unfolding measure_run seen
    measure_run-cells k =
        ap
          (λ o. elim o as (λ _. RunsMeasured D) [
            | none ↦ read_outside
            | some median_us ↦
                elim (scan_windows double qsort qsort_events (run k) median_us multiples)
                  as (λ _. RunsMeasured D) [
                    | none ↦ still_stub
                    | some cells ↦ measured (median_us ∷ []) cells
                  ]
          ])
          (median k).1
        ∙ ap
            (λ o. elim o as (λ _. RunsMeasured D) [
              | none ↦ still_stub
              | some cells ↦ measured ((median k).0 ∷ []) cells
            ])
            (scan_windows-cells double qsort qsort_events s.order s.law s.sorts_events (run k)
              (s.in_order k) (median k).0 multiples)

    pub measure_runs-cells :
        (left k : ℕ)
        → measure_runs double qsort qsort_events run left k
          ≡ measured (medians left k) (all_cells left k)
    unfolding measure_runs
    measure_runs-cells zero k = refl
    measure_runs-cells (suc left) k = rw (measure_run-cells k, measure_runs-cells left (suc k)) refl

    get_elem?-cells_seen :
        (k m mult : ℕ) (ms : List ℕ)
        → get_elem? ms m ≡ some mult
        → get_elem? (cells_seen double qsort qsort_events (run k) (seen k).0 (median k).0 ms) m
          ≡ some (cell_seen double qsort qsort_events (run k) (seen k).0 (median k).0 mult)
    get_elem?-cells_seen k m mult [] h = absurd (ground arith)
    get_elem?-cells_seen k zero mult (x ∷ ms) h =
        ap
          (λ o. elim o [
            | none ↦ none
            | some y ↦ some (cell_seen double qsort qsort_events (run k) (seen k).0 (median k).0 y)
          ])
          h
    get_elem?-cells_seen k (suc m) mult (x ∷ ms) h = get_elem?-cells_seen k m mult ms h

    -- The element at `r * N_MULT + m` is that of run `r` and window `m`.
    get_elem?-all_cells :
        (left k r m mult : ℕ)
        → r < left
        → get_elem? multiples m ≡ some mult
        → get_elem? (all_cells left k) (r * n_mult + m)
          ≡ some (
              cell_seen double qsort qsort_events
                (run (k + r))
                (seen (k + r)).0
                (median (k + r)).0
                mult)
    get_elem?-all_cells zero k r m mult lt h = absurd (omega arith)
    get_elem?-all_cells (suc left) k zero m mult lt h =
        let e : k ≡ k + 0 = omega arith in
        let z : 0 * n_mult + m ≡ m = omega arith in
        ap (get_elem? (all_cells (suc left) k)) z
        ∙ get_elem?-first (cells_of k) (all_cells left (suc k)) m _
            (get_elem?-cells_seen k m mult multiples h)
        ∙ ap (λ j. some (cell_seen double qsort qsort_events (run j) (seen j).0 (median j).0 mult))
            e
    get_elem?-all_cells (suc left) k (suc r) m mult lt h =
        let e : suc k + r ≡ k + suc r = omega arith in
        get_elem?-later (cells_of k) (all_cells left (suc k)) (r * n_mult + m) (suc r * n_mult + m)
          (omega arith)
        ∙ get_elem?-all_cells left (suc k) r m mult (omega arith) h
        ∙ ap (λ j. some (cell_seen double qsort qsort_events (run j) (seen j).0 (median j).0 mult))
            e

    abbrev pub seen_from : ℕ → ℕ → ℕ → List (WindowCell D)
    seen_from = window_column double qsort qsort_events run (λ k. (seen k).0) (λ k. (median k).0)

    pub column-seen_from :
        (runs k left r m mult : ℕ)
        → r + left ≤ runs
        → get_elem? multiples m ≡ some mult
        → column double qsort qsort_events (all_cells runs k) m left r
          ≡ some (seen_from mult left (k + r))
    unfolding column
    column-seen_from runs k zero r m mult le h = refl
    column-seen_from runs k (suc left) r m mult le h =
        let e : k + suc r ≡ suc (k + r) = omega arith in
        let ih =
          column-seen_from runs k left (suc r) m mult (omega arith) h
          ∙ ap (λ j. some (seen_from mult left j)) e in
        rw (get_elem?-all_cells runs k r m mult (omega arith) h, ih) refl
