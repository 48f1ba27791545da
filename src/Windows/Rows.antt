-- ===== src/Windows/Rows.antt =====
-- The table of tools/windows.c, row by row.
use comp.Windows.Asked.{Asks, runs_of-Asks, runs_of-none, Asks-some}
use comp.Windows.Cells.{window_column}
use comp.Analyze.Episodes.{Interval, Maximal, violated_at}
use comp.Shared.{
  ℕ, zero, suc, ◌+◌, ◌≡◌, ◌<◌, ◌∙◌, ap, refl, none, some, List, [], ◌∷◌, length, arith, false,
  get_elem?, Bool, ◌⊎◌, true, Option-cases, inl, inr, Bool-cases,
}
use comp.Workload.Records.{RunResult}
use comp.Audit.{Argument}
use comp.Analyze.{Doubles, median_of, spread_of}
use comp.Analyze.Scan.{Event}
use comp.Analyze.Spread.{spread_of-Extremes}
use comp.Windows.{
  WindowCell, WindowRow, multiples, runs_of, episodes_in, fractions_in, window_row, window_rows,
  print_windows, windows_main, WindowsEnd, refused, measure_runs, printed, out_of_memory,
  latencies_us, undefined,
}
use comp.Windows.Columns.{
  Setting, median_of-some, all_cells, seen_from, column-seen_from, median, measure_runs-cells, seen,
}

module _ {D : Type 0} (double : Doubles D) (qsort : List D → List D) where
  -- The median of some values, and half of their spread.
  abbrev pub Shows : List D → D → D → Type 0
  Shows v middle half =
      (median_of double qsort v ≡ some middle)
      × ((spread : D) × (spread_of double v ≡ some spread) × (half ≡ double.halve spread))

  -- The row for the window of `multiple` times the median, from what it makes of each run.
  pub record RowOf (median_us : D) (multiple : ℕ) (col : List (WindowCell D)) (row : WindowRow D)
      : Type 0 where
    pub same_multiple : row.multiple ≡ multiple
    pub window : row.window_us ≡ double.times (double.number multiple) median_us
    pub counted : Shows (episodes_in col) row.episodes row.episodes_half_spread
    pub covered : Shows (fractions_in col) row.fraction row.fraction_half_spread

  abbrev pub RowsOf : D → (ℕ → List (WindowCell D)) → List ℕ → List (WindowRow D) → Type 0
  RowsOf median_us col [] [] = Unit
  RowsOf median_us col [] (row ∷ rows) = ⊥
  RowsOf median_us col (m ∷ ms) [] = ⊥
  RowsOf median_us col (m ∷ ms) (row ∷ rows) =
      RowOf median_us m (col m) row × RowsOf median_us col ms rows

length-episodes_in :
    {D : Type 0} (cells : List (WindowCell D)) → length (episodes_in cells) ≡ length cells
length-episodes_in [] = refl
length-episodes_in (c ∷ cells) = ap suc (length-episodes_in cells)

length-fractions_in :
    {D : Type 0} (cells : List (WindowCell D)) → length (fractions_in cells) ≡ length cells
length-fractions_in [] = refl
length-fractions_in (c ∷ cells) = ap suc (length-fractions_in cells)

module _ {D : Type 0} (double : Doubles D) (qsort : List D → List D)
    (qsort_events : List Event → List Event) (run : ℕ → RunResult D)
    (s : Setting double qsort qsort_events run) where
  shown : (v : List D) → 0 < length v → (middle : D) × (half : D) × Shows double qsort v middle half
  shown [] h = absurd (omega arith)
  shown (x ∷ v) h =
      let (middle, e) = median_of-some double qsort qsort_events s.order s.sorts (x ∷ v) h in
      let (ends, f, _) = spread_of-Extremes double s.order x v in
      let spread = double.minus ends.1 ends.0 in
      (middle, double.halve spread, (e, (spread, f, refl)))

  length-seen_from :
      (mult left k : ℕ) → length (seen_from double qsort qsort_events run s mult left k) ≡ left
  length-seen_from mult zero k = refl
  length-seen_from mult (suc left) k = ap suc (length-seen_from mult left (suc k))

  module _ (runs k : ℕ) (some_runs : 0 < runs) (median_us : D) where
    abbrev cells : List (WindowCell D)
    cells = all_cells double qsort qsort_events run s runs k

    abbrev col : ℕ → List (WindowCell D)
    col mult = seen_from double qsort qsort_events run s mult runs k

    window_row-RowOf :
        (m mult : ℕ)
        → get_elem? multiples m ≡ some mult
        → (row : WindowRow D) × (window_row double qsort qsort_events cells runs median_us mult m
            ≡ some row)
          × RowOf double qsort median_us mult (col mult) row
    unfolding window_row
    window_row-RowOf m mult h =
        let z : k + 0 ≡ k = omega arith in
        let c =
          column-seen_from double qsort qsort_events run s runs k runs 0 m mult (omega arith) h
          ∙ ap (λ j. some (seen_from double qsort qsort_events run s mult runs j)) z in
        let n = length-seen_from mult runs k in
        let (me, se, a) =
          shown (episodes_in (col mult)) (omega (arith, length-episodes_in (col mult), n)) in
        let (mf, sf, b) =
          shown (fractions_in (col mult)) (omega (arith, length-fractions_in (col mult), n)) in
        (
          record {
            multiple = mult;
            window_us = double.times (double.number mult) median_us;
            episodes = me;
            episodes_half_spread = double.halve a.1.0;
            fraction = mf;
            fraction_half_spread = double.halve b.1.0;
          },
          rw (c, a.0, a.1.1, b.0, b.1.1) refl,
          record {
            same_multiple = refl;
            window = refl;
            counted = (a.0, (a.1.0, a.1.1, refl));
            covered = (b.0, (b.1.0, b.1.1, refl));
          },
        )

    window_rows-RowsOf :
        (m : ℕ) (ms : List ℕ)
        → ((i : ℕ) → get_elem? multiples (m + i) ≡ get_elem? ms i)
        → (rows : List (WindowRow D)) × (window_rows double qsort qsort_events cells runs median_us
              ms m
            ≡ some rows)
          × RowsOf double qsort median_us col ms rows
    unfolding window_rows
    window_rows-RowsOf m [] h = ([], refl, tt)
    window_rows-RowsOf m (mult ∷ ms) h =
        let z : m ≡ m + 0 = omega arith in
        let (row, e, a) = window_row-RowOf m mult (ap (get_elem? multiples) z ∙ h 0) in
        let (rows, f, b) = window_rows-RowsOf (suc m) ms (λ i.
          let y : suc m + i ≡ m + suc i = omega arith in ap (get_elem? multiples) y ∙ h (suc i)) in
        (row ∷ rows, rw (e, f) refl, (a, b))

  abbrev Program : Bool → ℕ → Argument → WindowsEnd D
  Program = windows_main double qsort qsort_events run

  -- What a run of the program comes to, from intervals and a median for each run.
  abbrev pub Outcome : (ℕ → List Interval) → (ℕ → D) → Bool → ℕ → Argument → Type 0
  Outcome is med memory warmup argument =
      ((Program memory warmup argument ≡ refused) × ((n : ℕ) → ¬ Asks argument n))
      ⊎ ((n : ℕ) × Asks argument n
          × (((memory ≡ false) × (Program memory warmup argument ≡ out_of_memory))
              ⊎ ((memory ≡ true)
                  × ((rows : List (WindowRow D)) × (Program memory warmup argument
                        ≡ printed n (med warmup) rows)
                      × RowsOf double qsort (med warmup)
                          (λ m. window_column double qsort qsort_events run is med m n warmup)
                          multiples rows))))

  printed-RowsOf :
      (n warmup : ℕ)
      → 0 < n
      → (rows : List (WindowRow D)) × (print_windows double qsort qsort_events n
            (measure_runs double qsort qsort_events run n warmup)
          ≡ printed n (median double qsort qsort_events run s warmup).0 rows)
        × RowsOf double qsort
            (median double qsort qsort_events run s warmup).0
            (λ m. seen_from double qsort qsort_events run s m n warmup)
            multiples
            rows
  unfolding print_windows
  printed-RowsOf zero warmup h = absurd (omega arith)
  printed-RowsOf (suc n) warmup h =
      let median_us = (median double qsort qsort_events run s warmup).0 in
      let (rows, e, a) =
        window_rows-RowsOf (suc n) warmup h median_us 0 multiples
          (λ i. let z : 0 + i ≡ i = omega arith in ap (get_elem? multiples) z) in
      (
        rows,
        ap (print_windows double qsort qsort_events (suc n))
              (measure_runs-cells double qsort qsort_events run s (suc n) warmup)
            ∙ ap
                (λ o. elim o as (λ _. WindowsEnd D) [
                  | none ↦ undefined
                  | some rows ↦ printed (suc n) median_us rows
                ])
                e,
        a,
      )

  -- When each run starts some task, and the times of the tasks that started are in order, the
  -- program either refuses its argument, which then asks for no number of runs from 1 to 100, or
  -- says that it is out of memory, or prints one row for each of its seven windows. The row for a
  -- multiple has that multiple of the median latency of the first run that is kept, and the median
  -- over the runs, with half of the spread, of two numbers: how many maximal intervals in which a
  -- task waits beside an idle worker last longer than the multiple of the run's own median latency,
  -- and the share of the run's span that these cover. The intervals of a run are the same for all
  -- windows.
  pub windows_main-Outcome :
      (memory : Bool) (warmup : ℕ) (argument : Argument)
      → (is : ℕ → List Interval) × (med : ℕ → D) × ((k : ℕ)
          → Maximal (violated_at (run k).workers (run k).records) (is k))
        × ((k : ℕ)
            → median_of double qsort (latencies_us double qsort qsort_events (run k).records)
              ≡ some (med k))
        × Outcome is med memory warmup argument
  unfolding windows_main
  windows_main-Outcome memory warmup argument = (
    (λ k. (seen double qsort qsort_events run s k).0),
    (λ k. (median double qsort qsort_events run s k).0),
    (λ k. (seen double qsort qsort_events run s k).1),
    (λ k. (median double qsort qsort_events run s k).1),
    elim (Option-cases (runs_of argument)) [
      | inl e ↦ inl (rw (windows_main, e) refl, (λ n a. runs_of-none argument n e a))
      | inr (n, e) ↦
          let asks = runs_of-Asks argument n e in
          inr (
            n,
            asks,
            elim (Bool-cases memory) [
              | inr no_room ↦ inl (no_room, rw (windows_main, e, no_room) refl)
              | inl room ↦
                  let (rows, f, a) = printed-RowsOf n warmup (Asks-some argument n asks) in
                  inr (room, (rows, rw (windows_main, e, room) f, a))
            ],
          )
    ],
  )
