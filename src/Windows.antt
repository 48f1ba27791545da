-- ===== src/Windows.antt =====
-- `main` of tools/windows.c: what a range of windows, each a multiple of the median latency of a
-- run, makes of the run. What the k-th call of `wl_run` leaves, and both orders of qsort, are
-- parameters; so is whether calloc gives the five arrays. `eps` and `frac` are one array of pairs.
mod Asked
mod Cells
mod Columns
mod Rows
mod Tests
use comp.Shared.{
  ℕ, zero, suc, ◌+◌, ◌*◌, Bool, Option, none, some, List, [], ◌∷◌, ◌++◌, if◌then◌else◌, ℤ, pos,
  negsuc, ltb_ℤ, ◌||◌, get_elem?, ◌>>=◌,
}
use comp.Audit.{Argument, absent, not_a_number, number_of_runs}
use comp.Workload.Records.{Record, RunResult, is_started}
use comp.Analyze.{Doubles, median_of, spread_of}
use comp.Analyze.Scan.{Event, invariant_scan, microseconds, sub64}

abbrev pub multiples : List ℕ
multiples = 1 ∷ (3 ∷ (10 ∷ (30 ∷ (100 ∷ (300 ∷ (1000 ∷ []))))))

abbrev pub n_mult : ℕ
n_mult = 7

abbrev pub runs_asked : Argument → Option ℤ
runs_asked absent = some (pos 5)
runs_asked not_a_number = none
runs_asked (number_of_runs n) = some n

-- None where `main` says that the argument is no number of runs from 1 to 100.
unfoldable pub runs_of : Argument → Option ℕ
runs_of argument = elim (runs_asked argument) [
  | none ↦ none
  | some n ↦
      if ltb_ℤ n (pos 1) || ltb_ℤ (pos 100) n
      then none
      else elim n [ pos runs ↦ some runs | negsuc k ↦ none ]
]

-- An element of `eps` and `frac`.
pub record WindowCell (D : Type 0) : Type 0 where
  pub episodes : D
  pub fraction : D

-- A line of the table.
pub record WindowRow (D : Type 0) : Type 0 where
  pub multiple : ℕ
  pub window_us : D
  pub episodes : D
  pub episodes_half_spread : D
  pub fraction : D
  pub fraction_half_spread : D

-- What the loop over the runs leaves in `med`, `eps` and `frac`; `read_outside` where `median_of`
-- has no values, and reads outside of its array.
pub data RunsMeasured (D : Type 0) : Type 0 where
  still_stub : RunsMeasured D
  read_outside : RunsMeasured D
  measured : (med : List D) → (cells : List (WindowCell D)) → RunsMeasured D

pub data WindowsEnd (D : Type 0) : Type 0 where
  refused : WindowsEnd D
  out_of_memory : WindowsEnd D
  stub_found : WindowsEnd D
  undefined : WindowsEnd D
  printed : (runs : ℕ) → (median_us : D) → List (WindowRow D) → WindowsEnd D

abbrev pub then_run : {D : Type 0} → RunsMeasured D → RunsMeasured D → RunsMeasured D
then_run still_stub rest = still_stub
then_run read_outside rest = read_outside
then_run (measured med cells) still_stub = still_stub
then_run (measured med cells) read_outside = read_outside
then_run (measured med cells) (measured med' cells') = measured (med ++ med') (cells ++ cells')

abbrev pub episodes_in : {D : Type 0} → List (WindowCell D) → List D
episodes_in [] = []
episodes_in (c ∷ cells) = c.episodes ∷ episodes_in cells

abbrev pub fractions_in : {D : Type 0} → List (WindowCell D) → List D
fractions_in [] = []
fractions_in (c ∷ cells) = c.fraction ∷ fractions_in cells

module _ {D : Type 0} (double : Doubles D) (qsort : List D → List D)
    (qsort_events : List Event → List Event) where
  -- `lat`, of the tasks that started.
  unfoldable pub latencies_us : List (Record D) → List D
  latencies_us [] = []
  latencies_us (r ∷ rs) =
      let rest = latencies_us rs in
      if is_started r then microseconds double (sub64 r.start_ns r.ready_ns) ∷ rest else rest

  -- The loop over the multiples, in one run; none where the scan is still the stub.
  unfoldable pub scan_windows : RunResult D → D → List ℕ → Option (List (WindowCell D))
  scan_windows run median_us [] = some []
  scan_windows run median_us (m ∷ ms) =
      let inv =
        invariant_scan double run.workers (double.times (double.number m) median_us) qsort_events
          run.records in
      let rest = scan_windows run median_us ms in
      let cell : WindowCell D = record {
        episodes = double.number inv.episodes;
        fraction =
            if double.lt (double.number 0) inv.span_us
            then double.divide inv.violation_us inv.span_us
            else double.number 0;
      } in
      if double.lt inv.violation_us (double.number 0)
      then none
      else do cells ← rest; some (cell ∷ cells)

  unfoldable pub measure_run : RunResult D → RunsMeasured D
  unfolding latencies_us scan_windows
  measure_run run = elim (median_of double qsort (latencies_us run.records)) [
    | none ↦ read_outside
    | some median_us ↦ elim (scan_windows run median_us multiples) [
      | none ↦ still_stub
      | some cells ↦ measured (median_us ∷ []) cells
    ]
  ]

  -- The loop over the runs, from call `k` of `wl_run` on.
  unfoldable pub measure_runs : (ℕ → RunResult D) → ℕ → ℕ → RunsMeasured D
  unfolding measure_run
  measure_runs run zero k = measured [] []
  measure_runs run (suc left) k =
      let rest = measure_runs run left (suc k) in then_run (measure_run (run k)) rest

  -- The elements at `r * N_MULT + m`, with `left` runs to go from `r` on.
  unfoldable pub column : List (WindowCell D) → ℕ → ℕ → ℕ → Option (List (WindowCell D))
  column cells m zero r = some []
  column cells m (suc left) r = do
    c ← get_elem? cells (r * n_mult + m)
    rest ← column cells m left (suc r)
    some (c ∷ rest)

  unfoldable pub window_row : List (WindowCell D) → ℕ → D → ℕ → ℕ → Option (WindowRow D)
  unfolding column
  window_row cells runs median_us multiple m = do
    col ← column cells m runs 0
    me ← median_of double qsort (episodes_in col)
    se ← spread_of double (episodes_in col)
    mf ← median_of double qsort (fractions_in col)
    sf ← spread_of double (fractions_in col)
    some (record {
      multiple = multiple;
      window_us = double.times (double.number multiple) median_us;
      episodes = me;
      episodes_half_spread = double.halve se;
      fraction = mf;
      fraction_half_spread = double.halve sf;
    })

  unfoldable pub window_rows :
      List (WindowCell D) → ℕ → D → List ℕ → ℕ → Option (List (WindowRow D))
  unfolding window_row
  window_rows cells runs median_us [] m = some []
  window_rows cells runs median_us (multiple ∷ ms) m = do
    row ← window_row cells runs median_us multiple m
    rest ← window_rows cells runs median_us ms (suc m)
    some (row ∷ rest)

  unfoldable pub print_windows : ℕ → RunsMeasured D → WindowsEnd D
  unfolding window_rows
  print_windows runs still_stub = stub_found
  print_windows runs read_outside = undefined
  print_windows runs (measured med cells) = elim (get_elem? med 0) [
    | none ↦ undefined
    | some median_us ↦ elim (window_rows cells runs median_us multiples 0) [
      | none ↦ undefined
      | some rows ↦ printed runs median_us rows
    ]
  ]

  -- `memory` says whether calloc gives the arrays.
  unfoldable pub windows_main : (ℕ → RunResult D) → Bool → ℕ → Argument → WindowsEnd D
  unfolding runs_of measure_runs print_windows
  windows_main run memory warmup_runs argument = elim (runs_of argument) [
    | none ↦ refused
    | some runs ↦
        if memory then print_windows runs (measure_runs run runs warmup_runs) else out_of_memory
  ]
