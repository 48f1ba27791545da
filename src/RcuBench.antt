-- ===== src/RcuBench.antt =====
-- The benchmark of week 4, src/bench.c of 04-rcu-table: what it counts and reports. For the
-- rows the threads and the clock are behind `run`, which says what the k-th timed run of a level
-- gives; Once has the threads of a run.
mod Timing
mod Rows
mod Once
mod Counts
mod Tests
use comp.Shared.{
  ℕ, zero, suc, ◌+◌, ◌-◌, ◌*◌, ◌/◌, ◌%◌, Bool, true, false, ◌||◌, Option, none, some, List, [], ◌∷◌,
  ◌++◌, ◌==◌, if◌then◌else◌, ◌>>=◌, get_elem?, ltb, ℤ, pos, negsuc, ltb_ℤ,
}
use comp.Analyze.{Doubles}
use comp.Table.{table_keys}

-- The loop of `reader`: `lookup j key` is whether its j-th lookup was consistent.
unfoldable pub reader : (ℕ → ℕ → Bool) → ℕ → ℕ → ℕ → ℕ
reader lookup zero j torn = torn
reader lookup (suc left) j torn =
    reader lookup left (suc j) (if lookup j (j % table_keys) then torn else suc torn)

-- What joining the readers adds to the torn reads.
unfoldable pub join_readers : List ℕ → ℕ → ℕ
join_readers [] torn = torn
join_readers (t ∷ ts) torn = join_readers ts (torn + t)

-- What `run_once` gives.
pub record Run (D : Type 0) : Type 0 where
  pub seconds : D
  pub torn : ℕ
  pub freed : ℕ

pub record Row (D : Type 0) : Type 0 where
  pub rcu : Bool
  pub readers : ℕ
  pub trials : ℕ
  pub reads_total : ℕ
  pub torn_reads : ℕ
  pub freed_versions : ℤ
  pub median_s : D
  pub spread_s : D
  pub throughput_reads_s : D

-- `t`, `torn` and `freed_min` of `main`
pub record Timed (D : Type 0) : Type 0 where
  pub times : List D
  pub torn : ℕ
  pub freed_min : ℤ

-- The values of the three arguments, where they are taken.
unfoldable pub arguments : ℤ → ℤ → ℤ → Option (ℕ × ℕ × ℕ)
arguments (pos trials) (pos updates) (pos reads) =
    if ltb trials 1 || ltb 99 trials || ltb reads 1 then none else some (trials, updates, reads)
arguments trials updates reads = none

-- The elements of the array `t`.
abbrev pub max_trials : ℕ
max_trials = 99

abbrev pub levels : List ℕ
levels = 1 ∷ (2 ∷ (4 ∷ (8 ∷ [])))

-- How `main` ends.
pub data BenchEnd (D : Type 0) : Type 0 where
  usage : BenchEnd D
  undefined : BenchEnd D
  printed : (rows : List (Row D)) → BenchEnd D

module _ {D : Type 0} where
  -- The loop over the trials, with `left` to go, from run `k` on, whose time goes to element `k - 1`;
  -- no result where `t` has no such element.
  unfoldable pub timed_from : (ℕ → Run D) → ℕ → ℕ → ℕ → ℤ → Option (Timed D)
  timed_from run zero k torn freed_min =
      some (record { times = []; torn = torn; freed_min = freed_min })
  timed_from run (suc left) k torn freed_min =
      let r = run k in
      let fewer = ltb_ℤ freed_min (pos 0) || ltb_ℤ (pos r.freed) freed_min in
      let rest =
        timed_from run left (suc k) (torn + r.torn) (if fewer then pos r.freed else freed_min) in
      if ltb (k - 1) max_trials
      then (rest >>= (λ timed. some (record timed { times = r.seconds ∷ timed.times })))
      else none

module _ {D : Type 0} (double : Doubles D) (qsort : List D → List D) where
  -- The median of the first `trials` elements of a sorted array.
  unfoldable pub median_of_sorted : List D → ℕ → Option D
  median_of_sorted sorted trials =
      if trials % 2 == 0
      then (get_elem? sorted (trials / 2 - 1) >>= (λ lo.
          get_elem? sorted (trials / 2) >>= (λ hi. some (double.halve (double.plus lo hi)))))
      else get_elem? sorted (trials / 2)

  unfoldable pub row_of : Bool → ℕ → ℕ → ℕ → Timed D → Option (Row D)
  unfolding median_of_sorted
  row_of rcu readers trials reads timed = do
    median_s ← median_of_sorted (qsort timed.times) trials
    low ← get_elem? (qsort timed.times) 0
    high ← get_elem? (qsort timed.times) (trials - 1)
    some (record {
      rcu = rcu;
      readers = readers;
      trials = trials;
      reads_total = readers * reads;
      torn_reads = timed.torn;
      freed_versions = timed.freed_min;
      median_s = median_s;
      spread_s = double.minus high low;
      throughput_reads_s = double.divide (double.number (readers * reads)) median_s;
    })

  -- One level: run 0 is the warm-up, of which only torn reads count.
  unfoldable pub level_row : (ℕ → Run D) → Bool → ℕ → ℕ → ℕ → Option (Row D)
  unfolding timed_from row_of
  level_row run rcu readers trials reads =
      timed_from run trials 1 (run 0).torn (negsuc 0) >>= row_of rcu readers trials reads

  unfoldable pub rows_of : (ℕ → ℕ → Run D) → Bool → ℕ → ℕ → List ℕ → Option (List (Row D))
  unfolding level_row
  rows_of run rcu trials reads [] = some []
  rows_of run rcu trials reads (n ∷ ns) =
      level_row (run n) rcu n trials reads
      >>= (λ row. rows_of run rcu trials reads ns >>= (λ rest. some (row ∷ rest)))

  -- `run impl readers k`; no result where an array is left.
  unfoldable pub bench_rows : (Bool → ℕ → ℕ → Run D) → ℕ → ℕ → Option (List (Row D))
  unfolding rows_of
  bench_rows run trials reads = do
    with_rcu ← rows_of (run true) true trials reads levels
    with_rwlock ← rows_of (run false) false trials reads levels
    some (with_rcu ++ with_rwlock)

  -- `main` from the values of its three arguments on; `undefined` where it leaves an array.
  unfoldable pub bench_main : (Bool → ℕ → ℕ → Run D) → ℤ → ℤ → ℤ → BenchEnd D
  unfolding arguments bench_rows
  bench_main run t u r = elim (arguments t u r) [
    | none ↦ usage
    | some (trials, updates, reads) ↦ elim (bench_rows run trials reads) [
      | none ↦ undefined
      | some rows ↦ printed rows
    ]
  ]
