-- ===== src/RcuBench/Rows.antt =====
-- What the rows of src/bench.c of 04-rcu-table say of the runs.
use mathlib.Core.Path.{subst}
use comp.Shared.{
  none, ℤ, pos, ◌≤◌, ◌⊎◌, ℤ, Option-cases, ℕ, suc, ◌-◌, ◌*◌, ◌/◌, ◌%◌, ◌≡◌, ◌∙◌, ap, refl, sym, ◌<◌,
  inl, inr, Bool, true, false, some, List, [], ◌∷◌, ◌++◌, ◌==◌, length, negsuc, arith, Bool-cases,
  bind_some,
}
use comp.Analyze.{Doubles, median_of}
use comp.Analyze.Order.{Ordered, Sorts, length-Rearranged, get_elem?-in}
use comp.Analyze.Ends.{Measured, ends-Extremes}
use comp.RcuBench.{
  Run, Row, Timed, levels, level_row, rows_of, bench_rows, median_of_sorted, row_of, max_trials,
  arguments, bench_main, usage, printed,
}
use comp.RcuBench.Timing.{
  seconds_of, torn_of, Least, length-seconds_of, all_timed-times, all_timed-torn, all_timed-first,
  all_timed, timed_from-all_timed,
}

module _ {D : Type 0} (double : Doubles D) (qsort : List D → List D) where
  -- What a row says of the runs of its level: run 0 is the warm-up.
  pub record Reported (run : ℕ → Run D) (rcu : Bool) (readers trials reads : ℕ) (row : Row D)
      : Type 0 where
    pub same_rcu : row.rcu ≡ rcu
    pub same_readers : row.readers ≡ readers
    pub total : row.reads_total ≡ readers * reads
    pub all_torn : row.torn_reads ≡ torn_of run (suc trials) 0
    pub freed : Least run 1 (suc trials) row.freed_versions
    pub measured : Measured double qsort (seconds_of run trials 1) row.median_s row.spread_s

  module _ (order : Ordered double) (sorts : Sorts double qsort) where
    median_of_sorted-median_of :
        (v : List D)
        → 0 < length v
        → (m : D) × (median_of_sorted double qsort (qsort v) (length v) ≡ some m)
          × (median_of double qsort v ≡ some m)
    unfolding median_of_sorted median_of
    median_of_sorted-median_of v h =
        let len = length-Rearranged (sorts.rearranges v) in
        elim (Bool-cases (length v % 2 == 1)) [
          | inl odd ↦
              let (m, e) = get_elem?-in (qsort v) (length v / 2) (omega arith) in
              let other : (length v % 2 == 0) ≡ false = ground arith in (m, rw other e, rw odd e)
          | inr even ↦
              let (lo, e) = get_elem?-in (qsort v) (length v / 2 - 1) (omega arith) in
              let (hi, f) = get_elem?-in (qsort v) (length v / 2) (omega arith) in
              let other : (length v % 2 == 0) ≡ true = ground arith in
              (double.halve (double.plus lo hi), rw (other, e, f) refl, rw (even, e, f) refl)
        ]

    row_of-Measured :
        (rcu : Bool) (readers reads : ℕ) (timed : Timed D)
        → 0 < length timed.times
        → (row : Row D) × (row_of double qsort rcu readers (length timed.times) reads timed
            ≡ some row)
          × Measured double qsort timed.times row.median_s row.spread_s
          × (row.rcu ≡ rcu)
          × (row.readers ≡ readers)
          × (row.reads_total ≡ readers * reads)
          × (row.torn_reads ≡ timed.torn)
          × (row.freed_versions ≡ timed.freed_min)
    unfolding row_of
    row_of-Measured rcu readers reads timed h =
        let (m, e, middle) = median_of_sorted-median_of timed.times h in
        let (low, high, f, g, x) = ends-Extremes double order qsort sorts timed.times h in
        (
          _,
          bind_some _ e (bind_some _ f (bind_some _ g refl)),
          record { middle = middle; low = low; high = high; extremes = x; difference = refl },
          refl,
          refl,
          refl,
          refl,
          refl,
        )

    level_row-Reported :
        (run : ℕ → Run D) (rcu : Bool) (readers trials reads : ℕ)
        → 0 < trials
        → trials ≤ max_trials
        → (row : Row D) × (level_row double qsort run rcu readers trials reads ≡ some row)
          × Reported run rcu readers trials reads row
    unfolding level_row
    level_row-Reported run rcu readers trials reads h few =
        let timed = all_timed run trials 1 (run 0).torn (negsuc 0) in
        let times = all_timed-times run trials 1 (run 0).torn (negsuc 0) in
        let n : length timed.times ≡ trials = ap length times ∙ length-seconds_of run trials 1 in
        let (row, e, m, a, b, c, d, f) = row_of-Measured rcu readers reads timed (omega arith) in
        (
          row,
          bind_some _
              (timed_from-all_timed run trials 1 (run 0).torn (negsuc 0) (omega arith)
                (omega arith))
              (subst (λ k. row_of double qsort rcu readers k reads timed ≡ some row) n e),
          record {
            same_rcu = a;
            same_readers = b;
            total = c;
            all_torn = d ∙ all_timed-torn run trials 1 (run 0).torn (negsuc 0);
            freed =
                subst (Least run 1 (suc trials)) (sym f)
                  (all_timed-first run trials (run 0).torn h);
            measured = subst (λ v. Measured double qsort v row.median_s row.spread_s) times m;
          },
        )

    -- A row for each level, in order.
    abbrev pub Levels : (ℕ → ℕ → Run D) → Bool → ℕ → ℕ → List ℕ → List (Row D) → Type 0
    Levels run rcu trials reads [] [] = Unit
    Levels run rcu trials reads (n ∷ ns) (row ∷ rows) =
        Reported (run n) rcu n trials reads row × Levels run rcu trials reads ns rows
    Levels run rcu trials reads ns rows = ⊥

    rows_of-Levels :
        (run : ℕ → ℕ → Run D) (rcu : Bool) (trials reads : ℕ) (ns : List ℕ)
        → 0 < trials
        → trials ≤ max_trials
        → (rows : List (Row D)) × (rows_of double qsort run rcu trials reads ns ≡ some rows)
          × Levels run rcu trials reads ns rows
    unfolding rows_of
    rows_of-Levels run rcu trials reads [] h few = ([], refl, tt)
    rows_of-Levels run rcu trials reads (n ∷ ns) h few =
        let (row, e, r) = level_row-Reported (run n) rcu n trials reads h few in
        let (rows, f, ok) = rows_of-Levels run rcu trials reads ns h few in
        (row ∷ rows, bind_some _ e (bind_some _ f refl), (r, ok))

    bench_rows-Levels :
        (run : Bool → ℕ → ℕ → Run D) (trials reads : ℕ)
        → 0 < trials
        → trials ≤ max_trials
        → (with_rcu : List (Row D)) × (with_rwlock : List (Row D)) × (bench_rows double qsort run
              trials reads
            ≡ some (with_rcu ++ with_rwlock))
          × Levels (run true) true trials reads levels with_rcu
          × Levels (run false) false trials reads levels with_rwlock
    unfolding bench_rows
    bench_rows-Levels run trials reads h few =
        let (a, e, ok) = rows_of-Levels (run true) true trials reads levels h few in
        let (b, f, fine) = rows_of-Levels (run false) false trials reads levels h few in
        (a, b, bind_some _ e (bind_some _ f refl), ok, fine)

    -- The three arguments that are taken, and what they ask for.
    abbrev pub Asks : ℤ → ℤ → ℤ → ℕ → ℕ → ℕ → Type 0
    Asks t u r trials updates reads =
        (t ≡ pos trials)
        × (u ≡ pos updates)
        × (r ≡ pos reads)
        × (1 ≤ trials)
        × (trials ≤ 99)
        × (1 ≤ reads)

    arguments-Asks :
        (t u r : ℤ) (trials updates reads : ℕ)
        → arguments t u r ≡ some (trials, updates, reads)
        → Asks t u r trials updates reads
    unfolding arguments
    arguments-Asks (pos t) (pos u) (pos r) trials updates reads e = ground arith
    arguments-Asks (pos t) (pos u) (negsuc r) trials updates reads e = absurd (ground arith)
    arguments-Asks (pos t) (negsuc u) r trials updates reads e = absurd (ground arith)
    arguments-Asks (negsuc t) u r trials updates reads e = absurd (ground arith)

    arguments-none :
        (t u r : ℤ) (trials updates reads : ℕ)
        → arguments t u r ≡ none
        → ¬ Asks t u r trials updates reads
    unfolding arguments
    arguments-none (pos t) (pos u) (pos r) trials updates reads e a =
        let b = a.0 in
        let c = a.2 in let d = a.3 in let f = a.4 in let g = a.5 in absurd (ground arith)
    arguments-none (pos t) (pos u) (negsuc r) trials updates reads e a =
        let c = a.2 in absurd (ground arith)
    arguments-none (pos t) (negsuc u) r trials updates reads e a =
        let c = a.1 in absurd (ground arith)
    arguments-none (negsuc t) u r trials updates reads e a = let c = a.0 in absurd (ground arith)

    -- With ordered times and a qsort that sorts, the benchmark either refuses its arguments, which
    -- then ask for no number of trials from 1 to 99, updates and at least one read; or it neither
    -- reads nor writes an array out of bounds, that of 99 times included, and prints the rows of RCU
    -- and then those of the rwlock, for 1, 2, 4 and 8 readers: each with the torn reads of all its
    -- runs, the warm-up included, the least number of versions freed in one of its trials, and the
    -- median and the spread of the trials' times.
    pub bench_main-Levels :
        (run : Bool → ℕ → ℕ → Run D) (t u r : ℤ)
        → ((bench_main double qsort run t u r ≡ usage)
            × ((trials updates reads : ℕ) → ¬ Asks t u r trials updates reads))
          ⊎ ((trials : ℕ) × (updates : ℕ) × (reads : ℕ) × Asks t u r trials updates reads
              × ((with_rcu : List (Row D)) × (with_rwlock : List (Row D)) × (bench_main double qsort
                      run t u r
                    ≡ printed (with_rcu ++ with_rwlock))
                  × Levels (run true) true trials reads levels with_rcu
                  × Levels (run false) false trials reads levels with_rwlock))
    unfolding bench_main
    bench_main-Levels run t u r = elim (Option-cases (arguments t u r)) [
      | inl e ↦ inl (rw (bench_main, e) refl, (λ n m k a. arguments-none t u r n m k e a))
      | inr ((n, m, k), e) ↦
          let a = arguments-Asks t u r n m k e in
          let (x, y, f, ok, fine) =
            bench_rows-Levels run n k (omega (arith, a.3)) (omega (arith, a.4)) in
          inr (n, m, k, a, (x, y, rw (bench_main, e, f) refl, ok, fine))
    ]
