-- ===== src/QueueBench/Rows.antt =====
-- The rows of src/bench.c of 03-lockfree-queue.
use comp.Shared.{
  ℕ, zero, suc, ◌-◌, ◌*◌, ◌/◌, ◌≡◌, ap, refl, ◌<◌, Bool, true, false, some, List, [], ◌∷◌, ◌++◌,
  length, get_elem?, arith, bind_some, ℤ, pos, negsuc,
}
use mathlib.Core.Path.{subst}
use comp.Analyze.{Doubles}
use comp.Analyze.Order.{Ordered, Sorts}
use comp.Analyze.Median.{Between, sorted-Between}
use comp.Analyze.Spread.{Extremes}
use comp.Analyze.Ends.{ends-Extremes}
use comp.QueueBench.{
  QueueRow, ops_per_thread, thread_counts, times_from, queue_row, queue_rows, queue_bench,
  trials_of,
}

length-times_from : {D : Type 0} (run : ℕ → D) (n k : ℕ) → length (times_from run n k) ≡ n
unfolding times_from
length-times_from run zero k = refl
length-times_from run (suc n) k = ap suc (length-times_from run n (suc k))

trials_of-positive : (z : ℤ) → 0 < trials_of z
unfolding trials_of
trials_of-positive (pos zero) = omega arith
trials_of-positive (pos (suc n)) = omega arith
trials_of-positive (negsuc n) = omega arith

module _ {D : Type 0} (double : Doubles D) (qsort : List D → List D) (trials other_work : ℕ) where
  -- What a row says of the times of its runs.
  pub record QueueReported (run : ℕ → D) (lockfree : Bool) (n : ℕ) (row : QueueRow D) : Type 0 where
    pub same_lockfree : row.lockfree ≡ lockfree
    pub same_threads : row.threads ≡ n
    pub total : row.ops_total ≡ n * ops_per_thread * 2
    pub middle :
        Between double
          (times_from run trials 0)
          (trials / 2)
          (trials - suc (trials / 2))
          row.median_s
    pub low : D
    pub high : D
    pub extremes : Extremes double (times_from run trials 0) (times_from run trials 0) (low, high)
    pub difference : row.spread_s ≡ double.minus high low

  -- A row for each number of threads, in order.
  abbrev pub QueueRows : (ℕ → ℕ → D) → Bool → List ℕ → List (QueueRow D) → Type 0
  QueueRows run lockfree [] [] = Unit
  QueueRows run lockfree (n ∷ ns) (row ∷ rows) =
      QueueReported (run n) lockfree n row × QueueRows run lockfree ns rows
  QueueRows run lockfree ns rows = ⊥

  module _ (order : Ordered double) (sorts : Sorts double qsort) (some_trial : 0 < trials) where
    queue_row-QueueReported :
        (run : ℕ → D) (lockfree : Bool) (n : ℕ)
        → (row : QueueRow D) × (queue_row double qsort trials other_work run lockfree n ≡ some row)
          × QueueReported run lockfree n row
    unfolding queue_row
    queue_row-QueueReported run lockfree n =
        let v = times_from run trials 0 in
        let len = length-times_from run trials 0 in
        let (m, e, b) = sorted-Between double order qsort sorts v (trials / 2) (omega arith) in
        let (low, high, f, g, x) = ends-Extremes double order qsort sorts v (omega arith) in
        let last = subst (λ k. get_elem? (qsort v) (k - 1) ≡ some high) len g in
        (
          _,
          bind_some _ e (bind_some _ f (bind_some _ last refl)),
          record {
            same_lockfree = refl;
            same_threads = refl;
            total = refl;
            middle = subst (λ k. Between double v (trials / 2) (k - suc (trials / 2)) m) len b;
            low = low;
            high = high;
            extremes = x;
            difference = refl;
          },
        )

    queue_rows-QueueRows :
        (run : ℕ → ℕ → D) (lockfree : Bool) (ns : List ℕ)
        → (rows : List (QueueRow D)) × (queue_rows double qsort trials other_work run lockfree ns
            ≡ some rows)
          × QueueRows run lockfree ns rows
    unfolding queue_rows
    queue_rows-QueueRows run lockfree [] = ([], refl, tt)
    queue_rows-QueueRows run lockfree (n ∷ ns) =
        let (row, e, r) = queue_row-QueueReported (run n) lockfree n in
        let (rows, f, ok) = queue_rows-QueueRows run lockfree ns in
        (row ∷ rows, bind_some _ e (bind_some _ f refl), (r, ok))

    -- With ordered times, a qsort that sorts and a trial at least, the benchmark reads no array out
    -- of bounds and prints the rows of the lock-free queue and then those of the mutex queue, for 1,
    -- 2, 4 and 8 threads: each with twice its operations, with the difference between a time that
    -- none exceeds and one that exceeds none, and with a time that half of the times at most are
    -- below, rounded down, and fewer than half, for an even number of them, are above.
    pub queue_bench-QueueRows :
        (run : Bool → ℕ → ℕ → D)
        → (with_lockfree : List (QueueRow D)) × (with_mutex : List (QueueRow D)) × (queue_bench
              double qsort trials other_work run
            ≡ some (with_lockfree ++ with_mutex))
          × QueueRows (run true) true thread_counts with_lockfree
          × QueueRows (run false) false thread_counts with_mutex
    unfolding queue_bench
    queue_bench-QueueRows run =
        let (a, e, ok) = queue_rows-QueueRows (run true) true thread_counts in
        let (b, f, fine) = queue_rows-QueueRows (run false) false thread_counts in
        (a, b, bind_some _ e (bind_some _ f refl), ok, fine)
