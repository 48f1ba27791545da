-- ===== src/QueueBench.antt =====
-- The benchmark of week 3, src/bench.c of 03-lockfree-queue: the calls of a worker and what the rows
-- say. Threads and clock are behind `run`, which gives the seconds of the k-th run.
mod Alone
mod Rows
mod Tests
use comp.Shared.{
  ℕ, zero, suc, ◌+◌, ◌-◌, ◌*◌, ◌/◌, Bool, true, false, Option, none, some, List, [], ◌∷◌, ◌++◌,
  if◌then◌else◌, ◌>>=◌, get_elem?, ltb, ℤ, pos, negsuc, ltb_ℤ,
}
use comp.Analyze.{Doubles}
use comp.MutexQueue.{Call, enqueue, dequeue}

abbrev pub ops_per_thread : ℕ
ops_per_thread = 20000

-- The calls of `worker`, with `left` operations to go, from operation `i` on.
unfoldable pub worker_calls : ℕ → ℕ → List Call
worker_calls zero i = []
worker_calls (suc left) i = enqueue i ∷ (dequeue ∷ worker_calls left (suc i))

-- The arguments: at least one trial, and no less work than none.
unfoldable pub trials_of : ℤ → ℕ
trials_of (pos (suc n)) = suc n
trials_of z = 1

unfoldable pub other_work_of : ℤ → ℕ
other_work_of (pos n) = n
other_work_of (negsuc n) = 0

abbrev pub thread_counts : List ℕ
thread_counts = 1 ∷ (2 ∷ (4 ∷ (8 ∷ [])))

pub record QueueRow (D : Type 0) : Type 0 where
  pub lockfree : Bool
  pub threads : ℕ
  pub other_work : ℕ
  pub ops_total : ℕ
  pub median_s : D
  pub spread_s : D
  pub throughput_ops_s : D

module _ {D : Type 0} where
  -- The loop over the trials, from run `k` on.
  unfoldable pub times_from : (ℕ → D) → ℕ → ℕ → List D
  times_from run zero k = []
  times_from run (suc left) k = run k ∷ times_from run left (suc k)

module _ {D : Type 0} (double : Doubles D) (qsort : List D → List D) (trials other_work : ℕ) where
  unfoldable pub queue_row : (ℕ → D) → Bool → ℕ → Option (QueueRow D)
  unfolding times_from
  queue_row run lockfree n = do
    let sorted = qsort (times_from run trials 0)
    med ← get_elem? sorted (trials / 2)
    low ← get_elem? sorted 0
    high ← get_elem? sorted (trials - 1)
    let total = n * ops_per_thread * 2
    some (record {
      lockfree = lockfree;
      threads = n;
      other_work = other_work;
      ops_total = total;
      median_s = med;
      spread_s = double.minus high low;
      throughput_ops_s =
          if double.lt (double.number 0) med
          then double.divide (double.number total) med
          else double.number 0;
    })

  unfoldable pub queue_rows : (ℕ → ℕ → D) → Bool → List ℕ → Option (List (QueueRow D))
  unfolding queue_row
  queue_rows run lockfree [] = some []
  queue_rows run lockfree (n ∷ ns) =
      queue_row (run n) lockfree n
      >>= (λ row. queue_rows run lockfree ns >>= (λ rest. some (row ∷ rest)))

  unfoldable pub queue_bench : (Bool → ℕ → ℕ → D) → Option (List (QueueRow D))
  unfolding queue_rows
  queue_bench run = do
    with_lockfree ← queue_rows (run true) true thread_counts
    with_mutex ← queue_rows (run false) false thread_counts
    some (with_lockfree ++ with_mutex)
