-- ===== src/RcuBench/Tests.antt =====
-- A benchmark whose runs take longer and longer, with a torn read in the warm-up.
use comp.Shared.{
  ◌⊎◌, ℕ, ◌+◌, ◌≡◌, refl, Bool, true, false, some, none, List, ◌++◌, if◌then◌else◌, ◌==◌, pos,
  negsuc, arith,
}
use comp.Analyze.Tests.{whole, whole-Ordered, sort, sort-Sorts}
use comp.Table.{Version}
use comp.RcuBench.{Run, Row, levels, arguments, bench_rows, bench_main, usage, printed}
use comp.Rcu.{rcu_register}
use comp.Grace.{rt_init, join, read_at, update_at}
use comp.RcuBench.Once.{
  Once, once_start, register_reader, reader_access, writer_access, OnceReach, begins, goes_on,
  registers, reads_on, writes,
}
use comp.RcuBench.Counts.{Counting, run_once-Counting}
use comp.RcuBench.Rows.{Levels, Asks, bench_main-Levels}

abbrev sample : Bool → ℕ → ℕ → Run ℕ
sample rcu readers k = record {
  seconds = readers + k;
  torn = if k == 0 then 1 else 0;
  freed = if rcu then 100 + k else 0;
}

arguments-edges :
    (arguments (pos 0) (pos 100) (pos 5) ≡ none)
    × (arguments (pos 99) (pos 0) (pos 1) ≡ some (99, 0, 1))
    × (arguments (pos 5) (negsuc 0) (pos 1) ≡ none)
unfolding arguments
arguments-edges = (refl, refl, refl)

abbrev storage : Version
storage = record { gen = 9; val = λ k. 0 }

bench_main-Levels_example :
    ((bench_main whole sort sample (pos 99) (pos 100) (pos 2000) ≡ usage)
      × ((trials updates reads : ℕ)
          → ¬ Asks whole sort whole-Ordered sort-Sorts
              (pos 99)
              (pos 100)
              (pos 2000)
              trials
              updates
              reads))
    ⊎ ((trials : ℕ) × (updates : ℕ) × (reads : ℕ) × Asks whole sort whole-Ordered sort-Sorts
          (pos 99)
          (pos 100)
          (pos 2000)
          trials
          updates
          reads
        × ((with_rcu : List (Row ℕ)) × (with_rwlock : List (Row ℕ)) × (bench_main whole sort sample
                (pos 99)
                (pos 100)
                (pos 2000)
              ≡ printed (with_rcu ++ with_rwlock))
            × Levels whole sort whole-Ordered sort-Sorts
                (sample true)
                true
                trials
                reads
                levels
                with_rcu
            × Levels whole sort whole-Ordered sort-Sorts
                (sample false)
                false
                trials
                reads
                levels
                with_rwlock))
bench_main-Levels_example =
    bench_main-Levels whole sort whole-Ordered sort-Sorts sample (pos 99) (pos 100) (pos 2000)

-- A hundredth time has no place.
bench_rows-overflow : bench_rows whole sort sample 100 5 ≡ none
unfolding bench_rows
bench_rows-overflow = refl

-- A reader in its lookup while the writer is in its first update.
abbrev begun : Once
begun = once_start 0 storage

abbrev with_reader : Once
with_reader = register_reader begun

abbrev reading : Once
reading = reader_access with_reader 0

abbrev writing : Once
writing = writer_access reading 5

abbrev found : Once
found = reader_access writing 0

writing-reached : OnceReach 3 2 2 begun found
unfolding once_start register_reader reader_access writer_access rt_init join rcu_register read_at
    update_at
writing-reached =
    goes_on
      (goes_on
        (goes_on (goes_on begins (registers (omega arith) refl))
          (reads_on 0 (omega arith) (omega arith)))
        (writes 5 (omega arith) (λ idle. refl)))
      (reads_on 0 (omega arith) (omega arith))

run_once-Counting_example : Counting 3 0 storage found
run_once-Counting_example = run_once-Counting 3 2 2 0 storage writing-reached
