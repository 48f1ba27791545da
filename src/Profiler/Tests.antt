-- ===== src/Profiler/Tests.antt =====
-- A machine whose calls take 100 and 20 units in turn by trial.
use comp.Shared.{ℕ, ◌%◌, ◌≡◌, refl, true, none, some, if◌then◌else◌, ltb, pos, negsuc}
use comp.Analyze.Tests.{whole, whole-Ordered, sort, sort-Sorts}
use comp.Profiler.{Machine, usage, nullcall_main}
use comp.Profiler.Verdict.{Ends, nullcall_main-Ends}

-- The system call of each trial is slower than the control.
abbrev machine_delay : ℕ → ℕ
machine_delay k = if ltb (k % 24) 12 then 100 else 20

abbrev fresh : Machine
fresh = record { time = 0; calls = 0 }

usage-no_trials :
    nullcall_main whole sort machine_delay (some (pos 10)) (some (negsuc 2)) true fresh ≡ some usage
unfolding nullcall_main
usage-no_trials = refl

nullcall_main-Ends_example :
    Ends whole sort machine_delay fresh
      (pos 10)
      (pos 7)
      true
      (nullcall_main whole sort machine_delay (some (pos 10)) none true fresh)
nullcall_main-Ends_example =
    nullcall_main-Ends whole sort whole-Ordered sort-Sorts machine_delay (some (pos 10)) none true
      fresh
