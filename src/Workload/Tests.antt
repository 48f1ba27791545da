-- ===== src/Workload/Tests.antt =====
-- The workload's constants at work.
use comp.Workload.Serving.{Served, worker_round-Served}
use comp.Workload.Worker.{Work, worker_round}
use comp.Workload.Records.{Record}
use comp.Workload.Schedule.{pace_from-records}
use comp.Workload.Pacing.{pace_from}
use comp.Workload.Clock.{wait_lock, Clock}
use comp.Shared.{
  if◌then◌else◌, map, arith, ◌*◌, ◌==◌, [], ◌∷◌, ℕ, some, false, ◌+◌, ◌≡◌, ◌<◌, refl, ℕ, arith,
  false, ◌*◌, ◌∷◌, [], some,
}
use comp.Workload.{wl_tasks, uneven_partition, range, count_shard0, burst_arrival, blocked_holder}

shard0-quarter : count_shard0 uneven_partition 40 0 ≡ 10
unfolding count_shard0
shard0-quarter = refl

-- Every call takes 7 ns, but the tenth takes 5000.
abbrev slow_once : ℕ → ℕ
slow_once k = if k == 10 then 5000 else 7

slow_once-ticks : (k : ℕ) → 0 < slow_once k
slow_once-ticks k = ground arith

abbrev start_clock : Clock
start_clock = record { time = 1000; calls = 0 }

abbrev size_of : ℕ → ℕ
size_of class = class + 1

pace_from-late :
    (pace_from slow_once blocked_holder size_of 200 5 3996 1000 start_clock).late
    ≡ 14 ∷ (14 ∷ (4828 ∷ (14 ∷ [])))
unfolding pace_from
pace_from-late = refl

pace_from-records_example :
    map
      (λ r. r.task_id)
      (pace_from slow_once burst_arrival size_of 200 wl_tasks 0 1000 start_clock).records
    ≡ range 0 wl_tasks
pace_from-records_example = pace_from-records slow_once burst_arrival size_of 200 1000 start_clock

abbrev dispatched : Record ℕ
dispatched = record {
  task_id = 3;
  shard = 0;
  service_us = 50;
  is_holder = false;
  ready_ns = 900;
  start_ns = 0;
  end_ns = 0;
}

abbrev before : Work ℕ
before = record { task = dispatched; clock = start_clock; completed = 4294967295 }

worker_round-Served_example :
    (w' : Work ℕ) × (worker_round slow_once (λ us. us * 1000) 60000 before ≡ some w')
    × Served slow_once slow_once-ticks (λ us. us * 1000) before w'
unfolding wait_lock
worker_round-Served_example =
    worker_round-Served slow_once slow_once-ticks (λ us. us * 1000) 60000 before (omega arith)
      (omega arith) (omega arith)
