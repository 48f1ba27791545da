-- ===== src/Workload/Pacing.antt =====
-- The dispatch loop of `wl_run` of src/workload.c on the clock: what it releases, when, and how late.
-- `delay` is what calls take beyond what they are asked for.
use comp.Shared.{
  ℕ, zero, suc, ◌-◌, ◌*◌, ◌%◌, ◌/◌, ◌^◌, Bool, ◌&&◌, List, [], ◌∷◌, ◌++◌, map, ◌==◌, if◌then◌else◌,
  ltb, length, get_or, add64, false, true,
}
use comp.Analyze.{Doubles}
use comp.Analyze.Scan.{sub64, microseconds}
use comp.Workload.{
  Pathology, uneven_partition, wl_tasks, wl_burst_period, wl_num_sizes, is_burst, burst_end,
  pace_workers,
}
use comp.Workload.Records.{Record, RunResult}
use comp.Workload.Clock.{Clock, wl_now_ns, sleep_ns}
use comp.Workload.Worker.{dispatch_record}

-- What the loop leaves: the records in the order of dispatch, how late each paced one was, and the
-- clock.
pub record Paced (D : Type 0) : Type 0 where
  pub records : List (Record D)
  pub late : List ℕ
  pub clock : Clock

module _ {D : Type 0} (delay : ℕ → ℕ) (path : Pathology) (service_us : ℕ → D) (gap_ns : ℕ) where
  -- The `n` tasks from `i` on with no gap, before `rest`.
  unfoldable pub burst_records : ℕ → ℕ → Clock → List (Record D) × Clock
  unfolding dispatch_record
  burst_records zero i c = ([], c)
  burst_records (suc n) i c =
      let (r, c') = dispatch_record delay path service_us i c in
      let (rs, c'') = burst_records n (suc i) c' in (r ∷ rs, c'')

  -- The clock when a paced task is due at `deadline`: asleep until then, if it is not too late.
  unfoldable pub wait_for : ℕ → Clock → Clock
  unfolding wl_now_ns sleep_ns
  wait_for deadline c =
      let read = wl_now_ns delay c in
      if ltb read.time deadline
      then wl_now_ns delay (sleep_ns delay (deadline - read.time) read)
      else read

  -- A dispatcher that is more than two gaps late starts a fresh schedule.
  unfoldable pub next_deadline : ℕ → ℕ → ℕ
  next_deadline deadline now =
      if ltb (add64 deadline ((2 * gap_ns) % 2 ^ 64)) now then now else deadline

  -- The loop from task `i` on, on fuel, one a round.
  unfoldable pub pace_from : ℕ → ℕ → ℕ → Clock → Paced D
  unfolding burst_records wait_for next_deadline dispatch_record wl_now_ns
  pace_from zero i deadline c = record { records = []; late = []; clock = c }
  pace_from (suc fuel) i deadline c =
      let burst = burst_records (burst_end i - i) i c in
      let read = wl_now_ns delay burst.1 in
      let after_burst = pace_from fuel (burst_end i) read.time read in
      let due = add64 deadline gap_ns in
      let now = wait_for due c in
      let one = dispatch_record delay path service_us i now in
      let after_one = pace_from fuel (suc i) (next_deadline due now.time) one.1 in
      if ltb i wl_tasks
      then (if is_burst path && (i % wl_burst_period == 0)
          then record after_burst { records = burst.0 ++ after_burst.records }
          else record after_one {
            records = one.0 ∷ after_one.records;
            late = sub64 now.time due ∷ after_one.late;
          })
      else record { records = []; late = []; clock = c }

module _ {D : Type 0} (double : Doubles D) where
  -- 0.55, 1.2 and 300.0
  abbrev pub wl_target_rho : D
  wl_target_rho = double.divide (double.number 55) (double.number 100)

  abbrev pub wl_shard0_overload : D
  wl_shard0_overload = double.divide (double.number 12) (double.number 10)

  abbrev pub wl_mean_service_us : D
  wl_mean_service_us = double.number 300

  -- `sizes` are the configured sizes of the classes.
  unfoldable pub service_of : List ℕ → ℕ → D
  service_of sizes class =
      let sum = size_sum sizes (double.number 0) in
      double.divide
        (double.times (double.times wl_mean_service_us (double.number wl_num_sizes))
          (double.number (get_or sizes class 0)))
        sum
    where
      size_sum : List ℕ → D → D
      size_sum [] sum = sum
      size_sum (n ∷ ns) sum = size_sum ns (double.plus sum (double.number n))

  unfoldable pub dispatch_gap_us : ℕ → Pathology → (ℕ → D) → D
  unfolding pace_workers
  dispatch_gap_us pool uneven_partition service_us =
      double.divide (service_us 3) (double.times (double.number 4) wl_shard0_overload)
  dispatch_gap_us pool path service_us =
      double.divide wl_mean_service_us
        (double.times (double.number (pace_workers pool)) wl_target_rho)

  abbrev pub shard_count : (ℕ → Bool) → List (Record D) → ℕ
  shard_count p [] = 0
  shard_count p (r ∷ rs) = let rest = shard_count p rs in if p r.shard then suc rest else rest

  -- The end of `wl_run`, once the workers have filled in the records.
  unfoldable pub result_of : (List D → List D) → ℕ → ℕ → List ℕ → List (Record D) → RunResult D
  result_of qsort pool completed late records =
      let late_us = map (λ ns. microseconds double ns) late in
      record {
        queued = wl_tasks;
        completed = completed;
        shard0_count = shard_count (λ s. s == 0) records;
        shard1_count = shard_count (λ s. if s == 0 then false else true) records;
        workers = pool;
        pace_late_us = get_or (qsort late_us) (length late / 2) (double.number 0);
        records = records;
      }
