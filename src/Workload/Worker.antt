-- ===== src/Workload/Worker.antt =====
-- One task through `dispatch_one` and one round of the loop of `worker_main` of src/workload.c, on
-- the clock. `nanoseconds` is what `(uint64_t)(us * 1000.0)` is of a double.
use comp.Shared.{ℕ, ◌*◌, Option, some, if◌then◌else◌, ◌>>=◌, add32}
use comp.Workload.{Pathology, dispatch_one}
use comp.Workload.Records.{Record}
use comp.Workload.Clock.{Clock, wl_now_ns, wait_lock, hold_for, serve}

abbrev pub wl_hold_us : ℕ
wl_hold_us = 10000

-- The record, the clock, and how many tasks are completed.
pub record Work (D : Type 0) : Type 0 where
  pub task : Record D
  pub clock : Clock
  pub completed : ℕ

module _ {D : Type 0} (delay : ℕ → ℕ) where
  -- The record that a task is dispatched with; the push may wait for a slot.
  unfoldable pub dispatch_record : Pathology → (ℕ → D) → ℕ → Clock → Record D × Clock
  unfolding dispatch_one wl_now_ns wait_lock
  dispatch_record path service_us task_id c =
      let task = dispatch_one path task_id in
      let read = wl_now_ns delay c in
      (
        record {
          task_id = task_id;
          shard = task.shard;
          service_us = service_us task.size_class;
          is_holder = task.is_holder;
          ready_ns = read.time;
          start_ns = 0;
          end_ns = 0;
        },
        wait_lock delay read,
      )

  -- Sleeping with the gate held, or serving.
  unfoldable pub busy_for : (D → ℕ) → ℕ → Record D → Clock → Option Clock
  unfolding hold_for serve wait_lock
  busy_for nanoseconds fuel r c =
      if r.is_holder
      then (hold_for delay fuel (wl_hold_us * 1000) (wait_lock delay c)
          >>= (λ held. some (wait_lock delay held)))
      else serve delay fuel (nanoseconds r.service_us) c

  -- After `tq_pop` has given the task: past the gate, then timed.
  unfoldable pub worker_round : (D → ℕ) → ℕ → Work D → Option (Work D)
  unfolding busy_for
  worker_round nanoseconds fuel w = do
    let started = wl_now_ns delay (wait_lock delay (wait_lock delay w.clock))
    served ← busy_for nanoseconds fuel w.task started
    let ended = wl_now_ns delay served
    some (record {
      task = record w.task { start_ns = started.time; end_ns = ended.time };
      clock = ended;
      completed = add32 w.completed 1;
    })
