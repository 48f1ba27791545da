-- ===== src/Workload/Records.antt =====
-- What src/workload.h passes to the analysis: one record for each task, and the result of a run.
-- `D` is the type of doubles.
use comp.Shared.{ℕ, Bool, List, not, ◌≤◌, ◌==◌}

-- `wl_record`. Timestamps are in nanoseconds, and 0 where there is none.
pub record Record (D : Type 0) : Type 0 where
  pub task_id : ℕ
  pub shard : ℕ
  pub service_us : D
  pub is_holder : Bool
  pub ready_ns : ℕ
  pub start_ns : ℕ
  pub end_ns : ℕ

-- `wl_result`, with as many records as were queued.
pub record RunResult (D : Type 0) : Type 0 where
  pub queued : ℕ
  pub completed : ℕ
  pub shard0_count : ℕ
  pub shard1_count : ℕ
  pub workers : ℕ
  pub pace_late_us : D
  pub records : List (Record D)

module _ {D : Type 0} where
  abbrev pub is_started : Record D → Bool
  is_started r = not (r.start_ns == 0)

  abbrev pub InOrder : Record D → Type 0
  InOrder r = (r.ready_ns ≤ r.start_ns) × (r.start_ns ≤ r.end_ns)
