-- ===== src/TaskQueue/Monitor.antt =====
-- The waits and signals of the queue of src/workload.c. A call that finds the queue full, or empty
-- and open, goes to sleep on its condition, which gives up the lock, and makes its test again once it
-- is awake and has the lock; a signal wakes one sleeper, where there is one, a broadcast all.
use comp.Shared.{ℕ, ◌+◌, ◌-◌, ◌≡◌, ◌<◌, Bool, true, false, none, some, ◌==◌, if◌then◌else◌}
use comp.TaskQueue.{Taskq, tq_init, tq_push, tq_pop, tq_close, waits, drained, popped}

-- The threads asleep on a condition, and those that were woken and have not had the lock since.
pub record Condition : Type 0 where
  pub asleep : ℕ
  pub woken : ℕ

pub record Monitor : Type 0 where
  pub q : Taskq
  pub not_empty : Condition
  pub not_full : Condition

abbrev pub wait : Condition → Condition
wait c = record c { asleep = c.asleep + 1 }

abbrev pub signal : Condition → Condition
signal c = if c.asleep == 0 then c else record { asleep = c.asleep - 1; woken = c.woken + 1 }

abbrev pub broadcast : Condition → Condition
broadcast c = record { asleep = 0; woken = c.woken + c.asleep }

-- A thread that gets the lock: one that was woken, or one that calls.
abbrev pub lock : Bool → Condition → Condition
lock true c = record c { woken = c.woken - 1 }
lock false c = c

-- What `tq_push` and `tq_pop` do between two times of giving up the lock, and `tq_close`.
unfoldable pub push_section : Bool → Monitor → ℕ → Monitor
unfolding tq_push
push_section was_woken s task_id = elim (tq_push s.q task_id) [
  | none ↦ record s { not_full = wait (lock was_woken s.not_full) }
  | some q ↦ record { q = q; not_empty = signal s.not_empty; not_full = lock was_woken s.not_full }
]

unfoldable pub pop_section : Bool → Monitor → Monitor
unfolding tq_pop
pop_section was_woken s = elim (tq_pop s.q) [
  | waits ↦ record s { not_empty = wait (lock was_woken s.not_empty) }
  | drained ↦ record s { not_empty = lock was_woken s.not_empty }
  | popped out q ↦ record {
    q = q;
    not_empty = lock was_woken s.not_empty;
    not_full = signal s.not_full;
  }
]

unfoldable pub close_section : Monitor → Monitor
unfolding tq_close
close_section s = record {
  q = tq_close s.q;
  not_empty = broadcast s.not_empty;
  not_full = broadcast s.not_full;
}

-- What can happen from `tq_init` on; a thread may wake without a signal.
pub data Waited (capacity : ℕ) : Monitor → Type 0 where
  made : Waited capacity (record {
    q = tq_init capacity;
    not_empty = record { asleep = 0; woken = 0 };
    not_full = record { asleep = 0; woken = 0 };
  })
  pushes :
      {s : Monitor} (was_woken : Bool) (task_id : ℕ)
      → Waited capacity s
      → (was_woken ≡ true → 0 < s.not_full.woken)
      → Waited capacity (push_section was_woken s task_id)
  pops :
      {s : Monitor} (was_woken : Bool)
      → Waited capacity s
      → (was_woken ≡ true → 0 < s.not_empty.woken)
      → Waited capacity (pop_section was_woken s)
  closes : {s : Monitor} → Waited capacity s → Waited capacity (close_section s)
  spurious_pop :
      {s : Monitor}
      → Waited capacity s
      → Waited capacity (record s { not_empty = signal s.not_empty })
  spurious_push :
      {s : Monitor}
      → Waited capacity s
      → Waited capacity (record s { not_full = signal s.not_full })
