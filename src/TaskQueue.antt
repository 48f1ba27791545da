-- ===== src/TaskQueue.antt =====
-- The bounded queue of task ids of src/workload.c, shared by the dispatcher and the workers. An
-- operation holds the lock from its first test on, but for the waits: each wait ends with the lock
-- held and the test made again. So a call is a number of waits, which change nothing, and then one
-- step. TaskQueue/Monitor has the waits themselves, and whom the signals and broadcasts wake.
pub mod Ring
pub mod Trace
pub mod Promise
mod Monitor
mod Awake
mod Tests
use comp.Shared.{
  ℕ, zero, suc, ◌+◌, ◌-◌, ◌%◌, ◌≡◌, Bool, true, false, Option, none, some, List, [], ◌∷◌, ◌==◌,
  if◌then◌else◌, set, get_or, add32,
}

pub record Taskq : Type 0 where
  pub slot : List ℕ
  pub capacity : ℕ
  pub head : ℕ
  pub tail : ℕ
  pub count : ℕ
  pub closed : Bool

abbrev pub zeros : ℕ → List ℕ
zeros zero = []
zeros (suc n) = 0 ∷ zeros n

unfoldable pub tq_init : ℕ → Taskq
tq_init capacity = record {
  slot = zeros capacity;
  capacity = capacity;
  head = 0;
  tail = 0;
  count = 0;
  closed = false;
}

-- `none` where the call waits until there is room.
unfoldable pub tq_push : Taskq → ℕ → Option Taskq
tq_push q task_id =
    if q.count == q.capacity
    then none
    else some (record q {
      slot = set q.slot q.tail task_id;
      tail = add32 q.tail 1 % q.capacity;
      count = add32 q.count 1;
    })

-- A call waits, returns -1, or returns 0 with a task.
pub data Pop : Type 0 where
  waits : Pop
  drained : Pop
  popped : (out : ℕ) (q : Taskq) → Pop

unfoldable pub tq_pop : Taskq → Pop
tq_pop q =
    if q.count == 0
    then (if q.closed then drained else waits)
    else popped (get_or q.slot q.head 0)
        (record q { head = add32 q.head 1 % q.capacity; count = q.count - 1 })

unfoldable pub tq_close : Taskq → Taskq
tq_close q = record q { closed = true }
