-- ===== src/Pool.antt =====
-- `wl_run` of week5/examples/05-invariant-audit/src/workload.c as a whole: the dispatcher, the two
-- queues, the gate and the workers, each taking its steps in any order. In `Step` a call that waits
-- is a step that is not taken yet; Pool/Sleep has who sleeps there and whom the signals wake. When
-- things happen, and for how long, is left out here.
mod Whole
mod Tally
mod Moving
mod Releases
mod Takes
mod Start
mod Closing
mod Gate
mod Ending
mod Steps
mod Finished
mod Rank
mod Sleep
mod Sums
mod Rested
mod Dreams
mod Asleep
mod Released
mod Signals
mod Going
mod Progress
mod Waking
mod Wakeful
mod Tests
use comp.Shared.{
  ℕ, suc, ◌+◌, ◌≡◌, ◌<◌, Bool, true, false, Option, none, some, List, [], ◌∷◌, ◌++◌, ◌==◌, ltb,
  if◌then◌else◌, update, add32,
}
use comp.TaskQueue.{Taskq, tq_init, tq_push, tq_pop, tq_close, popped, drained}
use comp.Workload.{Pathology, wl_tasks, shard_workers, dispatch_one, dispatch_from}

abbrev pub wl_capacity : ℕ
wl_capacity = 64

-- Where a worker stands, with its task.
pub data Station : Type 0 where
  looking : Station
  passing : (task_id : ℕ) → Station
  starting : (task_id : ℕ) → Station
  holding : (task_id : ℕ) → Station
  serving : (task_id : ℕ) → Station
  ending : (task_id : ℕ) → Station
  counting : Station
  returned : Station

-- Where the dispatcher stands: with the tasks that it has yet to release, between closing the two
-- queues, or with so many workers joined.
pub data Main : Type 0 where
  dispatching : (todo : List ℕ) → Main
  closing : Main
  joining : (k : ℕ) → Main

-- `gate` is the worker that sleeps with the gate held, and `ended` the tasks whose end is recorded,
-- in order.
pub record Pool : Type 0 where
  pub q0 : Taskq
  pub q1 : Taskq
  pub main : Main
  pub at : ℕ → Station
  pub gate : Option ℕ
  pub ended : List ℕ
  pub completed : ℕ

abbrev pub queue_at : Pool → ℕ → Taskq
queue_at s k = if k == 0 then s.q0 else s.q1

abbrev pub set_queue : Pool → ℕ → Taskq → Pool
set_queue s k q = if k == 0 then record s { q0 = q } else record s { q1 = q }

module _ (path : Pathology) (pool : ℕ) where
  unfoldable pub total_workers : ℕ
  total_workers = (shard_workers path pool).0 + (shard_workers path pool).1

  -- The queue of worker `i`: the first workers serve queue 0.
  unfoldable pub worker_queue : ℕ → ℕ
  worker_queue i = if ltb i (shard_workers path pool).0 then 0 else 1

  unfoldable pub start_pool : Pool
  start_pool = record {
    q0 = tq_init wl_capacity;
    q1 = tq_init wl_capacity;
    main = dispatching (dispatch_from path wl_tasks 0);
    at = λ i. looking;
    gate = none;
    ended = [];
    completed = 0;
  }

  -- What can happen next.
  pub data Step (s : Pool) : Pool → Type 0 where
    release :
        (t : ℕ) (todo : List ℕ) (q : Taskq)
        → s.main ≡ dispatching (t ∷ todo)
        → tq_push (queue_at s (dispatch_one path t).queue) t ≡ some q
        → Step s (record (set_queue s (dispatch_one path t).queue q) { main = dispatching todo })
    close_first : s.main ≡ dispatching [] → Step s (record s { q0 = tq_close s.q0; main = closing })
    close_second : s.main ≡ closing → Step s (record s { q1 = tq_close s.q1; main = joining 0 })
    join :
        (k : ℕ)
        → s.main ≡ joining k
        → k < total_workers
        → s.at k ≡ returned
        → Step s (record s { main = joining (suc k) })
    take :
        (i t : ℕ) (q : Taskq)
        → i < total_workers
        → s.at i ≡ looking
        → tq_pop (queue_at s (worker_queue i)) ≡ popped t q
        → Step s (record (set_queue s (worker_queue i) q) { at = update s.at i (passing t) })
    leave :
        (i : ℕ)
        → i < total_workers
        → s.at i ≡ looking
        → tq_pop (queue_at s (worker_queue i)) ≡ drained
        → Step s (record s { at = update s.at i returned })
    pass :
        (i t : ℕ)
        → i < total_workers
        → s.at i ≡ passing t
        → s.gate ≡ none
        → Step s (record s { at = update s.at i (starting t) })
    hold :
        (i t : ℕ)
        → i < total_workers
        → s.at i ≡ starting t
        → (dispatch_one path t).is_holder ≡ true
        → s.gate ≡ none
        → Step s (record s { gate = some i; at = update s.at i (holding t) })
    let_go :
        (i t : ℕ)
        → i < total_workers
        → s.at i ≡ holding t
        → Step s (record s { gate = none; at = update s.at i (ending t) })
    serve :
        (i t : ℕ)
        → i < total_workers
        → s.at i ≡ starting t
        → (dispatch_one path t).is_holder ≡ false
        → Step s (record s { at = update s.at i (serving t) })
    served :
        (i t : ℕ)
        → i < total_workers
        → s.at i ≡ serving t
        → Step s (record s { at = update s.at i (ending t) })
    end :
        (i t : ℕ)
        → i < total_workers
        → s.at i ≡ ending t
        → Step s (record s { ended = s.ended ++ (t ∷ []); at = update s.at i counting })
    count :
        (i : ℕ)
        → i < total_workers
        → s.at i ≡ counting
        → Step s (record s { completed = add32 s.completed 1; at = update s.at i looking })

  -- What can happen from the start on, in so many steps.
  pub data Reach : ℕ → Pool → Type 0 where
    here : Reach 0 start_pool
    next : {k : ℕ} {s t : Pool} → Reach k s → Step s t → Reach (suc k) t

  -- `wl_run` has joined every worker.
  abbrev pub IsOver : Pool → Type 0
  IsOver s = s.main ≡ joining total_workers
