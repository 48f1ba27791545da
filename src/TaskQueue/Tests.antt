-- ===== src/TaskQueue/Tests.antt =====
-- A queue of two slots between a dispatcher and a worker.
use comp.Shared.{
  ◌+◌, ◌⊎◌, refl, ℕ, ◌≡◌, ◌≤◌, refl, Bool, true, false, List, [], ◌∷◌, ◌++◌, length, arith,
}
use comp.TaskQueue.{Taskq, tq_init, tq_push, tq_pop, tq_close, drained}
use comp.TaskQueue.Ring.{contents}
use comp.TaskQueue.Trace.{Event, put, took, closing, push, pop, close, Run, done, step, puts, tooks}
use comp.TaskQueue.Monitor.{Monitor, push_section, pop_section, made, pushes, pops}
use comp.TaskQueue.Awake.{no_wake_up_lost}
use comp.TaskQueue.Promise.{first_in_first_out}

abbrev queue : List ℕ → ℕ → ℕ → ℕ → Bool → Taskq
queue slot head tail count closed = record {
  slot = slot;
  capacity = 2;
  head = head;
  tail = tail;
  count = count;
  closed = closed;
}

-- Tasks 5, 6 and 7 are put in, the third after one has been taken.
abbrev three_tasks : List Event
three_tasks = put 5 ∷ (put 6 ∷ (took 5 ∷ (put 7 ∷ [])))

abbrev two_left : Taskq
two_left = queue (7 ∷ (6 ∷ [])) 1 1 2 false

run_three : Run (tq_init 2) three_tasks two_left
unfolding tq_init tq_push tq_pop
run_three = step (push {r = queue (5 ∷ (0 ∷ [])) 0 1 1 false} 5 refl) (
    step (push {r = queue (5 ∷ (6 ∷ [])) 0 0 2 false} 6 refl)
      (step (pop {r = queue (5 ∷ (6 ∷ [])) 1 0 1 false} 5 refl) (step (push 7 refl) done)))

abbrev one_task : List Event
one_task = put 5 ∷ (took 5 ∷ (closing ∷ []))

abbrev all_done : Taskq
all_done = queue (5 ∷ (0 ∷ [])) 1 1 0 true

run_one : Run (tq_init 2) one_task all_done
unfolding tq_init tq_push tq_pop tq_close
run_one =
    step (push {r = queue (5 ∷ (0 ∷ [])) 0 1 1 false} 5 refl)
      (step (pop {r = queue (5 ∷ (0 ∷ [])) 1 1 0 false} 5 refl) (step close done))

all_done-drained : tq_pop all_done ≡ drained
unfolding tq_pop
all_done-drained = refl

first_in_first_out_example :
    (puts three_tasks ≡ tooks three_tasks ++ contents two_left) × (length (contents two_left) ≤ 2)
first_in_first_out_example = first_in_first_out 2 (omega arith) (omega arith) run_three

-- A worker goes to sleep, and a push wakes it.
abbrev woken_state : Monitor
woken_state =
    push_section false
      (pop_section false (record {
        q = tq_init 2;
        not_empty = record { asleep = 0; woken = 0 };
        not_full = record { asleep = 0; woken = 0 };
      }))
      5

woken_state-woken : woken_state.not_empty ≡ record { asleep = 0; woken = 1 }
unfolding push_section pop_section tq_init tq_push tq_pop
woken_state-woken = refl

no_wake_up_lost_example :
    (woken_state.q.count ≤ 2)
    × ((woken_state.not_empty.asleep ≡ 0)
        ⊎ ((woken_state.q.closed ≡ false) × (woken_state.q.count ≤ woken_state.not_empty.woken)))
    × ((woken_state.not_full.asleep ≡ 0) ⊎ (2 ≤ woken_state.q.count + woken_state.not_full.woken))
no_wake_up_lost_example =
    no_wake_up_lost 2 (omega arith)
      (pushes false 5 (pops false made (λ e. absurd (ground arith))) (λ e. absurd (ground arith)))
