-- ===== src/TaskQueue/Promise.antt =====
-- What the queue of tasks promises to its dispatchers and workers.
use comp.Shared.{
  iff_trans, ==_iff, ℕ, zero, suc, ◌≡◌, ◌∙◌, sym, ap, refl, ◌≤◌, ◌<◌, ◌^◌, true, false, none, List,
  [], ◌++◌, ◌==◌, arith, Bool-cases, inl, inr, ◌↔◌, length,
}
use mathlib.Core.List.{append-nil}
use comp.TaskQueue.{Taskq, tq_init, tq_push, tq_pop, waits, drained}
use comp.TaskQueue.Ring.{after, items, contents, tq_init-Ok}
use comp.TaskQueue.Trace.{Event, Run, puts, tooks, run-Balanced}

length-items : (slot : List ℕ) (cap h n : ℕ) → length (items slot cap h n) ≡ n
length-items slot cap h zero = refl
length-items slot cap h (suc n) = ap suc (length-items slot cap (after cap h) n)

length-contents : (q : Taskq) → length (contents q) ≡ q.count
length-contents q = length-items q.slot q.capacity q.head q.count

pub pop-drained : (q : Taskq) → tq_pop q ≡ drained → (q.count ≡ 0) × (q.closed ≡ true)
unfolding tq_pop
pop-drained q d = elim (Bool-cases (q.count == 0)) [
  | inl y ↦ elim (Bool-cases q.closed) [ inl c ↦ (ground arith, c) | inr n ↦ absurd (ground arith) ]
  | inr n ↦ absurd (ground arith)
]

-- From `tq_init` on, whatever the dispatchers and workers do, the tasks put in are those taken out,
-- in the same order, and then those that the queue holds, which are no more than its capacity.
pub first_in_first_out :
    (capacity : ℕ) {es : List Event} {s : Taskq}
    → 0 < capacity
    → capacity < 2 ^ 32
    → Run (tq_init capacity) es s
    → (puts es ≡ tooks es ++ contents s) × (length (contents s) ≤ capacity)
unfolding tq_init
first_in_first_out capacity {es} {s} lo hi run =
    let b = run-Balanced (tq_init-Ok capacity lo hi) run in
    (b.order, omega (arith, length-contents s, b.ok.bounded, b.same_capacity))

-- A worker that is told that the queue is drained comes after `tq_close`, and every task that was
-- put in has been taken, in order and once.
pub drained_lem :
    (capacity : ℕ) {es : List Event} {s : Taskq}
    → 0 < capacity
    → capacity < 2 ^ 32
    → Run (tq_init capacity) es s
    → tq_pop s ≡ drained
    → (puts es ≡ tooks es) × (s.closed ≡ true)
drained_lem capacity {es} {s} lo hi run d =
    let (order, small) = first_in_first_out capacity lo hi run in
    let (z, c) = pop-drained s d in
    (order ∙ ap (λ n. tooks es ++ items s.slot s.capacity s.head n) z ∙ append-nil (tooks es), c)

push-waits : (q : Taskq) (v : ℕ) → (tq_push q v ≡ none) ↔ (q.count ≡ q.capacity)
unfolding tq_push
push-waits q v = elim (Bool-cases (q.count == q.capacity)) [
  | inl y ↦ rw y ((λ e. (==_iff q.count q.capacity).0 y), (λ e. refl))
  | inr n ↦ rw n ((λ e. absurd (ground arith)), (λ e. absurd (ground arith)))
]

pop-waits : (q : Taskq) → (tq_pop q ≡ waits) ↔ ((q.count ≡ 0) × (q.closed ≡ false))
unfolding tq_pop
pop-waits q = elim (Bool-cases (q.count == 0)) [
  | inl y ↦ elim (Bool-cases q.closed) [
    | inl c ↦ rw (y, c) ((λ e. absurd (ground arith)), (λ x. absurd (ground arith)))
    | inr o ↦ rw (y, o) ((λ e. ((==_iff q.count 0).0 y, refl)), (λ x. refl))
  ]
  | inr n ↦ rw n ((λ e. absurd (ground arith)), (λ x. absurd (ground arith)))
]

pub items-zero : (q : Taskq) → q.count ≡ 0 → contents q ≡ []
items-zero q z = ap (items q.slot q.capacity q.head) z

-- `tq_push` waits exactly while the queue holds as many tasks as its capacity, and `tq_pop` exactly
-- while it holds none and is not closed.
pub waits_lem :
    (capacity v : ℕ) {es : List Event} {s : Taskq}
    → 0 < capacity
    → capacity < 2 ^ 32
    → Run (tq_init capacity) es s
    → ((tq_push s v ≡ none) ↔ (length (contents s) ≡ capacity))
      × ((tq_pop s ≡ waits) ↔ ((contents s ≡ []) × (s.closed ≡ false)))
unfolding tq_init
waits_lem capacity v {es} {s} lo hi run =
    let b = run-Balanced (tq_init-Ok capacity lo hi) run in
    let len : length (contents s) ≡ s.count = length-contents s in
    let cap : s.capacity ≡ capacity = b.same_capacity in
    (
      iff_trans (push-waits s v) ((λ e. omega arith), (λ e. omega arith)),
      iff_trans (pop-waits s)
          ((λ x. (items-zero s x.0, x.1)), (λ x. (sym len ∙ ap length x.0, x.1))),
    )
