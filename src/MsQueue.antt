-- ===== src/MsQueue.antt =====
-- The lock-free queue of src/msqueue.c, one access to shared memory at a time, so that any number
-- of threads can be run in turn. `fault` records that a pointer to memory that is not allocated was
-- followed. Memory is sequentially consistent here.
mod Solo
pub mod Enqueuers
mod Chained
mod Standing
mod Linking
mod Swings
mod Together
mod Destroy
pub mod Threads
mod View
mod Crew
mod Core
mod Cells
mod Accesses
mod Moves
mod Enqueues
mod Dequeues
mod Fifo
mod Alone
pub mod Reuse
mod ReuseTests
mod FifoTests
mod Helping
mod Tests
use comp.Shared.{
  ℕ, zero, suc, ◌+◌, Bool, true, false, ◌&&◌, Option, none, some, ◌==◌, if◌then◌else◌, update,
  add64,
}

pub record Tagged : Type 0 where
  pub ptr : Option ℕ
  pub count : ℕ

pub record Node : Type 0 where
  pub value : ℕ
  pub next : Tagged

-- The heap and `struct msqueue`.
pub record Msqueue : Type 0 where
  pub heap : ℕ → Option Node
  pub head : Tagged
  pub tail : Tagged
  pub retries : ℕ
  pub fault : Bool

abbrev pub same_ptr : Option ℕ → Option ℕ → Bool
same_ptr none none = true
same_ptr (some p) (some q) = p == q
same_ptr p q = false

-- What a compare-and-swap of a `tagged` compares.
abbrev pub same_tagged : Tagged → Tagged → Bool
same_tagged a b = same_ptr a.ptr b.ptr && (a.count == b.count)

-- `n` is what malloc gives.
unfoldable pub node_new : ℕ → ℕ → Msqueue → Msqueue
node_new n value q = record q {
  heap = update q.heap n (some (record { value = value; next = record { ptr = none; count = 0 } }));
}

-- The queue at its start, with its dummy node at `dummy`.
unfoldable pub msq_create : (ℕ → Option Node) → ℕ → Msqueue
unfolding node_new
msq_create heap dummy =
    let start : Tagged = record { ptr = some dummy; count = 0 } in
    node_new dummy 0
      (record { heap = heap; head = start; tail = start; retries = 0; fault = false })

-- The node at `p`, or nothing where there is none.
abbrev pub deref : Msqueue → Option ℕ → Option Node
deref q none = none
deref q (some p) = q.heap p

abbrev pub store_next : Msqueue → Option ℕ → Node → Tagged → Msqueue
store_next q none node next = q
store_next q (some p) node next = record q {
  heap = update q.heap p (some (record node { next = next }));
}

abbrev pub faulty : Msqueue → Msqueue
faulty q = record q { fault = true }

-- CAS of `q->tail`, and of `q->head`.
abbrev pub cas_tail : Msqueue → Tagged → Tagged → Msqueue
cas_tail q old new = if same_tagged q.tail old then record q { tail = new } else q

-- Where a thread stands in `msq_enqueue` with its node `n`.
pub data Enqueue : Type 0 where
  start : (n : ℕ) → Enqueue
  has_tail : (n : ℕ) (tail : Tagged) → Enqueue
  has_next : (n : ℕ) (tail next : Tagged) → Enqueue
  linking : (n : ℕ) (tail next : Tagged) → Enqueue
  swinging : (n : ℕ) (tail : Tagged) → Enqueue
  helping : (n : ℕ) (tail next : Tagged) → Enqueue
  failed : (n : ℕ) → Enqueue
  enqueued : Enqueue

-- Its next access; `spurious` makes the weak CAS fail although it would succeed.
unfoldable pub enqueue_at : Bool → Msqueue → Enqueue → Msqueue × Enqueue
enqueue_at spurious q (start n) = (q, has_tail n q.tail)
enqueue_at spurious q (has_tail n tail) = elim (deref q tail.ptr) [
  | none ↦ (faulty q, has_tail n tail)
  | some node ↦ (q, has_next n tail node.next)
]
enqueue_at spurious q (has_next n tail next) =
    if same_ptr tail.ptr q.tail.ptr
    then (q, elim next.ptr [ none ↦ linking n tail next | some m ↦ helping n tail next ])
    else (q, start n)
enqueue_at spurious q (linking n tail next) = elim (deref q tail.ptr) [
  | none ↦ (faulty q, failed n)
  | some node ↦
      if spurious
      then (q, failed n)
      else if same_tagged node.next next
      then (
        store_next q tail.ptr node (record { ptr = some n; count = add64 next.count 1 }),
        swinging n tail,
      )
      else (q, failed n)
]
enqueue_at spurious q (swinging n tail) =
    (cas_tail q tail (record { ptr = some n; count = add64 tail.count 1 }), enqueued)
enqueue_at spurious q (helping n tail next) =
    (cas_tail q tail (record { ptr = next.ptr; count = add64 tail.count 1 }), start n)
enqueue_at spurious q (failed n) = (record q { retries = add64 q.retries 1 }, start n)
enqueue_at spurious q enqueued = (q, enqueued)

-- Where a thread stands in `msq_dequeue`.
pub data Dequeue : Type 0 where
  begin : Dequeue
  has_head : (head : Tagged) → Dequeue
  has_both : (head tail : Tagged) → Dequeue
  has_all : (head tail next : Tagged) → Dequeue
  lagging : (tail next : Tagged) → Dequeue
  reading : (head next : Tagged) → Dequeue
  swapping : (head next : Tagged) (val : ℕ) → Dequeue
  freeing : (head : Tagged) (val : ℕ) → Dequeue
  missed : Dequeue
  empty : Dequeue
  dequeued : (val : ℕ) → Dequeue

-- Its next access.
unfoldable pub dequeue_at : Msqueue → Dequeue → Msqueue × Dequeue
dequeue_at q begin = (q, has_head q.head)
dequeue_at q (has_head head) = (q, has_both head q.tail)
dequeue_at q (has_both head tail) = elim (deref q head.ptr) [
  | none ↦ (faulty q, has_both head tail)
  | some node ↦ (q, has_all head tail node.next)
]
dequeue_at q (has_all head tail next) =
    if same_ptr head.ptr q.head.ptr
    then (
      q,
      if same_ptr head.ptr tail.ptr
          then elim next.ptr [ none ↦ empty | some m ↦ lagging tail next ]
          else reading head next,
    )
    else (q, begin)
dequeue_at q (lagging tail next) =
    (cas_tail q tail (record { ptr = next.ptr; count = add64 tail.count 1 }), missed)
dequeue_at q (reading head next) = elim (deref q next.ptr) [
  | none ↦ (faulty q, reading head next)
  | some node ↦ (q, swapping head next node.value)
]
dequeue_at q (swapping head next val) =
    if same_tagged q.head head
    then (
      record q { head = record { ptr = next.ptr; count = add64 head.count 1 } },
      freeing head val,
    )
    else (q, missed)
dequeue_at q (freeing head val) =
    (elim head.ptr [ none ↦ q | some p ↦ record q { heap = update q.heap p none } ], dequeued val)
dequeue_at q missed = (record q { retries = add64 q.retries 1 }, begin)
dequeue_at q empty = (q, empty)
dequeue_at q (dequeued val) = (q, dequeued val)

-- `k` accesses of one thread, with no other in between.
unfoldable pub run_enqueue : ℕ → Msqueue → Enqueue → Msqueue × Enqueue
unfolding enqueue_at
run_enqueue zero q e = (q, e)
run_enqueue (suc k) q e = let (q', e') = enqueue_at false q e in run_enqueue k q' e'

unfoldable pub run_dequeue : ℕ → Msqueue → Dequeue → Msqueue × Dequeue
unfolding dequeue_at
run_dequeue zero q d = (q, d)
run_dequeue (suc k) q d = let (q', d') = dequeue_at q d in run_dequeue k q' d'

-- Along the nodes from one on, in at most `fuel` rounds; nothing where a pointer to memory that is
-- not allocated is followed, a second free of one node included.
unfoldable pub destroy_from : ℕ → (ℕ → Option Node) → Option ℕ → Option (ℕ → Option Node)
destroy_from fuel heap none = some heap
destroy_from zero heap (some n) = none
destroy_from (suc fuel) heap (some n) = elim (heap n) [
  | none ↦ none
  | some node ↦ destroy_from fuel (update heap n none) node.next.ptr
]

-- The heap that is left.
unfoldable pub msq_destroy : ℕ → Msqueue → Option (ℕ → Option Node)
unfolding destroy_from
msq_destroy fuel q = destroy_from fuel q.heap q.head.ptr
