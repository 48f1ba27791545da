-- ===== src/MutexQueue.antt =====
-- The mutex-protected queue of src/mutexqueue.c: a singly linked list on the heap, each operation
-- under the lock and so in one step. A result `none` of an operation is undefined behaviour: a
-- pointer to memory that is not allocated was followed or freed.
mod Chain
pub mod Refine
pub mod Client
mod Tests
use comp.Shared.{ℕ, zero, suc, Bool, true, false, Option, none, some, List, [], ◌∷◌, update}

pub record Mnode : Type 0 where
  pub value : ℕ
  pub next : Option ℕ

abbrev pub Heap : Type 0
Heap = ℕ → Option Mnode

-- The heap, and `struct mqueue` without its lock.
pub record Mqueue : Type 0 where
  pub heap : Heap
  pub head : Option ℕ
  pub tail : Option ℕ

unfoldable pub mq_create : Heap → Mqueue
mq_create h = record { heap = h; head = none; tail = none }

-- The second argument is what malloc gives for the node.
unfoldable pub mq_enqueue : Mqueue → Option ℕ → ℕ → Option (Bool × Mqueue)
mq_enqueue q none value = some (false, q)
mq_enqueue q (some n) value =
    let h = update q.heap n (some (record { value = value; next = none })) in
    elim q.tail [
      | none ↦ some (true, record { heap = h; head = some n; tail = some n })
      | some t ↦ elim (h t) [
        | none ↦ none
        | some last ↦ some (
          true,
          record {
            heap = update h t (some (record last { next = some n }));
            head = q.head;
            tail = some n;
          },
        )
      ]
    ]

-- What is taken out, where there is anything.
unfoldable pub mq_dequeue : Mqueue → Option (Option ℕ × Mqueue)
mq_dequeue q = elim q.head [
  | none ↦ some (none, q)
  | some n ↦ elim (q.heap n) [
    | none ↦ none
    | some node ↦ some (
      some node.value,
      record {
        heap = update q.heap n none;
        head = node.next;
        tail = elim node.next [ none ↦ none | some m ↦ q.tail ];
      },
    )
  ]
]

-- The loop of `mq_destroy`, on fuel.
unfoldable pub free_from : ℕ → Heap → Option ℕ → Option Heap
free_from fuel h none = some h
free_from zero h (some n) = none
free_from (suc fuel) h (some n) = elim (h n) [
  | none ↦ none
  | some node ↦ free_from fuel (update h n none) node.next
]

unfoldable pub mq_destroy : ℕ → Mqueue → Option Heap
unfolding free_from
mq_destroy fuel q = free_from fuel q.heap q.head

-- The calls of a client, and what they return.
pub data Call : Type 0 where
  enqueue : (value : ℕ) → Call
  dequeue : Call

pub data Return : Type 0 where
  stored : (ok : Bool) → Return
  taken : (out : Option ℕ) → Return

module _ (malloc : Heap → Option ℕ) where
  unfoldable pub serve : Mqueue → Call → Option (Return × Mqueue)
  unfolding mq_enqueue mq_dequeue
  serve q (enqueue value) = elim (mq_enqueue q (malloc q.heap) value) [
    | none ↦ none
    | some (ok, r) ↦ some (stored ok, r)
  ]
  serve q dequeue = elim (mq_dequeue q) [ none ↦ none | some (out, r) ↦ some (taken out, r) ]

  -- The calls one after the other.
  unfoldable pub serve_all : Mqueue → List Call → Option (List Return × Mqueue)
  unfolding serve
  serve_all q [] = some ([], q)
  serve_all q (c ∷ cs) = elim (serve q c) [
    | none ↦ none
    | some (r, q') ↦ elim (serve_all q' cs) [ none ↦ none | some (rs, q'') ↦ some (r ∷ rs, q'') ]
  ]
