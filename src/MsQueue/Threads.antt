-- ===== src/MsQueue/Threads.antt =====
-- Any number of threads in `msq_enqueue` and `msq_dequeue` of src/msqueue.c at once, each access a
-- step; malloc gives no address twice.
use comp.Shared.{ℕ, Bool, Option, none, some, List, [], ◌∷◌, ◌++◌, Mem, update}
use comp.MsQueue.{
  Msqueue, node_new, msq_create, Enqueue, start, enqueued, swinging, linking, enqueue_at, Dequeue,
  begin, swapping, freeing, empty, dequeued, dequeue_at,
}

-- What a thread does: the value that it enqueues, and where in its call it stands.
pub data Doing : Type 0 where
  idle : Doing
  enqueueing : (value : ℕ) (e : Enqueue) → Doing
  dequeueing : (d : Dequeue) → Doing

pub record Threads : Type 0 where
  pub queue : Msqueue
  pub at : ℕ → Doing

-- A thread that is in no call.
abbrev pub IsDone : Doing → Type 0
IsDone idle = Unit
IsDone (enqueueing value enqueued) = Unit
IsDone (enqueueing value e) = ⊥
IsDone (dequeueing empty) = Unit
IsDone (dequeueing (dequeued val)) = Unit
IsDone (dequeueing d) = ⊥

-- A thread's next access.
unfoldable pub move : Bool → Msqueue → Doing → Msqueue × Doing
move spurious q idle = (q, idle)
move spurious q (enqueueing value e) =
    let (q', e') = enqueue_at spurious q e in (q', enqueueing value e')
move spurious q (dequeueing d) = let (q', d') = dequeue_at q d in (q', dequeueing d')

-- The value that an access puts in, where it links a node, and the one that it takes out, where it
-- moves the head.
abbrev pub links : Doing → Doing → Option ℕ
links (enqueueing value (linking n tail next)) (enqueueing v (swinging m t)) = some value
links d d' = none

abbrev pub takes : Doing → Doing → Option ℕ
takes (dequeueing (swapping head next val)) (dequeueing (freeing h v)) = some val
takes d d' = none

abbrev pub with : Option ℕ → List ℕ → List ℕ
with none l = l
with (some v) l = l ++ (v ∷ [])

abbrev pub step : Threads → ℕ → Bool → Threads
step s i spurious =
    let (q, d) = move spurious s.queue (s.at i) in record { queue = q; at = update s.at i d }

-- What can happen from `msq_create` on: the addresses that malloc has given, and the values that
-- were put in and taken out, in order.
pub data Ran : List ℕ → List ℕ → List ℕ → Threads → Type 0 where
  created :
      (dummy : ℕ)
      → Ran (dummy ∷ []) [] [] (record { queue = msq_create (λ a. none) dummy; at = λ i. idle })
  enqueues :
      {given ins outs : List ℕ} {s : Threads} (i n value : ℕ)
      → Ran given ins outs s
      → IsDone (s.at i)
      → ¬ Mem n given
      → Ran (n ∷ given) ins outs (record {
        queue = node_new n value s.queue;
        at = update s.at i (enqueueing value (start n));
      })
  dequeues :
      {given ins outs : List ℕ} {s : Threads} (i : ℕ)
      → Ran given ins outs s
      → IsDone (s.at i)
      → Ran given ins outs (record s { at = update s.at i (dequeueing begin) })
  moves :
      {given ins outs : List ℕ} {s : Threads} (i : ℕ) (spurious : Bool)
      → Ran given ins outs s
      → Ran given
          (with (links (s.at i) (move spurious s.queue (s.at i)).1) ins)
          (with (takes (s.at i) (move spurious s.queue (s.at i)).1) outs)
          (step s i spurious)
