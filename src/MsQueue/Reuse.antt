-- ===== src/MsQueue/Reuse.antt =====
-- The counts of src/msqueue.c against reuse: threads in `msq_enqueue` and `msq_dequeue` at once, where
-- malloc gives any address that is not in use, one freed a moment ago too.
use comp.Shared.{
  ℕ, ◌+◌, ◌%◌, ◌^◌, ◌≡◌, ◌<◌, ap, refl, Bool, true, false, Option, none, some, if◌then◌else◌,
  update, add64, arith, Bool-cases, Option-cases, inl, inr, ◌≢◌,
}
use comp.MsQueue.{
  Tagged, Msqueue, same_tagged, cas_tail, node_new, Enqueue, start, has_tail, has_next, linking,
  swinging, helping, failed, enqueued, enqueue_at, Dequeue, begin, has_head, has_both, has_all,
  lagging, reading, swapping, freeing, missed, empty, dequeued, dequeue_at, deref, store_next, Node,
}
use comp.MsQueue.Threads.{Doing, idle, enqueueing, dequeueing, Threads, IsDone, move, step}

-- Whether an access moves the head, and whether it moves the tail.
abbrev pub moves_head : Msqueue → Doing → ℕ
moves_head q (dequeueing (swapping head next val)) = if same_tagged q.head head then 1 else 0
moves_head q d = 0

abbrev pub moves_tail : Msqueue → Doing → ℕ
moves_tail q (enqueueing value (swinging n tail)) = if same_tagged q.tail tail then 1 else 0
moves_tail q (enqueueing value (helping n tail next)) = if same_tagged q.tail tail then 1 else 0
moves_tail q (dequeueing (lagging tail next)) = if same_tagged q.tail tail then 1 else 0
moves_tail q d = 0

-- What can happen from a state on, with so many moves of the head and of the tail.
pub data Going (s : Threads) : ℕ → ℕ → Threads → Type 0 where
  stays : Going s 0 0 s
  enqueues :
      {heads tails : ℕ} {t : Threads} (i n value : ℕ)
      → Going s heads tails t
      → IsDone (t.at i)
      → t.queue.heap n ≡ none
      → Going s heads tails (record {
        queue = node_new n value t.queue;
        at = update t.at i (enqueueing value (start n));
      })
  dequeues :
      {heads tails : ℕ} {t : Threads} (i : ℕ)
      → Going s heads tails t
      → IsDone (t.at i)
      → Going s heads tails (record t { at = update t.at i (dequeueing begin) })
  moves :
      {heads tails : ℕ} {t : Threads} (i : ℕ) (spurious : Bool)
      → Going s heads tails t
      → Going s
          (heads + moves_head t.queue (t.at i))
          (tails + moves_tail t.queue (t.at i))
          (step t i spurious)

-- An access moves both counts by as much as it moves the head and the tail.
record Counted (q r : Msqueue) (heads tails : ℕ) : Type 0 where
  head : r.head.count ≡ (q.head.count + heads) % 2 ^ 64
  tail : r.tail.count ≡ (q.tail.count + tails) % 2 ^ 64

quiet :
    (q r : Msqueue)
    → q.head.count < 2 ^ 64
    → q.tail.count < 2 ^ 64
    → r.head ≡ q.head
    → r.tail ≡ q.tail
    → Counted q r 0 0
quiet q r h t a b = record {
  head = omega (arith, ap (λ (x : Tagged). x.count) a);
  tail = omega (arith, ap (λ (x : Tagged). x.count) b);
}

same_tagged-count : (a b : Tagged) → same_tagged a b ≡ true → a.count ≡ b.count
same_tagged-count a b h = ground arith

swung :
    (q : Msqueue) (old new : Tagged)
    → q.head.count < 2 ^ 64
    → q.tail.count < 2 ^ 64
    → new.count ≡ add64 old.count 1
    → Counted q (cas_tail q old new) 0 (if same_tagged q.tail old then 1 else 0)
swung q old new h t n = elim (Bool-cases (same_tagged q.tail old)) [
  | inl y ↦
      let e = same_tagged-count q.tail old y in
      rw y (record { head = omega arith; tail = omega arith })
  | inr d ↦ rw d (quiet q q h t refl refl)
]

store_next-head :
    (q : Msqueue) (p : Option ℕ) (node : Node) (next : Tagged)
    → (store_next q p node next).head ≡ q.head
store_next-head q none node next = refl
store_next-head q (some p) node next = refl

store_next-tail :
    (q : Msqueue) (p : Option ℕ) (node : Node) (next : Tagged)
    → (store_next q p node next).tail ≡ q.tail
store_next-tail q none node next = refl
store_next-tail q (some p) node next = refl

module _ (q : Msqueue) (h : q.head.count < 2 ^ 64) (t : q.tail.count < 2 ^ 64) where
  enqueue_at-Counted :
      (spurious : Bool) (value : ℕ) (e : Enqueue)
      → Counted q
          (enqueue_at spurious q e).0
          (moves_head q (enqueueing value e))
          (moves_tail q (enqueueing value e))
  unfolding enqueue_at
  enqueue_at-Counted spurious value (start n) = quiet q q h t refl refl
  enqueue_at-Counted spurious value (has_tail n tail) = quiet q _ h t (ground arith) (ground arith)
  enqueue_at-Counted spurious value (has_next n tail next) =
      quiet q _ h t (ground arith) (ground arith)
  enqueue_at-Counted spurious value (linking n tail next) = elim (Option-cases (deref q tail.ptr)) [
    | inl z ↦ rw (enqueue_at, z) (quiet q _ h t refl refl)
    | inr (node, z) ↦ elim (Bool-cases spurious) [
      | inl y ↦ rw (enqueue_at, z, y) (quiet q _ h t refl refl)
      | inr y ↦ elim (Bool-cases (same_tagged node.next next)) [
        | inl x ↦
            rw (enqueue_at, z, y, x)
              (quiet q _ h t (store_next-head q tail.ptr node _)
                (store_next-tail q tail.ptr node _))
        | inr x ↦ rw (enqueue_at, z, y, x) (quiet q _ h t refl refl)
      ]
    ]
  ]
  enqueue_at-Counted spurious value (swinging n tail) = swung q tail _ h t refl
  enqueue_at-Counted spurious value (helping n tail next) = swung q tail _ h t refl
  enqueue_at-Counted spurious value (failed n) = quiet q _ h t refl refl
  enqueue_at-Counted spurious value enqueued = quiet q q h t refl refl

  dequeue_at-Counted :
      (d : Dequeue)
      → Counted q (dequeue_at q d).0 (moves_head q (dequeueing d)) (moves_tail q (dequeueing d))
  unfolding dequeue_at
  dequeue_at-Counted begin = quiet q q h t refl refl
  dequeue_at-Counted (has_head head) = quiet q q h t refl refl
  dequeue_at-Counted (has_both head tail) = quiet q _ h t (ground arith) (ground arith)
  dequeue_at-Counted (has_all head tail next) = quiet q _ h t (ground arith) (ground arith)
  dequeue_at-Counted (lagging tail next) = swung q tail _ h t refl
  dequeue_at-Counted (reading head next) = quiet q _ h t (ground arith) (ground arith)
  dequeue_at-Counted (swapping head next val) = elim (Bool-cases (same_tagged q.head head)) [
    | inl y ↦
        let e = same_tagged-count q.head head y in
        rw y (record { head = omega arith; tail = omega arith })
    | inr n ↦ rw n (quiet q q h t refl refl)
  ]
  dequeue_at-Counted (freeing head val) = quiet q _ h t (ground arith) (ground arith)
  dequeue_at-Counted missed = quiet q _ h t refl refl
  dequeue_at-Counted empty = quiet q q h t refl refl
  dequeue_at-Counted (dequeued val) = quiet q q h t refl refl

  move-Counted :
      (spurious : Bool) (d : Doing)
      → Counted q (move spurious q d).0 (moves_head q d) (moves_tail q d)
  unfolding move
  move-Counted spurious idle = quiet q q h t refl refl
  move-Counted spurious (enqueueing value e) = enqueue_at-Counted spurious value e
  move-Counted spurious (dequeueing d) = dequeue_at-Counted d

module _ (s : Threads) (small_head : s.queue.head.count < 2 ^ 64)
    (small_tail : s.queue.tail.count < 2 ^ 64) where
  Going-Counted :
      {heads tails : ℕ} {t : Threads} → Going s heads tails t → Counted s.queue t.queue heads tails
  unfolding node_new
  Going-Counted stays = quiet s.queue s.queue small_head small_tail refl refl
  Going-Counted (enqueues i n value g free unused) =
      let c = Going-Counted g in record { head = c.head; tail = c.tail }
  Going-Counted (dequeues i g free) = Going-Counted g
  Going-Counted (moves {heads = heads} {tails = tails} {t = t} i spurious g) =
      let c = Going-Counted g in
      let a = c.head in
      let b = c.tail in
      let m = move-Counted t.queue (omega arith) (omega arith) spurious (t.at i) in
      record { head = omega (arith, m.head); tail = omega (arith, m.tail) }

  differ : (a b : Tagged) → a.count ≢ b.count → same_tagged a b ≡ false
  differ a b n = elim (Bool-cases (same_tagged a b)) [
    | inl y ↦ absurd (n (same_tagged-count a b y))
    | inr z ↦ z
  ]

  -- Whatever any number of threads in msq_enqueue and msq_dequeue do from a state on, whatever weak
  -- compare-and-swaps fail, and whatever address that is not in use malloc gives, one freed before
  -- included: once the head has been moved, fewer than 2^64 times, a dequeue that still goes by the
  -- head of that state takes nothing, leaves the queue as it is and tries again, also if the head
  -- points to the same address as then.
  pub late_head-Fails :
      {heads tails : ℕ} {t : Threads} (next : Tagged) (val : ℕ)
      → Going s heads tails t
      → 0 < heads
      → heads < 2 ^ 64
      → dequeue_at t.queue (swapping s.queue.head next val) ≡ (t.queue, missed)
  unfolding dequeue_at
  late_head-Fails {t = t} next val g moved few =
      let a = (Going-Counted g).head in
      rw (differ t.queue.head s.queue.head (λ e. absurd (omega arith))) refl

  -- In the same way, once the tail has been moved, fewer than 2^64 times, a thread that still goes by
  -- the tail of that state leaves the queue as it is: an enqueue that swings the tail to its node or
  -- helps it along, and a dequeue that helps it along.
  pub late_tail-Fails :
      {heads tails : ℕ} {t : Threads} (n : ℕ) (next : Tagged)
      → Going s heads tails t
      → 0 < tails
      → tails < 2 ^ 64
      → ((enqueue_at false t.queue (swinging n s.queue.tail)).0 ≡ t.queue)
        × ((enqueue_at false t.queue (helping n s.queue.tail next)).0 ≡ t.queue)
        × ((dequeue_at t.queue (lagging s.queue.tail next)).0 ≡ t.queue)
  unfolding dequeue_at enqueue_at
  late_tail-Fails {t = t} n next g moved few =
      let b = (Going-Counted g).tail in
      let z = differ t.queue.tail s.queue.tail (λ e. absurd (omega arith)) in
      (rw z refl, rw z refl, rw z refl)
