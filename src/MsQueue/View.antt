-- ===== src/MsQueue/View.antt =====
-- What the threads in src/msqueue.c rely on: the nodes that were the dummy once, those in the queue,
-- and how the pointers that a thread holds stand to them.
use comp.Shared.{refl, ℕ, ◌≡◌, ◌⊎◌, Option, List, Mem, ◌∷◌, ◌≢◌, inl, some, none, inr, ◌∙◌}
use comp.MsQueue.{
  enqueued, begin, missed, empty, Node, Enqueue, some, none, start, Dequeue, has_tail, has_head,
  has_next, has_both, linking, has_all, swinging, lagging, helping, reading, failed, swapping,
  freeing, dequeued,
}
use comp.MsQueue.Chained.{next_of, value_at}
use comp.MsQueue.Standing.{Owns}
use comp.MsQueue.Threads.{idle, Doing, enqueueing, dequeueing}

-- `front` is the dummy, and `tail` where the tail points to.
pub record View : Type 0 where
  pub heap : ℕ → Option Node
  pub past : List ℕ
  pub front : ℕ
  pub rest : List ℕ
  pub tail : Option ℕ

abbrev pub Live : View → ℕ → Type 0
Live v a = Mem a (v.front ∷ v.rest)

-- A node that is or was in the queue; one that is or was the dummy.
abbrev pub Known : View → ℕ → Type 0
Known v a = Mem a v.past ⊎ Live v a

abbrev pub Old : View → ℕ → Type 0
Old v a = Mem a v.past ⊎ (a ≡ v.front)

-- While `a` is in the queue, `m` comes after it.
abbrev pub Before : View → ℕ → ℕ → Type 0
Before v a m = Live v a → next_of (v.heap a) ≡ some m

abbrev pub KnownPtr : View → Option ℕ → Type 0
KnownPtr v p = (t : ℕ) × (p ≡ some t) × Known v t

abbrev pub Follows : View → Option ℕ → Option ℕ → Type 0
Follows v p x = (t : ℕ) × (p ≡ some t) × Known v t × ((m : ℕ) × (x ≡ some m) × Before v t m)

abbrev pub NoneOrBefore : View → ℕ → Option ℕ → Type 0
NoneOrBefore v t x = (x ≡ none) ⊎ ((m : ℕ) × (x ≡ some m) × Before v t m)

abbrev pub Private : View → ℕ → ℕ → Type 0
Private v n value =
    (¬ Known v n)
    × ((new : Node) × (v.heap n ≡ some new) × (new.next.ptr ≡ none) × (new.value ≡ value))

-- The tail was past `a` when it was loaded.
abbrev pub TailPast : View → ℕ → Type 0
TailPast v a = a ≡ v.front → v.tail ≢ some a

abbrev pub Enqueuer : View → ℕ → Enqueue → Type 0
Enqueuer v value (start n) = Private v n value
Enqueuer v value (has_tail n tail) = Private v n value × KnownPtr v tail.ptr
Enqueuer v value (has_next n tail next) =
    Private v n value × ((t : ℕ) × (tail.ptr ≡ some t) × Known v t × NoneOrBefore v t next.ptr)
Enqueuer v value (linking n tail next) = Private v n value × KnownPtr v tail.ptr × (next.ptr ≡ none)
Enqueuer v value (swinging n tail) = Follows v tail.ptr (some n)
Enqueuer v value (helping n tail next) = Private v n value × Follows v tail.ptr next.ptr
Enqueuer v value (failed n) = Private v n value
Enqueuer v value enqueued = Unit

abbrev pub Dequeuer : View → Dequeue → Type 0
Dequeuer v begin = Unit
Dequeuer v (has_head head) = (a : ℕ) × (head.ptr ≡ some a) × Old v a
Dequeuer v (has_both head tail) =
    (a : ℕ) × (head.ptr ≡ some a) × Old v a × (tail.ptr ≢ head.ptr → TailPast v a)
Dequeuer v (has_all head tail next) =
    (a : ℕ) × (head.ptr ≡ some a)
    × Old v a
    × (tail.ptr ≢ head.ptr → TailPast v a)
    × NoneOrBefore v a next.ptr
    × (tail.ptr ≢ head.ptr → a ≡ v.front → next.ptr ≢ none)
Dequeuer v (lagging tail next) = Follows v tail.ptr next.ptr
Dequeuer v (reading head next) =
    (a : ℕ) × (head.ptr ≡ some a)
    × Old v a
    × TailPast v a
    × ((m : ℕ) × (next.ptr ≡ some m) × Before v a m)
Dequeuer v (swapping head next val) =
    (a : ℕ) × (head.ptr ≡ some a)
    × Old v a
    × TailPast v a
    × ((m : ℕ) × (next.ptr ≡ some m) × Before v a m × (a ≡ v.front → value_at v.heap m ≡ val))
Dequeuer v (freeing head val) = (a : ℕ) × (head.ptr ≡ some a) × Mem a v.past
Dequeuer v missed = Unit
Dequeuer v empty = Unit
Dequeuer v (dequeued val) = Unit

abbrev pub Place : View → Doing → Type 0
Place v idle = Unit
Place v (enqueueing value e) = Enqueuer v value e
Place v (dequeueing d) = Dequeuer v d

-- The node that a thread has for itself.
abbrev pub Keeps : Doing → ℕ → Type 0
Keeps idle n = ⊥
Keeps (enqueueing value e) n = Owns e n
Keeps (dequeueing d) n = ⊥

-- What a step of one thread leaves to the others.
pub record Evolves (v w : View) : Type 0 where
  pub known : (a : ℕ) → Known v a → Known w a
  pub old : (a : ℕ) → Old v a → Old w a
  pub past : (a : ℕ) → Mem a v.past → Mem a w.past
  pub front : (a : ℕ) → Old v a → a ≡ w.front → a ≡ v.front
  pub live : (a : ℕ) → Known v a → Live w a → Live v a
  pub next :
      (a m : ℕ) → Live v a → Live w a → next_of (v.heap a) ≡ some m → next_of (w.heap a) ≡ some m
  pub behind : (a : ℕ) → a ≡ v.front → a ≡ w.front → v.tail ≢ some a → w.tail ≢ some a
  pub value :
      (a m : ℕ) → a ≡ v.front → next_of (v.heap a) ≡ some m → value_at w.heap m ≡ value_at v.heap m

module _ (v w : View) (e : Evolves v w) where
  Before-keep : (a m : ℕ) → Known v a → Before v a m → Before w a m
  Before-keep a m k b l = let old = e.live a k l in e.next a m old l (b old)

  KnownPtr-keep : (p : Option ℕ) → KnownPtr v p → KnownPtr w p
  KnownPtr-keep p k = (k.0, k.1, e.known k.0 k.2)

  Follows-keep : (p x : Option ℕ) → Follows v p x → Follows w p x
  Follows-keep p x f =
      let (t, at, k, (m, is, b)) = f in (t, at, e.known t k, (m, is, Before-keep t m k b))

  NoneOrBefore-keep : (t : ℕ) (x : Option ℕ) → Known v t → NoneOrBefore v t x → NoneOrBefore w t x
  NoneOrBefore-keep t x k o = elim o [
    | inl z ↦ inl z
    | inr b ↦ inr (b.0, b.1, Before-keep t b.0 k b.2)
  ]

  Old-Known : (a : ℕ) → Old v a → Known v a
  Old-Known a o = elim o [ inl p ↦ inl p | inr f ↦ inr (inl f) ]

  TailPast-keep : (a : ℕ) → Old v a → TailPast v a → TailPast w a
  TailPast-keep a o t f = let was = e.front a o f in e.behind a was f (t was)

  Enqueuer-keep :
      (value : ℕ) (d : Enqueue)
      → ((n : ℕ) → Owns d n → Private v n value → Private w n value)
      → Enqueuer v value d
      → Enqueuer w value d
  Enqueuer-keep value (start n) o p = o n refl p
  Enqueuer-keep value (has_tail n tail) o p = (o n refl p.0, KnownPtr-keep tail.ptr p.1)
  Enqueuer-keep value (has_next n tail next) o p =
      let (t, at, k, x) = p.1 in
      (o n refl p.0, (t, at, e.known t k, NoneOrBefore-keep t next.ptr k x))
  Enqueuer-keep value (linking n tail next) o p = (o n refl p.0, KnownPtr-keep tail.ptr p.1, p.2)
  Enqueuer-keep value (swinging n tail) o p = Follows-keep tail.ptr (some n) p
  Enqueuer-keep value (helping n tail next) o p = (o n refl p.0, Follows-keep tail.ptr next.ptr p.1)
  Enqueuer-keep value (failed n) o p = o n refl p
  Enqueuer-keep value enqueued o p = tt

  Dequeuer-keep : (d : Dequeue) → Dequeuer v d → Dequeuer w d
  Dequeuer-keep begin p = tt
  Dequeuer-keep (has_head head) p = (p.0, p.1, e.old p.0 p.2)
  Dequeuer-keep (has_both head tail) p =
      let (a, at, o, t) = p in (a, at, e.old a o, λ ne. TailPast-keep a o (t ne))
  Dequeuer-keep (has_all head tail next) p =
      let (a, at, o, t, x, z) = p in
      (
        a,
        at,
        e.old a o,
        (λ ne. TailPast-keep a o (t ne)),
        NoneOrBefore-keep a next.ptr (Old-Known a o) x,
        λ ne f. z ne (e.front a o f),
      )
  Dequeuer-keep (lagging tail next) p = Follows-keep tail.ptr next.ptr p
  Dequeuer-keep (reading head next) p =
      let (a, at, o, t, (m, is, b)) = p in
      (a, at, e.old a o, TailPast-keep a o t, (m, is, Before-keep a m (Old-Known a o) b))
  Dequeuer-keep (swapping head next val) p =
      let (a, at, o, t, (m, is, b, x)) = p in
      (
        a,
        at,
        e.old a o,
        TailPast-keep a o t,
        (
          m,
          is,
          Before-keep a m (Old-Known a o) b,
          λ f. let was = e.front a o f in e.value a m was (b (inl was)) ∙ x was,
        ),
      )
  Dequeuer-keep (freeing head val) p = (p.0, p.1, e.past p.0 p.2)
  Dequeuer-keep missed p = tt
  Dequeuer-keep empty p = tt
  Dequeuer-keep (dequeued val) p = tt

  pub Place-keep :
      (d : Doing) → ((n x : ℕ) → Keeps d n → Private v n x → Private w n x) → Place v d → Place w d
  Place-keep idle o p = tt
  Place-keep (enqueueing value d) o p = Enqueuer-keep value d (λ n k q. o n value k q) p
  Place-keep (dequeueing d) o p = Dequeuer-keep d p
