-- ===== src/MsQueue/Fifo.antt =====
-- The queue of src/msqueue.c is first in, first out, as long as no freed memory is read.
use mathlib.Core.Path.{subst}
use comp.Shared.{
  ℕ, ◌≡◌, Option, List, refl, arith, inl, inr, none, some, [], ◌∷◌, ◌++◌, Mem, update, update_self,
  sym, true, false, Bool, ◌⊎◌,
}
use comp.MsQueue.{
  Msqueue, Node, Enqueue, start, begin, enqueue_at, Dequeue, dequeue_at, node_new, msq_create,
}
use comp.MsQueue.Chained.{Distinct, values, Linked, InPtr}
use comp.MsQueue.Threads.{
  Doing, idle, enqueueing, dequeueing, move, Threads, Ran, created, enqueues, dequeues, moves,
}
use comp.MsQueue.View.{Place, Keeps}
use comp.MsQueue.Crew.{Crew, Crew-move}
use comp.MsQueue.Core.{Core, view}
use comp.MsQueue.Cells.{Core-alloc, Evolves-other, Private-other, unknown}
use comp.MsQueue.Moves.{Good, After, stays-Good}
use comp.MsQueue.Enqueues.{enqueue_at-Good}
use comp.MsQueue.Dequeues.{dequeue_at-Good}

-- A fault is never forgotten.
enqueue_at-fault :
    (spurious : Bool) (q : Msqueue) (e : Enqueue)
    → q.fault ≡ true
    → (enqueue_at spurious q e).0.fault ≡ true
unfolding enqueue_at
enqueue_at-fault spurious q e h = ground arith

dequeue_at-fault : (q : Msqueue) (d : Dequeue) → q.fault ≡ true → (dequeue_at q d).0.fault ≡ true
unfolding dequeue_at
dequeue_at-fault q d h = ground arith

move-fault :
    (spurious : Bool) (q : Msqueue) (d : Doing)
    → q.fault ≡ true
    → (move spurious q d).0.fault ≡ true
unfolding move
move-fault spurious q idle h = h
move-fault spurious q (enqueueing value e) h = enqueue_at-fault spurious q e h
move-fault spurious q (dequeueing d) h = dequeue_at-fault q d h

abbrev Held : List ℕ → List ℕ → List ℕ → Threads → Type 0
Held given ins outs s = (s.queue.fault ≡ true) ⊎ Good s.queue s.at given ins outs

move-Good :
    (q : Msqueue) (past : List ℕ) (front : ℕ) (rest given ins outs : List ℕ) (at : ℕ → Doing)
    (i : ℕ) (spurious : Bool)
    → Core q past front rest given ins outs
    → Crew (view q past front rest) at given
    → (d : Doing) → Place (view q past front rest) d
    → ((n : ℕ) → Keeps d n → Keeps (at i) n)
    → After at i given ins outs d (move spurious q d)
unfolding move
move-Good q past front rest given ins outs at i spurious c w idle p own =
    inr (stays-Good q past front rest given ins outs c at w i idle own p)
move-Good q past front rest given ins outs at i spurious c w (enqueueing value e) p own =
    enqueue_at-Good q past front rest given ins outs c at w i spurious value e own p
move-Good q past front rest given ins outs at i spurious c w (dequeueing d) p own =
    dequeue_at-Good q past front rest given ins outs c at w i d p

created-Good : (dummy : ℕ) → Good (msq_create (λ a. none) dummy) (λ i. idle) (dummy ∷ []) [] []
unfolding msq_create node_new
created-Good dummy =
    let d : Node = record { value = 0; next = record { ptr = none; count = 0 } } in
    let e = update_self {A = Option Node} (λ a. none) dummy (some d) in
    (
      [],
      dummy,
      [],
      record {
        linked = (d, e, refl);
        head_at = refl;
        tail_in = (dummy, refl, inl refl);
        distinct = ((λ m. m), tt);
        past_apart = λ a m. absurd m;
        past_next = λ a node m. absurd m;
        from_malloc = λ a k. elim k [ inl m ↦ absurd m | inr l ↦ l ];
        order = refl;
        no_fault = refl;
      },
      record { places = λ i. tt; apart = λ i j n a b. absurd a; mine = λ i n k. absurd k },
    )

enqueues-Good :
    (q : Msqueue) (at : ℕ → Doing) (given ins outs : List ℕ) (i n value : ℕ)
    → Good q at given ins outs
    → ¬ Mem n given
    → Good (node_new n value q) (update at i (enqueueing value (start n))) (n ∷ given) ins outs
unfolding node_new
enqueues-Good q at given ins outs i n value (past, front, rest, c, w) fresh =
    let new : Node = record { value = value; next = record { ptr = none; count = 0 } } in
    let out : ¬ Mem n (front ∷ rest) = λ m. fresh (c.from_malloc n (inr m)) in
    let q' : Msqueue = record q { heap = update q.heap n (some new) } in
    (
      past,
      front,
      rest,
      Core-alloc q past front rest given ins outs c n new fresh,
      Crew-move (view q past front rest) (view q' past front rest) at given (n ∷ given) i
          (enqueueing value (start n)) w
          (Evolves-other q past front rest given ins outs c n (some new) out) (λ m k. inr k)
          (λ j m x ne k p.
            Private-other q past front rest given ins outs c n (some new) out m x
              (λ s. fresh (subst (λ y. Mem y given) (sym s) (w.mine j m k))) p)
          (λ m k. (inl (sym k), λ j ne o. fresh (w.mine j n (subst (Keeps (at j)) (sym k) o))))
          (
            unknown q past front rest given ins outs c n new fresh,
            (new, update_self q.heap n (some new), refl, refl),
          ),
    )

Ran-Held : (given ins outs : List ℕ) (s : Threads) → Ran given ins outs s → Held given ins outs s
unfolding node_new
Ran-Held given ins outs s (created dummy) = inr (created-Good dummy)
Ran-Held given ins outs s (enqueues {given = before} {s = old} i n value r done fresh) =
    elim (Ran-Held before ins outs old r) [
      | inl f ↦ inl f
      | inr g ↦ inr (enqueues-Good old.queue old.at before ins outs i n value g fresh)
    ]
Ran-Held given ins outs s (dequeues {s = old} i r done) = elim (Ran-Held given ins outs old r) [
  | inl f ↦ inl f
  | inr g ↦
      let (past, front, rest, c, w) = g in
      inr (
        stays-Good old.queue past front rest given ins outs c old.at w i (dequeueing begin)
          (λ n k. absurd k) tt)
]
Ran-Held given ins outs s (moves {ins = before} {outs = after} {s = old} i spurious r) =
    elim (Ran-Held given before after old r) [
      | inl f ↦ inl (move-fault spurious old.queue (old.at i) f)
      | inr g ↦
          let (past, front, rest, c, w) = g in
          move-Good old.queue past front rest given before after old.at i spurious c w (old.at i)
            (w.places i) (λ n k. k)
    ]

-- With a malloc that gives no address twice, whatever any number of threads in msq_enqueue and
-- msq_dequeue do from msq_create on, and whatever weak compare-and-swaps fail: unless a pointer to
-- freed memory has been followed, the values whose nodes were linked are those that were taken out,
-- in the same order, and then those of the nodes from the one behind the dummy to the last, which the
-- queue holds; the head points to the dummy, the tail to one of these nodes, and they are distinct.
pub Ran-Fifo :
    (given ins outs : List ℕ) (s : Threads)
    → Ran given ins outs s
    → s.queue.fault ≡ false
    → (front : ℕ) × (rest : List ℕ) × (ins ≡ outs ++ values s.queue.heap rest)
      × (s.queue.head.ptr ≡ some front)
      × Linked s.queue.heap (front ∷ rest)
      × InPtr s.queue.tail.ptr (front ∷ rest)
      × Distinct (front ∷ rest)
Ran-Fifo given ins outs s r safe = elim (Ran-Held given ins outs s r) [
  | inl f ↦ absurd (ground arith)
  | inr g ↦
      let (past, front, rest, c, w) = g in
      (front, rest, c.order, c.head_at, c.linked, c.tail_in, c.distinct)
]
