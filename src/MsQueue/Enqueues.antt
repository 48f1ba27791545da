-- ===== src/MsQueue/Enqueues.antt =====
-- The accesses of `msq_enqueue` of src/msqueue.c, among those of other threads.
use comp.Shared.{
  inl, inr, none, some, [], ◌∷◌, ◌++◌, Mem, update, update_self, add64, sym, ap, ◌∙◌, Bool-cases,
  Option-cases, ℕ, ◌≡◌, List, Bool, refl,
}
use comp.MsQueue.{
  Enqueue, has_tail, has_next, linking, swinging, helping, failed, deref, store_next, same_ptr,
  Msqueue, Tagged, Node, start, enqueued, enqueue_at,
}
use comp.MsQueue.Standing.{Owns}
use comp.MsQueue.Threads.{Doing, enqueueing}
use comp.MsQueue.View.{View, Private, Keeps, Enqueuer, NoneOrBefore, Known}
use comp.MsQueue.Crew.{Crew, Crew-move}
use comp.MsQueue.Core.{Core, view}
use comp.MsQueue.Chained.{next_of}
use mathlib.Core.Path.{subst}
use comp.MsQueue.Cells.{Evolves-link, Core-link, Private-link}
use comp.MsQueue.Accesses.{
  deref-some, has_tail-none, has_tail-some, has_next-stale, has_next-last, has_next-lags,
  linking-none, linking-some,
}
use comp.MsQueue.Moves.{Good, retry-Good, cas-Good, After, stays-Good}

-- What a node points to.
pub next-NoneOrBefore :
    (v : View) (t : ℕ) (node : Node) → v.heap t ≡ some node → NoneOrBefore v t node.next.ptr
next-NoneOrBefore v t node at = elim (Option-cases node.next.ptr) [
  | inl z ↦ inl z
  | inr m ↦ inr (m.0, m.1, λ l. ap next_of at ∙ m.1)
]

module _ (q : Msqueue) (past : List ℕ) (front : ℕ) (rest given ins outs : List ℕ)
    (c : Core q past front rest given ins outs) (at : ℕ → Doing)
    (w : Crew (view q past front rest) at given) (i : ℕ) (spurious : Bool) (value : ℕ) where
  abbrev here : View
  here = view q past front rest

  abbrev Next : Enqueue → Msqueue × Enqueue → Type 0
  Next e x = After at i given ins outs (enqueueing value e) (x.0, enqueueing value x.1)

  abbrev Own : Enqueue → Type 0
  Own e = (n : ℕ) → Owns e n → Keeps (at i) n

  stays :
      (e : Enqueue)
      → Own e
      → Enqueuer here value e
      → Good q (update at i (enqueueing value e)) given ins outs
  stays e own p = stays-Good q past front rest given ins outs c at w i (enqueueing value e) own p

  has_next-Good :
      (n : ℕ) (tail next : Tagged)
      → Own (has_next n tail next)
      → Enqueuer here value (has_next n tail next)
      → Next (has_next n tail next) (enqueue_at spurious q (has_next n tail next))
  has_next-Good n tail next own (p, (t, is, k, x)) =
      elim (Bool-cases (same_ptr tail.ptr q.tail.ptr)) [
        | inr moved_on ↦
            subst (Next (has_next n tail next))
              (sym (has_next-stale spurious q n tail next moved_on)) (inr (stays (start n) own p))
        | inl same ↦ elim x [
          | inl z ↦
              subst (Next (has_next n tail next))
                (sym (has_next-last spurious q n tail next same z))
                (inr (stays (linking n tail next) own (p, (t, is, k), z)))
          | inr b ↦
              subst (Next (has_next n tail next))
                (sym (has_next-lags spurious q n tail next b.0 same b.1))
                (inr (stays (helping n tail next) own (p, (t, is, k, b))))
        ]
      ]

  -- The node is linked, behind a node that is still in the queue and points to nothing.
  linked-Good :
      (n t count : ℕ) (tail : Tagged) (node : Node)
      → Own (start n)
      → Private here n value
      → tail.ptr ≡ some t
      → Known here t
      → q.heap t ≡ some node
      → node.next.ptr ≡ none
      → Good
          (store_next q tail.ptr node (record { ptr = some n; count = count }))
          (update at i (enqueueing value (swinging n tail)))
          given
          (ins ++ (value ∷ []))
          outs
  linked-Good n t count tail node own p is k there z =
      let live : Mem t (front ∷ rest) = elim k [
        | inl m ↦ absurd (c.past_next t node m there z)
        | inr l ↦ l
      ] in
      let mine = w.mine i n (own n refl) in
      let linked = record q {
        heap =
            update q.heap t (some (record node { next = record { ptr = some n; count = count } }));
      } in
      let v = view linked past front (rest ++ (n ∷ [])) in
      let ev =
        Evolves-link q past front rest given ins outs c t n count value node live there z p mine in
      subst
        (λ x.
          Good (store_next q x node (record { ptr = some n; count = count }))
            (update at i (enqueueing value (swinging n tail))) given (ins ++ (value ∷ [])) outs)
        (sym is)
        (
          past,
          front,
          rest ++ (n ∷ []),
          Core-link q past front rest given ins outs c t n count value node live there z p mine,
          Crew-move here v at given given i (enqueueing value (swinging n tail)) w ev (λ a m. m)
              (λ j m x ne o.
                Private-link q past front rest given ins outs c t n count value node live there z p
                  mine m x (λ s. ne (w.apart i j n (own n refl) (subst (Keeps (at j)) (sym s) o))))
              (λ m o. absurd o)
              (
                t,
                is,
                ev.known t k,
                (
                  n,
                  refl,
                  λ l. ap next_of (
                      update_self q.heap t
                        (some (record node { next = record { ptr = some n; count = count } }))),
                ),
              ),
        )

  linking-Good :
      (n : ℕ) (tail next : Tagged)
      → Own (linking n tail next)
      → Enqueuer here value (linking n tail next)
      → Next (linking n tail next) (enqueue_at spurious q (linking n tail next))
  linking-Good n tail next own (p, (t, is, k), z) = elim (Option-cases (deref q tail.ptr)) [
    | inl gone ↦
        subst (Next (linking n tail next)) (sym (linking-none spurious q n tail next gone))
          (inl refl)
    | inr there ↦ elim (linking-some spurious q n tail next there.0 there.1) [
      | inl fails ↦ subst (Next (linking n tail next)) (sym fails) (inr (stays (failed n) own p))
      | inr links_it ↦ subst (Next (linking n tail next)) (sym links_it.1) (
          inr (
            linked-Good n t (add64 next.count 1) tail there.0 own p is k
              (sym (deref-some q tail.ptr t is) ∙ there.1) (links_it.0 ∙ z)))
    ]
  ]

  pub enqueue_at-Good :
      (e : Enqueue) → Own e → Enqueuer here value e → Next e (enqueue_at spurious q e)
  unfolding enqueue_at
  enqueue_at-Good (start n) own p =
      inr (stays (has_tail n q.tail) own (p, (c.tail_in.0, c.tail_in.1, inr c.tail_in.2)))
  enqueue_at-Good (has_tail n tail) own (p, (t, is, k)) = elim (Option-cases (deref q tail.ptr)) [
    | inl gone ↦
        subst (Next (has_tail n tail)) (sym (has_tail-none spurious q n tail tail gone)) (inl refl)
    | inr there ↦
        subst (Next (has_tail n tail)) (sym (has_tail-some spurious q n tail tail there.0 there.1))
          (inr (
            stays (has_next n tail there.0.next) own (
              p,
              (
                t,
                is,
                k,
                next-NoneOrBefore here t there.0 (sym (deref-some q tail.ptr t is) ∙ there.1),
              ),
            )))
  ]
  enqueue_at-Good (has_next n tail next) own p = has_next-Good n tail next own p
  enqueue_at-Good (linking n tail next) own p = linking-Good n tail next own p
  enqueue_at-Good (swinging n tail) own p = inr (
      cas-Good q past front rest given ins outs c at w i (enqueueing value enqueued)
        (λ m o. absurd o) tail (record { ptr = some n; count = add64 tail.count 1 }) p tt)
  enqueue_at-Good (helping n tail next) own p = inr (
      cas-Good q past front rest given ins outs c at w i (enqueueing value (start n)) own tail
        (record { ptr = next.ptr; count = add64 tail.count 1 }) p.1 p.0)
  enqueue_at-Good (failed n) own p = inr (
      retry-Good q past front rest given ins outs c at w i (enqueueing value (start n)) own
        (add64 q.retries 1) p)
  enqueue_at-Good enqueued own p = inr (stays enqueued own tt)
