-- ===== src/MsQueue/Dequeues.antt =====
-- The accesses of `msq_dequeue` of src/msqueue.c, among those of other threads.
use mathlib.Core.Path.{subst}
use comp.Shared.{
  ℕ, ◌≡◌, ◌≢◌, List, refl, arith, inl, inr, none, some, [], ◌∷◌, ◌++◌, Mem, update, add64, sym, ap,
  ◌∙◌, Bool-cases, Option-cases,
}
use comp.MsQueue.{
  Msqueue, Tagged, Dequeue, dequeue_at, begin, has_head, has_both, has_all, lagging, reading,
  swapping, freeing, missed, empty, dequeued, deref, same_ptr,
}
use comp.MsQueue.Chained.{next_of, value_at}
use comp.MsQueue.Threads.{Doing, dequeueing}
use comp.MsQueue.View.{View, Dequeuer}
use comp.MsQueue.Crew.{Crew, Crew-move}
use comp.MsQueue.Core.{Core, view, Linked-next, Linked-alone, Core-pop, Evolves-pop, Private-pop}
use comp.MsQueue.Cells.{Core-free, Evolves-other, Private-other}
use comp.MsQueue.Accesses.{
  same_ptr-eq, same_ptr-ne, deref-some, has_both-none, has_both-some, has_all-stale, has_all-empty,
  has_all-lags, has_all-reads, reading-none, reading-some, swapping-cases, freeing-some,
}
use comp.MsQueue.Moves.{Good, After, stays-Good, retry-Good, cas-Good}
use comp.MsQueue.Enqueues.{next-NoneOrBefore}

module _ (q : Msqueue) (past : List ℕ) (front : ℕ) (rest given ins outs : List ℕ)
    (c : Core q past front rest given ins outs) (at : ℕ → Doing)
    (w : Crew (view q past front rest) at given) (i : ℕ) where
  abbrev here : View
  here = view q past front rest

  abbrev Next : Dequeue → Msqueue × Dequeue → Type 0
  Next d x = After at i given ins outs (dequeueing d) (x.0, dequeueing x.1)

  stays : (d : Dequeue) → Dequeuer here d → Good q (update at i (dequeueing d)) given ins outs
  stays d p =
      stays-Good q past front rest given ins outs c at w i (dequeueing d) (λ n k. absurd k) p

  -- A dummy that points to nothing, and the tail at it.
  tail_at_front : next_of (q.heap front) ≡ none → q.tail.ptr ≡ some front
  tail_at_front z =
      let (t, is, l) = c.tail_in in
      elim l [
        | inl f ↦ is ∙ ap some f
        | inr m ↦ absurd (subst (Mem t) (Linked-alone q.heap front rest c.linked z) m)
      ]

  has_both-Good :
      (head tail : Tagged)
      → Dequeuer here (has_both head tail)
      → Next (has_both head tail) (dequeue_at q (has_both head tail))
  has_both-Good head tail (a, is, o, ahead) = elim (Option-cases (deref q head.ptr)) [
    | inl gone ↦
        subst (Next (has_both head tail)) (sym (has_both-none q head tail tail gone)) (inl refl)
    | inr there ↦
        let node = there.0 in
        let found : q.heap a ≡ some node = sym (deref-some q head.ptr a is) ∙ there.1 in
        subst (Next (has_both head tail)) (sym (has_both-some q head tail tail node there.1)) (
          inr (
            stays (has_all head tail node.next) (
              a,
              is,
              o,
              ahead,
              next-NoneOrBefore here a node found,
              (λ ne f z.
                  let none_next : next_of (q.heap front) ≡ none =
                    ap (λ x. next_of (q.heap x)) (sym f) ∙ ap next_of found ∙ z in
                  ahead ne f (tail_at_front none_next ∙ ap some (sym f))),
            )))
  ]

  -- The head has not moved since it was loaded.
  still_front : (head : Tagged) (a : ℕ) → head.ptr ≡ some a → q.head.ptr ≡ head.ptr → a ≡ front
  still_front head a is same =
      let e : some a ≡ some front = sym is ∙ sym same ∙ c.head_at in ground arith

  has_all-Good :
      (head tail next : Tagged)
      → Dequeuer here (has_all head tail next)
      → Next (has_all head tail next) (dequeue_at q (has_all head tail next))
  has_all-Good head tail next (a, is, o, ahead, x, some_next) =
      elim (Bool-cases (same_ptr head.ptr q.head.ptr)) [
        | inr stale ↦
            subst (Next (has_all head tail next)) (sym (has_all-stale q head tail next stale))
              (inr (stays begin tt))
        | inl fresh ↦
            let f : a ≡ front =
              still_front head a is (sym (same_ptr-eq head.ptr q.head.ptr fresh)) in
            elim (Bool-cases (same_ptr head.ptr tail.ptr)) [
              | inl one ↦ elim x [
                | inl z ↦
                    subst (Next (has_all head tail next))
                      (sym (has_all-empty q head tail next fresh one z)) (inr (stays empty tt))
                | inr b ↦
                    subst (Next (has_all head tail next))
                      (sym (has_all-lags q head tail next b.0 fresh one b.1))
                      (inr (
                        stays (lagging tail next)
                          (a, sym (same_ptr-eq head.ptr tail.ptr one) ∙ is, inr (inl f), b)))
              ]
              | inr more ↦
                  let ne : tail.ptr ≢ head.ptr = λ s. same_ptr-ne head.ptr tail.ptr more (sym s) in
                  elim x [
                    | inl z ↦ absurd (some_next ne f z)
                    | inr b ↦
                        subst (Next (has_all head tail next))
                          (sym (has_all-reads q head tail next fresh more))
                          (inr (stays (reading head next) (a, is, o, ahead ne, b)))
                  ]
            ]
      ]

  reading-Good :
      (head next : Tagged)
      → Dequeuer here (reading head next)
      → Next (reading head next) (dequeue_at q (reading head next))
  reading-Good head next (a, is, o, ahead, (m, points, b)) =
      elim (Option-cases (deref q next.ptr)) [
        | inl gone ↦
            subst (Next (reading head next)) (sym (reading-none q head next next gone)) (inl refl)
        | inr there ↦
            let found : q.heap m ≡ some there.0 = sym (deref-some q next.ptr m points) ∙ there.1 in
            subst (Next (reading head next)) (sym (reading-some q head next next there.0 there.1)) (
              inr (
                stays (swapping head next there.0.value) (
                  a,
                  is,
                  o,
                  ahead,
                  (m, points, b, λ f. ap (λ o. elim o [ none ↦ 0 | some x ↦ x.value ]) found),
                )))
      ]

  -- The head moves on: the value that is taken is the first in the queue.
  taken-Good :
      (head new : Tagged) (a m val : ℕ)
      → head.ptr ≡ some a
      → a ≡ front
      → q.tail.ptr ≢ some a
      → new.ptr ≡ some m
      → next_of (q.heap a) ≡ some m
      → value_at q.heap m ≡ val
      → Good
          (record q { head = new })
          (update at i (dequeueing (freeing head val)))
          given
          ins
          (outs ++ (val ∷ []))
  taken-Good head new a m val is f ahead points after same =
      let (r, first) =
        Linked-next q.heap front m rest c.linked (ap (λ x. next_of (q.heap x)) (sym f) ∙ after) in
      let free_tail : q.tail.ptr ≢ some front = λ s. ahead (s ∙ ap some (sym f)) in
      let v = view (record q { head = new }) (front ∷ past) m r in
      (
        front ∷ past,
        m,
        r,
        subst (λ x. Core (record q { head = new }) (front ∷ past) m r given ins (outs ++ (x ∷ [])))
            same (Core-pop q past front rest given ins outs c new m r points first free_tail),
        Crew-move here v at given given i (dequeueing (freeing head val)) w
            (Evolves-pop q past front rest given ins outs c new m r points first free_tail)
            (λ n k. k)
            (λ j n x ne k.
              Private-pop q past front rest given ins outs c new m r points first free_tail n x)
            (λ n k. absurd k) (a, is, inl f),
      )

  swapping-Good :
      (head next : Tagged) (val : ℕ)
      → Dequeuer here (swapping head next val)
      → Next (swapping head next val) (dequeue_at q (swapping head next val))
  swapping-Good head next val (a, is, o, ahead, (m, points, b, same)) =
      elim (swapping-cases q head next next val) [
        | inl fails ↦ subst (Next (swapping head next val)) (sym fails) (inr (stays missed tt))
        | inr won ↦
            let f = still_front head a is won.0 in
            subst (Next (swapping head next val)) (sym won.1) (
              inr (
                taken-Good head (record { ptr = next.ptr; count = add64 head.count 1 }) a m val is f
                  (ahead f) points (b (inl f)) (same f)))
      ]

  freeing-Good :
      (head : Tagged) (val : ℕ)
      → Dequeuer here (freeing head val)
      → Next (freeing head val) (dequeue_at q (freeing head val))
  freeing-Good head val (a, is, was) =
      let out = c.past_apart a was in
      let left = record q { heap = update q.heap a none } in
      subst (Next (freeing head val)) (sym (freeing-some q head head head val a is)) (
        inr (
          past,
          front,
          rest,
          Core-free q past front rest given ins outs c a was,
          Crew-move here (view left past front rest) at given given i (dequeueing (dequeued val)) w
              (Evolves-other q past front rest given ins outs c a none out) (λ n k. k)
              (λ j n x ne k p.
                Private-other q past front rest given ins outs c a none out n x
                  (λ s. p.0 (inl (subst (λ y. Mem y past) s was))) p)
              (λ n k. absurd k) tt,
        ))

  pub dequeue_at-Good : (d : Dequeue) → Dequeuer here d → Next d (dequeue_at q d)
  unfolding dequeue_at
  dequeue_at-Good begin p = inr (stays (has_head q.head) (front, c.head_at, inr refl))
  dequeue_at-Good (has_head head) (a, is, o) =
      inr (stays (has_both head q.tail) (a, is, o, λ ne f s. ne (s ∙ sym is)))
  dequeue_at-Good (has_both head tail) p = has_both-Good head tail p
  dequeue_at-Good (has_all head tail next) p = has_all-Good head tail next p
  dequeue_at-Good (lagging tail next) p = inr (
      cas-Good q past front rest given ins outs c at w i (dequeueing missed) (λ n k. absurd k) tail
        (record { ptr = next.ptr; count = add64 tail.count 1 }) p tt)
  dequeue_at-Good (reading head next) p = reading-Good head next p
  dequeue_at-Good (swapping head next val) p = swapping-Good head next val p
  dequeue_at-Good (freeing head val) p = freeing-Good head val p
  dequeue_at-Good missed p = inr (
      retry-Good q past front rest given ins outs c at w i (dequeueing begin) (λ n k. absurd k)
        (add64 q.retries 1) tt)
  dequeue_at-Good empty p = inr (stays empty tt)
  dequeue_at-Good (dequeued val) p = inr (stays (dequeued val) tt)
