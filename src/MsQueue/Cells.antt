-- ===== src/MsQueue/Cells.antt =====
-- What an access in src/msqueue.c may do to the memory of the nodes.
use mathlib.Core.Path.{subst}
use mathlib.Core.List.{append_assoc}
use comp.Shared.{
  ℕ, ◌≡◌, ◌≢◌, ◌⊎◌, Option, none, some, List, [], refl, arith, Mem, ◌∷◌, update, ap, Bool-cases,
  inr, ◌++◌, sym, update_ne, inl, ◌∙◌, ◌==◌, mem_append_left, mem_append_last,
}
use comp.MsQueue.{Tagged, Node, Msqueue, update}
use comp.MsQueue.Chained.{
  values, value_at, next_of, Linked-other, Linked-link, values-same, value_at-other,
  Distinct-append, value_at-link, values-append,
}
use comp.MsQueue.View.{View, Known, Private, Evolves}
use comp.MsQueue.Core.{Core, view, Linked-next}

module _ (q : Msqueue) (past : List ℕ) (front : ℕ) (rest given ins outs : List ℕ)
    (c : Core q past front rest given ins outs) where
  abbrev here : View
  here = view q past front rest

  -- A change at an address that is not one of a node in the queue.
  module _ (n : ℕ) (x : Option Node) (out : ¬ Mem n (front ∷ rest)) where
    abbrev changed : Msqueue
    changed = record q { heap = update q.heap n x }

    elsewhere : (a : ℕ) → Mem a (front ∷ rest) → n ≢ a
    elsewhere a l s = out (subst (λ y. Mem y (front ∷ rest)) (sym s) l)

    Core-other :
        (given' : List ℕ)
        → ((a : ℕ) → Mem a given → Mem a given')
        → ((a : ℕ) (node : Node)
            → Mem a past
            → update q.heap n x a ≡ some node
            → node.next.ptr ≢ none)
        → Core changed past front rest given' ins outs
    Core-other given' grow next = record {
      linked = Linked-other q.heap (front ∷ rest) n x out c.linked;
      head_at = c.head_at;
      tail_in = c.tail_in;
      distinct = c.distinct;
      past_apart = c.past_apart;
      past_next = next;
      from_malloc = λ a k. grow a (c.from_malloc a k);
      order =
          c.order
          ∙ ap (λ l. outs ++ l)
              (sym (
                values-same q.heap (update q.heap n x) rest
                  (λ a m. value_at-other q.heap n a x (elsewhere a (inr m)))));
      no_fault = c.no_fault;
    }

    pub Evolves-other : Evolves here (view changed past front rest)
    Evolves-other = record {
      known = λ a k. k;
      old = λ a k. k;
      past = λ a m. m;
      front = λ a o f. f;
      live = λ a k l. l;
      next = λ a m l k e. ap next_of (update_ne q.heap x (elsewhere a l)) ∙ e;
      behind = λ a f g t. t;
      value = λ a m f e.
          let s = ap (λ b. next_of (q.heap b)) (sym f) ∙ e in
          let (r, first) = Linked-next q.heap front m rest c.linked s in
          value_at-other q.heap n m x (elsewhere m (inr (subst (Mem m) (sym first) (inl refl))));
    }

    pub Private-other :
        (m x : ℕ) → n ≢ m → Private here m x → Private (view changed past front rest) m x
    Private-other m y ne p = (p.0, (p.1.0, update_ne q.heap x ne ∙ p.1.1, p.1.2, p.1.3))

  -- A dummy that was is freed.
  pub Core-free :
      (n : ℕ)
      → Mem n past
      → Core (record q { heap = update q.heap n none }) past front rest given ins outs
  Core-free n p =
      Core-other n none (c.past_apart n p) given (λ a m. m)
        (λ a node m e. elim (Bool-cases (n == a)) [
          | inl y ↦ absurd (ground (arith, rw y at e))
          | inr d ↦ c.past_next a node m (rw d at e)
        ])

  -- A node that malloc has not given before.
  module _ (n : ℕ) (new : Node) (fresh : ¬ Mem n given) where
    pub unknown : ¬ (Mem n past ⊎ Mem n (front ∷ rest))
    unknown k = fresh (c.from_malloc n k)

    pub Core-alloc :
        Core (record q { heap = update q.heap n (some new) }) past front rest (n ∷ given) ins outs
    Core-alloc =
        Core-other n (some new) (λ m. unknown (inr m)) (n ∷ given) (λ a m. inr m)
          (λ a node m e.
            let ne : n ≢ a = λ s. unknown (inl (subst (λ y. Mem y past) (sym s) m)) in
            c.past_next a node m (sym (update_ne q.heap (some new) ne) ∙ e))

  -- The node `n` is linked behind `t`, the last one.
  module _ (t n count value : ℕ) (node : Node) (last : Mem t (front ∷ rest))
      (at : q.heap t ≡ some node) (free : node.next.ptr ≡ none) (p : Private here n value)
      (mine : Mem n given) where
    abbrev next : Tagged
    next = record { ptr = some n; count = count }

    abbrev linked_heap : ℕ → Option Node
    linked_heap = update q.heap t (some (record node { next = next }))

    last_has_none : next_of (q.heap t) ≡ none
    last_has_none = ap next_of at ∙ free

    pub Core-link :
        Core
          (record q { heap = linked_heap })
          past
          front
          (rest ++ (n ∷ []))
          given
          (ins ++ (value ∷ []))
          outs
    Core-link = record {
      linked =
          Linked-link q.heap (front ∷ rest) t n count node p.1.0 c.linked last at free p.1.1 p.1.2
            (λ m. p.0 (inr m));
      head_at = c.head_at;
      tail_in =
          (c.tail_in.0, c.tail_in.1, mem_append_left c.tail_in.0 n (front ∷ rest) c.tail_in.2);
      distinct = Distinct-append (front ∷ rest) n c.distinct (λ m. p.0 (inr m));
      past_apart = λ a m l. elim (mem_append_last a n (front ∷ rest) l) [
        | inl old ↦ c.past_apart a m old
        | inr same ↦ p.0 (inl (subst (λ y. Mem y past) same m))
      ];
      past_next = λ a other m e.
          let ne : t ≢ a = λ s. c.past_apart a m (subst (λ y. Mem y (front ∷ rest)) s last) in
          c.past_next a other m
            (sym (update_ne q.heap (some (record node { next = next })) ne) ∙ e);
      from_malloc = λ a k. elim k [
        | inl m ↦ c.from_malloc a (inl m)
        | inr l ↦ elim (mem_append_last a n (front ∷ rest) l) [
          | inl old ↦ c.from_malloc a (inr old)
          | inr same ↦ subst (λ y. Mem y given) (sym same) mine
        ]
      ];
      order =
          let value_n : value_at q.heap n ≡ value =
            ap (λ o. elim o [ none ↦ 0 | some x ↦ x.value ]) p.1.1 ∙ p.1.3 in
          ap (λ l. l ++ (value ∷ [])) c.order
          ∙ append_assoc outs (values q.heap rest) (value ∷ [])
          ∙ ap (λ v. outs ++ (values q.heap rest ++ (v ∷ []))) (sym value_n)
          ∙ ap (λ l. outs ++ l)
              (sym (values-append q.heap rest n)
                ∙ sym (
                    values-same q.heap linked_heap (rest ++ (n ∷ []))
                      (λ a m. value_at-link q.heap t a node next at)));
      no_fault = c.no_fault;
    }

    pub Evolves-link :
        Evolves here (view (record q { heap = linked_heap }) past front (rest ++ (n ∷ [])))
    Evolves-link = record {
      known = λ a k. elim k [ inl m ↦ inl m | inr l ↦ inr (mem_append_left a n (front ∷ rest) l) ];
      old = λ a o. o;
      past = λ a m. m;
      front = λ a o f. f;
      live = λ a k l. elim (mem_append_last a n (front ∷ rest) l) [
        | inl old ↦ old
        | inr same ↦ absurd (p.0 (subst (Known here) same k))
      ];
      next = λ a m old l e.
          let ne : t ≢ a = λ s.
            let z : none ≡ some m = sym last_has_none ∙ ap (λ b. next_of (q.heap b)) s ∙ e in
            absurd (ground arith) in
          ap next_of (update_ne q.heap (some (record node { next = next })) ne) ∙ e;
      behind = λ a f g tail. tail;
      value = λ a m f e. value_at-link q.heap t m node next at;
    }

    -- Another thread's node.
    pub Private-link :
        (m x : ℕ)
        → n ≢ m
        → Private here m x
        → Private (view (record q { heap = linked_heap }) past front (rest ++ (n ∷ []))) m x
    Private-link m x ne o =
        let apart : t ≢ m = λ s. o.0 (inr (subst (λ y. Mem y (front ∷ rest)) s last)) in
        (
          (λ k. elim k [
            | inl was ↦ o.0 (inl was)
            | inr l ↦ elim (mem_append_last m n (front ∷ rest) l) [
              | inl old ↦ o.0 (inr old)
              | inr same ↦ ne (sym same)
            ]
          ]),
          (
            o.1.0,
            update_ne q.heap (some (record node { next = next })) apart ∙ o.1.1,
            o.1.2,
            o.1.3,
          ),
        )
