-- ===== src/MsQueue/Linking.antt =====
-- The accesses in `msq_enqueue` of src/msqueue.c that make a node, or link it.
use comp.Shared.{
  ℕ, ◌≡◌, ◌≢◌, ◌∙◌, ap, refl, sym, inl, inr, Option, none, some, List, [], ◌∷◌, ◌++◌, Mem, mem_last,
  mem_append_left, mem_append_last, update, update_self, update_ne, ◌==◌, arith, Bool-cases,
}
use mathlib.Core.Path.{subst}
use comp.MsQueue.{Tagged, Node, node_new, start, swinging, enqueued}
use comp.MsQueue.Enqueuers.{Enqueuing, begin_enqueue}
use comp.MsQueue.Chained.{
  Linked-member, Linked-other, Linked-link, values-append, values-same, value_at-other,
  value_at-link, value_at, Distinct-append,
}
use comp.MsQueue.Standing.{
  Private, Owns, IsChained, Place-keep, Owns-update, Place-update, Owns-allocated, Owns-keep,
  Owns-one,
}

none_ne : {A : Type 0} {o : Option A} {x : A} → o ≡ none → o ≡ some x → ⊥
none_ne {A} {o} {x} e f = let q : none ≡ some x = sym e ∙ f in absurd (ground arith)

-- A call begins.
pub called-IsChained :
    (s : Enqueuing) (nodes log : List ℕ) (i n value : ℕ)
    → IsChained s nodes log
    → s.at i ≡ enqueued
    → s.queue.heap n ≡ none
    → IsChained (begin_enqueue s i n value) nodes log
unfolding node_new
called-IsChained s nodes log i n value c idle free =
    let h = s.queue.heap in
    let new : Node = record { value = value; next = record { ptr = none; count = 0 } } in
    let out : ¬ Mem n nodes =
      λ m. let (node, e, z) = Linked-member h nodes n c.linked m in none_ne free e in
    let keep : (j m : ℕ)
        → Owns (s.at j) m
        → Private h nodes m
        → Private (update h n (some new)) nodes m =
      λ j m o p. (
        p.0,
        (p.1.0, update_ne h (some new) (λ e. none_ne (ap h (sym e) ∙ free) p.1.1) ∙ p.1.1, p.1.2),
      ) in
    let fresh : (j : ℕ) → ¬ Owns (s.at j) n =
      λ j o. none_ne free (Owns-allocated h nodes (s.at j) n (c.places j) o).1.1 in
    record {
      linked = Linked-other h nodes n (some new) out c.linked;
      distinct = c.distinct;
      head_first = c.head_first;
      tail_in = c.tail_in;
      no_fault = c.no_fault;
      places = λ j.
          Place-update (update h n (some new)) nodes s.at i j (start n)
            (out, (new, update_self h n (some new), refl))
            (Place-keep h (update h n (some new)) nodes nodes (s.at j) (λ a m. m) (keep j)
              (c.places j));
      apart = λ j k m a b. elim (Bool-cases (i == j)) [
        | inl y ↦ elim (Bool-cases (i == k)) [
          | inl z ↦ ground arith
          | inr z ↦ absurd (fresh k (subst (Owns (s.at k)) (sym (rw y at a)) (rw z at b)))
        ]
        | inr y ↦ elim (Bool-cases (i == k)) [
          | inl z ↦ absurd (fresh j (subst (Owns (s.at j)) (sym (rw z at b)) (rw y at a)))
          | inr z ↦ c.apart j k m (rw y at a) (rw z at b)
        ]
      ];
      mine = λ j m o. elim (Bool-cases (i == j)) [
        | inl y ↦ rw y (
            ap (value_at (update h n (some new))) (sym (rw y at o))
            ∙ ap (λ x. elim x [ none ↦ 0 | some node ↦ node.value ]) (update_self h n (some new)))
        | inr d ↦ rw d (
            value_at-other h n m (some new)
              (λ e. fresh j (subst (Owns (s.at j)) (sym e) (rw d at o)))
            ∙ c.mine j m (rw d at o))
      ];
      kept = λ a node q. elim (Bool-cases (n == a)) [
        | inl y ↦ inr (
          i,
          subst (λ f. Owns f a) (sym (update_self s.at i (start n)))
              (let e : n ≡ a = ground arith in e),
        )
        | inr d ↦ elim (c.kept a node (rw d at q)) [
          | inl m ↦ inl m
          | inr w ↦ inr (
            w.0,
            Owns-keep s.at i w.0 a (start n)
                (λ y o. absurd (subst (λ f. Owns f a) (ap s.at (sym y) ∙ idle) o)) w.1,
          )
        ]
      ];
      logged =
          values-same h (update h n (some new)) nodes
            (λ a m. value_at-other h n a (some new) (λ e. out (subst (λ x. Mem x nodes) (sym e) m)))
          ∙ c.logged;
    }

-- A node is linked behind `t`.
pub linked-IsChained :
    (s : Enqueuing) (nodes log : List ℕ) (i t n c : ℕ) (tail : Tagged) (node : Node)
    → IsChained s nodes log
    → Private s.queue.heap nodes n
    → Owns (s.at i) n
    → Mem t nodes
    → s.queue.heap t ≡ some node
    → node.next.ptr ≡ none
    → IsChained
        (record {
          queue = record s.queue {
            heap =
                update s.queue.heap t
                  (some (record node { next = record { ptr = some n; count = c } }));
          };
          value = s.value;
          at = update s.at i (swinging n tail);
        })
        (nodes ++ (n ∷ []))
        (log ++ (s.value i ∷ []))
linked-IsChained s nodes log i t n c tail node k p own m e z =
    let h = s.queue.heap in
    let x : Option Node = some (record node { next = record { ptr = some n; count = c } }) in
    let g = update h t x in
    let new = p.1.0 in
    let grow : (a : ℕ) → Mem a nodes → Mem a (nodes ++ (n ∷ [])) =
      λ a q. mem_append_left a n nodes q in
    let keep : (j b : ℕ)
        → i ≢ j
        → Owns (s.at j) b
        → Private h nodes b
        → Private g (nodes ++ (n ∷ [])) b =
      λ j b ne o q. (
        (λ r. elim (mem_append_last b n nodes r) [
          | inl old ↦ q.0 old
          | inr same ↦ ne (k.apart i j n own (subst (Owns (s.at j)) same o))
        ]),
        (q.1.0, update_ne h x (λ s. q.0 (subst (λ y. Mem y nodes) s m)) ∙ q.1.1, q.1.2),
      ) in
    record {
      linked = Linked-link h nodes t n c node new k.linked m e z p.1.1 p.1.2 p.0;
      distinct = Distinct-append nodes n k.distinct p.0;
      head_first = (
        k.head_first.0,
        k.head_first.1,
        (k.head_first.2.0 ++ (n ∷ []), ap (λ l. l ++ (n ∷ [])) k.head_first.2.1),
      );
      tail_in = (k.tail_in.0, k.tail_in.1, grow k.tail_in.0 k.tail_in.2);
      no_fault = k.no_fault;
      places = λ j. elim (Bool-cases (i == j)) [
        | inl y ↦ rw y (mem_last n nodes)
        | inr d ↦ rw d (
            Place-keep h g nodes (nodes ++ (n ∷ [])) (s.at j) grow
              (λ b o q. keep j b (λ s. absurd (ground arith)) o q) (k.places j))
      ];
      apart = λ j l b a d.
          k.apart j l b (Owns-update s.at i j b (swinging n tail) (λ w o. absurd o) a)
            (Owns-update s.at i l b (swinging n tail) (λ w o. absurd o) d);
      mine = λ j a o.
          value_at-link h t a node (record { ptr = some n; count = c }) e
          ∙ k.mine j a (Owns-update s.at i j a (swinging n tail) (λ w q. absurd q) o);
      kept = λ a y q. elim (Bool-cases (t == a)) [
        | inl same ↦ inl (grow a (subst (λ b. Mem b nodes) (let e : t ≡ a = ground arith in e) m))
        | inr other ↦ elim (k.kept a y (rw other at q)) [
          | inl old ↦ inl (grow a old)
          | inr w ↦ elim (Bool-cases (i == w.0)) [
            | inl same ↦ inl (
                subst (λ b. Mem b (nodes ++ (n ∷ [])))
                  (Owns-one (s.at i) n a own
                    (subst (λ j. Owns (s.at j) a) (let e : w.0 ≡ i = ground arith in e) w.1))
                  (mem_last n nodes))
            | inr d ↦ inr (w.0, rw d w.1)
          ]
        ]
      ];
      logged =
          values-same h g (nodes ++ (n ∷ []))
            (λ a q. value_at-link h t a node (record { ptr = some n; count = c }) e)
          ∙ values-append h nodes n
          ∙ ap (λ l. l ++ (value_at h n ∷ [])) k.logged
          ∙ ap (λ v. 0 ∷ (log ++ (v ∷ []))) (k.mine i n own);
    }
