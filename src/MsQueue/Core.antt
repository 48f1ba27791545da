-- ===== src/MsQueue/Core.antt =====
-- The queue of src/msqueue.c between two accesses, and what an access may do to it.
use mathlib.Core.Path.{subst}
use mathlib.Core.List.{append_assoc}
use comp.Shared.{
  ℕ, ◌≡◌, Option, none, some, List, [], refl, arith, Mem, ◌∷◌, ◌≢◌, sym, inr, ◌⊎◌, ◌∙◌, inl, ◌++◌,
  ap, false,
}
use comp.MsQueue.{Tagged, Node, Msqueue, false}
use comp.MsQueue.Chained.{Linked, InPtr, Distinct, values, value_at, next_of}
use comp.MsQueue.View.{View, Evolves, Private}

abbrev pub view : Msqueue → List ℕ → ℕ → List ℕ → View
view q past front rest = record {
  heap = q.heap;
  past = past;
  front = front;
  rest = rest;
  tail = q.tail.ptr;
}

-- `past` are the dummies that were; `rest` the nodes behind the dummy, which hold what was put in
-- and not yet taken out.
pub record Core (q : Msqueue) (past : List ℕ) (front : ℕ) (rest given ins outs : List ℕ)
    : Type 0 where
  pub linked : Linked q.heap (front ∷ rest)
  pub head_at : q.head.ptr ≡ some front
  pub tail_in : InPtr q.tail.ptr (front ∷ rest)
  pub distinct : Distinct (front ∷ rest)
  pub past_apart : (a : ℕ) → Mem a past → ¬ Mem a (front ∷ rest)
  pub past_next : (a : ℕ) (node : Node) → Mem a past → q.heap a ≡ some node → node.next.ptr ≢ none
  pub from_malloc : (a : ℕ) → Mem a past ⊎ Mem a (front ∷ rest) → Mem a given
  pub order : ins ≡ outs ++ values q.heap rest
  pub no_fault : q.fault ≡ false

-- What the dummy points to is the first node behind it.
pub Linked-next :
    (h : ℕ → Option Node) (front m : ℕ) (rest : List ℕ)
    → Linked h (front ∷ rest)
    → next_of (h front) ≡ some m
    → (r : List ℕ) × (rest ≡ m ∷ r)
Linked-next h front m [] k e =
    let q : none ≡ some m = sym k.2 ∙ sym (ap next_of k.1) ∙ e in absurd (ground arith)
Linked-next h front m (b ∷ r) k e =
    let q : some b ≡ some m = sym k.0.2 ∙ sym (ap next_of k.0.1) ∙ e in (r, ground arith)

-- What comes after a node in the queue is in the queue, and is not the dummy.
pub Linked-after :
    (h : ℕ → Option Node) (front : ℕ) (rest : List ℕ) (t m : ℕ)
    → Linked h (front ∷ rest)
    → Mem t (front ∷ rest)
    → next_of (h t) ≡ some m
    → Mem m rest
Linked-after h front rest t m k (inl s) e =
    let (r, first) = Linked-next h front m rest k (ap (λ x. next_of (h x)) (sym s) ∙ e) in
    subst (Mem m) (sym first) (inl refl)
Linked-after h front [] t m k (inr l) e = absurd l
Linked-after h front (b ∷ r) t m k (inr l) e = inr (Linked-after h b r t m k.1 l e)

-- A dummy that points to nothing is alone.
pub Linked-alone :
    (h : ℕ → Option Node) (front : ℕ) (rest : List ℕ)
    → Linked h (front ∷ rest)
    → next_of (h front) ≡ none
    → rest ≡ []
Linked-alone h front [] k e = refl
Linked-alone h front (b ∷ r) k e =
    let q : none ≡ some b = sym e ∙ ap next_of k.0.1 ∙ k.0.2 in absurd (ground arith)

module _ (q : Msqueue) (past : List ℕ) (front : ℕ) (rest given ins outs : List ℕ)
    (c : Core q past front rest given ins outs) where
  abbrev here : View
  here = view q past front rest

  pub Evolves-refl : Evolves here here
  Evolves-refl = record {
    known = λ a k. k;
    old = λ a k. k;
    past = λ a m. m;
    front = λ a o f. f;
    live = λ a k l. l;
    next = λ a m l k e. e;
    behind = λ a f g t. t;
    value = λ a m f e. refl;
  }

  pub Core-retry : (r : ℕ) → Core (record q { retries = r }) past front rest given ins outs
  Core-retry r = record {
    linked = c.linked;
    head_at = c.head_at;
    tail_in = c.tail_in;
    distinct = c.distinct;
    past_apart = c.past_apart;
    past_next = c.past_next;
    from_malloc = c.from_malloc;
    order = c.order;
    no_fault = c.no_fault;
  }

  module _ (new : Tagged) (m : ℕ) (at : new.ptr ≡ some m) (inside : Mem m rest) where
    pub Core-tail : Core (record q { tail = new }) past front rest given ins outs
    Core-tail = record {
      linked = c.linked;
      head_at = c.head_at;
      tail_in = (m, at, inr inside);
      distinct = c.distinct;
      past_apart = c.past_apart;
      past_next = c.past_next;
      from_malloc = c.from_malloc;
      order = c.order;
      no_fault = c.no_fault;
    }

    pub Evolves-tail : Evolves here (view (record q { tail = new }) past front rest)
    Evolves-tail = record {
      known = λ a k. k;
      old = λ a k. k;
      past = λ a m. m;
      front = λ a o f. f;
      live = λ a k l. l;
      next = λ a m l k e. e;
      behind = λ a f g t same.
          let s : some m ≡ some a = sym at ∙ same in
          let e : m ≡ front = ground arith in c.distinct.0 (subst (λ x. Mem x rest) e inside);
      value = λ a m f e. refl;
    }

  -- The head moves to the node behind the dummy.
  module _ (new : Tagged) (m : ℕ) (r : List ℕ) (at : new.ptr ≡ some m) (first : rest ≡ m ∷ r)
      (ahead : q.tail.ptr ≢ some front) where
    sub : (a : ℕ) → Mem a (m ∷ r) → Mem a rest
    sub a k = subst (Mem a) (sym first) k

    front_out : ¬ Mem front (m ∷ r)
    front_out k = c.distinct.0 (sub front k)

    pub Core-pop :
        Core
          (record q { head = new })
          (front ∷ past)
          m
          r
          given
          ins
          (outs ++ (value_at q.heap m ∷ []))
    Core-pop =
        let linked : Linked q.heap (front ∷ (m ∷ r)) =
          subst (λ l. Linked q.heap (front ∷ l)) first c.linked in
        record {
          linked = linked.1;
          head_at = at;
          tail_in =
              let (t, is, where_) = c.tail_in in
              (
                t,
                is,
                elim where_ [
                  | inl f ↦ absurd (ahead (is ∙ ap some f))
                  | inr k ↦ subst (Mem t) first k
                ],
              );
          distinct = subst Distinct first c.distinct.1;
          past_apart = λ a p k. elim p [
            | inl f ↦ front_out (subst (λ x. Mem x (m ∷ r)) f k)
            | inr p' ↦ c.past_apart a p' (inr (sub a k))
          ];
          past_next = λ a node p e z. elim p [
            | inl f ↦
                let s : none ≡ some m =
                  sym z
                  ∙ sym (ap next_of e)
                  ∙ ap (λ x. next_of (q.heap x)) f
                  ∙ ap next_of linked.0.1
                  ∙ linked.0.2 in
                absurd (ground arith)
            | inr p' ↦ c.past_next a node p' e z
          ];
          from_malloc = λ a k. elim k [
            | inl p ↦ elim p [
              | inl f ↦ c.from_malloc a (inr (inl f))
              | inr p' ↦ c.from_malloc a (inl p')
            ]
            | inr l ↦ c.from_malloc a (inr (inr (sub a l)))
          ];
          order =
              c.order
              ∙ ap (λ l. outs ++ values q.heap l) first
              ∙ sym (append_assoc outs (value_at q.heap m ∷ []) (values q.heap r));
          no_fault = c.no_fault;
        }

    pub Evolves-pop : Evolves here (view (record q { head = new }) (front ∷ past) m r)
    Evolves-pop = record {
      known = λ a k. elim k [
        | inl p ↦ inl (inr p)
        | inr l ↦ elim l [ inl f ↦ inl (inl f) | inr x ↦ inr (subst (Mem a) first x) ]
      ];
      old = λ a o. elim o [ inl p ↦ inl (inr p) | inr f ↦ inl (inl f) ];
      past = λ a p. inr p;
      front =
          λ a o f. elim o [ inl p ↦ absurd (c.past_apart a p (inr (sub a (inl f)))) | inr g ↦ g ];
      live = λ a k l. inr (sub a l);
      next = λ a m l k e. e;
      behind = λ a f g t. absurd (front_out (inl (sym f ∙ g)));
      value = λ a m f e. refl;
    }

    pub Private-pop :
        (n x : ℕ)
        → Private here n x
        → Private (view (record q { head = new }) (front ∷ past) m r) n x
    Private-pop n x p = (
      (λ k. elim k [
        | inl was ↦ elim was [ inl f ↦ p.0 (inr (inl f)) | inr old ↦ p.0 (inl old) ]
        | inr l ↦ p.0 (inr (inr (sub n l)))
      ]),
      p.1,
    )
