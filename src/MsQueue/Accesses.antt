-- ===== src/MsQueue/Accesses.antt =====
-- The accesses of src/msqueue.c, one equation for each way that one can end.
use comp.Shared.{
  ℕ, ◌≡◌, ◌≢◌, Option, none, some, true, false, refl, arith, ap, Bool, sym, ◌⊎◌, update, ◌∙◌,
  Bool-cases, add64, inl, inr,
}
use comp.MsQueue.{
  start, linking, begin, empty, missed, Tagged, Node, Msqueue, enqueue_at, dequeue_at, same_ptr,
  same_tagged, deref, cas_tail, Bool, has_both, has_all, reading, swapping, freeing, has_tail,
  has_next, faulty, failed, Dequeue, lagging, update, Enqueue, helping, store_next, add64, dequeued,
  swinging,
}

pub same_ptr-eq : (p r : Option ℕ) → same_ptr p r ≡ true → p ≡ r
same_ptr-eq none none h = refl
same_ptr-eq none (some b) h = absurd (ground arith)
same_ptr-eq (some a) none h = absurd (ground arith)
same_ptr-eq (some a) (some b) h = ground arith

pub same_ptr-ne : (p r : Option ℕ) → same_ptr p r ≡ false → p ≢ r
same_ptr-ne p none h e = absurd (ground (arith, ap (λ x. same_ptr x none) e))
same_ptr-ne p (some b) h e =
    let s : same_ptr (some b) (some b) ≡ false = sym (ap (λ x. same_ptr x (some b)) e) ∙ h in
    absurd (ground arith)

pub same_tagged-ptr : (a b : Tagged) → same_tagged a b ≡ true → a.ptr ≡ b.ptr
same_tagged-ptr a b h =
    let s : same_ptr a.ptr b.ptr ≡ true = ground arith in same_ptr-eq a.ptr b.ptr s

pub deref-some : (q : Msqueue) (p : Option ℕ) (t : ℕ) → p ≡ some t → deref q p ≡ q.heap t
deref-some q p t e = ap (deref q) e

pub cas_tail-cases :
    (q : Msqueue) (old new : Tagged)
    → (cas_tail q old new ≡ q)
      ⊎ ((q.tail.ptr ≡ old.ptr) × (cas_tail q old new ≡ record q { tail = new }))
cas_tail-cases q old new = elim (Bool-cases (same_tagged q.tail old)) [
  | inl y ↦ inr (same_tagged-ptr q.tail old y, rw y refl)
  | inr n ↦ inl (rw n refl)
]

module _ (spurious : Bool) (q : Msqueue) (n : ℕ) (tail next : Tagged) where
  pub has_tail-none :
      deref q tail.ptr ≡ none
      → enqueue_at spurious q (has_tail n tail) ≡ (faulty q, has_tail n tail)
  unfolding enqueue_at
  has_tail-none e = rw (enqueue_at, e) refl

  pub has_tail-some :
      (node : Node)
      → deref q tail.ptr ≡ some node
      → enqueue_at spurious q (has_tail n tail) ≡ (q, has_next n tail node.next)
  unfolding enqueue_at
  has_tail-some node e = rw (enqueue_at, e) refl

  pub has_next-stale :
      same_ptr tail.ptr q.tail.ptr ≡ false
      → enqueue_at spurious q (has_next n tail next) ≡ (q, start n)
  unfolding enqueue_at
  has_next-stale e = rw (enqueue_at, e) refl

  pub has_next-last :
      same_ptr tail.ptr q.tail.ptr ≡ true
      → next.ptr ≡ none
      → enqueue_at spurious q (has_next n tail next) ≡ (q, linking n tail next)
  unfolding enqueue_at
  has_next-last e z = rw e (
      ap
        (λ o. (
          q,
          elim o as (λ _. Enqueue) [ none ↦ linking n tail next | some m ↦ helping n tail next ],
        ))
        z)

  pub has_next-lags :
      (m : ℕ)
      → same_ptr tail.ptr q.tail.ptr ≡ true
      → next.ptr ≡ some m
      → enqueue_at spurious q (has_next n tail next) ≡ (q, helping n tail next)
  unfolding enqueue_at
  has_next-lags m e z = rw e (
      ap
        (λ o. (
          q,
          elim o as (λ _. Enqueue) [ none ↦ linking n tail next | some m ↦ helping n tail next ],
        ))
        z)

  pub linking-none :
      deref q tail.ptr ≡ none → enqueue_at spurious q (linking n tail next) ≡ (faulty q, failed n)
  unfolding enqueue_at
  linking-none e = rw (enqueue_at, e) refl

  -- The compare-and-swap of the link fails, or finds what `next` says.
  pub linking-some :
      (node : Node)
      → deref q tail.ptr ≡ some node
      → (enqueue_at spurious q (linking n tail next) ≡ (q, failed n))
        ⊎ ((node.next.ptr ≡ next.ptr)
            × (enqueue_at spurious q (linking n tail next) ≡ (
              store_next q tail.ptr node (record { ptr = some n; count = add64 next.count 1 }),
              swinging n tail,
            )))
  unfolding enqueue_at
  linking-some node e = elim (Bool-cases spurious) [
    | inl y ↦ inl (rw (enqueue_at, e, y) refl)
    | inr y ↦ elim (Bool-cases (same_tagged node.next next)) [
      | inl z ↦ inr (same_tagged-ptr node.next next z, rw (enqueue_at, e, y, z) refl)
      | inr z ↦ inl (rw (enqueue_at, e, y, z) refl)
    ]
  ]

module _ (q : Msqueue) (head tail next : Tagged) where
  pub has_both-none :
      deref q head.ptr ≡ none → dequeue_at q (has_both head tail) ≡ (faulty q, has_both head tail)
  unfolding dequeue_at
  has_both-none e = rw (dequeue_at, e) refl

  pub has_both-some :
      (node : Node)
      → deref q head.ptr ≡ some node
      → dequeue_at q (has_both head tail) ≡ (q, has_all head tail node.next)
  unfolding dequeue_at
  has_both-some node e = rw (dequeue_at, e) refl

  pub has_all-stale :
      same_ptr head.ptr q.head.ptr ≡ false → dequeue_at q (has_all head tail next) ≡ (q, begin)
  unfolding dequeue_at
  has_all-stale e = rw (dequeue_at, e) refl

  pub has_all-empty :
      same_ptr head.ptr q.head.ptr ≡ true
      → same_ptr head.ptr tail.ptr ≡ true
      → next.ptr ≡ none
      → dequeue_at q (has_all head tail next) ≡ (q, empty)
  unfolding dequeue_at
  has_all-empty e f z =
      rw (e, f)
        (ap (λ o. (q, elim o as (λ _. Dequeue) [ none ↦ empty | some m ↦ lagging tail next ])) z)

  pub has_all-lags :
      (m : ℕ)
      → same_ptr head.ptr q.head.ptr ≡ true
      → same_ptr head.ptr tail.ptr ≡ true
      → next.ptr ≡ some m
      → dequeue_at q (has_all head tail next) ≡ (q, lagging tail next)
  unfolding dequeue_at
  has_all-lags m e f z =
      rw (e, f)
        (ap (λ o. (q, elim o as (λ _. Dequeue) [ none ↦ empty | some m ↦ lagging tail next ])) z)

  pub has_all-reads :
      same_ptr head.ptr q.head.ptr ≡ true
      → same_ptr head.ptr tail.ptr ≡ false
      → dequeue_at q (has_all head tail next) ≡ (q, reading head next)
  unfolding dequeue_at
  has_all-reads e f = rw (e, f) refl

  pub reading-none :
      deref q next.ptr ≡ none → dequeue_at q (reading head next) ≡ (faulty q, reading head next)
  unfolding dequeue_at
  reading-none e = rw (dequeue_at, e) refl

  pub reading-some :
      (node : Node)
      → deref q next.ptr ≡ some node
      → dequeue_at q (reading head next) ≡ (q, swapping head next node.value)
  unfolding dequeue_at
  reading-some node e = rw (dequeue_at, e) refl

  pub swapping-cases :
      (val : ℕ)
      → (dequeue_at q (swapping head next val) ≡ (q, missed))
        ⊎ ((q.head.ptr ≡ head.ptr)
            × (dequeue_at q (swapping head next val) ≡ (
              record q { head = record { ptr = next.ptr; count = add64 head.count 1 } },
              freeing head val,
            )))
  unfolding dequeue_at
  swapping-cases val = elim (Bool-cases (same_tagged q.head head)) [
    | inl y ↦ inr (same_tagged-ptr q.head head y, rw y refl)
    | inr n ↦ inl (rw n refl)
  ]

  pub freeing-some :
      (val a : ℕ)
      → head.ptr ≡ some a
      → dequeue_at q (freeing head val) ≡ (record q { heap = update q.heap a none }, dequeued val)
  unfolding dequeue_at
  freeing-some val a e =
      ap
        (λ o. (
          elim o as (λ _. Msqueue) [ none ↦ q | some p ↦ record q { heap = update q.heap p none } ],
          dequeued val,
        ))
        e
