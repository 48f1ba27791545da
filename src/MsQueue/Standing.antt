-- ===== src/MsQueue/Standing.antt =====
-- Where the threads in `msq_enqueue` of src/msqueue.c stand, and accesses that change no node.
use comp.Shared.{
  ℕ, ◌≡◌, ◌∙◌, ap, refl, sym, ◌⊎◌, inl, inr, false, Option, none, some, List, [], ◌∷◌, ◌++◌, Mem,
  update, ◌==◌, arith, Bool-cases,
}
use mathlib.Core.Path.{subst}
use comp.MsQueue.{
  Node, Msqueue, Enqueue, start, has_tail, has_next, linking, swinging, helping, failed, enqueued,
}
use comp.MsQueue.Enqueuers.{Enqueuing}
use comp.MsQueue.Chained.{value_at, Linked, InPtr, values, Distinct, IsFirst}

-- A node that is not in the queue yet.
abbrev pub Private : (ℕ → Option Node) → List ℕ → ℕ → Type 0
Private h l n = (¬ Mem n l) × ((new : Node) × (h n ≡ some new) × (new.next.ptr ≡ none))

abbrev pub Place : (ℕ → Option Node) → List ℕ → Enqueue → Type 0
Place h l (start n) = Private h l n
Place h l (has_tail n tail) = Private h l n × InPtr tail.ptr l
Place h l (has_next n tail next) =
    Private h l n × InPtr tail.ptr l × ((next.ptr ≡ none) ⊎ InPtr next.ptr l)
Place h l (linking n tail next) = Private h l n × InPtr tail.ptr l × (next.ptr ≡ none)
Place h l (swinging n tail) = Mem n l
Place h l (helping n tail next) = Private h l n × InPtr next.ptr l
Place h l (failed n) = Private h l n
Place h l enqueued = Unit

-- The node that a thread has for itself.
abbrev pub Owns : Enqueue → ℕ → Type 0
Owns (start n) m = n ≡ m
Owns (has_tail n tail) m = n ≡ m
Owns (has_next n tail next) m = n ≡ m
Owns (linking n tail next) m = n ≡ m
Owns (swinging n tail) m = ⊥
Owns (helping n tail next) m = n ≡ m
Owns (failed n) m = n ≡ m
Owns enqueued m = ⊥

-- Two places that own the same.
abbrev pub SameOwns : Enqueue → Enqueue → Type 0
SameOwns e f = ((m : ℕ) → Owns e m → Owns f m) × ((m : ℕ) → Owns f m → Owns e m)

pub Owns-one : (e : Enqueue) (n m : ℕ) → Owns e n → Owns e m → n ≡ m
Owns-one (start a) n m o q = sym o ∙ q
Owns-one (has_tail a tail) n m o q = sym o ∙ q
Owns-one (has_next a tail next) n m o q = sym o ∙ q
Owns-one (linking a tail next) n m o q = sym o ∙ q
Owns-one (swinging a tail) n m o q = absurd o
Owns-one (helping a tail next) n m o q = sym o ∙ q
Owns-one (failed a) n m o q = sym o ∙ q
Owns-one enqueued n m o q = absurd o

pub Place-keep :
    (h g : ℕ → Option Node) (l k : List ℕ) (e : Enqueue)
    → ((a : ℕ) → Mem a l → Mem a k)
    → ((n : ℕ) → Owns e n → Private h l n → Private g k n)
    → Place h l e
    → Place g k e
Place-keep h g l k (start n) m o p = o n refl p
Place-keep h g l k (has_tail n tail) m o p = (o n refl p.0, (p.1.0, p.1.1, m p.1.0 p.1.2))
Place-keep h g l k (has_next n tail next) m o p = (
  o n refl p.0,
  (p.1.0, p.1.1, m p.1.0 p.1.2),
  elim p.2 [ inl z ↦ inl z | inr i ↦ inr (i.0, i.1, m i.0 i.2) ],
)
Place-keep h g l k (linking n tail next) m o p = (o n refl p.0, (p.1.0, p.1.1, m p.1.0 p.1.2), p.2)
Place-keep h g l k (swinging n tail) m o p = m n p
Place-keep h g l k (helping n tail next) m o p = (o n refl p.0, (p.1.0, p.1.1, m p.1.0 p.1.2))
Place-keep h g l k (failed n) m o p = o n refl p
Place-keep h g l k enqueued m o p = tt

-- The nodes in the queue, and the values that were linked.
pub record IsChained (s : Enqueuing) (nodes log : List ℕ) : Type 0 where
  pub linked : Linked s.queue.heap nodes
  pub distinct : Distinct nodes
  pub head_first : IsFirst s.queue.head.ptr nodes
  pub tail_in : InPtr s.queue.tail.ptr nodes
  pub no_fault : s.queue.fault ≡ false
  pub places : (i : ℕ) → Place s.queue.heap nodes (s.at i)
  pub apart : (i j n : ℕ) → Owns (s.at i) n → Owns (s.at j) n → i ≡ j
  pub mine : (i n : ℕ) → Owns (s.at i) n → value_at s.queue.heap n ≡ s.value i
  pub kept :
      (a : ℕ) (node : Node) → s.queue.heap a ≡ some node → Mem a nodes ⊎ ((i : ℕ) × Owns (s.at i) a)
  pub logged : values s.queue.heap nodes ≡ 0 ∷ log

pub Owns-update :
    (at : ℕ → Enqueue) (i j n : ℕ) (e : Enqueue)
    → ((m : ℕ) → Owns e m → Owns (at i) m)
    → Owns (update at i e j) n
    → Owns (at j) n
Owns-update at i j n e o w = elim (Bool-cases (i == j)) [
  | inl y ↦ let s : i ≡ j = ground arith in subst (λ k. Owns (at k) n) s (o n (rw y at w))
  | inr d ↦ rw d at w
]

pub Owns-keep :
    (at : ℕ → Enqueue) (i j n : ℕ) (e : Enqueue)
    → (i ≡ j → Owns (at j) n → Owns e n)
    → Owns (at j) n
    → Owns (update at i e j) n
Owns-keep at i j n e o w = elim (Bool-cases (i == j)) [
  | inl y ↦ rw y (o (ground arith) w)
  | inr d ↦ rw d w
]

pub Place-update :
    (h : ℕ → Option Node) (l : List ℕ) (at : ℕ → Enqueue) (i j : ℕ) (e : Enqueue)
    → Place h l e
    → Place h l (at j)
    → Place h l (update at i e j)
Place-update h l at i j e p q = elim (Bool-cases (i == j)) [ inl y ↦ rw y p | inr d ↦ rw d q ]

append_nil : (l : List ℕ) → l ++ [] ≡ l
append_nil [] = refl
append_nil (x ∷ l) = ap (λ r. x ∷ r) (append_nil l)

-- An access that changes no node.
pub quiet-IsChained :
    (s : Enqueuing) (nodes log : List ℕ) (i : ℕ) (queue : Msqueue) (e : Enqueue)
    → IsChained s nodes log
    → queue.heap ≡ s.queue.heap
    → queue.head ≡ s.queue.head
    → InPtr queue.tail.ptr nodes
    → queue.fault ≡ false
    → Place s.queue.heap nodes e
    → SameOwns e (s.at i)
    → IsChained (record { queue = queue; value = s.value; at = update s.at i e }) nodes (log ++ [])
quiet-IsChained s nodes log i queue e c same_heap same_head tail fault place owns = record {
  linked = subst (λ h. Linked h nodes) (sym same_heap) c.linked;
  distinct = c.distinct;
  head_first = subst (λ t. IsFirst t.ptr nodes) (sym same_head) c.head_first;
  tail_in = tail;
  no_fault = fault;
  places = λ j.
      subst (λ h. Place h nodes (update s.at i e j)) (sym same_heap)
        (Place-update s.queue.heap nodes s.at i j e place (c.places j));
  apart = λ j k n a b.
      c.apart j k n (Owns-update s.at i j n e owns.0 a) (Owns-update s.at i k n e owns.0 b);
  mine = λ j n o. ap (λ h. value_at h n) same_heap ∙ c.mine j n (Owns-update s.at i j n e owns.0 o);
  kept = λ a node q. elim (c.kept a node (ap (λ h. h a) (sym same_heap) ∙ q)) [
    | inl m ↦ inl m
    | inr w ↦ inr (
      w.0,
      Owns-keep s.at i w.0 a e (λ y o. owns.1 a (subst (λ k. Owns (s.at k) a) (sym y) o)) w.1,
    )
  ];
  logged = ap (λ h. values h nodes) same_heap ∙ c.logged ∙ ap (λ l. 0 ∷ l) (sym (append_nil log));
}

pub Owns-allocated :
    (h : ℕ → Option Node) (l : List ℕ) (e : Enqueue) (m : ℕ)
    → Place h l e
    → Owns e m
    → Private h l m
Owns-allocated h l (start n) m p o = subst (Private h l) o p
Owns-allocated h l (has_tail n tail) m p o = subst (Private h l) o p.0
Owns-allocated h l (has_next n tail next) m p o = subst (Private h l) o p.0
Owns-allocated h l (linking n tail next) m p o = subst (Private h l) o p.0
Owns-allocated h l (swinging n tail) m p o = absurd o
Owns-allocated h l (helping n tail next) m p o = subst (Private h l) o p.0
Owns-allocated h l (failed n) m p o = subst (Private h l) o p
Owns-allocated h l enqueued m p o = absurd o
