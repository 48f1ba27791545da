-- ===== src/MsQueue/Swings.antt =====
-- What the compare-and-swaps of `msq_enqueue` of src/msqueue.c keep, whoever makes them.
use comp.Shared.{
  ℕ, ◌≡◌, ◌∙◌, ap, refl, sym, ◌⊎◌, inl, inr, true, Option, none, some, List, [], ◌∷◌, ◌++◌, update,
  ◌==◌, arith, Bool-cases, Bool, add64, ◌&&◌, if◌then◌else◌,
}
use mathlib.Core.Path.{subst}
use comp.MsQueue.{
  Tagged, Node, Msqueue, same_ptr, same_tagged, cas_tail, Enqueue, linking, swinging, failed, deref,
  Bool, add64, store_next,
}
use comp.MsQueue.Enqueuers.{Enqueuing, links_with}
use comp.MsQueue.Chained.{InPtr}
use comp.MsQueue.Standing.{Place, IsChained, quiet-IsChained, SameOwns}
use comp.MsQueue.Linking.{linked-IsChained}

abbrev pub Next : Enqueuing → ℕ → Enqueue → List ℕ → Msqueue × Enqueue → Type 0
Next s i e log x =
    (nodes : List ℕ) × IsChained (record { queue = x.0; value = s.value; at = update s.at i x.1 })
      nodes (log ++ links_with (s.value i) e x.1)

cas_tail_cases :
    (q : Msqueue) (old new : Tagged)
    → (cas_tail q old new ≡ q) ⊎ (cas_tail q old new ≡ record q { tail = new })
cas_tail_cases q old new = elim (Bool-cases (same_tagged q.tail old)) [
  | inl y ↦ inr (rw y refl)
  | inr n ↦ inl (rw n refl)
]

same_ptr-none : (p : Option ℕ) → same_ptr p none ≡ true → p ≡ none
same_ptr-none none h = refl
same_ptr-none (some x) h = absurd (ground arith)

pub deref_at :
    (q : Msqueue) (p : Option ℕ) (t : ℕ) (node : Node)
    → p ≡ some t
    → q.heap t ≡ some node
    → deref q p ≡ some node
deref_at q p t node e h = ap (deref q) e ∙ h

pub cas-IsChained :
    (s : Enqueuing) (nodes log : List ℕ) (i : ℕ) (old new : Tagged) (e : Enqueue)
    → IsChained s nodes log
    → InPtr new.ptr nodes
    → Place s.queue.heap nodes e
    → SameOwns e (s.at i)
    → IsChained
        (record { queue = cas_tail s.queue old new; value = s.value; at = update s.at i e })
        nodes
        (log ++ [])
cas-IsChained s nodes log i old new e c inside place o = elim (cas_tail_cases s.queue old new) [
  | inl x ↦
      subst
        (λ q.
          IsChained (record { queue = q; value = s.value; at = update s.at i e }) nodes (log ++ []))
        (sym x) (quiet-IsChained s nodes log i s.queue e c refl refl c.tail_in c.no_fault place o)
  | inr x ↦
      subst
        (λ q.
          IsChained (record { queue = q; value = s.value; at = update s.at i e }) nodes (log ++ []))
        (sym x)
        (quiet-IsChained s nodes log i (record s.queue { tail = new }) e c refl refl inside
          c.no_fault place o)
]

and_left : (a b : Bool) → (a && b) ≡ true → a ≡ true
and_left a b h = ground arith

pub link-IsChained :
    (s : Enqueuing) (nodes log : List ℕ) (i n : ℕ) (spurious : Bool) (tail next : Tagged)
    (node : Node)
    → IsChained s nodes log
    → Place s.queue.heap nodes (linking n tail next)
    → SameOwns (linking n tail next) (s.at i)
    → deref s.queue tail.ptr ≡ some node
    → Next s i (linking n tail next) log (
        if spurious
        then (s.queue, failed n)
        else if same_tagged node.next next
        then (
          store_next s.queue tail.ptr node (record { ptr = some n; count = add64 next.count 1 }),
          swinging n tail,
        )
        else (s.queue, failed n))
link-IsChained s nodes log i n spurious tail next node c p o d =
    let t = p.1.0 in
    let at : s.queue.heap t ≡ some node = sym (ap (deref s.queue) p.1.1) ∙ d in
    let fails : Next s i (linking n tail next) log (s.queue, failed n) = (
      nodes,
      quiet-IsChained s nodes log i s.queue (failed n) c refl refl c.tail_in c.no_fault p.0 o,
    ) in
    elim (Bool-cases spurious) [
      | inl y ↦ rw y fails
      | inr y ↦ elim (Bool-cases (same_tagged node.next next)) [
        | inr z ↦ rw (y, z) fails
        | inl z ↦
            let free : node.next.ptr ≡ none = same_ptr-none node.next.ptr (
              ap (same_ptr node.next.ptr) (sym p.2)
              ∙ and_left (same_ptr node.next.ptr next.ptr) (node.next.count == next.count) z) in
            rw (y, z)
              (subst
                (λ q. Next s i (linking n tail next) log (
                  store_next s.queue q node (record { ptr = some n; count = add64 next.count 1 }),
                  swinging n tail,
                ))
                (sym p.1.1)
                (
                  nodes ++ (n ∷ []),
                  linked-IsChained s nodes log i t n (add64 next.count 1) tail node c p.0
                      (o.0 n refl) p.1.2 at free,
                ))
      ]
    ]
