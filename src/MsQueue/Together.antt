-- ===== src/MsQueue/Together.antt =====
-- What any number of threads in `msq_enqueue` of src/msqueue.c keep.
use comp.Shared.{
  ℕ, ap, refl, sym, inl, inr, Option, none, some, List, [], ◌∷◌, update_self, ◌==◌, arith,
  Bool-cases, Bool, add64, if◌then◌else◌,
}
use mathlib.Core.Path.{subst}
use comp.MsQueue.{
  Node, Msqueue, same_ptr, same_tagged, Enqueue, start, has_tail, has_next, linking, swinging,
  helping, failed, enqueued, enqueue_at, Bool, faulty, add64, msq_create, store_next,
}
use comp.MsQueue.Enqueuers.{Enqueuing, Enqueued, created, called, moved}
use comp.MsQueue.Chained.{Linked-member}
use comp.MsQueue.Standing.{Place, IsChained, quiet-IsChained, SameOwns}
use comp.MsQueue.Linking.{called-IsChained}
use comp.MsQueue.Swings.{Next, deref_at, cas-IsChained, link-IsChained}

step-IsChained :
    (s : Enqueuing) (nodes log : List ℕ) (i : ℕ) (spurious : Bool) (e : Enqueue)
    → IsChained s nodes log
    → Place s.queue.heap nodes e
    → SameOwns e (s.at i)
    → Next s i e log (enqueue_at spurious s.queue e)
unfolding enqueue_at
step-IsChained s nodes log i spurious (start n) c p o = (
  nodes,
  quiet-IsChained s nodes log i s.queue (has_tail n s.queue.tail) c refl refl c.tail_in c.no_fault
      (p, c.tail_in) o,
)
step-IsChained s nodes log i spurious (has_tail n tail) c p o =
    let (node, h, next) = Linked-member s.queue.heap nodes p.1.0 c.linked p.1.2 in
    let d = deref_at s.queue tail.ptr p.1.0 node p.1.1 h in
    subst (Next s i (has_tail n tail) log)
      (ap
        (λ (x : Option Node). elim x as (λ _. Msqueue × Enqueue) [
          | none ↦ (faulty s.queue, has_tail n tail)
          | some node ↦ (s.queue, has_next n tail node.next)
        ])
        (sym d))
      (
        nodes,
        quiet-IsChained s nodes log i s.queue (has_next n tail node.next) c refl refl c.tail_in
            c.no_fault (p.0, p.1, next) o,
      )
step-IsChained s nodes log i spurious (has_next n tail next) c p o =
    let quiet = λ (e : Enqueue) (pl : Place s.queue.heap nodes e) (w : SameOwns e (s.at i)).
      quiet-IsChained s nodes log i s.queue e c refl refl c.tail_in c.no_fault pl w in
    elim (Bool-cases (same_ptr tail.ptr s.queue.tail.ptr)) [
      | inr y ↦ rw y (nodes, quiet (start n) p.0 o)
      | inl y ↦ rw y (elim p.2 [
        | inl z ↦
            subst
              (λ q.
                Next s i (has_next n tail next) log
                  (s.queue, elim q [ none ↦ linking n tail next | some m ↦ helping n tail next ]))
              (sym z) (nodes, quiet (linking n tail next) (p.0, p.1, z) o)
        | inr m ↦
            subst
              (λ q.
                Next s i (has_next n tail next) log
                  (s.queue, elim q [ none ↦ linking n tail next | some m ↦ helping n tail next ]))
              (sym m.1) (nodes, quiet (helping n tail next) (p.0, m) o)
      ])
    ]
step-IsChained s nodes log i spurious (linking n tail next) c p o =
    let (node, h, z) = Linked-member s.queue.heap nodes p.1.0 c.linked p.1.2 in
    let d = deref_at s.queue tail.ptr p.1.0 node p.1.1 h in
    subst (Next s i (linking n tail next) log)
      (ap
        (λ (x : Option Node). elim x as (λ _. Msqueue × Enqueue) [
          | none ↦ (faulty s.queue, failed n)
          | some node ↦
              if spurious
              then (s.queue, failed n)
              else if same_tagged node.next next
              then (
                store_next s.queue tail.ptr node
                    (record { ptr = some n; count = add64 next.count 1 }),
                swinging n tail,
              )
              else (s.queue, failed n)
        ])
        (sym d))
      (link-IsChained s nodes log i n spurious tail next node c p o d)
step-IsChained s nodes log i spurious (swinging n tail) c p o = (
  nodes,
  cas-IsChained s nodes log i tail (record { ptr = some n; count = add64 tail.count 1 }) enqueued c
      (n, refl, p) tt o,
)
step-IsChained s nodes log i spurious (helping n tail next) c p o = (
  nodes,
  cas-IsChained s nodes log i tail (record { ptr = next.ptr; count = add64 tail.count 1 }) (start n)
      c p.1 p.0 o,
)
step-IsChained s nodes log i spurious (failed n) c p o = (
  nodes,
  quiet-IsChained s nodes log i (record s.queue { retries = add64 s.queue.retries 1 }) (start n) c
      refl refl c.tail_in c.no_fault p o,
)
step-IsChained s nodes log i spurious enqueued c p o =
    (nodes, quiet-IsChained s nodes log i s.queue enqueued c refl refl c.tail_in c.no_fault tt o)

created-IsChained :
    (dummy : ℕ)
    → IsChained
        (record { queue = msq_create (λ a. none) dummy; value = λ i. 0; at = λ i. enqueued })
        (dummy ∷ [])
        []
unfolding msq_create
created-IsChained dummy =
    let d : Node = record { value = 0; next = record { ptr = none; count = 0 } } in
    let e = update_self {A = Option Node} (λ a. none) dummy (some d) in
    record {
      linked = (d, e, refl);
      distinct = ((λ m. m), tt);
      head_first = (dummy, refl, ([], refl));
      tail_in = (dummy, refl, inl refl);
      no_fault = refl;
      places = λ i. tt;
      apart = λ i j n a b. absurd a;
      mine = λ i n o. absurd o;
      kept = λ a node q. elim (Bool-cases (dummy == a)) [
        | inl y ↦ inl (inl (ground arith))
        | inr n ↦ absurd (ground (arith, rw n at q))
      ];
      logged = ap (λ o. elim o [ none ↦ 0 | some x ↦ x.value ] ∷ []) e;
    }

-- From msq_create on, whatever any number of threads in msq_enqueue do, and whatever weak compare-
-- and-swaps fail, no thread follows a pointer to memory that is not allocated, and the nodes from
-- one to the next, the last pointing to none, hold after the dummy exactly the values of the calls
-- whose nodes were linked, in that order; the head points to the first of them, the tail to one of
-- them, and every other node that is allocated is that of a call under way.
pub enqueued-IsChained :
    (log : List ℕ) (s : Enqueuing) → Enqueued log s → (nodes : List ℕ) × IsChained s nodes log
enqueued-IsChained log s (created dummy) = (dummy ∷ [], created-IsChained dummy)
enqueued-IsChained log s (called i n value r free_thread unused) =
    let (nodes, c) = enqueued-IsChained _ _ r in
    (nodes, called-IsChained _ nodes _ i n value c free_thread unused)
enqueued-IsChained log s (moved {log = before} {s = old} i spurious r) =
    let (nodes, c) = enqueued-IsChained _ _ r in
    step-IsChained old nodes before i spurious (old.at i) c (c.places i) ((λ m w. w), (λ m w. w))
