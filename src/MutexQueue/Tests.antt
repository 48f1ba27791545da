-- ===== src/MutexQueue/Tests.antt =====
-- Runs of the mutex queue with memory for two nodes.
use comp.Shared.{
  ℕ, ◌≡◌, refl, Option, none, some, true, false, List, [], ◌∷◌, Option-cases, inl, inr, arith,
}
use mathlib.Core.Path.{subst}
use comp.MutexQueue.{
  Heap, Mqueue, mq_create, Call, enqueue, dequeue, Return, stored, taken, serve_all,
}
use comp.MutexQueue.Refine.{mq_create-IsQueue}
use comp.MutexQueue.Client.{Ran, serve_all-Fifo}

abbrev two_nodes : Heap → Option ℕ
two_nodes h = elim (h 0) [ none ↦ some 0 | some m ↦ elim (h 1) [ none ↦ some 1 | some n ↦ none ] ]

two_nodes-unused : (h : Heap) (a : ℕ) → two_nodes h ≡ some a → h a ≡ none
two_nodes-unused h a e = elim (Option-cases (h 0)) [
  | inl z ↦
      let q : some 0 ≡ some a = rw (two_nodes, z) at e in
      let p : 0 ≡ a = ground arith in subst (λ b. h b ≡ none) p z
  | inr (m, z) ↦ elim (Option-cases (h 1)) [
    | inl y ↦
        let q : some 1 ≡ some a = rw (two_nodes, z, y) at e in
        let p : 1 ≡ a = ground arith in subst (λ b. h b ≡ none) p y
    | inr (n, y) ↦ absurd (ground arith)
  ]
]

abbrev new_queue : Mqueue
new_queue = record { heap = λ a. none; head = none; tail = none }

abbrev calls : List Call
calls =
    enqueue 7
    ∷ (enqueue 8 ∷ (enqueue 9 ∷ (dequeue ∷ (enqueue 9 ∷ (dequeue ∷ (dequeue ∷ (dequeue ∷ [])))))))

abbrev returns_of : Option (List Return × Mqueue) → List Return
returns_of none = []
returns_of (some x) = x.0

calls-returns :
    returns_of (serve_all two_nodes new_queue calls)
    ≡ stored true
      ∷ (stored true
          ∷ (stored false
              ∷ (taken (some 7)
                  ∷ (stored true ∷ (taken (some 8) ∷ (taken (some 9) ∷ (taken none ∷ [])))))))
unfolding serve_all
calls-returns = refl

serve_all-Fifo_example : Ran two_nodes new_queue [] calls
unfolding mq_create
serve_all-Fifo_example =
    serve_all-Fifo two_nodes two_nodes-unused new_queue [] calls mq_create-IsQueue
