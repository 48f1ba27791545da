-- ===== src/QueueBench/Alone.antt =====
-- A worker of src/bench.c of 03-lockfree-queue that has the mutex queue for itself.
use comp.Shared.{
  ℕ, zero, suc, ◌≡◌, refl, ◌⊎◌, inl, inr, true, false, Option, none, some, List, [], ◌∷◌, length,
}
use comp.MutexQueue.{Mqueue, Heap, mq_create, mq_destroy, Return, stored, taken}
use comp.MutexQueue.Client.{Fifo, done, put, full, take, empty, values, Ran, client_run}
use comp.QueueBench.{worker_calls}

module _ (malloc : Heap → Option ℕ) where
  -- Each dequeue gives the value of the enqueue before it, or nothing where malloc gave no memory.
  abbrev pub Paired : ℕ → ℕ → List Return → Type 0
  Paired zero i [] = Unit
  Paired (suc n) i (r ∷ (s ∷ rs)) =
      ((h : Heap) × (((r ≡ stored true) × (s ≡ taken (some i)) × ((a : ℕ) × (malloc h ≡ some a)))
          ⊎ ((r ≡ stored false) × (s ≡ taken none) × (malloc h ≡ none))))
      × Paired n (suc i) rs
  Paired n i rs = ⊥

  Fifo-Paired :
      (n i : ℕ) (rs : List Return) (ys : List ℕ) (q q2 : Mqueue)
      → Fifo malloc q [] (worker_calls n i) rs q2 ys
      → Paired n i rs × (ys ≡ [])
  unfolding worker_calls
  Fifo-Paired zero i [] ys q q2 done = (tt, refl)
  Fifo-Paired zero i (r ∷ rs) ys q q2 h = elim h [ ]
  Fifo-Paired (suc n) i [] ys q q2 h = elim h [ ]
  Fifo-Paired (suc n) i (r ∷ []) ys q q2 (put v a m e h) = elim h [ ]
  Fifo-Paired (suc n) i (r ∷ []) ys q q2 (full v m e h) = elim h [ ]
  Fifo-Paired (suc n) i (r ∷ (s ∷ rs)) ys q q2 (put v a m e (take {q1 = q1} x f h)) =
      let (p, z) = Fifo-Paired n (suc i) rs ys q1 q2 h in
      (((q.heap, inl (refl, refl, (a, m))), p), z)
  Fifo-Paired (suc n) i (r ∷ (s ∷ rs)) ys q q2 (full v m e (empty f h)) =
      let (p, z) = Fifo-Paired n (suc i) rs ys q q2 h in (((q.heap, inr (refl, refl, m)), p), z)

-- With a malloc that gives unused memory or none, a worker that has the mutex queue for itself
-- makes all its calls, and each dequeue gives it the value that it has just put in, or nothing where
-- malloc gave no memory for it; mq_destroy then frees all that was allocated.
pub worker_alone-Paired :
    (malloc : Heap → Option ℕ)
    → ((h : Heap) (a : ℕ) → malloc h ≡ some a → h a ≡ none)
    → (ops : ℕ)
    → (run : Ran malloc (mq_create (λ a. none)) [] (worker_calls ops 0)) × Paired malloc ops 0
        run.returns
      × ((r : Heap) × (mq_destroy (length run.cells) run.after ≡ some r) × ((b : ℕ) → r b ≡ none))
worker_alone-Paired malloc unused ops =
    let all = client_run malloc unused (worker_calls ops 0) in
    (
      all.0,
      (Fifo-Paired malloc ops 0 all.0.returns (values all.0.cells) (mq_create (λ a. none))
          all.0.after all.0.fifo).0,
      all.1,
    )
