-- ===== src/QueueBench/Tests.antt =====
-- A worker with memory for one node, and a benchmark of four trials.
use comp.Shared.{
  ℕ, ◌≡◌, refl, Option, some, none, length, negsuc, arith, inl, inr, Option-cases, [],
}
use mathlib.Core.Path.{subst}
use comp.MutexQueue.{Heap, mq_create, mq_destroy}
use comp.MutexQueue.Client.{Ran}
use comp.QueueBench.{worker_calls, trials_of, other_work_of, []}
use comp.QueueBench.Alone.{Paired, worker_alone-Paired}

arguments-clamped : (trials_of (negsuc 3) ≡ 1) × (other_work_of (negsuc 0) ≡ 0)
unfolding trials_of other_work_of
arguments-clamped = (refl, refl)

abbrev one_node : Heap → Option ℕ
one_node h = elim (h 0) [ none ↦ some 0 | some m ↦ none ]

one_node-unused : (h : Heap) (a : ℕ) → one_node h ≡ some a → h a ≡ none
one_node-unused h a e = elim (Option-cases (h 0)) [
  | inl z ↦
      let q : some 0 ≡ some a = rw (one_node, z) at e in
      let p : 0 ≡ a = ground arith in subst (λ b. h b ≡ none) p z
  | inr (m, z) ↦ absurd (ground arith)
]

worker_alone-Paired_example :
    (run : Ran one_node (mq_create (λ a. none)) [] (worker_calls 20 0)) × Paired one_node 20 0
      run.returns
    × ((r : Heap) × (mq_destroy (length run.cells) run.after ≡ some r) × ((b : ℕ) → r b ≡ none))
worker_alone-Paired_example = worker_alone-Paired one_node one_node-unused 20
