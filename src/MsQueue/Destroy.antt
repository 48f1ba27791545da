-- ===== src/MsQueue/Destroy.antt =====
-- `msq_destroy` of src/msqueue.c.
use comp.MsQueue.Standing.{Owns}
use mathlib.Core.Path.{subst}
use comp.MsQueue.Together.{enqueued-IsChained}
use comp.MsQueue.Enqueuers.{Enqueuing, Enqueued}
use comp.Shared.{
  [], ℕ, ◌≡◌, List, Option, length, some, update, none, Mem, ◌∷◌, ap, Option-cases, suc, Bool-cases,
  ◌∙◌, inl, inr, ◌==◌, arith,
}
use comp.MsQueue.{Node, destroy_from, msq_destroy, enqueued}
use comp.MsQueue.Chained.{Linked, Distinct, length-values, Linked-other}

-- What is left was there, and is none of the nodes.
abbrev Left : (ℕ → Option Node) → List ℕ → (ℕ → Option Node) → Type 0
Left h l g = (a : ℕ) (node : Node) → g a ≡ some node → (h a ≡ some node) × (¬ Mem a l)

freed-Left :
    (h : ℕ → Option Node) (n : ℕ) (l : List ℕ) (g : ℕ → Option Node)
    → Left (update h n none) l g
    → Left h (n ∷ l) g
freed-Left h n l g w a node e =
    let (e', out) = w a node e in
    elim (Bool-cases (n == a)) [
      | inl y ↦ absurd (ground (arith, rw y at e'))
      | inr d ↦ (rw d at e', λ m. elim m [ inl s ↦ absurd (ground arith) | inr r ↦ out r ])
    ]

destroy_from_step :
    (fuel : ℕ) (h : ℕ → Option Node) (p : Option ℕ) (n : ℕ) (node : Node)
    → p ≡ some n
    → h n ≡ some node
    → destroy_from (suc fuel) h p ≡ destroy_from fuel (update h n none) node.next.ptr
unfolding destroy_from
destroy_from_step fuel h p n node e f =
    ap (destroy_from (suc fuel) h) e
    ∙ ap
        (λ (o : Option Node). elim o as (λ _. Option (ℕ → Option Node)) [
          | none ↦ none
          | some node ↦ destroy_from fuel (update h n none) node.next.ptr
        ])
        f

destroy_from_end :
    (fuel : ℕ) (h : ℕ → Option Node) (p : Option ℕ) → p ≡ none → destroy_from fuel h p ≡ some h
unfolding destroy_from
destroy_from_end fuel h p e = ap (destroy_from fuel h) e

destroy_from-Linked :
    (h : ℕ → Option Node) (n : ℕ) (l : List ℕ) (p : Option ℕ)
    → p ≡ some n
    → Linked h (n ∷ l)
    → Distinct (n ∷ l)
    → (g : ℕ → Option Node) × (destroy_from (suc (length l)) h p ≡ some g) × Left h (n ∷ l) g
destroy_from-Linked h n [] p e k d = (
  update h n none,
  destroy_from_step 0 h p n k.0 e k.1 ∙ destroy_from_end 0 (update h n none) k.0.next.ptr k.2,
  freed-Left h n [] (update h n none) (λ a node q. (q, λ m. m)),
)
destroy_from-Linked h n (b ∷ l) p e k d =
    let (g, f, w) =
      destroy_from-Linked (update h n none) b l k.0.0.next.ptr k.0.2
        (Linked-other h (b ∷ l) n none d.0 k.1) d.1 in
    (g, destroy_from_step (suc (length l)) h p n k.0.0 e k.0.1 ∙ f, freed-Left h n (b ∷ l) g w)

empty_at : (g : ℕ → Option Node) (a : ℕ) → ((node : Node) → g a ≡ some node → ⊥) → g a ≡ none
empty_at g a never = elim (Option-cases (g a)) [ inl e ↦ e | inr e ↦ absurd (never e.0 e.1) ]

-- When every call that began has ended, msq_destroy ends within one round for each value that was
-- linked and one for the dummy, follows no pointer to memory that is not allocated, frees no node
-- twice, and leaves nothing allocated.
pub msq_destroy-enqueued :
    (log : List ℕ) (s : Enqueuing)
    → Enqueued log s
    → ((i : ℕ) → s.at i ≡ enqueued)
    → (g : ℕ → Option Node) × (msq_destroy (suc (length log)) s.queue ≡ some g)
      × ((a : ℕ) → g a ≡ none)
unfolding msq_destroy
msq_destroy-enqueued log s r idle =
    let (nodes, c) = enqueued-IsChained log s r in
    let (n, e, (rest, same)) = c.head_first in
    let (g, f, w) =
      destroy_from-Linked s.queue.heap n rest s.queue.head.ptr e
        (subst (Linked s.queue.heap) same c.linked) (subst Distinct same c.distinct) in
    let count : length rest ≡ length log =
      omega (arith, length-values s.queue.heap nodes, ap length c.logged, ap length same) in
    (
      g,
      subst (λ k. destroy_from (suc k) s.queue.heap s.queue.head.ptr ≡ some g) count f,
      λ a. empty_at g a (λ node q.
          let (there, out) = w a node q in
          elim (c.kept a node there) [
            | inl m ↦ out (subst (Mem a) same m)
            | inr o ↦ subst (λ x. Owns x a) (idle o.0) o.1
          ]),
    )
