-- ===== src/Pool/Gate.antt =====
-- The steps of the pool of src/workload.c at the gate, and the return of a worker.
use mathlib.Core.Path.{subst}
use comp.Shared.{
  ℕ, ◌≡◌, ◌≢◌, ◌<◌, true, none, some, [], sym, ap, ◌∙◌, arith, inl, inr, Bool-cases, ◌==◌, update,
  update_self,
}
use comp.TaskQueue.{Taskq, tq_pop, drained}
use comp.TaskQueue.Ring.{contents}
use comp.TaskQueue.Promise.{pop-drained, items-zero}
use comp.Workload.{Pathology}
use comp.Pool.{
  Station, Pool, queue_at, worker_queue, total_workers, looking, starting, holding, ending,
  returned,
}
use comp.Pool.Tally.{in_hand, counts}
use comp.Pool.Whole.{Inv, gate-keep, worker-Inv}

drained-empty : (q : Taskq) → tq_pop q ≡ drained → (contents q ≡ []) × (q.closed ≡ true)
drained-empty q h = let (z, c) = pop-drained q h in (items-zero q z, c)

module _ (path : Pathology) (pool : ℕ) where
  abbrev n : ℕ
  n = total_workers path pool

  module _ (s : Pool) (c : Inv path pool s) where
    -- A worker at `st` is not at another place.
    pub elsewhere : (i : ℕ) (st other : Station) → s.at i ≡ st → st ≢ other → s.at i ≢ other
    elsewhere i st other e ne h = ne (sym e ∙ h)

    pub leave-Inv :
        (i : ℕ)
        → i < n
        → s.at i ≡ looking
        → tq_pop (queue_at s (worker_queue path pool i)) ≡ drained
        → Inv path pool (record s { at = update s.at i returned })
    leave-Inv i lt e d =
        worker-Inv path pool s i returned s.gate c lt
          (elsewhere i looking returned e (λ h. absurd (ground arith)))
          (λ p. ap (in_hand p) (sym e)) (ap counts (sym e))
          (λ r. drained-empty (queue_at s (worker_queue path pool i)) d)
          (gate-keep path pool n s.gate s.at i returned c.gate_ok
            (λ t. elsewhere i looking (holding t) e (λ h. absurd (ground arith)))
            (λ t h. absurd (ground arith)))

    pub hold-Inv :
        (i t : ℕ)
        → i < n
        → s.at i ≡ starting t
        → s.gate ≡ none
        → Inv path pool (record s { gate = some i; at = update s.at i (holding t) })
    hold-Inv i t lt e free =
        worker-Inv path pool s i (holding t) (some i) c lt
          (elsewhere i (starting t) returned e (λ h. absurd (ground arith)))
          (λ p. ap (in_hand p) (sym e)) (ap counts (sym e)) (λ r. absurd (ground arith))
          (
            (λ j h.
                let same : i ≡ j = ground arith in
                (
                  subst (λ k. k < n) same lt,
                  (
                    t,
                    subst (λ k. update s.at i (holding t) k ≡ holding t) same
                        (update_self s.at i (holding t)),
                  ),
                )),
            (λ j u h. elim (Bool-cases (i == j)) [
              | inl y ↦ let same : i ≡ j = ground arith in ap some same
              | inr d ↦
                  let z : none ≡ some j = sym free ∙ c.gate_ok.1 j u (rw d at h) in
                  absurd (ground arith)
            ]),
          )

    pub let_go-Inv :
        (i t : ℕ)
        → i < n
        → s.at i ≡ holding t
        → Inv path pool (record s { gate = none; at = update s.at i (ending t) })
    let_go-Inv i t lt e =
        worker-Inv path pool s i (ending t) none c lt
          (elsewhere i (holding t) returned e (λ h. absurd (ground arith)))
          (λ p. ap (in_hand p) (sym e)) (ap counts (sym e)) (λ r. absurd (ground arith))
          (
            (λ j h. absurd (ground arith)),
            (λ j u h. elim (Bool-cases (i == j)) [
              | inl y ↦ absurd (ground (arith, rw y at h))
              | inr d ↦
                  let z : some i ≡ some j = sym (c.gate_ok.1 i t e) ∙ c.gate_ok.1 j u (rw d at h) in
                  absurd (ground arith)
            ]),
          )
