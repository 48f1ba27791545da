-- ===== src/Pool/Whole.antt =====
-- What holds of the pool of src/workload.c between two steps.
use mathlib.Core.Path.{subst}
use comp.Shared.{
  ℕ, ◌≡◌, ◌≢◌, ◌<◌, Bool, true, false, Option, some, List, [], length, ap, arith, inl, inr, ◌+◌,
  update, ◌∙◌, Bool-cases, update_ne, ◌==◌, ◌≤◌,
}
use comp.TaskQueue.Ring.{Ok, contents}
use comp.Analyze.Order.{count}
use comp.Workload.{Pathology, dispatch_one, dispatch_from, wl_tasks}
use comp.Pool.{
  Station, Main, dispatching, closing, joining, Pool, queue_at, worker_queue, total_workers,
  holding, returned, update,
}
use comp.Pool.Tally.{tally, tally-update, in_hand, counts}

abbrev pub todo : Main → List ℕ
todo (dispatching l) = l
todo closing = []
todo (joining k) = []

abbrev pub closed_first : Main → Bool
closed_first (dispatching l) = false
closed_first closing = true
closed_first (joining k) = true

abbrev pub closed_second : Main → Bool
closed_second (dispatching l) = false
closed_second closing = false
closed_second (joining k) = true

-- Exactly the worker that is named sleeps with the gate held.
abbrev pub GateOk : ℕ → Option ℕ → (ℕ → Station) → Type 0
GateOk n gate at =
    ((j : ℕ) → gate ≡ some j → (j < n) × ((t : ℕ) × (at j ≡ holding t)))
    × ((j t : ℕ) → at j ≡ holding t → gate ≡ some j)

module _ (path : Pathology) (pool : ℕ) where
  pub record Inv (s : Pool) : Type 0 where
    pub ok0 : Ok s.q0
    pub ok1 : Ok s.q1
    pub sum :
        (p : ℕ → Bool)
        → count p (todo s.main)
            + count p (contents s.q0)
            + count p (contents s.q1)
            + tally (in_hand p) s.at (total_workers path pool)
            + count p s.ended
          ≡ count p (dispatch_from path wl_tasks 0)
    pub counted : s.completed + tally counts s.at (total_workers path pool) ≡ length s.ended
    pub first : s.q0.closed ≡ closed_first s.main
    pub second : s.q1.closed ≡ closed_second s.main
    pub empty_for :
        (i : ℕ)
        → s.at i ≡ returned
        → (contents (queue_at s (worker_queue path pool i)) ≡ [])
          × ((queue_at s (worker_queue path pool i)).closed ≡ true)
    pub one_queue : ((t : ℕ) → (dispatch_one path t).queue ≡ 0) → contents s.q1 ≡ []
    pub joined : (k : ℕ) → s.main ≡ joining k → (i : ℕ) → i < k → s.at i ≡ returned
    pub in_range : (k : ℕ) → s.main ≡ joining k → k ≤ total_workers path pool
    pub gate_ok : GateOk (total_workers path pool) s.gate s.at

  pub gate-keep :
      (n : ℕ) (gate : Option ℕ) (at : ℕ → Station) (i : ℕ) (st : Station)
      → GateOk n gate at
      → ((t : ℕ) → at i ≢ holding t)
      → ((t : ℕ) → st ≢ holding t)
      → GateOk n gate (update at i st)
  gate-keep n gate at i st g was is = (
    (λ j e.
        let (lt, (t, h)) = g.0 j e in
        let ne : i ≢ j = λ s. was t (ap at s ∙ h) in (lt, (t, update_ne at st ne ∙ h))),
    (λ j t h. elim (Bool-cases (i == j)) [
      | inl y ↦ absurd (is t (rw y at h))
      | inr d ↦ g.1 j t (rw d at h)
    ]),
  )

  -- A worker moves on with what it has in hand.
  pub worker-Inv :
      (s : Pool) (i : ℕ) (st : Station) (gate : Option ℕ)
      → Inv s
      → i < total_workers path pool
      → s.at i ≢ returned
      → ((p : ℕ → Bool) → in_hand p st ≡ in_hand p (s.at i))
      → counts st ≡ counts (s.at i)
      → (st ≡ returned
          → (contents (queue_at s (worker_queue path pool i)) ≡ [])
            × ((queue_at s (worker_queue path pool i)).closed ≡ true))
      → GateOk (total_workers path pool) gate (update s.at i st)
      → Inv (record s { gate = gate; at = update s.at i st })
  worker-Inv s i st gate c lt stays same same_counts leaves g = record {
    ok0 = c.ok0;
    ok1 = c.ok1;
    sum = λ p.
        omega
          (arith, c.sum p, same p, tally-update (in_hand p) s.at i (total_workers path pool) st lt);
    counted =
        omega (
          arith,
          c.counted,
          same_counts,
          tally-update counts s.at i (total_workers path pool) st lt,
        );
    first = c.first;
    second = c.second;
    empty_for = λ j e. elim (Bool-cases (i == j)) [
      | inl y ↦
          let same : i ≡ j = ground arith in
          subst
            (λ k.
              (contents (queue_at s (worker_queue path pool k)) ≡ [])
              × ((queue_at s (worker_queue path pool k)).closed ≡ true))
            same (leaves (rw y at e))
      | inr d ↦ c.empty_for j (rw d at e)
    ];
    one_queue = c.one_queue;
    joined = λ k e j below.
        let done = c.joined k e j below in
        let ne : i ≢ j = λ s'. stays (ap s.at s' ∙ done) in update_ne s.at st ne ∙ done;
    in_range = c.in_range;
    gate_ok = g;
  }
