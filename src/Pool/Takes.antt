-- ===== src/Pool/Takes.antt =====
-- The steps of the pool of src/workload.c that pop a task.
use comp.Shared.{
  ℕ, ◌≡◌, ◌≢◌, ◌<◌, Bool, [], ◌∷◌, sym, ap, ◌∙◌, arith, inl, inr, Bool-cases, ◌==◌, update,
  update_ne, ◌+◌,
}
use comp.TaskQueue.{Taskq, tq_pop, popped}
use comp.Workload.{Pathology}
use comp.Pool.{
  joining, Pool, queue_at, set_queue, worker_queue, total_workers, looking, passing, returned,
  holding,
}
use comp.Pool.Tally.{tally, tally-update, in_hand, counts}
use comp.Pool.Whole.{Inv, gate-keep, GateOk}
use comp.Pool.Moving.{pop-Moved, pop-closed, pop-some, Moved-count, count-cons}

module _ (path : Pathology) (pool : ℕ) (s : Pool) (c : Inv path pool s) where
  abbrev n : ℕ
  n = total_workers path pool

  module _ (i t : ℕ) (q : Taskq) (lt : i < n) (here : s.at i ≡ looking) where
    still : (k : ℕ) → s.main ≡ joining k → (j : ℕ) → j < k → update s.at i (passing t) j ≡ returned
    still k e j below =
        let done = c.joined k e j below in
        let ne : i ≢ j = λ same.
          let z : looking ≡ returned = sym here ∙ ap s.at same ∙ done in absurd (ground arith) in
        update_ne s.at (passing t) ne ∙ done

    not_me : (j : ℕ) → update s.at i (passing t) j ≡ returned → s.at j ≡ returned
    not_me j r = elim (Bool-cases (i == j)) [
      | inl y ↦ absurd (ground (arith, rw y at r))
      | inr d ↦ rw d at r
    ]

    gate : GateOk n s.gate (update s.at i (passing t))
    gate =
        gate-keep path pool n s.gate s.at i (passing t) c.gate_ok
          (λ u h. let z : looking ≡ holding u = sym here ∙ h in absurd (ground arith))
          (λ u h. absurd (ground arith))

    with_task :
        (p : ℕ → Bool)
        → tally (in_hand p) (update s.at i (passing t)) n
          ≡ tally (in_hand p) s.at n + in_hand p (passing t)
    with_task p =
        omega (arith, tally-update (in_hand p) s.at i n (passing t) lt, ap (in_hand p) here)

    no_counts : tally counts (update s.at i (passing t)) n ≡ tally counts s.at n
    no_counts = omega (arith, tally-update counts s.at i n (passing t) lt, ap counts here)

    take-first :
        tq_pop s.q0 ≡ popped t q
        → Inv path pool (record s { q0 = q; at = update s.at i (passing t) })
    take-first h =
        let m = pop-Moved s.q0 q t c.ok0 h in
        record {
          ok0 = m.ok;
          ok1 = c.ok1;
          sum = λ p.
              omega (
                arith,
                c.sum p,
                Moved-count s.q0 q (t ∷ []) [] p m,
                count-cons p t [],
                with_task p,
              );
          counted = omega (arith, c.counted, no_counts);
          first = pop-closed s.q0 q t h ∙ c.first;
          second = c.second;
          empty_for = λ j r.
              let old = c.empty_for j (not_me j r) in
              elim (Bool-cases (worker_queue path pool j == 0)) [
                | inl y ↦ absurd (pop-some s.q0 q t c.ok0 h (rw y at old).0)
                | inr d ↦ rw d (rw d at old)
              ];
          one_queue = c.one_queue;
          joined = still;
          in_range = c.in_range;
          gate_ok = gate;
        }

    take-second :
        tq_pop s.q1 ≡ popped t q
        → Inv path pool (record s { q1 = q; at = update s.at i (passing t) })
    take-second h =
        let m = pop-Moved s.q1 q t c.ok1 h in
        record {
          ok0 = c.ok0;
          ok1 = m.ok;
          sum = λ p.
              omega (
                arith,
                c.sum p,
                Moved-count s.q1 q (t ∷ []) [] p m,
                count-cons p t [],
                with_task p,
              );
          counted = omega (arith, c.counted, no_counts);
          first = c.first;
          second = pop-closed s.q1 q t h ∙ c.second;
          empty_for = λ j r.
              let old = c.empty_for j (not_me j r) in
              elim (Bool-cases (worker_queue path pool j == 0)) [
                | inl y ↦ rw y (rw y at old)
                | inr d ↦ absurd (pop-some s.q1 q t c.ok1 h (rw d at old).0)
              ];
          one_queue = λ all. absurd (pop-some s.q1 q t c.ok1 h (c.one_queue all));
          joined = still;
          in_range = c.in_range;
          gate_ok = gate;
        }

    pub take-Inv :
        tq_pop (queue_at s (worker_queue path pool i)) ≡ popped t q
        → Inv path pool
            (record (set_queue s (worker_queue path pool i) q) { at = update s.at i (passing t) })
    take-Inv h = elim (Bool-cases (worker_queue path pool i == 0)) [
      | inl y ↦ rw y (take-first (rw y at h))
      | inr d ↦ rw d (take-second (rw d at h))
    ]
