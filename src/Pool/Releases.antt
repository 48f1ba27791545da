-- ===== src/Pool/Releases.antt =====
-- The steps of the pool of src/workload.c that push a task.
use comp.Shared.{
  ℕ, ◌≡◌, ◌≢◌, true, false, some, List, [], ◌∷◌, ap, ◌∙◌, arith, inl, inr, Bool-cases, ◌==◌,
}
use comp.TaskQueue.{Taskq, tq_push}
use comp.Analyze.Order.{count}
use comp.Workload.{Pathology, dispatch_one}
use comp.Pool.{dispatching, Pool, queue_at, set_queue, worker_queue}
use comp.Pool.Whole.{Inv, todo, closed_first, closed_second}
use comp.Pool.Moving.{push-Moved, push-closed, Moved-count, count-cons}

module _ (path : Pathology) (pool : ℕ) (s : Pool) (c : Inv path pool s) where
  -- A closed queue is not one that the dispatcher still serves.
  open_first : (t : ℕ) (l : List ℕ) → s.main ≡ dispatching (t ∷ l) → s.q0.closed ≢ true
  open_first t l e h = let f = c.first ∙ ap closed_first e in absurd (ground arith)

  open_second : (t : ℕ) (l : List ℕ) → s.main ≡ dispatching (t ∷ l) → s.q1.closed ≢ true
  open_second t l e h = let f = c.second ∙ ap closed_second e in absurd (ground arith)

  release-first :
      (t : ℕ) (l : List ℕ) (q : Taskq)
      → s.main ≡ dispatching (t ∷ l)
      → tq_push s.q0 t ≡ some q
      → Inv path pool (record s { q0 = q; main = dispatching l })
  release-first t l q e h =
      let m = push-Moved s.q0 q t c.ok0 h in
      record {
        ok0 = m.ok;
        ok1 = c.ok1;
        sum = λ p. omega (
          arith,
          c.sum p,
          Moved-count s.q0 q [] (t ∷ []) p m,
          count-cons p t l,
          count-cons p t [],
          ap (λ x. count p (todo x)) e,
        );
        counted = c.counted;
        first = push-closed s.q0 q t h ∙ c.first ∙ ap closed_first e;
        second = c.second ∙ ap closed_second e;
        empty_for = λ j r.
            let old = c.empty_for j r in
            elim (Bool-cases (worker_queue path pool j == 0)) [
              | inl y ↦ absurd (open_first t l e (rw y at old).1)
              | inr d ↦ rw d (rw d at old)
            ];
        one_queue = c.one_queue;
        joined = λ k j. absurd (ground arith);
        in_range = λ k j. absurd (ground arith);
        gate_ok = c.gate_ok;
      }

  release-second :
      (t : ℕ) (l : List ℕ) (q : Taskq)
      → s.main ≡ dispatching (t ∷ l)
      → ((dispatch_one path t).queue == 0) ≡ false
      → tq_push s.q1 t ≡ some q
      → Inv path pool (record s { q1 = q; main = dispatching l })
  release-second t l q e other h =
      let m = push-Moved s.q1 q t c.ok1 h in
      record {
        ok0 = c.ok0;
        ok1 = m.ok;
        sum = λ p. omega (
          arith,
          c.sum p,
          Moved-count s.q1 q [] (t ∷ []) p m,
          count-cons p t l,
          count-cons p t [],
          ap (λ x. count p (todo x)) e,
        );
        counted = c.counted;
        first = c.first ∙ ap closed_first e;
        second = push-closed s.q1 q t h ∙ c.second ∙ ap closed_second e;
        empty_for = λ j r.
            let old = c.empty_for j r in
            elim (Bool-cases (worker_queue path pool j == 0)) [
              | inl y ↦ rw y (rw y at old)
              | inr d ↦ absurd (open_second t l e (rw d at old).1)
            ];
        one_queue = λ all. let z = all t in absurd (ground arith);
        joined = λ k j. absurd (ground arith);
        in_range = λ k j. absurd (ground arith);
        gate_ok = c.gate_ok;
      }

  pub release-Inv :
      (t : ℕ) (l : List ℕ) (q : Taskq)
      → s.main ≡ dispatching (t ∷ l)
      → tq_push (queue_at s (dispatch_one path t).queue) t ≡ some q
      → Inv path pool (record (set_queue s (dispatch_one path t).queue q) { main = dispatching l })
  release-Inv t l q e h = elim (Bool-cases ((dispatch_one path t).queue == 0)) [
    | inl y ↦ rw y (release-first t l q e (rw y at h))
    | inr d ↦ rw d (release-second t l q e d (rw d at h))
  ]
