-- ===== src/Pool/Closing.antt =====
-- The steps of the pool of src/workload.c that close the queues and join the workers.
use comp.Shared.{ℕ, suc, ◌≡◌, ◌<◌, [], refl, sym, ap, ◌∙◌, arith, inl, inr, Bool-cases, ◌==◌}
use comp.TaskQueue.{tq_close}
use comp.Analyze.Order.{count}
use comp.Workload.{Pathology}
use comp.Pool.{dispatching, closing, joining, Pool, worker_queue, total_workers, returned}
use comp.Pool.Whole.{Inv, todo, closed_second, closed_first}
use comp.Pool.Moving.{close-Moved}

module _ (path : Pathology) (pool : ℕ) where
  abbrev n : ℕ
  n = total_workers path pool

  module _ (s : Pool) (c : Inv path pool s) where
    pub close_first-Inv :
        s.main ≡ dispatching [] → Inv path pool (record s { q0 = tq_close s.q0; main = closing })
    unfolding tq_close
    close_first-Inv e = record {
      ok0 = (close-Moved s.q0 c.ok0).ok;
      ok1 = c.ok1;
      sum = λ p. omega (arith, c.sum p, ap (λ x. count p (todo x)) e);
      counted = c.counted;
      first = refl;
      second = c.second ∙ ap closed_second e;
      empty_for = λ j r.
          let old = c.empty_for j r in
          elim (Bool-cases (worker_queue path pool j == 0)) [
            | inl y ↦ rw y ((rw y at old).0, refl)
            | inr d ↦ rw d (rw d at old)
          ];
      one_queue = c.one_queue;
      joined = λ k j. absurd (ground arith);
      in_range = λ k j. absurd (ground arith);
      gate_ok = c.gate_ok;
    }

    pub close_second-Inv :
        s.main ≡ closing → Inv path pool (record s { q1 = tq_close s.q1; main = joining 0 })
    unfolding tq_close
    close_second-Inv e = record {
      ok0 = c.ok0;
      ok1 = (close-Moved s.q1 c.ok1).ok;
      sum = λ p. omega (arith, c.sum p, ap (λ x. count p (todo x)) e);
      counted = c.counted;
      first = c.first ∙ ap closed_first e;
      second = refl;
      empty_for = λ j r.
          let old = c.empty_for j r in
          elim (Bool-cases (worker_queue path pool j == 0)) [
            | inl y ↦ rw y (rw y at old)
            | inr d ↦ rw d ((rw d at old).0, refl)
          ];
      one_queue = c.one_queue;
      joined = λ k j i below. let z : 0 ≡ k = ground arith in absurd (omega arith);
      in_range = λ k j. let z : 0 ≡ k = ground arith in omega arith;
      gate_ok = c.gate_ok;
    }

    pub join-Inv :
        (k : ℕ)
        → s.main ≡ joining k
        → k < n
        → s.at k ≡ returned
        → Inv path pool (record s { main = joining (suc k) })
    join-Inv k e lt r = record {
      ok0 = c.ok0;
      ok1 = c.ok1;
      sum = λ p. omega (arith, c.sum p, ap (λ x. count p (todo x)) e);
      counted = c.counted;
      first = c.first ∙ ap closed_first e;
      second = c.second ∙ ap closed_second e;
      empty_for = c.empty_for;
      one_queue = c.one_queue;
      joined = λ m j i below. elim (Bool-cases (k == i)) [
        | inl y ↦ let z : k ≡ i = ground arith in ap s.at (sym z) ∙ r
        | inr d ↦ c.joined k e i (let z : suc k ≡ m = ground arith in ground arith)
      ];
      in_range = λ m j. let z : suc k ≡ m = ground arith in omega arith;
      gate_ok = c.gate_ok;
    }
