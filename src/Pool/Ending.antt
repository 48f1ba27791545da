-- ===== src/Pool/Ending.antt =====
-- The steps of the pool of src/workload.c that record the end of a task and count it.
use comp.Shared.{
  ℕ, ◌≡◌, ◌<◌, ◌≤◌, [], ◌∷◌, ◌++◌, ap, ◌∙◌, arith, inl, inr, Bool-cases, ◌==◌, update, update_ne,
  length-append, add32, ◌+◌,
}
use comp.Analyze.Order.{count}
use comp.Workload.{Pathology, wl_tasks}
use comp.Pool.{Pool, total_workers, looking, holding, ending, counting, returned}
use comp.Pool.Tally.{tally-update, in_hand, counts, count-append}
use comp.Pool.Whole.{Inv, gate-keep}
use comp.Pool.Start.{ended_few}
use comp.Pool.Gate.{elsewhere}

module _ (path : Pathology) (pool : ℕ) where
  abbrev n : ℕ
  n = total_workers path pool

  module _ (s : Pool) (c : Inv path pool s) where
    pub end-Inv :
        (i t : ℕ)
        → i < n
        → s.at i ≡ ending t
        → Inv path pool (record s { ended = s.ended ++ (t ∷ []); at = update s.at i counting })
    end-Inv i t lt e =
        let away = elsewhere path pool s c i (ending t) returned e (λ h. absurd (ground arith)) in
        let g =
          gate-keep path pool n s.gate s.at i counting c.gate_ok
            (λ u. elsewhere path pool s c i (ending t) (holding u) e (λ h. absurd (ground arith)))
            (λ u h. absurd (ground arith)) in
        record {
          ok0 = c.ok0;
          ok1 = c.ok1;
          sum = λ p.
              let one : count p (t ∷ []) ≡ in_hand p (ending t) = ground arith in
              omega (
                arith,
                c.sum p,
                count-append p s.ended (t ∷ []),
                one,
                tally-update (in_hand p) s.at i n counting lt,
                ap (in_hand p) e,
              );
          counted = omega (
            arith,
            c.counted,
            length-append {0} s.ended (t ∷ []),
            tally-update counts s.at i n counting lt,
            ap counts e,
          );
          first = c.first;
          second = c.second;
          empty_for = λ j r. elim (Bool-cases (i == j)) [
            | inl y ↦ absurd (ground (arith, rw y at r))
            | inr d ↦ c.empty_for j (rw d at r)
          ];
          one_queue = c.one_queue;
          joined = λ k m j below.
              let done = c.joined k m j below in
              update_ne s.at counting (λ same. away (ap s.at same ∙ done)) ∙ done;
          in_range = c.in_range;
          gate_ok = g;
        }

    pub count-Inv :
        (i : ℕ)
        → i < n
        → s.at i ≡ counting
        → Inv path pool (record s { completed = add32 s.completed 1; at = update s.at i looking })
    count-Inv i lt e =
        let away = elsewhere path pool s c i counting returned e (λ h. absurd (ground arith)) in
        let g =
          gate-keep path pool n s.gate s.at i looking c.gate_ok
            (λ u. elsewhere path pool s c i counting (holding u) e (λ h. absurd (ground arith)))
            (λ u h. absurd (ground arith)) in
        let small : s.completed + 1 ≤ wl_tasks = omega (
          arith,
          c.counted,
          ended_few path pool s c,
          tally-update counts s.at i n looking lt,
          ap counts e,
        ) in
        record {
          ok0 = c.ok0;
          ok1 = c.ok1;
          sum = λ p.
              omega
                (arith, c.sum p, tally-update (in_hand p) s.at i n looking lt, ap (in_hand p) e);
          counted = omega (arith, c.counted, tally-update counts s.at i n looking lt, ap counts e);
          first = c.first;
          second = c.second;
          empty_for = λ j r. elim (Bool-cases (i == j)) [
            | inl y ↦ absurd (ground (arith, rw y at r))
            | inr d ↦ c.empty_for j (rw d at r)
          ];
          one_queue = c.one_queue;
          joined = λ k m j below.
              let done = c.joined k m j below in
              update_ne s.at looking (λ same. away (ap s.at same ∙ done)) ∙ done;
          in_range = c.in_range;
          gate_ok = g;
        }
