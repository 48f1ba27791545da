-- ===== src/Pool/Start.antt =====
-- The pool of src/workload.c before its first step, and the tasks that it is given.
use comp.Shared.{ℕ, zero, suc, ◌≡◌, ◌≤◌, true, List, [], ◌∷◌, refl, ap, ◌∙◌, arith, length}
use comp.TaskQueue.{tq_init}
use comp.TaskQueue.Ring.{tq_init-Ok}
use comp.Analyze.Order.{count}
use comp.Workload.{Pathology, dispatch_from, range, wl_tasks}
use comp.Workload.Laws.{dispatch_from-all}
use comp.Pool.{Station, Pool, total_workers, looking, start_pool}
use comp.Pool.Tally.{tally, in_hand, counts}
use comp.Pool.Whole.{Inv}

pub count_all : (l : List ℕ) → count (λ x. true) l ≡ length l
count_all [] = refl
count_all (x ∷ l) = ap suc (count_all l)

pub length-range : (i n : ℕ) → length (range i n) ≡ n
length-range i zero = refl
length-range i (suc n) = ap suc (length-range (suc i) n)

module _ (path : Pathology) (pool : ℕ) where
  abbrev n : ℕ
  n = total_workers path pool

  pub all_tasks :
      (dispatch_from path wl_tasks 0 ≡ range 0 wl_tasks)
      × (count (λ x. true) (dispatch_from path wl_tasks 0) ≡ wl_tasks)
  all_tasks =
      let e = dispatch_from-all path in
      (e, count_all (dispatch_from path wl_tasks 0) ∙ ap length e ∙ length-range 0 wl_tasks)

  pub ended_few : (s : Pool) → Inv path pool s → length s.ended ≤ wl_tasks
  ended_few s c = omega (arith, c.sum (λ x. true), count_all s.ended, all_tasks.1)

  tally_idle : (f : Station → ℕ) (m : ℕ) → f looking ≡ 0 → tally f (λ i. looking) m ≡ 0
  tally_idle f zero h = refl
  tally_idle f (suc m) h = omega (arith, h, tally_idle f m h)

  pub start_pool-Inv : Inv path pool (start_pool path pool)
  unfolding start_pool tq_init
  start_pool-Inv =
      let ok = tq_init-Ok 64 (omega arith) (omega arith) in
      record {
        ok0 = ok;
        ok1 = ok;
        sum = λ p. omega (arith, tally_idle (in_hand p) n refl);
        counted = omega (arith, tally_idle counts n refl);
        first = refl;
        second = refl;
        empty_for = λ i r. absurd (ground arith);
        one_queue = λ all. refl;
        joined = λ k e. absurd (ground arith);
        in_range = λ k e. absurd (ground arith);
        gate_ok = ((λ j e. absurd (ground arith)), (λ j t h. absurd (ground arith)));
      }
