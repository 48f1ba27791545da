-- ===== src/Pool/Progress.antt =====
-- `wl_run` of src/workload.c ends: it cannot run for ever, and it does not stop half-way.
use comp.Pool.Tally.{tally}
use comp.Shared.{ℕ, zero, suc, ◌≡◌, ◌<◌, ◌≤◌, ◌⊎◌, ◌*◌, ◌+◌, refl, ap, arith, inl, inr, length}
use comp.TaskQueue.{tq_init}
use comp.Workload.{Pathology, wl_tasks, wl_pool_workers}
use comp.Workload.Laws.{wl_pool_workers_ge}
use comp.Pool.{Pool, total_workers, looking, start_pool, Step, Reach, here, next, IsOver, tq_init}
use comp.Pool.Steps.{Reach-Inv}
use comp.Pool.Start.{all_tasks, length-range}
use comp.Pool.Rank.{rank, Step-rank, steps_left}
use comp.Pool.Going.{goes}

looking_rank : (n : ℕ) → tally steps_left (λ i. looking) n ≡ n
looking_rank zero = refl
looking_rank (suc n) = omega (arith, looking_rank n)

Reach-rank :
    (path : Pathology) (pool k : ℕ) (s : Pool)
    → Reach path pool k s
    → k + rank (total_workers path pool) s ≤ 8 * wl_tasks + 2 * total_workers path pool + 2
unfolding start_pool tq_init
Reach-rank path pool k s here = omega (
  arith,
  looking_rank (total_workers path pool),
  ap length (all_tasks path pool).0,
  length-range 0 wl_tasks,
)
Reach-rank path pool k s (next {k = before} {s = old} r st) =
    omega
      (arith, Reach-rank path pool before old r, Step-rank path pool old (Reach-Inv path pool r) st)

-- The steps of wl_run are bounded, and until every worker is joined there is one whose condition is
-- met; who sleeps is left out here.
pub wl_run-Ends :
    (path : Pathology) (workers online k : ℕ) {s : Pool}
    → Reach path (wl_pool_workers workers online) k s
    → (k ≤ 8 * wl_tasks + 2 * total_workers path (wl_pool_workers workers online) + 2)
      × (IsOver path (wl_pool_workers workers online) s
          ⊎ ((s' : Pool) × Step path (wl_pool_workers workers online) s s'))
wl_run-Ends path workers online k {s} r =
    let pool = wl_pool_workers workers online in
    let c = Reach-Inv path pool r in
    (
      omega (arith, Reach-rank path pool k s r),
      goes path pool s c (wl_pool_workers_ge workers online) s.main refl,
    )

-- A run under way can be brought to its end.
pub run_on :
    (path : Pathology) (workers online fuel k : ℕ) (s : Pool)
    → Reach path (wl_pool_workers workers online) k s
    → 8 * wl_tasks + 2 * total_workers path (wl_pool_workers workers online) + 2 < k + fuel
    → (last : ℕ) × (t : Pool) × Reach path (wl_pool_workers workers online) last t
      × IsOver path (wl_pool_workers workers online) t
run_on path workers online zero k s r h =
    absurd (omega (arith, (wl_run-Ends path workers online k r).0))
run_on path workers online (suc fuel) k s r h = elim (wl_run-Ends path workers online k r).1 [
  | inl over ↦ (k, s, r, over)
  | inr st ↦ run_on path workers online fuel (suc k) st.0 (next r st.1) (omega arith)
]
