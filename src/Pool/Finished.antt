-- ===== src/Pool/Finished.antt =====
-- What `wl_run` of src/workload.c has done when it has joined its workers.
use comp.Shared.{
  ℕ, zero, suc, ◌≡◌, ◌<◌, ◌≤◌, Bool, true, none, [], refl, sym, ap, ◌∙◌, arith, inl, inr,
  Option-cases, ◌==◌, ltb, if◌then◌else◌, leb, ◌⊎◌, ◌&&◌, ◌+◌,
}
use comp.TaskQueue.Ring.{contents}
use comp.Analyze.Order.{count}
use comp.Workload.{
  Pathology, blocked_holder, burst_arrival, uneven_partition, wl_tasks, wl_pool_workers,
  shard_workers, dispatch_one, range,
}
use comp.Workload.Laws.{wl_pool_workers_ge}
use comp.Pool.{Station, Pool, Reach, IsOver, queue_at, worker_queue, total_workers, returned}
use comp.Pool.Tally.{tally, in_hand, counts}
use comp.Pool.Whole.{todo}
use comp.Pool.Steps.{Reach-Inv}
use comp.Pool.Start.{all_tasks, count_all, length-range}

tally_returned :
    (f : Station → ℕ) (at : ℕ → Station) (n : ℕ)
    → f returned ≡ 0
    → ((i : ℕ) → i < n → at i ≡ returned)
    → tally f at n ≡ 0
tally_returned f at zero z h = refl
tally_returned f at (suc n) z h =
    omega (arith, z, ap f (h n (omega arith)), tally_returned f at n z (λ i lt. h i (omega arith)))

count-range :
    (t i n : ℕ) → count (λ x. x == t) (range i n) ≡ (if leb i t && ltb t (i + n) then 1 else 0)
count-range t i zero = ground arith
count-range t i (suc n) = ground (arith, count-range t (suc i) n)

-- The first worker serves queue 0.
pub first_worker :
    (path : Pathology) (pool : ℕ)
    → 3 ≤ pool
    → (0 < total_workers path pool) × (worker_queue path pool 0 ≡ 0)
unfolding total_workers worker_queue shard_workers
first_worker blocked_holder pool h = ground arith
first_worker burst_arrival pool h = ground arith
first_worker uneven_partition pool h = ground arith

-- If any task goes to queue 1, a worker serves it.
pub second_worker :
    (path : Pathology) (pool : ℕ)
    → 3 ≤ pool
    → ((t : ℕ) → (dispatch_one path t).queue ≡ 0)
      ⊎ ((1 < total_workers path pool) × (worker_queue path pool 1 ≡ 1))
unfolding total_workers worker_queue shard_workers dispatch_one
second_worker blocked_holder pool h = inl (λ t. refl)
second_worker burst_arrival pool h = inl (λ t. refl)
second_worker uneven_partition pool h = inr (ground arith)

-- When wl_run has joined its workers, whatever the dispatcher and the workers did in which order: as
-- many tasks are counted as completed as were released, the end of each of them has been recorded
-- once and of no other, and the gate is free.
pub wl_run-Complete :
    (path : Pathology) (workers online k : ℕ) {s : Pool}
    → Reach path (wl_pool_workers workers online) k s
    → IsOver path (wl_pool_workers workers online) s
    → (s.completed ≡ wl_tasks)
      × ((t : ℕ) → count (λ x. x == t) s.ended ≡ (if ltb t wl_tasks then 1 else 0))
      × (s.gate ≡ none)
wl_run-Complete path workers online k {s} r over =
    let pool = wl_pool_workers workers online in
    let enough = wl_pool_workers_ge workers online in
    let n = total_workers path pool in
    let c = Reach-Inv path pool r in
    let home : (i : ℕ) → i < n → s.at i ≡ returned = c.joined n over in
    let (lt0, at0) = first_worker path pool enough in
    let empty0 : contents s.q0 ≡ [] =
      ap (λ j. contents (queue_at s j)) (sym at0) ∙ (c.empty_for 0 (home 0 lt0)).0 in
    let empty1 : contents s.q1 ≡ [] = elim (second_worker path pool enough) [
      | inl all ↦ c.one_queue all
      | inr w ↦ ap (λ j. contents (queue_at s j)) (sym w.1) ∙ (c.empty_for 1 (home 1 w.0)).0
    ] in
    let all : (p : ℕ → Bool) → count p s.ended ≡ count p (range 0 wl_tasks) = λ p. omega (
      arith,
      c.sum p,
      ap (λ m. count p (todo m)) over,
      ap (count p) empty0,
      ap (count p) empty1,
      tally_returned (in_hand p) s.at n refl home,
      ap (count p) (all_tasks path pool).0,
    ) in
    (
      omega (
        arith,
        c.counted,
        tally_returned counts s.at n refl home,
        count_all s.ended,
        all (λ x. true),
        count_all (range 0 wl_tasks),
        length-range 0 wl_tasks,
      ),
      (λ t. all (λ x. x == t) ∙ count-range t 0 wl_tasks ∙ ground arith),
      elim (Option-cases s.gate) [
        | inl free ↦ free
        | inr j ↦
            let (lt, (t, h)) = c.gate_ok.0 j.0 j.1 in
            let z = sym (home j.0 lt) ∙ h in absurd (ground arith)
      ],
    )
