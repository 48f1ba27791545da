-- ===== src/Workload/Laws.antt =====
-- What the dispatcher of src/workload.c releases, and who serves it.
use comp.Shared.{
  ℕ, zero, suc, ◌+◌, ◌-◌, ◌%◌, ◌≡◌, ◌∙◌, sym, ap, refl, ◌≤◌, ◌<◌, ◌&&◌, ◌∷◌, ◌++◌, ◌==◌, ltb, arith,
  Bool-cases, inl, inr,
}
use comp.Workload.{
  wl_tasks, wl_min_workers, Pathology, blocked_holder, burst_arrival, uneven_partition,
  select_pathology, wl_pool_workers, shard_workers, dispatch_one, range, burst_end, dispatch_from,
  is_burst, wl_burst_period, queue_of,
}

range-append : (i n m : ℕ) → range i n ++ range (i + n) m ≡ range i (n + m)
range-append i zero m =
    let e : i + 0 ≡ i = omega arith in
    let f : m ≡ 0 + m = omega arith in ap (λ k. range k m) e ∙ ap (range i) f
range-append i (suc n) m =
    let e : i + suc n ≡ suc i + n = omega arith in
    let f : suc (n + m) ≡ suc n + m = omega arith in
    ap (λ l. i ∷ l) (ap (λ k. range (suc i) n ++ range k m) e ∙ range-append (suc i) n m)
    ∙ ap (range i) f

burst_end_gt : (i : ℕ) → i < wl_tasks → i < burst_end i
burst_end_gt i h = ground arith

burst_end_le : (i : ℕ) → burst_end i ≤ wl_tasks
burst_end_le i = ground arith

dispatch_from-range :
    (path : Pathology) (fuel i : ℕ)
    → wl_tasks ≤ i + fuel
    → i ≤ wl_tasks
    → dispatch_from path fuel i ≡ range i (wl_tasks - i)
unfolding dispatch_from
dispatch_from-range path zero i h le = let z : 0 ≡ wl_tasks - i = omega arith in ap (range i) z
dispatch_from-range path (suc fuel) i h le = elim (Bool-cases (ltb i wl_tasks)) [
  | inr out ↦ let z : wl_tasks - i ≡ 0 = ground arith in rw (out, z) refl
  | inl more ↦
      let lt : i < wl_tasks = ground arith in
      elim (Bool-cases (is_burst path && (i % wl_burst_period == 0))) [
        | inr paced ↦
            let one : wl_tasks - i ≡ suc (wl_tasks - (suc i)) = omega arith in
            rw (more, paced)
              (ap (λ l. i ∷ l) (dispatch_from-range path fuel (suc i) (omega arith) (omega arith))
                ∙ ap (range i) (sym one))
        | inl burst ↦
            let e = burst_end i in
            let gt : i < e = burst_end_gt i lt in
            let le' : e ≤ wl_tasks = burst_end_le i in
            let at : i + (e - i) ≡ e = omega arith in
            let all : (e - i) + (wl_tasks - e) ≡ wl_tasks - i = omega arith in
            rw (more, burst)
              (ap (λ l. range i (e - i) ++ l) (dispatch_from-range path fuel e (omega arith) le')
                ∙ ap (λ k. range i (e - i) ++ range k (wl_tasks - e)) (sym at)
                ∙ range-append i (e - i) (wl_tasks - e)
                ∙ ap (range i) all)
      ]
]

-- Under every pathology the dispatcher ends within one round for each task, and has dispatched
-- every task once, in order.
pub dispatch_from-all : (path : Pathology) → dispatch_from path wl_tasks 0 ≡ range 0 wl_tasks
dispatch_from-all path = dispatch_from-range path wl_tasks 0 (omega arith) (omega arith)

abbrev pub workers_of : ℕ × ℕ → ℕ → ℕ
workers_of w zero = w.0
workers_of w queue = w.1

served :
    (path : Pathology) (pool shard : ℕ)
    → wl_min_workers ≤ pool
    → ((shard_workers path pool).0 + (shard_workers path pool).1 ≡ pool)
      × (0 < workers_of (shard_workers path pool) (queue_of path shard))
unfolding shard_workers
served blocked_holder pool shard h = (omega arith, omega arith)
served burst_arrival pool shard h = (omega arith, omega arith)
served uneven_partition pool zero h = (omega arith, omega arith)
served uneven_partition pool (suc shard) h = (omega arith, omega arith)

pub wl_pool_workers_ge : (workers online : ℕ) → wl_min_workers ≤ wl_pool_workers workers online
unfolding wl_pool_workers
wl_pool_workers_ge workers online = ground arith

-- For every seed, configuration and machine the workers of the two queues are the pool, three of
-- them at least, and the queue that a task goes to has a worker.
pub dispatch_one-served :
    (seed workers online task_id : ℕ)
    → let path = select_pathology seed in
      let pool = wl_pool_workers workers online in
      let w = shard_workers path pool in
      (w.0 + w.1 ≡ pool)
      × (wl_min_workers ≤ pool)
      × (0 < workers_of w (dispatch_one path task_id).queue)
unfolding dispatch_one
dispatch_one-served seed workers online task_id =
    let path = select_pathology seed in
    let pool = wl_pool_workers workers online in
    let enough = wl_pool_workers_ge workers online in
    let (sum, busy) = served path pool (dispatch_one path task_id).shard enough in
    (sum, enough, busy)
