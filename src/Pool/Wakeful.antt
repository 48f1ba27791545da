-- ===== src/Pool/Wakeful.antt =====
-- `wl_run` of src/workload.c ends although its threads sleep until a signal wakes them.
use comp.Shared.{
  ℕ, zero, suc, ◌+◌, ◌*◌, ◌≡◌, ◌≤◌, ◌<◌, ◌⊎◌, ◌∙◌, ap, refl, sym, Bool, true, false, some, arith,
  update, Bool-cases, ◌==◌, inl, inr, if◌then◌else◌,
}
use comp.TaskQueue.{Taskq, tq_pop, tq_push, popped}
use comp.Workload.{Pathology, dispatch_one, wl_tasks, wl_pool_workers}
use comp.Pool.{
  Pool, Station, looking, total_workers, worker_queue, queue_at, Step, release, close_first,
  close_second, join, take, leave, pass, hold, let_go, serve, served, IsOver,
}
use comp.Pool.Sums.{sum_some}
use comp.Pool.Sleep.{Sleepers, serves_first, puts_first, same_side, WakesOne, Goes, SleepReach}
use comp.Pool.Rested.{queue_of, n, looks, ready, Rested, pop-count, same_side_cases}
use comp.Pool.Asleep.{drained-closed}
use comp.Pool.Progress.{wl_run-Ends}
use comp.Pool.Waking.{SleepReach-Reach}

module _ (path : Pathology) (pool : ℕ) where
  abbrev first : ℕ → Bool
  first i = serves_first path pool i

  -- A signal finds a sleeper, where there is one.
  signalled :
      (b : Bool) (z : Sleepers) (m : ℕ)
      → m ≤ total_workers path pool
      → ((i : ℕ) × (i < total_workers path pool) × (first i ≡ b) × (z.asleep i ≡ true))
        ⊎ ((i : ℕ) → i < m → first i ≡ b → z.asleep i ≡ false)
  signalled b z zero le = inr (λ i lt. absurd (omega arith))
  signalled b z (suc m) le = elim (signalled b z m (omega arith)) [
    | inl found ↦ inl found
    | inr none_yet ↦ elim (same_side_cases (first m) b) [
      | inl same ↦ elim (Bool-cases (z.asleep m)) [
        | inl y ↦ inl (m, omega arith, same, y)
        | inr d ↦ inr (λ i lt f. elim (Bool-cases (i == m)) [
          | inl h ↦ let x : i ≡ m = ground arith in ap z.asleep x ∙ d
          | inr h ↦ none_yet i (ground arith) f
        ])
      ]
      | inr differ ↦ inr (λ i lt f. elim (Bool-cases (i == m)) [
        | inl h ↦ let x : i ≡ m = ground arith in absurd (differ (sym (ap first x) ∙ f))
        | inr h ↦ none_yet i (ground arith) f
      ])
    ]
  ]

  not_full : (q r : Taskq) (t : ℕ) → q.count ≡ q.capacity → tq_push q t ≡ some r → false ≡ true
  unfolding tq_push
  not_full q r t full e = ground arith

  WakesOne-some : (b : Bool) (z : Sleepers) → (y : Sleepers) × WakesOne path pool b z y
  WakesOne-some b z = elim (signalled b z (total_workers path pool) (omega arith)) [
    | inl (i, lt, side, slept) ↦
        (record z { asleep = update z.asleep i false }, (refl, inl (i, lt, side, slept, refl)))
    | inr nobody ↦ (z, (refl, inr (nobody, refl)))
  ]

  -- A step that some thread can make is made, by another where the first one sleeps.
  woken_step :
      (s t : Pool) (z : Sleepers) → Rested path pool s z → Step path pool s t → Goes path pool s z
  woken_step s t z c (release u l q e h) =
      let b = (dispatch_one path u).queue == 0 in
      elim (Bool-cases z.main_asleep) [
        | inl dreams ↦
            let (v, m, f, full) = c.main_dozing dreams in
            let p : queue_of s (puts_first path pool s.main) ≡ queue_of s b =
              ap (λ m. queue_of s (puts_first path pool m)) e in
            let x =
              not_full (queue_of s b) q u
                (ap (λ (r : Taskq). r.count) (sym p) ∙ full ∙ ap (λ (r : Taskq). r.capacity) p) h in
            absurd (ground arith)
        | inr awake ↦ let (y, w) = WakesOne-some b z in (t, y, release u l q e h, awake, w)
      ]
  woken_step s t z c (close_first e) = (
    t,
    record {
      asleep = λ i. if same_side path pool true (first i) then false else z.asleep i;
      main_asleep = false;
    },
    close_first e,
    tt,
    (refl, refl),
  )
  woken_step s t z c (close_second e) = (
    t,
    record {
      asleep = λ i. if same_side path pool false (first i) then false else z.asleep i;
      main_asleep = false;
    },
    close_second e,
    tt,
    (refl, refl),
  )
  woken_step s t z c (join k e lt r) = (t, z, join k e lt r, tt, refl)
  woken_step s t z c (take i u q lt e h) = elim (Bool-cases (z.asleep i)) [
    | inl dreams ↦
        let (small, look, open_, few) = c.dozing i dreams in
        let less = pop-count (queue_of s (first i)) q u h in
        let (k, small_k, there) =
          sum_some (ready path pool s.at z.asleep (first i)) (n path pool) (omega arith) in
        let (same, awake, looks_k) = ready-some (first i) (first k) (z.asleep k) (s.at k) there in
        let h_k : tq_pop (queue_of s (first k)) ≡ popped u q =
          ap (λ d. tq_pop (queue_of s d)) (sym same) ∙ h in
        taken s z k u q small_k looks_k h_k awake
    | inr awake ↦ taken s z i u q lt e h awake
  ]
    where
      taken :
          (s : Pool) (z : Sleepers) (i u : ℕ) (q : Taskq)
          → i < total_workers path pool
          → s.at i ≡ looking
          → tq_pop (queue_at s (worker_queue path pool i)) ≡ popped u q
          → z.asleep i ≡ false
          → Goes path pool s z
      taken s z i u q lt e h awake = (
        _,
        record z {
          main_asleep =
              if same_side path pool (puts_first path pool s.main) (first i)
              then false
              else z.main_asleep;
        },
        take i u q lt e h,
        awake,
        (refl, refl),
      )

      ready-some :
          (a d w : Bool) (st : Station)
          → 0 < (if same_side path pool a d then (if w then 0 else looks st) else 0)
          → (a ≡ d) × (w ≡ false) × (st ≡ looking)
      ready-some true true false looking h = (refl, refl, refl)
      ready-some false false false looking h = (refl, refl, refl)
      ready-some a d w st h = absurd (ground arith)
  woken_step s t z c (leave i lt e h) = elim (Bool-cases (z.asleep i)) [
    | inl dreams ↦
        let (small, look, open_, few) = c.dozing i dreams in
        let x : true ≡ false = sym (drained-closed (queue_of s (first i)) h) ∙ open_ in
        absurd (ground arith)
    | inr awake ↦ (t, z, leave i lt e h, awake, refl)
  ]
  woken_step s t z c (pass i u lt e free) = (t, z, pass i u lt e free, tt, refl)
  woken_step s t z c (hold i u lt e is free) = (t, z, hold i u lt e is free, tt, refl)
  woken_step s t z c (let_go i u lt e) = (t, z, let_go i u lt e, tt, refl)
  woken_step s t z c (serve i u lt e is) = (t, z, serve i u lt e is, tt, refl)
  woken_step s t z c (served i u lt e) = (t, z, served i u lt e, tt, refl)
  woken_step s t z c (Step.end i u lt e) = (t, z, Step.end i u lt e, tt, refl)
  woken_step s t z c (Step.count i lt e) = (t, z, Step.count i lt e, tt, refl)

-- Whoever takes the next step and whoever sleeps in tq_push or tq_pop until a signal or a broadcast
-- wakes it, or wakes unasked: wl_run takes no more than eight steps for each task, two for each
-- worker and two more, sleeping and waking not counted; and as long as it has not joined every
-- worker, some thread can take a step and is awake. So no wake-up is missing, and it cannot hang, on
-- a full queue, an empty one or the gate.
pub wl_run-Wakeful :
    (path : Pathology) (workers online k : ℕ) {s : Pool} {z : Sleepers}
    → SleepReach path (wl_pool_workers workers online) k s z
    → (k ≤ 8 * wl_tasks + 2 * total_workers path (wl_pool_workers workers online) + 2)
      × (IsOver path (wl_pool_workers workers online) s
          ⊎ Goes path (wl_pool_workers workers online) s z)
wl_run-Wakeful path workers online k {s} {z} r =
    let pool = wl_pool_workers workers online in
    let (reached, c) = SleepReach-Reach path pool r in
    let (bound, then_) = wl_run-Ends path workers online k reached in
    (
      bound,
      elim then_ [ inl over ↦ inl over | inr (t, st) ↦ inr (woken_step path pool s t z c st) ],
    )
