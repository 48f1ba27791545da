-- ===== src/Pool/Going.antt =====
-- As long as a worker is not joined, someone in the pool of src/workload.c can go on.
use comp.Shared.{
  get_or, set, add32, ◌%◌, ◌-◌, ltb, ℕ, ◌≡◌, ◌≢◌, ◌<◌, ◌≤◌, ◌⊎◌, true, false, none, some, List, [],
  ◌∷◌, refl, sym, ap, ◌∙◌, arith, inl, inr, Bool-cases, Option-cases, ◌==◌, ltb,
}
use comp.TaskQueue.{Taskq, tq_push, tq_pop, drained, popped}
use comp.Workload.{
  wl_num_sizes, blocked_holder, burst_arrival, uneven_partition, Pathology, dispatch_one,
}
use comp.Pool.{
  Station, Main, dispatching, closing, joining, Pool, queue_at, worker_queue, total_workers,
  looking, passing, starting, holding, serving, ending, counting, returned, Step, release,
  close_first, close_second, join, take, leave, pass, hold, let_go, serve, served, ltb,
}
use comp.Pool.Whole.{Inv, closed_first, closed_second}
use comp.Pool.Finished.{first_worker, second_worker}

-- What a pop that waits says of its queue.
pop-cases :
    (q : Taskq)
    → ((q.count ≡ 0) × (q.closed ≡ false))
      ⊎ ((tq_pop q ≡ drained) ⊎ ((t : ℕ) × (r : Taskq) × (tq_pop q ≡ popped t r)))
unfolding tq_pop
pop-cases q = elim (Bool-cases (q.count == 0)) [
  | inl y ↦ elim (Bool-cases q.closed) [
    | inl z ↦ inr (inl (rw (y, z) refl))
    | inr z ↦ inl (ground arith, z)
  ]
  | inr d ↦ inr (
      inr (
        get_or q.slot q.head 0,
        record q { head = add32 q.head 1 % q.capacity; count = q.count - 1 },
        rw d refl,
      ))
]

push-cases : (q : Taskq) (t : ℕ) → (q.count ≡ q.capacity) ⊎ ((r : Taskq) × (tq_push q t ≡ some r))
unfolding tq_push
push-cases q t = elim (Bool-cases (q.count == q.capacity)) [
  | inl y ↦ inl (ground arith)
  | inr d ↦ inr (
    record q {
      slot = set q.slot q.tail t;
      tail = add32 q.tail 1 % q.capacity;
      count = add32 q.count 1;
    },
    rw d refl,
  )
]

queue_one :
    (path : Pathology) (t : ℕ)
    → ((dispatch_one path t).queue == 0) ≡ false
    → (dispatch_one path t).queue ≡ 1
unfolding dispatch_one
queue_one blocked_holder t h = absurd (ground arith)
queue_one burst_arrival t h = absurd (ground arith)
queue_one uneven_partition t h = elim (Bool-cases (t % wl_num_sizes == wl_num_sizes - 1)) [
  | inl y ↦ absurd (ground (arith, rw y at h))
  | inr n ↦ rw n refl
]

module _ (path : Pathology) (pool : ℕ) (s : Pool) (c : Inv path pool s) where
  abbrev Goes : Type 0
  Goes = (s' : Pool) × Step path pool s s'

  -- Whoever holds the gate lets it go.
  past_gate : (s.gate ≡ none → Goes) → Goes
  past_gate f = elim (Option-cases s.gate) [
    | inl free ↦ f free
    | inr held ↦ let (lt, (t, h)) = c.gate_ok.0 held.0 held.1 in (_, let_go held.0 t lt h)
  ]

  -- A worker that has not returned can go on, or waits at an empty queue that is open, or for the
  -- gate, whose holder can go on.
  worker_goes :
      (i : ℕ) (st : Station)
      → i < total_workers path pool
      → s.at i ≡ st
      → (st ≢ returned)
      → Goes
        ⊎ (((queue_at s (worker_queue path pool i)).count ≡ 0)
            × ((queue_at s (worker_queue path pool i)).closed ≡ false))
  worker_goes i looking lt e away = elim (pop-cases (queue_at s (worker_queue path pool i))) [
    | inl w ↦ inr w
    | inr p ↦ elim p [ inl d ↦ inl (_, leave i lt e d) | inr t ↦ inl (_, take i t.0 t.1 lt e t.2) ]
  ]
  worker_goes i (passing t) lt e away = inl (past_gate (λ free. (_, pass i t lt e free)))
  worker_goes i (starting t) lt e away = inl (elim (Bool-cases (dispatch_one path t).is_holder) [
    | inl y ↦ past_gate (λ free. (_, hold i t lt e y free))
    | inr n ↦ (_, serve i t lt e n)
  ])
  worker_goes i (holding t) lt e away = inl (_, let_go i t lt e)
  worker_goes i (serving t) lt e away = inl (_, served i t lt e)
  worker_goes i (ending t) lt e away = inl (_, Step.end i t lt e)
  worker_goes i counting lt e away = inl (_, Step.count i lt e)
  worker_goes i returned lt e away = absurd (away refl)

  open_queue :
      (t : ℕ) (l : List ℕ) (k : ℕ) → s.main ≡ dispatching (t ∷ l) → (queue_at s k).closed ≡ false
  open_queue t l k e = elim (Bool-cases (k == 0)) [
    | inl y ↦ rw y (c.first ∙ ap closed_first e)
    | inr d ↦ rw d (c.second ∙ ap closed_second e)
  ]

  room : (k : ℕ) → 0 < (queue_at s k).capacity
  room k = elim (Bool-cases (k == 0)) [
    | inl y ↦ rw y c.ok0.some_room
    | inr d ↦ rw d c.ok1.some_room
  ]

  -- A full queue has a worker that can go on.
  full_goes :
      (i k t : ℕ) (l : List ℕ)
      → i < total_workers path pool
      → worker_queue path pool i ≡ k
      → s.main ≡ dispatching (t ∷ l)
      → (queue_at s k).count ≡ (queue_at s k).capacity
      → Goes
  full_goes i k t l lt serves e full =
      let away : s.at i ≢ returned = λ r.
        let z = sym (c.empty_for i r).1 ∙ open_queue t l (worker_queue path pool i) e in
        absurd (ground arith) in
      elim (worker_goes i (s.at i) lt refl away) [
        | inl g ↦ g
        | inr w ↦
            let z : (queue_at s k).count ≡ 0 = ap (λ j. (queue_at s j).count) (sym serves) ∙ w.0 in
            absurd (omega (arith, room k))
      ]

  closed_queue : (k m : ℕ) → s.main ≡ joining m → (queue_at s k).closed ≡ true
  closed_queue k m e = elim (Bool-cases (k == 0)) [
    | inl y ↦ rw y (c.first ∙ ap closed_first e)
    | inr d ↦ rw d (c.second ∙ ap closed_second e)
  ]

  Station-cases : (st : Station) → (st ≡ returned) ⊎ (st ≢ returned)
  Station-cases returned = inl refl
  Station-cases looking = inr (λ h. absurd (ground arith))
  Station-cases (passing t) = inr (λ h. absurd (ground arith))
  Station-cases (starting t) = inr (λ h. absurd (ground arith))
  Station-cases (holding t) = inr (λ h. absurd (ground arith))
  Station-cases (serving t) = inr (λ h. absurd (ground arith))
  Station-cases (ending t) = inr (λ h. absurd (ground arith))
  Station-cases counting = inr (λ h. absurd (ground arith))

  -- The queue of a task has a worker.
  served_queue :
      (t : ℕ)
      → 3 ≤ pool
      → (i : ℕ) × (i < total_workers path pool)
        × (worker_queue path pool i ≡ (dispatch_one path t).queue)
  served_queue t enough =
      let (lt0, at0) = first_worker path pool enough in
      elim (second_worker path pool enough) [
        | inl all ↦ (0, lt0, at0 ∙ sym (all t))
        | inr w ↦ elim (Bool-cases ((dispatch_one path t).queue == 0)) [
          | inl y ↦ (0, lt0, at0 ∙ ground arith)
          | inr d ↦ (1, w.0, w.1 ∙ sym (queue_one path t d))
        ]
      ]

  pub goes :
      3 ≤ pool → (m : Main) → s.main ≡ m → (s.main ≡ joining (total_workers path pool)) ⊎ Goes
  goes enough (dispatching []) e = inr (_, close_first e)
  goes enough (dispatching (t ∷ l)) e =
      let k = (dispatch_one path t).queue in
      inr (elim (push-cases (queue_at s k) t) [
        | inr r ↦ (_, release t l r.0 e r.1)
        | inl full ↦
            let (i, lt, serves) = served_queue t enough in full_goes i k t l lt serves e full
      ])
  goes enough closing e = inr (_, close_second e)
  goes enough (joining k) e = elim (Bool-cases (ltb k (total_workers path pool))) [
    | inl y ↦
        let lt : k < total_workers path pool = ground arith in
        elim (Station-cases (s.at k)) [
          | inl r ↦ inr (_, join k e lt r)
          | inr away ↦ elim (worker_goes k (s.at k) lt refl away) [
            | inl g ↦ inr g
            | inr w ↦
                let z = sym w.1 ∙ closed_queue (worker_queue path pool k) k e in
                absurd (ground arith)
          ]
        ]
    | inr d ↦
        let top = c.in_range k e in
        let le : total_workers path pool ≤ k = ground arith in
        let same : k ≡ total_workers path pool = omega arith in inl (e ∙ ap joining same)
  ]
