-- ===== src/TaskQueue/Awake.antt =====
-- No wake-up of the queue of src/workload.c is lost.
use comp.Shared.{
  ℕ, ◌+◌, ◌-◌, ◌^◌, ◌≡◌, ◌<◌, ◌≤◌, ◌∙◌, refl, Bool, true, false, ◌==◌, ◌⊎◌, inl, inr, arith,
  Bool-cases, add32,
}
use comp.TaskQueue.{tq_init, tq_push, tq_pop, tq_close}
use comp.TaskQueue.Monitor.{
  Condition, Monitor, signal, lock, push_section, pop_section, close_section, Waited, made, pushes,
  pops, closes, spurious_pop, spurious_push,
}

-- Where a popper sleeps the queue is open, and as many are awake as it has tasks; where a pusher
-- sleeps, as many are awake as it has room.
pub record NoneLost (capacity : ℕ) (s : Monitor) : Type 0 where
  pub bounded : s.q.count ≤ capacity
  pub same_capacity : s.q.capacity ≡ capacity
  pub poppers : (s.not_empty.asleep ≡ 0) ⊎ ((s.q.closed ≡ false) × (s.q.count ≤ s.not_empty.woken))
  pub pushers : (s.not_full.asleep ≡ 0) ⊎ (capacity ≤ s.q.count + s.not_full.woken)

-- A signal wakes one, so that one task or place more has one awake more.
signal_pop :
    (c : Condition) (closed : Bool) (n : ℕ)
    → (c.asleep ≡ 0) ⊎ ((closed ≡ false) × (n ≤ c.woken))
    → ((signal c).asleep ≡ 0) ⊎ ((closed ≡ false) × (n + 1 ≤ (signal c).woken))
signal_pop c closed n h = ground arith

signal_push :
    (c : Condition) (capacity n m : ℕ)
    → m + 1 ≡ n
    → (c.asleep ≡ 0) ⊎ (capacity ≤ n + c.woken)
    → ((signal c).asleep ≡ 0) ⊎ (capacity ≤ m + (signal c).woken)
signal_push c capacity n m e h = ground arith

-- One that has the lock is awake no more, and may take a task or a place.
lock_pop :
    (b : Bool) (c : Condition) (closed : Bool) (n m : ℕ)
    → m + 1 ≡ n
    → (c.asleep ≡ 0) ⊎ ((closed ≡ false) × (n ≤ c.woken))
    → ((lock b c).asleep ≡ 0) ⊎ ((closed ≡ false) × (m ≤ (lock b c).woken))
lock_pop true c closed n m e h = ground arith
lock_pop false c closed n m e h = ground arith

lock_push :
    (b : Bool) (c : Condition) (capacity n : ℕ)
    → (c.asleep ≡ 0) ⊎ (capacity ≤ n + c.woken)
    → ((lock b c).asleep ≡ 0) ⊎ (capacity ≤ n + 1 + (lock b c).woken)
lock_push true c capacity n h = ground arith
lock_push false c capacity n h = ground arith

lock-asleep : (b : Bool) (c : Condition) → (lock b c).asleep ≡ c.asleep
lock-asleep true c = refl
lock-asleep false c = refl

module _ (capacity : ℕ) (small : capacity < 2 ^ 32) where
  push_section-NoneLost :
      (s : Monitor) (b : Bool) (v : ℕ)
      → NoneLost capacity s
      → NoneLost capacity (push_section b s v)
  unfolding push_section tq_push
  push_section-NoneLost s b v c =
      let lo = c.bounded in
      let e = c.same_capacity in
      elim (Bool-cases (s.q.count == s.q.capacity)) [
        | inl y ↦
            rw (push_section, y)
              (record {
                bounded = lo;
                same_capacity = e;
                poppers = c.poppers;
                pushers = inr (ground arith);
              })
        | inr n ↦
            let less : s.q.count < capacity = ground arith in
            let one : add32 s.q.count 1 ≡ s.q.count + 1 = omega arith in
            rw (push_section, n, one)
              (record {
                bounded = omega arith;
                same_capacity = e;
                poppers = signal_pop s.not_empty s.q.closed s.q.count c.poppers;
                pushers = lock_push b s.not_full capacity s.q.count c.pushers;
              })
      ]

  pop_section-NoneLost :
      (s : Monitor) (b : Bool) → NoneLost capacity s → NoneLost capacity (pop_section b s)
  unfolding pop_section tq_pop
  pop_section-NoneLost s b c =
      let lo = c.bounded in
      let e = c.same_capacity in
      elim (Bool-cases (s.q.count == 0)) [
        | inl y ↦
            let z : s.q.count ≡ 0 = ground arith in
            elim (Bool-cases s.q.closed) [
              | inl closed ↦
                  let none_asleep : s.not_empty.asleep ≡ 0 = let p = c.poppers in ground arith in
                  rw (pop_section, y, closed)
                    (record {
                      bounded = lo;
                      same_capacity = e;
                      poppers = inl (lock-asleep b s.not_empty ∙ none_asleep);
                      pushers = c.pushers;
                    })
              | inr not_yet ↦
                  rw (pop_section, y, not_yet)
                    (record {
                      bounded = lo;
                      same_capacity = e;
                      poppers = inr (not_yet, omega arith);
                      pushers = c.pushers;
                    })
            ]
        | inr n ↦
            let some_in : s.q.count - 1 + 1 ≡ s.q.count = ground arith in
            rw (pop_section, n)
              (record {
                bounded = omega arith;
                same_capacity = e;
                poppers =
                    lock_pop b s.not_empty s.q.closed s.q.count (s.q.count - 1) some_in c.poppers;
                pushers =
                    signal_push s.not_full capacity s.q.count (s.q.count - 1) some_in c.pushers;
              })
      ]

  Waited-NoneLost : {s : Monitor} → Waited capacity s → NoneLost capacity s
  unfolding tq_init close_section tq_close
  Waited-NoneLost made = record {
    bounded = omega arith;
    same_capacity = refl;
    poppers = inl refl;
    pushers = inl refl;
  }
  Waited-NoneLost (pushes {s = s} b v r has) = push_section-NoneLost s b v (Waited-NoneLost r)
  Waited-NoneLost (pops {s = s} b r has) = pop_section-NoneLost s b (Waited-NoneLost r)
  Waited-NoneLost (closes r) =
      let c = Waited-NoneLost r in
      record {
        bounded = c.bounded;
        same_capacity = c.same_capacity;
        poppers = inl refl;
        pushers = inl refl;
      }
  Waited-NoneLost (spurious_pop {s = s} r) =
      let c = Waited-NoneLost r in
      record {
        bounded = c.bounded;
        same_capacity = c.same_capacity;
        poppers = let p = c.poppers in ground arith;
        pushers = c.pushers;
      }
  Waited-NoneLost (spurious_push {s = s} r) =
      let c = Waited-NoneLost r in
      record {
        bounded = c.bounded;
        same_capacity = c.same_capacity;
        poppers = c.poppers;
        pushers = let p = c.pushers in ground arith;
      }

  -- No wake-up is lost, whoever pushes, pops, closes and wakes in whatever order: where a thread
  -- sleeps in tq_pop, the queue is open, and as many threads that were woken are on their way to it
  -- as it holds tasks; where one sleeps in tq_push, as many are on their way as it has room; and the
  -- queue never holds more than its capacity.
  pub no_wake_up_lost :
      {s : Monitor}
      → Waited capacity s
      → (s.q.count ≤ capacity)
        × ((s.not_empty.asleep ≡ 0) ⊎ ((s.q.closed ≡ false) × (s.q.count ≤ s.not_empty.woken)))
        × ((s.not_full.asleep ≡ 0) ⊎ (capacity ≤ s.q.count + s.not_full.woken))
  no_wake_up_lost r = let c = Waited-NoneLost r in (c.bounded, c.poppers, c.pushers)
