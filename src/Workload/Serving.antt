-- ===== src/Workload/Serving.antt =====
-- How long the loops of src/workload.c that keep a worker busy take.
use comp.Workload.Worker.{busy_for, wl_hold_us, Work, worker_round}
use comp.Workload.Records.{Record, InOrder, is_started}
use comp.Shared.{
  ℕ, zero, suc, ◌+◌, ◌-◌, ◌/◌, ◌≡◌, ◌≤◌, ◌<◌, some, arith, ltb, leb, inl, inr, Bool-cases, add64,
  ◌^◌, refl, if◌then◌else◌, ◌*◌, ◌>>=◌, Bool, add32, ap, bind_some, true, ◌∙◌, false,
}
use comp.Workload.Clock.{
  Clock, wl_now_ns, sleep_ns, hold_until, hold_for, serve_until, serve, wait_lock,
}

module _ (delay : ℕ → ℕ) (ticks : (k : ℕ) → 0 < delay k) where
  hold_until-some :
      (fuel end : ℕ) (c : Clock)
      → end < c.time + fuel
      → 0 < fuel
      → (c' : Clock) × (hold_until delay fuel end c ≡ some c')
        × (end ≤ c'.time)
        × (c.time < c'.time)
  unfolding hold_until
  hold_until-some zero end c h pos = absurd (omega arith)
  hold_until-some (suc fuel) end c h pos =
      let t = ticks c.calls in
      let read = wl_now_ns delay c in
      let left = end - read.time in
      elim (Bool-cases (leb end read.time)) [
        | inl y ↦ (read, rw y refl, ground arith, omega arith)
        | inr n ↦
            let more : 0 < fuel = ground arith in
            elim (Bool-cases (ltb 400000 left)) [
              | inl y ↦
                  let (c', e, a, b) =
                    hold_until-some fuel end (sleep_ns delay (left / 2) read) (omega arith) more in
                  (c', rw (n, y) e, a, omega arith)
              | inr s ↦
                  let (c', e, a, b) = hold_until-some fuel end read (omega arith) more in
                  (c', rw (n, s) e, a, omega arith)
            ]
      ]

  serve_until-some :
      (fuel end : ℕ) (c : Clock)
      → end < c.time + fuel
      → 0 < fuel
      → (c' : Clock) × (serve_until delay fuel end c ≡ some c')
        × (end ≤ c'.time)
        × (c.time < c'.time)
  unfolding serve_until
  serve_until-some zero end c h pos = absurd (omega arith)
  serve_until-some (suc fuel) end c h pos =
      let t = ticks c.calls in
      let read = wl_now_ns delay c in
      elim (Bool-cases (ltb read.time end)) [
        | inr y ↦ (read, rw y refl, ground arith, omega arith)
        | inl n ↦
            let (c', e, a, b) = serve_until-some fuel end read (omega arith) (ground arith) in
            (c', rw n e, a, omega arith)
      ]

  pub hold_for-some :
      (fuel ns : ℕ) (c : Clock)
      → ns < fuel
      → (wl_now_ns delay c).time + ns < 2 ^ 64
      → (c' : Clock) × (hold_for delay fuel ns c ≡ some c') × (c.time + ns ≤ c'.time)
  unfolding hold_for
  hold_for-some fuel ns c h fits =
      let read = wl_now_ns delay c in
      let (c', e, a, b) =
        hold_until-some fuel (add64 read.time ns) read (omega arith) (omega arith) in
      (c', e, omega arith)

  pub serve-some :
      (fuel ns : ℕ) (c : Clock)
      → ns < fuel
      → (wl_now_ns delay c).time + ns < 2 ^ 64
      → (c' : Clock) × (serve delay fuel ns c ≡ some c') × (c.time + ns ≤ c'.time)
  unfolding serve
  serve-some fuel ns c h fits =
      let read = wl_now_ns delay c in
      let (c', e, a, b) =
        serve_until-some fuel (add64 read.time ns) read (omega arith) (omega arith) in
      (c', e, omega arith)

-- The clock after `k` calls that are not asked to take time.
abbrev pub after : (ℕ → ℕ) → ℕ → Clock → Clock
after delay zero c = c
after delay (suc k) c = after delay k (wait_lock delay c)

module _ {D : Type 0} (delay : ℕ → ℕ) (ticks : (k : ℕ) → 0 < delay k) (nanoseconds : D → ℕ) where
  abbrev pub service_ns : Record D → ℕ
  service_ns r = if r.is_holder then wl_hold_us * 1000 else nanoseconds r.service_us

  busy_for-some :
      (fuel : ℕ) (r : Record D) (c : Clock)
      → service_ns r < fuel
      → (after delay 2 c).time + service_ns r < 2 ^ 64
      → (c' : Clock) × (busy_for delay nanoseconds fuel r c ≡ some c')
        × (c.time + service_ns r ≤ c'.time)
  unfolding busy_for wait_lock wl_now_ns
  busy_for-some fuel r c h fits =
      let hold =
        hold_for delay fuel (wl_hold_us * 1000) (wait_lock delay c)
        >>= (λ held. some (wait_lock delay held)) in
      let spin = serve delay fuel (nanoseconds r.service_us) c in
      let branch : (b : Bool)
          → r.is_holder ≡ b
          → busy_for delay nanoseconds fuel r c ≡ (if b then hold else spin) =
        λ b e. ap (λ x. if x then hold else spin) e in
      let service : (b : Bool)
          → r.is_holder ≡ b
          → service_ns r ≡ (if b then wl_hold_us * 1000 else nanoseconds r.service_us) =
        λ b e. ap (λ x. if x then wl_hold_us * 1000 else nanoseconds r.service_us) e in
      elim (Bool-cases r.is_holder) [
        | inl y ↦
            let k = service true y in
            let (c', e, a) =
              hold_for-some delay ticks fuel (wl_hold_us * 1000) (wait_lock delay c) (omega arith)
                (omega arith) in
            (
              wait_lock delay c',
              branch true y ∙ ap (λ o. o >>= (λ held. some (wait_lock delay held))) e,
              omega arith,
            )
        | inr n ↦
            let k = service false n in
            let (c', e, a) =
              serve-some delay ticks fuel (nanoseconds r.service_us) c (omega arith)
                (omega arith) in
            (c', branch false n ∙ e, omega arith)
      ]

  -- What the worker has written of a task that became ready before, `w` as it stood, `w'` after.
  pub record Served (w w' : Work D) : Type 0 where
    pub in_order : InOrder w'.task
    pub started : is_started w'.task ≡ true
    pub long_enough : w'.task.start_ns + service_ns w.task ≤ w'.task.end_ns
    pub same_ready : w'.task.ready_ns ≡ w.task.ready_ns
    pub same_shard : w'.task.shard ≡ w.task.shard
    pub counted : w'.completed ≡ add32 w.completed 1

  -- A worker that takes a task after it became ready ends, on a clock that ticks, and has then kept
  -- itself busy for the task's service or hold at least: the three timestamps are in order, and the
  -- task counts as started and completed.
  pub worker_round-Served :
      (fuel : ℕ) (w : Work D)
      → w.task.ready_ns ≤ w.clock.time
      → service_ns w.task < fuel
      → (after delay 5 w.clock).time + service_ns w.task < 2 ^ 64
      → (w' : Work D) × (worker_round delay nanoseconds fuel w ≡ some w') × Served w w'
  unfolding worker_round wait_lock wl_now_ns
  worker_round-Served fuel w ready h fits =
      let s = wl_now_ns delay (wait_lock delay (wait_lock delay w.clock)) in
      let t = ticks (suc (suc w.clock.calls)) in
      let (c', e, a) = busy_for-some fuel w.task s h fits in
      let w' : Work D = record {
        task = record w.task { start_ns = s.time; end_ns = (wl_now_ns delay c').time };
        clock = wl_now_ns delay c';
        completed = add32 w.completed 1;
      } in
      (
        w',
        bind_some _ e refl,
        record {
          in_order = (omega arith, omega arith);
          started = ground arith;
          long_enough = omega arith;
          same_ready = refl;
          same_shard = refl;
          counted = refl;
        },
      )
