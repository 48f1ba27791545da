-- ===== src/Workload/Clock.antt =====
-- Time in src/workload.c: the monotonic clock, sleeps, and the two ways to keep a worker busy.
-- `delay k` is what the k-th call to the system takes beyond what it is asked for, any number: the
-- clock never goes back, and a sleep is never too short.
use comp.Shared.{ℕ, zero, suc, ◌+◌, ◌-◌, ◌/◌, Option, none, some, if◌then◌else◌, ltb, leb, add64}

pub record Clock : Type 0 where
  pub time : ℕ
  pub calls : ℕ

module _ (delay : ℕ → ℕ) where
  -- The clock once it is read; the reading is its time.
  unfoldable pub wl_now_ns : Clock → Clock
  wl_now_ns c = record { time = c.time + delay c.calls; calls = suc c.calls }

  -- Interruptions are resumed, and are part of the delay.
  unfoldable pub sleep_ns : ℕ → Clock → Clock
  sleep_ns ns c = record { time = c.time + ns + delay c.calls; calls = suc c.calls }

  -- Sleeps half of what remains while that is more than 0.4 ms, and spins the rest.
  unfoldable pub hold_until : ℕ → ℕ → Clock → Option Clock
  unfolding wl_now_ns sleep_ns
  hold_until zero end c = none
  hold_until (suc fuel) end c =
      let read = wl_now_ns c in
      let left = end - read.time in
      let slept = hold_until fuel end (sleep_ns (left / 2) read) in
      let spun = hold_until fuel end read in
      if leb end read.time then some read else if ltb 400000 left then slept else spun

  unfoldable pub hold_for : ℕ → ℕ → Clock → Option Clock
  unfolding hold_until
  hold_for fuel ns c = let read = wl_now_ns c in hold_until fuel (add64 read.time ns) read

  unfoldable pub serve_until : ℕ → ℕ → Clock → Option Clock
  unfolding wl_now_ns
  serve_until zero end c = none
  serve_until (suc fuel) end c =
      let read = wl_now_ns c in
      let rest = serve_until fuel end read in if ltb read.time end then rest else some read

  -- `ns` is `us * 1000.0`, cut to a whole number.
  unfoldable pub serve : ℕ → ℕ → Clock → Option Clock
  unfolding serve_until
  serve fuel ns c = let read = wl_now_ns c in serve_until fuel (add64 read.time ns) read

  -- A mutex or a condition that is waited for, for any time.
  unfoldable pub wait_lock : Clock → Clock
  wait_lock c = record { time = c.time + delay c.calls; calls = suc c.calls }
