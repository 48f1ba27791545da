-- ===== src/Profiler.antt =====
-- The null-call profiler of week 1, src/nullcall.c: what a system call costs beside a call of a
-- function. `delay k` is the time that the k-th call takes, a call of the clock included; the sink
-- that keeps the loops from being optimised away, and the output, are left out.
mod Series
mod Verdict
mod Tests
use comp.Shared.{
  ℕ, zero, suc, ◌+◌, ◌-◌, ◌/◌, ◌%◌, Bool, true, false, not, ◌&&◌, Option, none, some, List, [], ◌∷◌,
  ◌==◌, if◌then◌else◌, ◌>>=◌, length, get_elem?, ℤ, pos, negsuc, ltb_ℤ,
}
use comp.Analyze.{Doubles}

abbrev pub default_iters : ℕ
default_iters = 1000000

abbrev pub default_trials : ℕ
default_trials = 7

-- The clock, and how many calls were made.
pub record Machine : Type 0 where
  pub time : ℕ
  pub calls : ℕ

pub record Figures (D : Type 0) : Type 0 where
  pub sys_med : D
  pub ctl_med : D
  pub sys_spread : D
  pub ctl_spread : D
  pub crossing : D
  pub ratio : Option D

-- The exit codes of `main`: 2, 1, 3 and 0.
pub data Exit (D : Type 0) : Type 0 where
  usage : Exit D
  out_of_memory : Exit D
  control_measured_nothing : Figures D → Exit D
  done : Figures D → Exit D

module _ (delay : ℕ → ℕ) where
  -- Any call: of `getppid`, of `noop` or of the clock.
  unfoldable pub call : Machine → Machine
  call m = record { time = m.time + delay m.calls; calls = suc m.calls }

  unfoldable pub calls : ℕ → Machine → Machine
  unfolding call
  calls zero m = m
  calls (suc n) m = calls n (call m)

module _ {D : Type 0} (double : Doubles D) (delay : ℕ → ℕ) where
  -- `time_syscall_loop` and `time_control_loop`, which differ in the function called.
  unfoldable pub time_loop : ℕ → Machine → D × Machine
  unfolding call calls
  time_loop iters m =
      let t0 = call delay m in
      let t1 = call delay (calls delay iters t0) in
      (
        double.divide (double.minus (double.number t1.time) (double.number t0.time))
            (double.number iters),
        t1,
      )

  -- `sys` and `ctl`, trial by trial.
  unfoldable pub run_trials : ℕ → ℕ → Machine → (List D × List D) × Machine
  unfolding time_loop
  run_trials zero iters m = (([], []), m)
  run_trials (suc trials) iters m =
      let (sys, m1) = time_loop iters m in
      let (ctl, m2) = time_loop iters m1 in
      let rest = run_trials trials iters m2 in ((sys ∷ rest.0.0, ctl ∷ rest.0.1), rest.1)

module _ {D : Type 0} (double : Doubles D) (qsort : List D → List D) where
  -- The median, and the array, which is sorted from then on.
  unfoldable pub median : List D → Option (D × List D)
  median v =
      let sorted = qsort v in
      let n = length v in
      if n % 2 == 1
      then (get_elem? sorted (n / 2) >>= (λ m. some (m, sorted)))
      else (get_elem? sorted (n / 2 - 1) >>= (λ lo.
          get_elem? sorted (n / 2) >>= (λ hi. some (double.halve (double.plus lo hi), sorted))))

  -- The last element of a sorted array less the first.
  unfoldable pub ends : List D → Option D
  ends sorted = do
    low ← get_elem? sorted 0
    high ← get_elem? sorted (length sorted - 1)
    some (double.minus high low)

  unfoldable pub figures : List D → List D → Option (Figures D)
  unfolding median ends
  figures sys ctl = do
    (sys_med, sys_sorted) ← median sys
    (ctl_med, ctl_sorted) ← median ctl
    sys_spread ← ends sys_sorted
    ctl_spread ← ends ctl_sorted
    some (record {
      sys_med = sys_med;
      ctl_med = ctl_med;
      sys_spread = sys_spread;
      ctl_spread = ctl_spread;
      crossing = double.minus sys_med ctl_med;
      ratio =
          if double.lt (double.number 0) ctl_med
          then some (double.divide sys_med ctl_med)
          else none;
    })

  unfoldable pub verdict : Figures D → Exit D
  verdict f = if double.lt (double.number 0) f.ctl_med then done f else control_measured_nothing f

  -- `main` from the counts on. `memory` is whether malloc gives both arrays. No result where an array is read out of bounds.
  unfoldable pub measure : (delay : ℕ → ℕ) → ℤ → ℤ → Bool → Machine → Option (Exit D)
  unfolding run_trials time_loop figures verdict
  measure delay (pos (suc i)) (pos (suc t)) true m =
      let iters = suc i in
      let warm = (time_loop double delay (iters / 10 + 1) m).1 in
      let warmer = (time_loop double delay (iters / 10 + 1) warm).1 in
      let samples = (run_trials double delay (suc t) iters warmer).0 in
      figures samples.0 samples.1 >>= (λ f. some (verdict f))
  measure delay (pos (suc i)) (pos (suc t)) false m = some out_of_memory
  measure delay iters trials memory m = some usage

  -- The two arguments, as atol and atoi read them.
  abbrev pub argument : Option ℤ → ℕ → ℤ
  argument none default = pos default
  argument (some given) default = given

  unfoldable pub nullcall_main :
      (delay : ℕ → ℕ) → Option ℤ → Option ℤ → Bool → Machine → Option (Exit D)
  unfolding measure
  nullcall_main delay iters trials memory m =
      measure delay (argument iters default_iters) (argument trials default_trials) memory m
