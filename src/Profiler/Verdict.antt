-- ===== src/Profiler/Verdict.antt =====
-- What the profiler of src/nullcall.c reports.
use comp.Shared.{
  true, false, pos, negsuc, zero, Bool, ℕ, suc, ◌-◌, ◌/◌, ◌%◌, ◌≡◌, ◌∙◌, ap, refl, sym, ◌<◌, inl,
  inr, some, List, ◌==◌, length, get_elem?, arith, Bool-cases, bind_some, ℤ, Option, ◌+◌,
  if◌then◌else◌,
}
use mathlib.Core.Path.{subst}
use comp.Profiler.Series.{series, time_loop-sample_at, run_trials-series}
use comp.Analyze.{Doubles, median_of}
use comp.Analyze.Order.{Ordered, Sorts, length-Rearranged, get_elem?-in}
use comp.Analyze.Spread.{Extremes}
use comp.Analyze.Ends.{Measured, ends-Extremes}
use comp.Profiler.{
  Exit, usage, out_of_memory, control_measured_nothing, done, time_loop, measure, argument, calls,
  nullcall_main, default_iters, default_trials, run_trials, Machine, Figures, median, ends, figures,
  ℤ, Bool, Option,
}

module _ {D : Type 0} (double : Doubles D) (qsort : List D → List D) where
  module _ (order : Ordered double) (sorts : Sorts double qsort) where
    median-sorted :
        (v : List D)
        → 0 < length v
        → (m : D) × (median double qsort v ≡ some (m, qsort v))
          × (median_of double qsort v ≡ some m)
    unfolding median median_of
    median-sorted v h =
        let len = length-Rearranged (sorts.rearranges v) in
        elim (Bool-cases (length v % 2 == 1)) [
          | inl odd ↦
              let (m, e) = get_elem?-in (qsort v) (length v / 2) (omega arith) in
              (m, rw (odd, e) refl, rw (odd, e) refl)
          | inr even ↦
              let (lo, e) = get_elem?-in (qsort v) (length v / 2 - 1) (omega arith) in
              let (hi, f) = get_elem?-in (qsort v) (length v / 2) (omega arith) in
              (double.halve (double.plus lo hi), rw (even, e, f) refl, rw (even, e, f) refl)
        ]

    ends-sorted :
        (v : List D)
        → 0 < length v
        → (low : D) × (high : D) × (ends double qsort (qsort v) ≡ some (double.minus high low))
          × Extremes double v v (low, high)
    unfolding ends
    ends-sorted v h =
        let n = length-Rearranged (sorts.rearranges v) in
        let (low, high, e, f, x) = ends-Extremes double order qsort sorts v h in
        let last : get_elem? (qsort v) (length (qsort v) - 1) ≡ some high =
          ap (λ k. get_elem? (qsort v) (k - 1)) (sym n) ∙ f in
        (low, high, rw (e, last) refl, x)

    figures-Measured :
        (sys ctl : List D)
        → 0 < length sys
        → 0 < length ctl
        → (f : Figures D) × (figures double qsort sys ctl ≡ some f)
          × Measured double qsort sys f.sys_med f.sys_spread
          × Measured double qsort ctl f.ctl_med f.ctl_spread
          × (f.crossing ≡ double.minus f.sys_med f.ctl_med)
    unfolding figures
    figures-Measured sys ctl hs hc =
        let (a, ea, ma) = median-sorted sys hs in
        let (b, eb, mb) = median-sorted ctl hc in
        let (la, ua, sa, xa) = ends-sorted sys hs in
        let (lb, ub, sb, xb) = ends-sorted ctl hc in
        (
          _,
          bind_some _ ea (bind_some _ eb (bind_some _ sa (bind_some _ sb refl))),
          record { middle = ma; low = la; high = ua; extremes = xa; difference = refl },
          record { middle = mb; low = lb; high = ub; extremes = xb; difference = refl },
          refl,
        )

  run_trials-length :
      (delay : ℕ → ℕ) (trials iters : ℕ) (m : Machine)
      → let samples = (run_trials double delay trials iters m).0 in
        (length samples.0 ≡ trials) × (length samples.1 ≡ trials)
  unfolding run_trials
  run_trials-length delay zero iters m = (refl, refl)
  run_trials-length delay (suc trials) iters m =
      let ih = run_trials-length delay trials iters _ in (ap suc ih.0, ap suc ih.1)

  -- The figures of two series of samples.
  pub record Sampled (sys ctl : List D) (f : Figures D) : Type 0 where
    pub sys_measured : Measured double qsort sys f.sys_med f.sys_spread
    pub ctl_measured : Measured double qsort ctl f.ctl_med f.ctl_spread
    pub crossing : f.crossing ≡ double.minus f.sys_med f.ctl_med

  -- The calls of the two loops that warm up, the readings of the clock included.
  abbrev pub warm_up : ℕ → ℕ
  warm_up iters = iters / 10 + 1 + 2 + (iters / 10 + 1 + 2)

  -- How `main` ends, for the two counts that it is given, on a machine that starts from `m`: the
  -- samples of the system call come from the first loop after the warm-up and every second one from
  -- it on, those of the control from the loops between.
  abbrev pub Ends : (ℕ → ℕ) → Machine → ℤ → ℤ → Bool → Option (Exit D) → Type 0
  Ends delay m (pos (suc i)) (pos (suc t)) true out =
      let w = warm_up (suc i) in
      (f : Figures D) × Sampled (series double delay m (suc t) (suc i) w)
        (series double delay m (suc t) (suc i) (w + (suc i + 2))) f
      × (out
          ≡ some (
              if double.lt (double.number 0) f.ctl_med then done f else control_measured_nothing f))
  Ends delay m (pos (suc i)) (pos (suc t)) false out = out ≡ some out_of_memory
  Ends delay m iters trials memory out = out ≡ some usage

  -- With ordered doubles and a qsort that sorts, the profiler reads no array out of bounds. Where
  -- both counts are positive and there is memory it takes a sample of the system call and then one of the
  -- control in each trial, a sample being the time from one reading of the clock to the next over the
  -- calls between, divided by their number; it reports of each the median and the largest less the smallest,
  -- and the difference of the medians, and fails exactly if the median of the control is not above
  -- 0; else it reports the wrong usage, or that there is no memory.
  pub nullcall_main-Ends :
      Ordered double
      → Sorts double qsort
      → (delay : ℕ → ℕ) (iters trials : Option ℤ) (memory : Bool) (m : Machine)
      → Ends delay m
          (argument double qsort iters default_iters)
          (argument double qsort trials default_trials)
          memory
          (nullcall_main double qsort delay iters trials memory m)
  unfolding nullcall_main calls
  nullcall_main-Ends order sorts delay iters trials memory m =
      measured (argument double qsort iters default_iters)
        (argument double qsort trials default_trials) memory
    where
      measured :
          (i t : ℤ) (memory : Bool)
          → Ends delay m i t memory (measure double qsort delay i t memory m)
      measured (pos zero) t memory = refl
      measured (negsuc i) t memory = refl
      measured (pos (suc i)) (pos zero) memory = refl
      measured (pos (suc i)) (negsuc t) memory = refl
      measured (pos (suc i)) (pos (suc t)) false = refl
      measured (pos (suc i)) (pos (suc t)) true =
          let each = suc i / 10 + 1 in
          let w = warm_up (suc i) in
          let warm = time_loop double delay each m in
          let warmer = time_loop double delay each warm.1 in
          let z : 0 + (each + 2) + (each + 2) ≡ w = omega arith in
          let started : warmer.1 ≡ calls delay w m =
            ap (λ (x : D × Machine). (time_loop double delay each x.1).1)
              (time_loop-sample_at double delay m each 0)
            ∙ ap (λ (x : D × Machine). x.1)
                (time_loop-sample_at double delay m each (0 + (each + 2)))
            ∙ ap (λ k. calls delay k m) z in
          let samples = (run_trials double delay (suc t) (suc i) warmer.1).0 in
          let same =
            ap (λ x. (run_trials double delay (suc t) (suc i) x).0) started
            ∙ run_trials-series double delay m (suc t) (suc i) w in
          let (ns, nc) = run_trials-length delay (suc t) (suc i) warmer.1 in
          let (f, e, a, b, c) =
            figures-Measured order sorts samples.0 samples.1 (omega arith) (omega arith) in
          (
            f,
            record {
              sys_measured =
                  subst (λ (x : List D × List D). Measured double qsort x.0 f.sys_med f.sys_spread)
                    same a;
              ctl_measured =
                  subst (λ (x : List D × List D). Measured double qsort x.1 f.ctl_med f.ctl_spread)
                    same b;
              crossing = c;
            },
            bind_some _ e refl,
          )
