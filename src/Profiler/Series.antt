-- ===== src/Profiler/Series.antt =====
-- What the samples of src/nullcall.c are, by the state of the machine after each of its calls.
use comp.Shared.{ℕ, zero, suc, ◌+◌, ◌≡◌, ◌∙◌, ap, refl, List, [], ◌∷◌, arith}
use comp.Analyze.{Doubles}
use comp.Profiler.{Machine, call, calls, time_loop, run_trials}

module _ (delay : ℕ → ℕ) where
  calls-snoc : (n : ℕ) (m : Machine) → call delay (calls delay n m) ≡ calls delay (suc n) m
  unfolding calls
  calls-snoc zero m = refl
  calls-snoc (suc n) m = calls-snoc n (call delay m)

  calls-add : (a b : ℕ) (m : Machine) → calls delay a (calls delay b m) ≡ calls delay (b + a) m
  unfolding calls
  calls-add zero b m = let e : b ≡ b + 0 = omega arith in ap (λ k. calls delay k m) e
  calls-add (suc a) b m =
      let e : suc b + a ≡ b + suc a = omega arith in
      ap (calls delay a) (calls-snoc b m) ∙ calls-add a (suc b) m ∙ ap (λ k. calls delay k m) e

module _ {D : Type 0} (double : Doubles D) (delay : ℕ → ℕ) (m : Machine) where
  abbrev pub time_after : ℕ → ℕ
  time_after n = (calls delay n m).time

  -- The time of `iters` calls and the second reading of the clock, for each of them, where the first
  -- reading is the call after the first `n`.
  abbrev pub sample_at : ℕ → ℕ → D
  sample_at iters n =
      double.divide
        (double.minus (double.number (time_after (n + iters + 2)))
          (double.number (time_after (n + 1))))
        (double.number iters)

  -- A sample for each trial, every second loop from the one after the first `n` calls on.
  abbrev pub series : ℕ → ℕ → ℕ → List D
  series zero iters n = []
  series (suc trials) iters n =
      sample_at iters n ∷ series trials iters (n + (iters + 2) + (iters + 2))

  pub time_loop-sample_at :
      (iters n : ℕ)
      → time_loop double delay iters (calls delay n m)
        ≡ (sample_at iters n, calls delay (n + (iters + 2)) m)
  unfolding time_loop
  time_loop-sample_at iters n =
      let e : n + 1 + iters + 1 ≡ n + (iters + 2) = omega arith in
      let f : suc (n + 1 + iters) ≡ n + iters + 2 = omega arith in
      let g : suc n ≡ n + 1 = omega arith in
      let h : suc (n + 1 + iters) ≡ n + (iters + 2) = omega arith in
      let first = calls-snoc delay n m ∙ ap (λ k. calls delay k m) g in
      let last =
        ap (λ x. call delay (calls delay iters x)) first
        ∙ ap (call delay) (calls-add delay iters (n + 1) m)
        ∙ calls-snoc delay (n + 1 + iters) m in
      ap
        (λ (x : Machine). (
          double.divide
              (double.minus (double.number x.time)
                (double.number (call delay (calls delay n m)).time))
              (double.number iters),
          x,
        ))
        last
      ∙ ap
          (λ (x : Machine). (
            double.divide
                (double.minus (double.number (calls delay (suc (n + 1 + iters)) m).time)
                  (double.number x.time))
                (double.number iters),
            calls delay (suc (n + 1 + iters)) m,
          ))
          first
      ∙ ap
          (λ k. (
            double.divide
                (double.minus (double.number (calls delay k m).time)
                  (double.number (time_after (n + 1))))
                (double.number iters),
            calls delay (suc (n + 1 + iters)) m,
          ))
          f
      ∙ ap (λ k. (sample_at iters n, calls delay k m)) h

  pub run_trials-series :
      (trials iters n : ℕ)
      → (run_trials double delay trials iters (calls delay n m)).0
        ≡ (series trials iters n, series trials iters (n + (iters + 2)))
  unfolding run_trials
  run_trials-series zero iters n = refl
  run_trials-series (suc trials) iters n =
      let loop = time_loop double delay iters in
      let rest = λ (x : Machine). (run_trials double delay trials iters x).0 in
      ap (λ (x : D × Machine). (x.0 ∷ (rest (loop x.1).1).0, (loop x.1).0 ∷ (rest (loop x.1).1).1))
        (time_loop-sample_at iters n)
      ∙ ap (λ (x : D × Machine). (sample_at iters n ∷ (rest x.1).0, x.0 ∷ (rest x.1).1))
          (time_loop-sample_at iters (n + (iters + 2)))
      ∙ ap
          (λ (x : List D × List D).
            (sample_at iters n ∷ x.0, sample_at iters (n + (iters + 2)) ∷ x.1))
          (run_trials-series trials iters (n + (iters + 2) + (iters + 2)))
