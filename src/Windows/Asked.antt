-- ===== src/Windows/Asked.antt =====
-- The argument of tools/windows.c.
use mathlib.Core.Path.{subst}
use comp.Shared.{ℕ, ◌≡◌, ◌<◌, ◌≤◌, none, some, arith, false, pos, negsuc, ltb_ℤ, ◌||◌}
use comp.Audit.{Argument, absent, not_a_number, number_of_runs}
use comp.Windows.{runs_of}

-- How many runs an argument asks for.
abbrev pub Asks : Argument → ℕ → Type 0
Asks absent n = n ≡ 5
Asks not_a_number n = ⊥
Asks (number_of_runs z) n = (z ≡ pos n) × (1 ≤ n) × (n ≤ 100)

pub runs_of-Asks : (argument : Argument) (n : ℕ) → runs_of argument ≡ some n → Asks argument n
unfolding runs_of
runs_of-Asks absent n e = ground arith
runs_of-Asks not_a_number n e = ground arith
runs_of-Asks (number_of_runs (pos m)) n e = ground arith
runs_of-Asks (number_of_runs (negsuc m)) n e = absurd (ground arith)

pub runs_of-none : (argument : Argument) (n : ℕ) → runs_of argument ≡ none → ¬ Asks argument n
unfolding runs_of
runs_of-none absent n e a = ground arith
runs_of-none not_a_number n e a = a
runs_of-none (number_of_runs z) n e a =
    let f = a.0 in
    let test : (ltb_ℤ (pos n) (pos 1) || ltb_ℤ (pos 100) (pos n)) ≡ false = ground arith in
    let e' : runs_of (number_of_runs (pos n)) ≡ none =
      subst (λ y. runs_of (number_of_runs y) ≡ none) f e in
    absurd (ground arith)

pub Asks-some : (argument : Argument) (n : ℕ) → Asks argument n → 0 < n
Asks-some absent n a = omega (arith, a)
Asks-some not_a_number n a = absurd a
Asks-some (number_of_runs z) n a = omega (arith, a.1)
