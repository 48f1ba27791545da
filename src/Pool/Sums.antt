-- ===== src/Pool/Sums.antt =====
-- Sums over the workers of src/workload.c.
use comp.Shared.{ℕ, zero, suc, ◌+◌, ◌≡◌, ◌≢◌, ◌<◌, ◌≤◌, ◌==◌, arith, Bool-cases, inl, inr, ap}

abbrev pub sum : (ℕ → ℕ) → ℕ → ℕ
sum f zero = 0
sum f (suc n) = f n + sum f n

pub sum_mono : (f g : ℕ → ℕ) (n : ℕ) → ((j : ℕ) → f j ≤ g j) → sum f n ≤ sum g n
sum_mono f g zero h = omega arith
sum_mono f g (suc n) h = omega (arith, h n, sum_mono f g n h)

-- All but one term are no smaller, and that one is smaller by one at most.
pub sum_less :
    (f g : ℕ → ℕ) (i n : ℕ) → ((j : ℕ) → i ≢ j → f j ≤ g j) → f i ≤ g i + 1 → sum f n ≤ sum g n + 1
sum_less f g i zero h k = omega arith
sum_less f g i (suc n) h k = elim (Bool-cases (i == n)) [
  | inl y ↦
      let e : i ≡ n = ground arith in
      let below = sum_below f g i n (λ j lt. h j (λ e. absurd (ground arith))) (omega arith) in
      omega (arith, ap (λ x. f x) e, ap (λ x. g x) e)
  | inr d ↦
      let ne : i ≢ n = λ e. absurd (ground arith) in omega (arith, h n ne, sum_less f g i n h k)
]
  where
    sum_below : (f g : ℕ → ℕ) (i n : ℕ) → ((j : ℕ) → j < i → f j ≤ g j) → n ≤ i → sum f n ≤ sum g n
    sum_below f g i zero h le = omega arith
    sum_below f g i (suc n) h le =
        omega (arith, h n (omega arith), sum_below f g i n h (omega arith))

-- One term is greater by one at least, and no other smaller.
pub sum_more :
    (f g : ℕ → ℕ) (i n : ℕ) → i < n → ((j : ℕ) → f j ≤ g j) → f i + 1 ≤ g i → sum f n + 1 ≤ sum g n
sum_more f g i zero lt h k = absurd (omega arith)
sum_more f g i (suc n) lt h k = elim (Bool-cases (i == n)) [
  | inl y ↦
      let e : i ≡ n = ground arith in
      omega (arith, ap (λ x. f x) e, ap (λ x. g x) e, sum_mono f g n h)
  | inr d ↦ omega (arith, h n, sum_more f g i n (ground arith) h k)
]

-- A sum that is not 0 has a term that is not.
pub sum_some : (f : ℕ → ℕ) (n : ℕ) → 0 < sum f n → (i : ℕ) × (i < n) × (0 < f i)
sum_some f zero h = absurd (omega arith)
sum_some f (suc n) h = elim (Bool-cases (f n == 0)) [
  | inl y ↦
      let z : f n ≡ 0 = ground arith in
      let (i, lt, some_in) = sum_some f n (omega arith) in (i, omega arith, some_in)
  | inr d ↦ (n, omega arith, ground arith)
]
