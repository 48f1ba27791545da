-- ===== src/Analyze/Episodes.antt =====
-- The contract of `invariant_scan` in src/analyze.h, instant by instant, and lists of intervals.
use comp.Shared.{
  ℕ, suc, ◌+◌, ◌%◌, ◌^◌, ◌≡◌, ◌∙◌, ap, refl, ◌≤◌, ◌<◌, Bool, false, ◌&&◌, ◌||◌, List, [], ◌∷◌,
  if◌then◌else◌, ltb, leb, arith, inl, inr, Bool-cases, add32,
}
use comp.Workload.Records.{Record, is_started}
use comp.Analyze.Order.{count}
use comp.Analyze.{Doubles}
use comp.Analyze.Scan.{microseconds, sub64}

module _ {D : Type 0} where
  -- A task that started, and waits at `t`; a worker that is busy at `t`.
  abbrev pub waits_at : ℕ → Record D → Bool
  waits_at t r = is_started r && (leb r.ready_ns t && ltb t r.start_ns)

  abbrev pub works_at : ℕ → Record D → Bool
  works_at t r = is_started r && (leb r.start_ns t && ltb t r.end_ns)

  abbrev pub violated_at : ℕ → List (Record D) → ℕ → Bool
  violated_at workers records t =
      ltb 0 (count (waits_at t) records) && ltb (count (works_at t) records) workers

-- An interval from its first instant to the one after its last.
abbrev pub Interval : Type 0
Interval = ℕ × ℕ

abbrev pub within : ℕ → List Interval → Bool
within t [] = false
within t (i ∷ is) = (leb i.0 t && ltb t i.1) || within t is

-- None is empty, they are in order from `lo` on, and there is a gap between any two.
abbrev pub Apart : ℕ → List Interval → Type 0
Apart lo [] = Unit
Apart lo (i ∷ is) = (lo ≤ i.0) × ((i.0 < i.1) × Apart (suc i.1) is)

-- The intervals hold exactly the instants of `p`, and none can be made longer.
pub record Maximal (p : ℕ → Bool) (is : List Interval) : Type 0 where
  pub apart : Apart 0 is
  pub exact : (t : ℕ) → p t ≡ within t is

pub Apart-mono : (lo hi : ℕ) (is : List Interval) → lo ≤ hi → Apart hi is → Apart lo is
Apart-mono lo hi [] le h = tt
Apart-mono lo hi (i ∷ is) le h = let k = h.0 in (omega arith, h.1)

pub within-before : (t lo : ℕ) (is : List Interval) → t < lo → Apart lo is → within t is ≡ false
within-before t lo [] lt h = refl
within-before t lo (i ∷ is) lt h =
    let k = h.0 in
    let j = h.1.0 in let ih = within-before t (suc i.1) is (omega arith) h.1.1 in ground arith

module _ {D : Type 0} (double : Doubles D) (min_episode_us : D) where
  abbrev pub duration : Interval → D
  duration i = microseconds double (sub64 i.1 i.0)

  abbrev pub is_long : Interval → Bool
  is_long i = double.lt min_episode_us (duration i)

  -- The lengths of the long ones, added in order.
  abbrev pub total : D → List Interval → D
  total sum [] = sum
  total sum (i ∷ is) =
      let longer = total (double.plus sum (duration i)) is in
      let same = total sum is in if is_long i then longer else same

  abbrev pub tally_one : ℕ × D → Interval → ℕ × D
  tally_one sum i = if is_long i then (add32 sum.0 1, double.plus sum.1 (duration i)) else sum

  abbrev pub tally : ℕ × D → List Interval → ℕ × D
  tally sum [] = sum
  tally sum (i ∷ is) = tally (tally_one sum i) is

  pub tally-total :
      (n : ℕ) (sum : D) (is : List Interval)
      → n < 2 ^ 32
      → tally (n, sum) is ≡ ((n + count is_long is) % 2 ^ 32, total sum is)
  tally-total n sum [] h = let e : n ≡ (n + 0) % 2 ^ 32 = omega arith in ap (λ k. (k, sum)) e
  tally-total n sum (i ∷ is) h = elim (Bool-cases (is_long i)) [
    | inl y ↦
        let c = count is_long is in
        let k = add32 n 1 in
        let e : (k + c) % 2 ^ 32 ≡ (n + suc c) % 2 ^ 32 = omega arith in
        rw y (
          tally-total k (double.plus sum (duration i)) is (omega arith)
          ∙ ap (λ m. (m, total (double.plus sum (duration i)) is)) e)
    | inr short ↦ rw short (tally-total n sum is h)
  ]
