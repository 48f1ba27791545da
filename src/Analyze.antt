-- ===== src/Analyze.antt =====
-- The statistics of src/analyze.c. A double is an element of any type with the operations used; the
-- order laws that a theorem asks for hold of doubles that are not NaN. qsort is the C library's: it
-- is a parameter, of which its standard says that it rearranges and sorts.
pub mod Scan
pub mod Episodes
mod Sweeping
pub mod Deltas
pub mod Contract
pub mod Unique
mod Extent
mod Summary
mod Summing
pub mod Order
pub mod Spread
pub mod Ends
pub mod Comparing
pub mod Median
pub mod Tests
pub mod ScanTests
mod CompareTests
use comp.Shared.{
  ℕ, zero, suc, ◌+◌, ◌-◌, ◌/◌, ◌%◌, Bool, true, false, Option, none, some, List, [], ◌∷◌, ◌==◌,
  if◌then◌else◌, length, get_elem?, ◌>>=◌, ℤ, pos, negsuc,
}

pub record Doubles (D : Type 0) : Type 0 where
  pub lt : D → D → Bool
  pub plus : D → D → D
  pub minus : D → D → D
  pub times : D → D → D
  pub halve : D → D
  pub number : ℕ → D
  pub divide : D → D → D

module _ {D : Type 0} (double : Doubles D) where
  -- The loop of `spread_of`, from its minimum and maximum so far.
  unfoldable pub spread_loop : List D → D → D → D × D
  spread_loop [] minimum maximum = (minimum, maximum)
  spread_loop (v ∷ vs) minimum maximum =
      spread_loop vs (if double.lt v minimum then v else minimum)
        (if double.lt maximum v then v else maximum)

  -- `none` where `v[0]` is out of bounds.
  unfoldable pub spread_of : List D → Option D
  unfolding spread_loop
  spread_of [] = none
  spread_of (v ∷ vs) =
      let (minimum, maximum) = spread_loop vs v v in some (double.minus maximum minimum)

  abbrev pub bug_multiplier : D
  bug_multiplier = double.number 10

  unfoldable pub classify_latency : D → D → Bool
  classify_latency latency_us baseline_median_us =
      double.lt (double.times bug_multiplier baseline_median_us) latency_us

  -- Less than 0, more than 0, or 0.
  unfoldable pub compare_double : D → D → ℤ
  compare_double left right =
      if double.lt left right then negsuc 0 else if double.lt right left then pos 1 else pos 0

  unfoldable pub median_of : (List D → List D) → List D → Option D
  median_of qsort v =
      let sorted = qsort v in
      let n = length v in
      if n % 2 == 1 then get_elem? sorted (n / 2) else do
        lo ← get_elem? sorted (n / 2 - 1)
        hi ← get_elem? sorted (n / 2)
        some (double.halve (double.plus lo hi))
