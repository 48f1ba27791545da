-- ===== src/Analyze/Comparing.antt =====
-- qsort of the C library with `compare_double` of src/analyze.c, and what that makes of `median_of`
-- and of `summarize_run`.
use comp.Shared.{
  ◌-◌, ◌/◌, ◌%◌, ◌≡◌, refl, ◌<◌, ◌⊎◌, false, some, List, [], ◌∷◌, All, ℤ, pos, length, inl, inr,
  Bool-cases, ltb_ℤ, ◌∙◌, sym,
}
use comp.Analyze.{Doubles, median_of, compare_double}
use comp.Analyze.Order.{Ordered, Rearranged, IsSorted, Sorts}
use comp.Analyze.Median.{Between, median_of-Middle}
use comp.Analyze.Summary.{Summary}

module _ {D : Type 0} where
  -- `compare` does not put `y` before `x`.
  abbrev pub NotAfter : (D → D → ℤ) → D → D → Type 0
  NotAfter compare x y = ltb_ℤ (pos 0) (compare x y) ≡ false

  -- What the C standard asks of a comparison: that its answers are those of one order.
  pub record IsConsistent (compare : D → D → ℤ) : Type 0 where
    pub opposite : (x y : D) → ltb_ℤ (pos 0) (compare x y) ≡ ltb_ℤ (compare y x) (pos 0)
    pub chained : (x y z : D) → NotAfter compare x y → NotAfter compare y z → NotAfter compare x z

  abbrev pub InOrderOf : (D → D → ℤ) → List D → Type 0
  InOrderOf compare [] = Unit
  InOrderOf compare (x ∷ xs) = All (λ y. NotAfter compare x y) xs × InOrderOf compare xs

  -- What it promises then: the array holds the same elements, in the order of the comparison.
  pub record IsQsort (qsort : (D → D → ℤ) → List D → List D) : Type 0 where
    pub rearranges :
        (compare : D → D → ℤ) → IsConsistent compare → (v : List D) → Rearranged v (qsort compare v)
    pub sorts :
        (compare : D → D → ℤ)
        → IsConsistent compare
        → (v : List D) → InOrderOf compare (qsort compare v)

module _ {D : Type 0} (double : Doubles D) (order : Ordered double) where
  positive-lt : (x y : D) → ltb_ℤ (pos 0) (compare_double double x y) ≡ double.lt y x
  unfolding compare_double
  positive-lt x y = elim (Bool-cases (double.lt x y)) [
    | inl a ↦ let b = order.asymmetric x y a in rw (a, b) refl
    | inr a ↦ elim (Bool-cases (double.lt y x)) [ inl b ↦ rw (a, b) refl | inr b ↦ rw (a, b) refl ]
  ]

  negative-lt : (x y : D) → ltb_ℤ (compare_double double x y) (pos 0) ≡ double.lt x y
  unfolding compare_double
  negative-lt x y = elim (Bool-cases (double.lt x y)) [
    | inl a ↦ rw a refl
    | inr a ↦ elim (Bool-cases (double.lt y x)) [ inl b ↦ rw (a, b) refl | inr b ↦ rw (a, b) refl ]
  ]

  compare_double-IsConsistent : IsConsistent (compare_double double)
  compare_double-IsConsistent = record {
    opposite = λ x y. positive-lt x y ∙ sym (negative-lt y x);
    chained = λ x y z a b.
        positive-lt x z
        ∙ order.at_least x y z (sym (positive-lt x y) ∙ a) (sym (positive-lt y z) ∙ b);
  }

  All-lt :
      (x : D) (xs : List D)
      → All (λ y. NotAfter (compare_double double) x y) xs
      → All (λ y. double.lt y x ≡ false) xs
  All-lt x [] h = tt
  All-lt x (y ∷ xs) h = (sym (positive-lt x y) ∙ h.0, All-lt x xs h.1)

  InOrderOf-IsSorted : (xs : List D) → InOrderOf (compare_double double) xs → IsSorted double xs
  InOrderOf-IsSorted [] h = tt
  InOrderOf-IsSorted (x ∷ xs) h = (All-lt x xs h.0, InOrderOf-IsSorted xs h.1)

  module _ (qsort : (D → D → ℤ) → List D → List D) (is : IsQsort qsort) where
    pub compare_double-Sorts : Sorts double (qsort (compare_double double))
    compare_double-Sorts = record {
      rearranges = is.rearranges (compare_double double) compare_double-IsConsistent;
      sorts = λ v.
          InOrderOf-IsSorted (qsort (compare_double double) v)
            (is.sorts (compare_double double) compare_double-IsConsistent v);
    }

    -- With compare_double given to a qsort that sorts by any consistent comparison, the median of an
    -- odd number of values is one of them, with at most half of them, rounded down, on each side. The
    -- median of an even number of values, not none, is the half of the sum of two of them, a lower
    -- and an upper one: less than half of the values are below the lower one or above the upper one,
    -- and at most half are above the lower one or below the upper one.
    pub median_of-Compared :
        (v : List D)
        → 0 < length v
        → ((m : D) × (length v % 2 ≡ 1)
            × (median_of double (qsort (compare_double double)) v ≡ some m)
            × Between double v (length v / 2) (length v / 2) m)
          ⊎ ((lo : D) × (hi : D) × (length v % 2 ≡ 0)
              × (median_of double (qsort (compare_double double)) v
                  ≡ some (double.halve (double.plus lo hi)))
              × Between double v (length v / 2 - 1) (length v / 2) lo
              × Between double v (length v / 2) (length v / 2 - 1) hi)
    median_of-Compared v some_in =
        median_of-Middle double order (qsort (compare_double double)) compare_double-Sorts v some_in
