-- ===== src/Analyze/CompareTests.antt =====
-- A qsort that inserts, and the three values close to one another of tests/test_mine.c, in tenths.
use comp.Shared.{
  ℕ, ◌⊎◌, ◌%◌, ◌/◌, ◌-◌, ◌≡◌, refl, ◌∙◌, true, false, List, [], ◌∷◌, All, if◌then◌else◌, ltb_ℤ, ℤ,
  pos, negsuc, length, arith, inl, inr, some, Bool-cases,
}
use comp.Analyze.{median_of, compare_double}
use comp.Analyze.Order.{Rearranged, same, keep, swap, both}
use comp.Analyze.Median.{Between}
use comp.Analyze.Comparing.{NotAfter, IsConsistent, InOrderOf, IsQsort, median_of-Compared}
use comp.Analyze.Summary.{Summary}
use comp.Analyze.Tests.{whole, whole-Ordered}

module _ {D : Type 0} (compare : D → D → ℤ) where
  abbrev insert_by : D → List D → List D
  insert_by a [] = a ∷ []
  insert_by a (x ∷ xs) =
      let rest = insert_by a xs in if ltb_ℤ (pos 0) (compare a x) then x ∷ rest else a ∷ (x ∷ xs)

  abbrev qsort_by : List D → List D
  qsort_by [] = []
  qsort_by (x ∷ xs) = insert_by x (qsort_by xs)

  rearranged_self : (l : List D) → Rearranged l l
  rearranged_self [] = same
  rearranged_self (y ∷ l) = keep y (rearranged_self l)

  insert_by-Rearranged : (a : D) (l : List D) → Rearranged (a ∷ l) (insert_by a l)
  insert_by-Rearranged a [] = keep a same
  insert_by-Rearranged a (x ∷ xs) = elim (Bool-cases (ltb_ℤ (pos 0) (compare a x))) [
    | inl y ↦ rw y (both (swap a x) (keep x (insert_by-Rearranged a xs)))
    | inr n ↦ rw n (rearranged_self (a ∷ (x ∷ xs)))
  ]

  qsort_by-Rearranged : (l : List D) → Rearranged l (qsort_by l)
  qsort_by-Rearranged [] = same
  qsort_by-Rearranged (x ∷ xs) =
      both (keep x (qsort_by-Rearranged xs)) (insert_by-Rearranged x (qsort_by xs))

  insert_by-All : (P : D → Type 0) (a : D) (l : List D) → P a → All P l → All P (insert_by a l)
  insert_by-All P a [] p h = (p, tt)
  insert_by-All P a (x ∷ xs) p h = elim (Bool-cases (ltb_ℤ (pos 0) (compare a x))) [
    | inl y ↦ rw y (h.0, insert_by-All P a xs p h.1)
    | inr n ↦ rw n (p, h)
  ]

  module _ (consistent : IsConsistent compare) where
    -- One of two values may come first.
    NotAfter-other : (a x : D) → ltb_ℤ (pos 0) (compare a x) ≡ true → NotAfter compare x a
    NotAfter-other a x y = consistent.opposite x a ∙ negative (compare a x) y
      where
        negative : (z : ℤ) → ltb_ℤ (pos 0) z ≡ true → ltb_ℤ z (pos 0) ≡ false
        negative (pos n) h = ground arith
        negative (negsuc n) h = absurd (ground arith)

    All-NotAfter :
        (a x : D) (l : List D)
        → NotAfter compare a x
        → All (λ y. NotAfter compare x y) l
        → All (λ y. NotAfter compare a y) l
    All-NotAfter a x [] n h = tt
    All-NotAfter a x (y ∷ l) n h = (consistent.chained a x y n h.0, All-NotAfter a x l n h.1)

    insert_by-InOrderOf :
        (a : D) (l : List D) → InOrderOf compare l → InOrderOf compare (insert_by a l)
    insert_by-InOrderOf a [] h = (tt, tt)
    insert_by-InOrderOf a (x ∷ xs) h = elim (Bool-cases (ltb_ℤ (pos 0) (compare a x))) [
      | inl y ↦ rw y (
        insert_by-All (λ z. NotAfter compare x z) a xs (NotAfter-other a x y) h.0,
        insert_by-InOrderOf a xs h.1,
      )
      | inr n ↦ rw n ((n, All-NotAfter a x xs n h.0), h)
    ]

    qsort_by-InOrderOf : (l : List D) → InOrderOf compare (qsort_by l)
    qsort_by-InOrderOf [] = tt
    qsort_by-InOrderOf (x ∷ xs) = insert_by-InOrderOf x (qsort_by xs) (qsort_by-InOrderOf xs)

qsort_by-IsQsort : IsQsort (λ (compare : ℕ → ℕ → ℤ). qsort_by compare)
qsort_by-IsQsort = record {
  rearranges = λ compare c v. qsort_by-Rearranged compare v;
  sorts = λ compare c v. qsort_by-InOrderOf compare c v;
}

abbrev close : List ℕ
close = 20 ∷ (12 ∷ (18 ∷ []))

median_of-close : median_of whole (qsort_by (compare_double whole)) close ≡ some 18
unfolding median_of compare_double
median_of-close = refl

median_of-Compared_example :
    ((m : ℕ) × (length close % 2 ≡ 1)
      × (median_of whole (qsort_by (compare_double whole)) close ≡ some m)
      × Between whole close (length close / 2) (length close / 2) m)
    ⊎ ((lo : ℕ) × (hi : ℕ) × (length close % 2 ≡ 0)
        × (median_of whole (qsort_by (compare_double whole)) close
            ≡ some (whole.halve (whole.plus lo hi)))
        × Between whole close (length close / 2 - 1) (length close / 2) lo
        × Between whole close (length close / 2) (length close / 2 - 1) hi)
median_of-Compared_example =
    median_of-Compared whole whole-Ordered (λ compare. qsort_by compare) qsort_by-IsQsort close
      (omega arith)
