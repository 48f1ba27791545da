-- ===== src/Analyze/Median.antt =====
-- The place of `median_of` of src/analyze.c among the values.
use comp.Shared.{
  ◌⊎◌, ℕ, zero, suc, ◌+◌, ◌-◌, ◌/◌, ◌%◌, ◌≡◌, refl, ◌≤◌, ◌<◌, Bool, true, false, List, [], ◌∷◌, All,
  All-mem, Mem, length, ◌==◌, arith, some, get_elem?, ◌⊎◌, Bool-cases, inl, inr,
}
use mathlib.Core.Path.{subst}
use comp.Analyze.{Doubles, median_of}
use comp.Analyze.Order.{
  Ordered, count, count-Rearranged, length-Rearranged, mem-Rearranged, IsSorted, Sorts,
  get_elem?-mem, get_elem?-in, some_inj,
}

module _ {D : Type 0} (double : Doubles D) where
  abbrev below : D → D → Bool
  below m x = double.lt x m

  abbrev above : D → D → Bool
  above m x = double.lt m x

  count-none : (p : D → Bool) (l : List D) → All (λ y. p y ≡ false) l → count p l ≡ 0
  count-none p [] h = refl
  count-none p (x ∷ l) h = let ih = count-none p l h.1 in let f = h.0 in ground arith

  count_le : (p : D → Bool) (l : List D) → count p l ≤ length l
  count_le p [] = omega arith
  count_le p (x ∷ l) = let ih = count_le p l in ground arith

  -- `m` is one of `v`, with `k` of them at most below it and `j` at most above it.
  pub record Between (v : List D) (k j : ℕ) (m : D) : Type 0 where
    pub one_of : Mem m v
    pub few_below : count (below m) v ≤ k
    pub few_above : count (above m) v ≤ j

  module _ (order : Ordered double) where
    -- In a sorted list fewer than `k` elements come before the `k`-th, and the rest after it.
    count-below :
        (s : List D) (k : ℕ) (m : D)
        → IsSorted double s
        → get_elem? s k ≡ some m
        → count (below m) s ≤ k
    count-below [] k m h e = absurd (ground arith)
    count-below (x ∷ s) zero m h e =
        subst (λ z. count (below z) (x ∷ s) ≤ 0) (some_inj e)
          (omega (arith, count-none (below x) (x ∷ s) (order.irreflexive x, h.0)))
    count-below (x ∷ s) (suc k) m h e = let ih = count-below s k m h.1 e in ground arith

    count-above :
        (s : List D) (k : ℕ) (m : D)
        → IsSorted double s
        → get_elem? s k ≡ some m
        → count (above m) s + suc k ≤ length s
    count-above [] k m h e = absurd (ground arith)
    count-above (x ∷ s) zero m h e =
        let irr = order.irreflexive x in
        let small = count_le (above x) s in
        subst (λ z. count (above z) (x ∷ s) + 1 ≤ suc (length s)) (some_inj e) (ground arith)
    count-above (x ∷ s) (suc k) m h e =
        let ih = count-above s k m h.1 e in
        let low : double.lt m x ≡ false =
          All-mem (λ y. double.lt y x ≡ false) s m h.0 (get_elem?-mem s k e) in
        ground arith

    module _ (qsort : List D → List D) (sorts : Sorts double qsort) where
      pub sorted-Between :
          (v : List D) (k : ℕ)
          → k < length v
          → (m : D) × (get_elem? (qsort v) k ≡ some m) × Between v k (length v - suc k) m
      sorted-Between v k h =
          let r = sorts.rearranges v in
          let len = length-Rearranged r in
          let (m, e) = get_elem?-in (qsort v) k (omega arith) in
          (
            m,
            e,
            record {
              one_of = mem-Rearranged m r (get_elem?-mem (qsort v) k e);
              few_below = omega (
                arith,
                count-Rearranged (below m) r,
                count-below (qsort v) k m (sorts.sorts v) e,
              );
              few_above = omega (
                arith,
                count-Rearranged (above m) r,
                count-above (qsort v) k m (sorts.sorts v) e,
              );
            },
          )

      median_of-odd :
          (v : List D)
          → length v % 2 ≡ 1
          → (m : D) × (median_of double qsort v ≡ some m)
            × Between v (length v / 2) (length v / 2) m
      unfolding median_of
      median_of-odd v odd =
          let (m, e, b) = sorted-Between v (length v / 2) (omega arith) in
          let test : (length v % 2 == 1) ≡ true = ground arith in
          (
            m,
            rw test e,
            record {
              one_of = b.one_of;
              few_below = b.few_below;
              few_above = omega (arith, b.few_above);
            },
          )

      median_of-even :
          (v : List D)
          → length v % 2 ≡ 0
          → 0 < length v
          → (lo : D) × (hi : D) × (median_of double qsort v
              ≡ some (double.halve (double.plus lo hi)))
            × Between v (length v / 2 - 1) (length v / 2) lo
            × Between v (length v / 2) (length v / 2 - 1) hi
      unfolding median_of
      median_of-even v even some_in =
          let (lo, e, b) = sorted-Between v (length v / 2 - 1) (omega arith) in
          let (hi, f, c) = sorted-Between v (length v / 2) (omega arith) in
          let test : (length v % 2 == 1) ≡ false = ground arith in
          (
            lo,
            hi,
            rw (test, e, f) refl,
            record {
              one_of = b.one_of;
              few_below = b.few_below;
              few_above = omega (arith, b.few_above);
            },
            record {
              one_of = c.one_of;
              few_below = c.few_below;
              few_above = omega (arith, c.few_above);
            },
          )

      -- The median of an odd number of values is one of them, with at most half of them, rounded
      -- down, on each side. The median of an even number of values, not none, is the half of the
      -- sum of two of them, a lower and an upper one: less than half of the values are below the
      -- lower one or above the upper one, and at most half are above the lower one or below the
      -- upper one.
      pub median_of-Middle :
          (v : List D)
          → 0 < length v
          → ((m : D) × (length v % 2 ≡ 1)
              × (median_of double qsort v ≡ some m)
              × Between v (length v / 2) (length v / 2) m)
            ⊎ ((lo : D) × (hi : D) × (length v % 2 ≡ 0)
                × (median_of double qsort v ≡ some (double.halve (double.plus lo hi)))
                × Between v (length v / 2 - 1) (length v / 2) lo
                × Between v (length v / 2) (length v / 2 - 1) hi)
      median_of-Middle v some_in = elim (Bool-cases (length v % 2 == 1)) [
        | inl y ↦
            let odd : length v % 2 ≡ 1 = ground arith in
            let (m, e, b) = median_of-odd v odd in inl (m, odd, e, b)
        | inr n ↦
            let even : length v % 2 ≡ 0 = ground arith in
            let (lo, hi, e, b, c) = median_of-even v even some_in in inr (lo, hi, even, e, b, c)
      ]
