-- ===== src/Analyze/Ends.antt =====
-- The two ends of a sorted array are the extremes of its values.
use comp.Shared.{
  ℕ, zero, suc, ◌-◌, ◌≡◌, ◌<◌, false, List, [], ◌∷◌, All, length, get_elem?, some, arith, All-mem,
}
use mathlib.Core.Path.{subst}
use comp.Analyze.{Doubles, median_of}
use comp.Analyze.Order.{
  Ordered, IsSorted, Sorts, Rearranged, same, keep, swap, both, mem-Rearranged, length-Rearranged,
  get_elem?-in, get_elem?-mem, some_inj,
}
use comp.Analyze.Spread.{AtLeast, AtMost, Extremes}

pub All-Rearranged :
    {D : Type 0} (P : D → Type 0) {l r : List D} → Rearranged l r → All P r → All P l
All-Rearranged P same a = a
All-Rearranged P (keep x h) a = (a.0, All-Rearranged P h a.1)
All-Rearranged P (swap x y) a = (a.1.0, (a.0, a.1.1))
All-Rearranged P (both h k) a = All-Rearranged P h (All-Rearranged P k a)

module _ {D : Type 0} (double : Doubles D) (order : Ordered double) where
  -- The last of a sorted list.
  last-AtMost :
      (s : List D) (k : ℕ) (m : D)
      → IsSorted double s
      → get_elem? s k ≡ some m
      → suc k ≡ length s
      → AtMost double m s
  last-AtMost [] k m sorted e n = absurd (omega arith)
  last-AtMost (x ∷ []) zero m sorted e n =
      (subst (λ z. double.lt z x ≡ false) (some_inj e) (order.irreflexive x), tt)
  last-AtMost (x ∷ (y ∷ s)) zero m sorted e n = absurd (omega arith)
  last-AtMost (x ∷ s) (suc k) m sorted e n =
      let rest = last-AtMost s k m sorted.1 e (omega arith) in
      (All-mem (λ z. double.lt z x ≡ false) s m sorted.0 (get_elem?-mem s k e), rest)

  first-AtLeast :
      (s : List D) (m : D) → IsSorted double s → get_elem? s 0 ≡ some m → AtLeast double m s
  first-AtLeast [] m sorted e = tt
  first-AtLeast (x ∷ s) m sorted e =
      subst (λ z. AtLeast double z (x ∷ s)) (some_inj e) (order.irreflexive x, sorted.0)

  pub ends-Extremes :
      (qsort : List D → List D)
      → Sorts double qsort
      → (v : List D) → 0 < length v
      → (low : D) × (high : D) × (get_elem? (qsort v) 0 ≡ some low)
        × (get_elem? (qsort v) (length v - 1) ≡ some high)
        × Extremes double v v (low, high)
  ends-Extremes qsort sorts v h =
      let r = sorts.rearranges v in
      let s = sorts.sorts v in
      let n = length-Rearranged r in
      let (low, e) = get_elem?-in (qsort v) 0 (omega arith) in
      let (high, f) = get_elem?-in (qsort v) (length v - 1) (omega arith) in
      (
        low,
        high,
        e,
        f,
        record {
          low_in = mem-Rearranged low r (get_elem?-mem (qsort v) 0 e);
          high_in = mem-Rearranged high r (get_elem?-mem (qsort v) (length v - 1) f);
          least = All-Rearranged (λ y. double.lt y low ≡ false) r (first-AtLeast (qsort v) low s e);
          greatest =
              All-Rearranged (λ y. double.lt high y ≡ false) r
                (last-AtMost (qsort v) (length v - 1) high s f (omega arith));
        },
      )

module _ {D : Type 0} (double : Doubles D) (qsort : List D → List D) where
  -- A median and a spread of `v`.
  pub record Measured (v : List D) (med spread : D) : Type 0 where
    pub middle : median_of double qsort v ≡ some med
    pub low : D
    pub high : D
    pub extremes : Extremes double v v (low, high)
    pub difference : spread ≡ double.minus high low
