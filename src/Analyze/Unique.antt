-- ===== src/Analyze/Unique.antt =====
-- The maximal intervals of src/analyze.h are the only ones with their instants, so that scans with
-- different windows see the same episodes.
use mathlib.Core.Path.{subst}
use comp.Shared.{
  ℕ, ◌≡◌, refl, sym, ap, ◌∙◌, ◌≤◌, ◌<◌, Bool, true, false, List, [], ◌∷◌, arith, inl, inr,
  Bool-cases, ltb, leb, suc,
}
use comp.Analyze.{suc}
use comp.Analyze.Episodes.{Interval, Maximal, Apart, Apart-mono, within, within-before}

abbrev Same : List Interval → List Interval → Type 0
Same is js = (t : ℕ) → within t is ≡ within t js

within-first :
    (i : Interval) (is : List Interval) (lo : ℕ) → Apart lo (i ∷ is) → within i.0 (i ∷ is) ≡ true
within-first i is lo h = let k = h.1.0 in ground arith

within-end :
    (i : Interval) (is : List Interval) (lo : ℕ) → Apart lo (i ∷ is) → within i.1 (i ∷ is) ≡ false
within-end i is lo h =
    let k = h.1.0 in let z = within-before i.1 (suc i.1) is (omega arith) h.1.1 in ground arith

-- From the first instant of the first interval to its last.
within-inside :
    (i : Interval) (is : List Interval) (t : ℕ) → i.0 ≤ t → t < i.1 → within t (i ∷ is) ≡ true
within-inside i is t a b = ground arith

first_not_before :
    (i j : Interval) (is js : List Interval) (lo : ℕ)
    → Apart lo (i ∷ is)
    → Apart lo (j ∷ js)
    → Same (i ∷ is) (j ∷ js)
    → j.0 ≤ i.0
first_not_before i j is js lo h k same = elim (Bool-cases (ltb i.0 j.0)) [
  | inr n ↦ ground arith
  | inl y ↦
      let z : false ≡ true =
        sym (
          within-before i.0 j.0 (j ∷ js) (ground arith)
            (Apart-mono j.0 j.0 (j ∷ js) (omega arith) (omega arith, k.1)))
        ∙ sym (same i.0)
        ∙ within-first i is lo h in
      absurd (ground arith)
]

end_not_before :
    (i j : Interval) (is js : List Interval) (lo : ℕ)
    → Apart lo (i ∷ is)
    → Apart lo (j ∷ js)
    → Same (i ∷ is) (j ∷ js)
    → i.0 ≡ j.0
    → j.1 ≤ i.1
end_not_before i j is js lo h k same e = elim (Bool-cases (ltb i.1 j.1)) [
  | inr n ↦ ground arith
  | inl y ↦
      let a = h.1.0 in
      let z : false ≡ true =
        sym (within-end i is lo h)
        ∙ same i.1
        ∙ within-inside j js i.1 (omega arith) (ground arith) in
      absurd (ground arith)
]

Same-rest :
    (i : Interval) (is js : List Interval)
    → Apart (suc i.1) is
    → Apart (suc i.1) js
    → Same (i ∷ is) (i ∷ js)
    → Same is js
Same-rest i is js h k same t = elim (Bool-cases (leb t i.1)) [
  | inl y ↦
      let le : t ≤ i.1 = ground arith in
      within-before t (suc i.1) is (omega arith) h
      ∙ sym (within-before t (suc i.1) js (omega arith) k)
  | inr n ↦ let s = same t in ground arith
]

Apart-unique : (is js : List Interval) (lo : ℕ) → Apart lo is → Apart lo js → Same is js → is ≡ js
Apart-unique [] [] lo h k same = refl
Apart-unique [] (j ∷ js) lo h k same =
    let z : false ≡ true = same j.0 ∙ within-first j js lo k in absurd (ground arith)
Apart-unique (i ∷ is) [] lo h k same =
    let z : true ≡ false = sym (within-first i is lo h) ∙ same i.0 in absurd (ground arith)
Apart-unique (i ∷ is) (j ∷ js) lo h k same =
    let back = λ (t : ℕ). sym (same t) in
    let a = first_not_before i j is js lo h k same in
    let b = first_not_before j i js is lo k h back in
    let starts : i.0 ≡ j.0 = omega arith in
    let c = end_not_before i j is js lo h k same starts in
    let d = end_not_before j i js is lo k h back (sym starts) in
    let ends : i.1 ≡ j.1 = omega arith in
    let e : j ≡ i = ap (λ x. (x, j.1)) (sym starts) ∙ ap (λ x. (i.0, x)) (sym ends) in
    let k' : Apart (suc i.1) js = subst (λ x. Apart (suc x.1) js) e k.1.1 in
    let same' : Same (i ∷ is) (i ∷ js) = subst (λ x. Same (i ∷ is) (x ∷ js)) e same in
    ap (λ l. i ∷ l) (Apart-unique is js (suc i.1) h.1.1 k' (Same-rest i is js h.1.1 k' same'))
    ∙ ap (λ x. x ∷ js) (sym e)

pub Maximal-unique : (p : ℕ → Bool) (is js : List Interval) → Maximal p is → Maximal p js → is ≡ js
Maximal-unique p is js a b = Apart-unique is js 0 a.apart b.apart (λ t. sym (a.exact t) ∙ b.exact t)
