-- ===== src/Analyze/Tests.antt =====
-- The statistics of whole numbers, sorted by insertion.
use comp.Shared.{
  ℕ, ◌+◌, ◌-◌, ◌*◌, ◌/◌, ◌≡◌, refl, false, List, [], ◌∷◌, All, if◌then◌else◌, ltb, arith, inl, inr,
  some, Bool-cases,
}
use comp.Analyze.{Doubles, median_of, classify_latency}
use comp.Analyze.Order.{Ordered, Rearranged, same, keep, swap, both, IsSorted, Sorts}

abbrev pub whole : Doubles ℕ
whole = record {
  lt = ltb;
  plus = λ a b. a + b;
  minus = λ a b. a - b;
  times = λ a b. a * b;
  halve = λ a. a / 2;
  number = λ a. a;
  divide = λ a b. a / b;
}

pub whole-Ordered : Ordered whole
whole-Ordered = record {
  irreflexive = λ x. ground arith;
  asymmetric = λ x y h. ground arith;
  at_least = λ x y z h k. ground arith;
}

abbrev insert : ℕ → List ℕ → List ℕ
insert a [] = a ∷ []
insert a (x ∷ xs) = let rest = insert a xs in if ltb x a then x ∷ rest else a ∷ (x ∷ xs)

abbrev pub sort : List ℕ → List ℕ
sort [] = []
sort (x ∷ xs) = insert x (sort xs)

insert-Rearranged : (a : ℕ) (l : List ℕ) → Rearranged (a ∷ l) (insert a l)
insert-Rearranged a [] = keep a same
insert-Rearranged a (x ∷ xs) = elim (Bool-cases (ltb x a)) [
  | inl y ↦ rw y (both (swap a x) (keep x (insert-Rearranged a xs)))
  | inr n ↦ rw n (all-Rearranged (a ∷ (x ∷ xs)))
]
  where
    all-Rearranged : (l : List ℕ) → Rearranged l l
    all-Rearranged [] = same
    all-Rearranged (y ∷ l) = keep y (all-Rearranged l)

sort-Rearranged : (l : List ℕ) → Rearranged l (sort l)
sort-Rearranged [] = same
sort-Rearranged (x ∷ xs) = both (keep x (sort-Rearranged xs)) (insert-Rearranged x (sort xs))

insert-All : (P : ℕ → Type 0) (a : ℕ) (l : List ℕ) → P a → All P l → All P (insert a l)
insert-All P a [] p h = (p, tt)
insert-All P a (x ∷ xs) p h = elim (Bool-cases (ltb x a)) [
  | inl y ↦ rw y (h.0, insert-All P a xs p h.1)
  | inr n ↦ rw n (p, h)
]

All-higher :
    (a x : ℕ) (l : List ℕ)
    → ltb x a ≡ false
    → All (λ y. ltb y x ≡ false) l
    → All (λ y. ltb y a ≡ false) l
All-higher a x [] n h = tt
All-higher a x (y ∷ l) n h = let f = h.0 in (ground arith, All-higher a x l n h.1)

insert-IsSorted : (a : ℕ) (l : List ℕ) → IsSorted whole l → IsSorted whole (insert a l)
insert-IsSorted a [] h = (tt, tt)
insert-IsSorted a (x ∷ xs) h = elim (Bool-cases (ltb x a)) [
  | inl y ↦
      rw y (insert-All (λ z. ltb z x ≡ false) a xs (ground arith) h.0, insert-IsSorted a xs h.1)
  | inr n ↦ rw n ((n, All-higher a x xs n h.0), h)
]

sort-IsSorted : (l : List ℕ) → IsSorted whole (sort l)
sort-IsSorted [] = tt
sort-IsSorted (x ∷ xs) = insert-IsSorted x (sort xs) (sort-IsSorted xs)

pub sort-Sorts : Sorts whole sort
sort-Sorts = record { rearranges = sort-Rearranged; sorts = sort-IsSorted }

abbrev latencies : List ℕ
latencies = 30 ∷ (10 ∷ (50 ∷ (20 ∷ (40 ∷ []))))

abbrev four_latencies : List ℕ
four_latencies = 30 ∷ (10 ∷ (50 ∷ (20 ∷ [])))

median_of-five : median_of whole sort latencies ≡ some 30
unfolding median_of
median_of-five = refl

classify_latency-edge : classify_latency whole 300 30 ≡ false
unfolding classify_latency
classify_latency-edge = refl
