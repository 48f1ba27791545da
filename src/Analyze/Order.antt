-- ===== src/Analyze/Order.antt =====
-- The order of doubles, sorted lists, and rearrangements.
use comp.Shared.{
  ℕ, zero, suc, ◌≡◌, ◌∙◌, sym, ap, refl, ◌<◌, Bool, true, false, List, [], ◌∷◌, All, Mem, length,
  if◌then◌else◌, arith, inl, inr, none, some, get_elem?,
}
use comp.Analyze.{Doubles}

-- A linear order, up to ties.
pub record Ordered {D : Type 0} (double : Doubles D) : Type 0 where
  pub irreflexive : (x : D) → double.lt x x ≡ false
  pub asymmetric : (x y : D) → double.lt x y ≡ true → double.lt y x ≡ false
  pub at_least : (x y z : D) → double.lt y x ≡ false → double.lt z y ≡ false → double.lt z x ≡ false

-- The second list is the first in another order.
pub data Rearranged {D : Type 0} : List D → List D → Type 0 where
  same : Rearranged [] []
  keep : {l r : List D} (x : D) → Rearranged l r → Rearranged (x ∷ l) (x ∷ r)
  swap : {l : List D} (x y : D) → Rearranged (x ∷ (y ∷ l)) (y ∷ (x ∷ l))
  both : {l m r : List D} → Rearranged l m → Rearranged m r → Rearranged l r

abbrev pub count {ℓ} : {D : Type ℓ} → (D → Bool) → List D → ℕ
count p [] = 0
count p (x ∷ xs) = let rest = count p xs in if p x then suc rest else rest

pub count-Rearranged :
    {D : Type 0} (p : D → Bool) {l r : List D} → Rearranged l r → count p l ≡ count p r
count-Rearranged p same = refl
count-Rearranged p (keep x h) = ap (λ n. if p x then suc n else n) (count-Rearranged p h)
count-Rearranged p (swap x y) = ground arith
count-Rearranged p (both h k) = count-Rearranged p h ∙ count-Rearranged p k

pub length-Rearranged : {D : Type 0} {l r : List D} → Rearranged l r → length l ≡ length r
length-Rearranged same = refl
length-Rearranged (keep x h) = ap suc (length-Rearranged h)
length-Rearranged (swap x y) = refl
length-Rearranged (both h k) = length-Rearranged h ∙ length-Rearranged k

pub mem-Rearranged : {D : Type 0} (a : D) {l r : List D} → Rearranged l r → Mem a r → Mem a l
mem-Rearranged a same m = m
mem-Rearranged a (keep x h) (inl e) = inl e
mem-Rearranged a (keep x h) (inr m) = inr (mem-Rearranged a h m)
mem-Rearranged a (swap x y) (inl e) = inr (inl e)
mem-Rearranged a (swap x y) (inr (inl e)) = inl e
mem-Rearranged a (swap x y) (inr (inr m)) = inr (inr m)
mem-Rearranged a (both h k) m = mem-Rearranged a h (mem-Rearranged a k m)

module _ {D : Type 0} (double : Doubles D) where
  abbrev pub IsSorted : List D → Type 0
  IsSorted [] = Unit
  IsSorted (x ∷ xs) = All (λ y. double.lt y x ≡ false) xs × IsSorted xs

  -- What the C standard says of qsort with `compare_double`.
  pub record Sorts (qsort : List D → List D) : Type 0 where
    pub rearranges : (v : List D) → Rearranged v (qsort v)
    pub sorts : (v : List D) → IsSorted (qsort v)

pub some_inj : {D : Type 0} {x y : D} → some x ≡ some y → x ≡ y
some_inj {D} {x} e = ap (λ o. elim o [ none ↦ x | some z ↦ z ]) e

pub get_elem?-mem : {D : Type 0} (l : List D) (k : ℕ) {m : D} → get_elem? l k ≡ some m → Mem m l
get_elem?-mem [] k e = absurd (ground arith)
get_elem?-mem (x ∷ l) zero e = inl (some_inj (sym e))
get_elem?-mem (x ∷ l) (suc k) e = inr (get_elem?-mem l k e)

pub get_elem?-in :
    {D : Type 0} (l : List D) (k : ℕ) → k < length l → (m : D) × (get_elem? l k ≡ some m)
get_elem?-in [] k h = absurd (omega arith)
get_elem?-in (x ∷ l) zero h = (x, refl)
get_elem?-in (x ∷ l) (suc k) h = get_elem?-in l k (omega arith)
