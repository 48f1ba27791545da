-- ===== src/Shared/Lists.antt =====
-- Lists measured and indexed by native numbers, membership by recursion, and a predicate on all.
use Prim.Native.Nat.{ℕ, zero, suc, ◌+◌}
use mathlib.Core.Path.{◌≡◌, refl, ap, subst, sym}
use mathlib.Core.Logic.{◌⊎◌, inl, inr, ◌↔◌}
use mathlib.Core.List.{List, [], ◌∷◌, ◌++◌}
use mathlib.Core.Option.{Option, none, some}
use native.Mathlib.Omega.{arith}

module _ {ℓ} {A : Type ℓ} where
  abbrev pub length : List A → ℕ
  length [] = 0
  length (x ∷ xs) = suc (length xs)

  abbrev pub get_elem? : List A → ℕ → Option A
  get_elem? [] i = none
  get_elem? (x ∷ xs) zero = some x
  get_elem? (x ∷ xs) (suc i) = get_elem? xs i

  abbrev pub get_or : List A → ℕ → A → A
  get_or [] i d = d
  get_or (x ∷ xs) zero d = x
  get_or (x ∷ xs) (suc i) d = get_or xs i d

  -- A write out of bounds changes nothing.
  abbrev pub set : List A → ℕ → A → List A
  set [] i v = []
  set (x ∷ xs) zero v = v ∷ xs
  set (x ∷ xs) (suc i) v = x ∷ set xs i v

  pub length-append : (xs ys : List A) → length (xs ++ ys) ≡ length xs + length ys
  length-append [] ys = omega arith
  length-append (x ∷ xs) ys = omega (arith, length-append xs ys)

  pub length-set : (xs : List A) (i : ℕ) (v : A) → length (set xs i v) ≡ length xs
  length-set [] i v = refl
  length-set (x ∷ xs) zero v = refl
  length-set (x ∷ xs) (suc i) v = ap suc (length-set xs i v)

module _ {A : Type 0} where
  -- Membership as a sum, which the tactics take apart.
  abbrev pub Mem : A → List A → Type 0
  Mem a [] = ⊥
  Mem a (x ∷ xs) = (a ≡ x) ⊎ Mem a xs

  pub mem_last : (a : A) (xs : List A) → Mem a (xs ++ (a ∷ []))
  mem_last a [] = inl refl
  mem_last a (x ∷ xs) = inr (mem_last a xs)

  pub mem_append_left : (a b : A) (xs : List A) → Mem a xs → Mem a (xs ++ (b ∷ []))
  mem_append_left a b [] m = absurd m
  mem_append_left a b (x ∷ xs) (inl e) = inl e
  mem_append_left a b (x ∷ xs) (inr m) = inr (mem_append_left a b xs m)

  pub mem_append_last : (a b : A) (xs : List A) → Mem a (xs ++ (b ∷ [])) → Mem a xs ⊎ (a ≡ b)
  mem_append_last a b [] (inl e) = inr e
  mem_append_last a b [] (inr m) = absurd m
  mem_append_last a b (x ∷ xs) (inl e) = inl (inl e)
  mem_append_last a b (x ∷ xs) (inr m) = elim (mem_append_last a b xs m) [
    | inl old ↦ inl (inr old)
    | inr new ↦ inr new
  ]

-- A predicate on every element, as a tuple.
abbrev pub All {ℓ κ} : {A : Type ℓ} → (A → Type κ) → List A → Type κ
All P [] = Unit
All P (x ∷ xs) = P x × All P xs

pub All-append {ℓ κ} :
    {A : Type ℓ} (P : A → Type κ) (xs ys : List A) → All P xs → All P ys → All P (xs ++ ys)
All-append P [] ys hx hy = hy
All-append P (x ∷ xs) ys hx hy = (hx.0, All-append P xs ys hx.1 hy)

pub All-mem : {A : Type 0} (P : A → Type 0) (xs : List A) (a : A) → All P xs → Mem a xs → P a
All-mem P [] a h m = absurd m
All-mem P (x ∷ xs) a h (inl e) = subst P (sym e) h.0
All-mem P (x ∷ xs) a h (inr m) = All-mem P xs a h.1 m

pub mem-append_iff :
    {A : Type 0} (a : A) (xs ys : List A) → Mem a (xs ++ ys) ↔ (Mem a xs ⊎ Mem a ys)
mem-append_iff a [] ys = (λ m. inr m, elim [ inl m ↦ absurd m | inr m ↦ m ])
mem-append_iff a (x ∷ xs) ys =
    let rest = mem-append_iff a xs ys in
    (
      elim [
        | inl e ↦ inl (inl e)
        | inr m ↦ elim (rest.0 m) [ inl l ↦ inl (inr l) | inr r ↦ inr r ]
      ],
      elim [
        | inl l ↦ elim l [ inl e ↦ inl e | inr m ↦ inr (rest.1 (inl m)) ]
        | inr r ↦ inr (rest.1 (inr r))
      ],
    )

pub List-cases {ℓ} :
    {A : Type ℓ} (xs : List A) → (xs ≡ []) ⊎ ((x : A) × (rest : List A) × (xs ≡ x ∷ rest))
List-cases [] = inl refl
List-cases (x ∷ xs) = inr (x, xs, refl)
