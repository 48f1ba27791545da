-- ===== src/CopyGuard/Copies.antt =====
-- What a copy of src/copyguard.c does to a region, byte by byte.
use comp.Shared.{
  ℕ, zero, suc, ◌≡◌, ◌≢◌, ◌≤◌, ◌<◌, refl, ap, length, get_or, set, List, [], ◌∷◌, ◌++◌, arith, All,
}
use comp.CopyGuard.{memcpy, drop, strlen}

-- Below `n` a copy of `n` bytes gives the source's byte.
pub get_or-memcpy-copied :
    (n i : ℕ) (dst src : List ℕ)
    → i < n
    → n ≤ length dst
    → n ≤ length src
    → get_or (memcpy n dst src) i 0 ≡ get_or src i 0
unfolding memcpy
get_or-memcpy-copied zero i dst src h hd hs = absurd (omega arith)
get_or-memcpy-copied (suc n) i [] src h hd hs = absurd (omega arith)
get_or-memcpy-copied (suc n) i (d ∷ dst) [] h hd hs = absurd (omega arith)
get_or-memcpy-copied (suc n) zero (d ∷ dst) (s ∷ src) h hd hs = refl
get_or-memcpy-copied (suc n) (suc i) (d ∷ dst) (s ∷ src) h hd hs =
    get_or-memcpy-copied n i dst src (omega arith) (omega arith) (omega arith)

-- From `n` on it changes nothing.
pub get_or-memcpy-kept :
    (n i : ℕ) (dst src : List ℕ) → n ≤ i → get_or (memcpy n dst src) i 0 ≡ get_or dst i 0
unfolding memcpy
get_or-memcpy-kept zero i dst src h = refl
get_or-memcpy-kept (suc n) i [] src h = refl
get_or-memcpy-kept (suc n) i (d ∷ dst) [] h = refl
get_or-memcpy-kept (suc n) zero (d ∷ dst) (s ∷ src) h = absurd (omega arith)
get_or-memcpy-kept (suc n) (suc i) (d ∷ dst) (s ∷ src) h =
    get_or-memcpy-kept n i dst src (omega arith)

pub length-memcpy : (n : ℕ) (dst src : List ℕ) → length (memcpy n dst src) ≡ length dst
unfolding memcpy
length-memcpy zero dst src = refl
length-memcpy (suc n) [] src = refl
length-memcpy (suc n) (d ∷ dst) [] = refl
length-memcpy (suc n) (d ∷ dst) (s ∷ src) = ap suc (length-memcpy n dst src)

pub drop-memcpy : (n k : ℕ) (dst src : List ℕ) → n ≤ k → drop k (memcpy n dst src) ≡ drop k dst
unfolding memcpy
drop-memcpy zero k dst src h = refl
drop-memcpy (suc n) zero dst src h = absurd (omega arith)
drop-memcpy (suc n) (suc k) [] src h = refl
drop-memcpy (suc n) (suc k) (d ∷ dst) [] h = refl
drop-memcpy (suc n) (suc k) (d ∷ dst) (s ∷ src) h = drop-memcpy n k dst src (omega arith)

pub drop-set : (l : List ℕ) (i k v : ℕ) → i < k → drop k (set l i v) ≡ drop k l
drop-set [] i k v h = refl
drop-set (x ∷ l) i zero v h = absurd (omega arith)
drop-set (x ∷ l) zero (suc k) v h = refl
drop-set (x ∷ l) (suc i) (suc k) v h = drop-set l i k v (omega arith)

pub get_or-set-other : (l : List ℕ) (i j v : ℕ) → i ≢ j → get_or (set l i v) j 0 ≡ get_or l j 0
get_or-set-other [] i j v h = refl
get_or-set-other (x ∷ l) zero zero v h = absurd (h refl)
get_or-set-other (x ∷ l) zero (suc j) v h = refl
get_or-set-other (x ∷ l) (suc i) zero v h = refl
get_or-set-other (x ∷ l) (suc i) (suc j) v h = get_or-set-other l i j v (λ e. h (ap suc e))

-- The bytes past the first `n` of the source do not matter.
pub memcpy-prefix :
    (n : ℕ) (dst s t u : List ℕ) → n ≤ length s → memcpy n dst (s ++ t) ≡ memcpy n dst (s ++ u)
unfolding memcpy
memcpy-prefix zero dst s t u h = refl
memcpy-prefix (suc n) [] s t u h = refl
memcpy-prefix (suc n) (d ∷ dst) [] t u h = absurd (omega arith)
memcpy-prefix (suc n) (d ∷ dst) (x ∷ s) t u h =
    ap (λ l. x ∷ l) (memcpy-prefix n dst s t u (omega arith))

-- A terminated copy of bytes, none of them zero, is a string of their number.
pub strlen-memcpy :
    (n : ℕ) (dst src : List ℕ)
    → n < length dst
    → n ≤ length src
    → All (λ b. b ≢ 0) src
    → strlen (set (memcpy n dst src) n 0) ≡ n
unfolding memcpy strlen
strlen-memcpy zero [] src hd hs nz = refl
strlen-memcpy zero (d ∷ dst) src hd hs nz = refl
strlen-memcpy (suc n) [] src hd hs nz = absurd (omega arith)
strlen-memcpy (suc n) (d ∷ dst) [] hd hs nz = absurd (omega arith)
strlen-memcpy (suc n) (d ∷ dst) (s ∷ src) hd hs nz =
    let ih = strlen-memcpy n dst src (omega arith) (omega arith) nz.1 in
    let z = nz.0 in ground arith

-- A terminated region is a string that ends there at the latest.
pub strlen-set : (l : List ℕ) (n : ℕ) → n < length l → strlen (set l n 0) ≤ n
unfolding strlen
strlen-set [] n h = absurd (omega arith)
strlen-set (x ∷ l) zero h = omega arith
strlen-set (x ∷ l) (suc n) h = let ih = strlen-set l n (omega arith) in ground arith
