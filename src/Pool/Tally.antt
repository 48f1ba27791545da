-- ===== src/Pool/Tally.antt =====
-- Counting what the workers of src/workload.c have in hand.
use comp.Shared.{
  refl, ℕ, zero, suc, ◌+◌, ◌≡◌, ◌<◌, ◌≢◌, Bool, if◌then◌else◌, update, update_self, update_ne, ap,
  arith, List, [], ◌∷◌, ◌++◌, ◌==◌, Bool-cases, inl, inr, ◌≤◌,
}
use comp.Analyze.Order.{count}
use comp.Pool.{Station, looking, passing, starting, holding, serving, ending, counting, returned}

-- Over the first `n` workers.
abbrev pub tally : (Station → ℕ) → (ℕ → Station) → ℕ → ℕ
tally f at zero = 0
tally f at (suc n) = f (at n) + tally f at n

tally-above :
    (f : Station → ℕ) (at : ℕ → Station) (i n : ℕ) (st : Station)
    → n ≤ i
    → tally f (update at i st) n ≡ tally f at n
tally-above f at i zero st h = refl
tally-above f at i (suc n) st h =
    let ne : i ≢ n = λ e. absurd (ground arith) in
    omega (arith, ap f (update_ne at st ne), tally-above f at i n st (omega arith))

pub tally-update :
    (f : Station → ℕ) (at : ℕ → Station) (i n : ℕ) (st : Station)
    → i < n
    → tally f (update at i st) n + f (at i) ≡ tally f at n + f st
tally-update f at i zero st h = absurd (omega arith)
tally-update f at i (suc n) st h = elim (Bool-cases (i == n)) [
  | inl y ↦
      let e : i ≡ n = ground arith in
      omega (
        arith,
        ap f (update_self at i st),
        ap (λ k. f (update at i st k)) e,
        ap (λ k. f (at k)) e,
        tally-above f at i n st (omega arith),
      )
  | inr d ↦
      let ne : i ≢ n = λ e. absurd (ground arith) in
      omega (arith, ap f (update_ne at st ne), tally-update f at i n st (ground arith))
]

-- A task of `p` in the hands of a worker.
abbrev pub in_hand : (ℕ → Bool) → Station → ℕ
in_hand p looking = 0
in_hand p (passing t) = if p t then 1 else 0
in_hand p (starting t) = if p t then 1 else 0
in_hand p (holding t) = if p t then 1 else 0
in_hand p (serving t) = if p t then 1 else 0
in_hand p (ending t) = if p t then 1 else 0
in_hand p counting = 0
in_hand p returned = 0

abbrev pub counts : Station → ℕ
counts counting = 1
counts st = 0

pub count-append : (p : ℕ → Bool) (l r : List ℕ) → count p (l ++ r) ≡ count p l + count p r
count-append p [] r = omega arith
count-append p (x ∷ l) r = ground (arith, count-append p l r)
