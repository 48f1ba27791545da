-- ===== src/Handshake/Search.antt =====
-- What `explore` counts: the ends of all executions, each path once.
use comp.Shared.{
  All, length, List, [], ◌∷◌, ◌++◌, ◌+◌, ◌<◌, ◌≡◌, refl, ℕ, zero, suc, arith, foldl, if◌then◌else◌,
  List-cases, inl, inr, ap, length-append,
}
use comp.Handshake.{Order, Site, Model, State, moves, false}
use comp.Handshake.Explore.{Counts, count_end, moved, explore}
use comp.Handshake.Rank.{rank, moves-Lower}

-- The lists that `f` gives for each element, joined.
abbrev pub gather {ℓ} : {A B : Type ℓ} → (A → List B) → List A → List B
gather f [] = []
gather f (x ∷ xs) = f x ++ gather f xs

-- Count the end states `l` in turn.
unfoldable pub tally : List State → Counts → Counts
tally [] k = k
tally (t ∷ l) k = tally l (count_end t k)

tally-append : (l r : List State) (k : Counts) → tally (l ++ r) k ≡ tally r (tally l k)
unfolding tally
tally-append [] r k = refl
tally-append (t ∷ l) r k = tally-append l r (count_end t k)

abbrev total : Counts → ℕ
total k = k.n_exec + k.n_stuck

total-tally : (l : List State) (k : Counts) → total (tally l k) ≡ total k + length l
unfolding tally count_end
total-tally [] k = omega arith
total-tally (t ∷ l) k = ground (arith, total-tally l (count_end t k))

-- `s` itself where it has no moves, and otherwise what the moves give.
abbrev here_or : State → List State → List State → List State
here_or s [] below = s ∷ []
here_or s (c ∷ cs) below = below

module _ (order : Site → Order) (model : Model) where
  -- The states in which the executions from `s` end, in the order of the search.
  unfoldable pub leaves : ℕ → State → List State
  leaves zero s = []
  leaves (suc f) s = here_or s (moves order model s) (gather (leaves f) (moves order model s))

  abbrev go : ℕ → Counts → State → Counts
  go f k c = explore order model f c k

  -- What holds of the calls on the moves of a state, with fuel `f` for each.
  record Below (f : ℕ) : Type 0 where
    counts : (c : State) (k : Counts) → rank c < f → go f k c ≡ tally (leaves f c) k
    some_end : (c : State) → rank c < f → 0 < length (leaves f c)

  fold_tally :
      (f : ℕ)
      → Below f
      → (cs : List State) (k : Counts) → All (λ c. rank c < f) cs
      → foldl (go f) k cs ≡ tally (gather (leaves f) cs) k
  unfolding tally
  fold_tally f ih [] k h = refl
  fold_tally f ih (c ∷ cs) k h =
      rw (tally-append (leaves f c) (gather (leaves f) cs) k, ← ih.counts c k h.0)
        (fold_tally f ih cs (go f k c) h.1)

  -- The last step of `explore`, after the calls have left the counts `after`.
  close : State → Counts → Counts → Counts
  close s k after = if moved k after then after else count_end s after

  close-moved :
      (s : State) (k : Counts) (l : List State) → 0 < length l → close s k (tally l k) ≡ tally l k
  unfolding close
  close-moved s k l h = ground (arith, total-tally l k)

  moved_self : (k : Counts) → moved k k ≡ false
  moved_self k = ground arith

  close-end : (s : State) (k : Counts) → close s k k ≡ count_end s k
  unfolding close
  close-end s k = rw (moved_self k)

  explore-suc :
      (f : ℕ) (s : State) (k : Counts)
      → explore order model (suc f) s k ≡ close s k (foldl (go f) k (moves order model s))
  unfolding explore close
  explore-suc f s k = refl

  -- The two shapes of `leaves`, at an end and at a state that moves.
  pub leaves-end : (f : ℕ) (s : State) → moves order model s ≡ [] → leaves (suc f) s ≡ s ∷ []
  unfolding leaves
  leaves-end f s e = ap (λ ts. here_or s ts (gather (leaves f) ts)) e

  pub leaves-moves :
      (f : ℕ) (s c : State) (cs : List State)
      → moves order model s ≡ c ∷ cs
      → leaves (suc f) s ≡ gather (leaves f) (moves order model s)
  unfolding leaves
  leaves-moves f s c cs e = ap (λ ts. here_or s ts (gather (leaves f) (moves order model s))) e

  Lower-below :
      (f : ℕ) (s : State) (ts : List State)
      → rank s < suc f
      → All (λ t. rank t < rank s) ts
      → All (λ t. rank t < f) ts
  Lower-below f s [] h low = tt
  Lower-below f s (t ∷ ts) h low = (omega arith, Lower-below f s ts h low.1)

  Below-suc : (f : ℕ) → Below f → Below (suc f)
  unfolding tally
  Below-suc f ih = record { counts = counts; some_end = some_end }
    where
      lower : (s : State) → rank s < suc f → All (λ t. rank t < f) (moves order model s)
      lower s h = Lower-below f s (moves order model s) h (moves-Lower order model s)

      some_below :
          (s : State)
          → rank s < suc f
          → (c : State) (cs : List State) → moves order model s ≡ c ∷ cs
          → 0 < length (gather (leaves f) (moves order model s))
      some_below s h c cs e =
          let low : All (λ t. rank t < f) (c ∷ cs) = rw e at (lower s h) in
          rw e
            (omega (arith, length-append (leaves f c) (gather (leaves f) cs), ih.some_end c low.0))

      counts :
          (s : State) (k : Counts) → rank s < suc f → go (suc f) k s ≡ tally (leaves (suc f) s) k
      counts s k h =
          rw (explore-suc f s k, fold_tally f ih (moves order model s) k (lower s h))
            (elim (List-cases (moves order model s)) [
              | inl e ↦ rw (leaves-end f s e, e) (close-end s k)
              | inr (c, cs, e) ↦ rw (leaves-moves f s c cs e) (
                  close-moved s k (gather (leaves f) (moves order model s)) (some_below s h c cs e))
            ])

      some_end : (s : State) → rank s < suc f → 0 < length (leaves (suc f) s)
      some_end s h = elim (List-cases (moves order model s)) [
        | inl e ↦ rw (leaves-end f s e) (omega arith)
        | inr (c, cs, e) ↦ rw (leaves-moves f s c cs e) (some_below s h c cs e)
      ]

  Below-all : (f : ℕ) → Below f
  Below-all zero = record {
    counts = λ c k h. absurd (omega arith);
    some_end = λ c h. absurd (omega arith);
  }
  Below-all (suc f) = Below-suc f (Below-all f)

  -- With fuel above the rank `explore` counts each end of an execution, and nothing else.
  pub explore-leaves :
      (f : ℕ) (s : State) (k : Counts)
      → rank s < f
      → explore order model f s k ≡ tally (leaves f s) k
  explore-leaves f s k h = (Below-all f).counts s k h
