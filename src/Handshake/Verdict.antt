-- ===== src/Handshake/Verdict.antt =====
-- What the counts of `check_model` say of the executions.
use comp.Shared.{
  All, All-mem, List, [], ◌∷◌, ◌≤◌, ◌<◌, ◌≡◌, refl, suc, Bool-cases, arith, inl, inr, true, false,
  Mem, ◌↔◌, ◌⊎◌,
}
use comp.Handshake.{Order, Site, Model, State, ℕ}
use comp.Handshake.Explore.{
  Counts, complete, check_model, initial, no_counts, explore_fuel, count_end,
}
use comp.Handshake.Search.{tally, leaves, explore-leaves}
use mathlib.Core.Path.{subst}
use comp.Handshake.Rank.{rank}
use comp.Handshake.Persist.{Reach-uaf}
use comp.Handshake.Ends.{append, Reach, IsEnd, leaves-IsEnd, IsEnd-leaves, some-IsEnd}

-- A complete execution in which the reader read the freed version.
pub record IsUaf (t : State) : Type 0 where
  pub completed : complete t ≡ true
  pub read_freed : t.uaf ≡ true

count_end-IsUaf-cases : (t : State) (k : Counts) → IsUaf t ⊎ ((count_end t k).n_uaf ≡ k.n_uaf)
unfolding count_end
count_end-IsUaf-cases t k = elim (Bool-cases (complete t)) [
  | inl c ↦ elim (Bool-cases t.uaf) [
    | inl u ↦ inl (record { completed = c; read_freed = u })
    | inr n ↦ inr (ground arith)
  ]
  | inr c ↦ inr (ground arith)
]

count_end-IsUaf : (t : State) (k : Counts) → IsUaf t → k.n_uaf < (count_end t k).n_uaf
unfolding count_end
count_end-IsUaf t k u = let c = u.completed in let d = u.read_freed in ground arith

count_end-uaf_le : (t : State) (k : Counts) → k.n_uaf ≤ (count_end t k).n_uaf
unfolding count_end
count_end-uaf_le t k = ground arith

tally-uaf_le : (l : List State) (k : Counts) → k.n_uaf ≤ (tally l k).n_uaf
unfolding tally count_end
tally-uaf_le [] k = omega arith
tally-uaf_le (t ∷ l) k = ground (arith, tally-uaf_le l (count_end t k))

tally-stuck_le : (l : List State) (k : Counts) → k.n_stuck ≤ (tally l k).n_stuck
unfolding tally count_end
tally-stuck_le [] k = omega arith
tally-stuck_le (t ∷ l) k = ground (arith, tally-stuck_le l (count_end t k))

some-tally-IsUaf :
    (l : List State) (k : Counts) → k.n_uaf < (tally l k).n_uaf → (t : State) × Mem t l × IsUaf t
unfolding tally
some-tally-IsUaf [] k h = absurd (omega arith)
some-tally-IsUaf (t ∷ l) k h = elim (count_end-IsUaf-cases t k) [
  | inl u ↦ (t, inl refl, u)
  | inr e ↦ let (s, m, u) = some-tally-IsUaf l (count_end t k) (omega arith) in (s, inr m, u)
]

tally-IsUaf :
    (l : List State) (k : Counts) (t : State) → Mem t l → IsUaf t → k.n_uaf < (tally l k).n_uaf
unfolding tally
tally-IsUaf [] k t m u = absurd m
tally-IsUaf (s ∷ l) k t (inl e) u =
    let v : IsUaf s = subst IsUaf e u in
    omega (arith, count_end-IsUaf s k v, tally-uaf_le l (count_end s k))
tally-IsUaf (s ∷ l) k t (inr m) u =
    omega (arith, count_end-uaf_le s k, tally-IsUaf l (count_end s k) t m u)

count_end-stuck :
    (t : State) (k : Counts) → (complete t ≡ true) ⊎ (k.n_stuck < (count_end t k).n_stuck)
unfolding count_end
count_end-stuck t k = ground arith

count_end-complete :
    (t : State) (k : Counts) → complete t ≡ true → (count_end t k).n_stuck ≡ k.n_stuck
unfolding count_end
count_end-complete t k c = ground arith

tally-stuck :
    (l : List State) (k : Counts) → (tally l k).n_stuck ≡ k.n_stuck → All (λ t. complete t ≡ true) l
unfolding tally
tally-stuck [] k h = tt
tally-stuck (t ∷ l) k h = elim (count_end-stuck t k) [
  | inl c ↦ (c, tally-stuck l (count_end t k) (omega (arith, count_end-complete t k c)))
  | inr lt ↦ absurd (omega (arith, tally-stuck_le l (count_end t k)))
]

Nat-cases : (n : ℕ) → (n ≡ 0) ⊎ (0 < n)
Nat-cases n = omega arith

module _ (order : Site → Order) (model : Model) where
  abbrev ends : List State
  ends = leaves order model explore_fuel initial

  check_model-ends : check_model order model ≡ tally ends no_counts
  unfolding check_model
  check_model-ends = explore-leaves order model explore_fuel initial no_counts (omega arith)

  -- `check_model` counts an execution with a use after free exactly where some interleaving of
  -- the reader, the writer and their store buffers runs to its end, completes, and has one.
  pub check_model-n_uaf :
      (0 < (check_model order model).n_uaf) ↔ ((t : State) × IsEnd order model initial t × IsUaf t)
  check_model-n_uaf = rw check_model-ends (
    (λ h.
        let (t, m, u) = some-tally-IsUaf ends no_counts h in
        (t, leaves-IsEnd order model explore_fuel initial t m, u)),
    (λ x.
        tally-IsUaf ends no_counts x.0
          (IsEnd-leaves order model explore_fuel initial x.0 (omega arith) x.1) x.2),
  )

  -- Where `check_model` counts neither a use after free nor a stuck execution, no state that any
  -- interleaving reaches has read the freed version.
  pub check_model-safe :
      (check_model order model).n_uaf ≡ 0
      → (check_model order model).n_stuck ≡ 0
      → {t : State} → Reach order model initial t
      → t.uaf ≡ false
  check_model-safe hu hs {t} r = elim (Bool-cases t.uaf) [
    | inr n ↦ n
    | inl u ↦
        let (e, end) = some-IsEnd order model (suc (rank t)) t (omega arith) in
        let m =
          IsEnd-leaves order model explore_fuel initial e (omega arith)
            (record { reached = append order model r end.reached; stays = end.stays }) in
        let c =
          All-mem (λ w. complete w ≡ true) ends e
            (tally-stuck ends no_counts (rw check_model-ends at hs)) m in
        absurd (
          omega (
            arith,
            hu,
            check_model-n_uaf.1 (
              e,
              record { reached = append order model r end.reached; stays = end.stays },
              record { completed = c; read_freed = Reach-uaf order model end.reached u },
            ),
          ))
  ]

  -- Where nothing is stuck, the search counts a use after free exactly if one can be reached.
  pub check_model-Reach :
      (check_model order model).n_stuck ≡ 0
      → ((t : State) × Reach order model initial t × (t.uaf ≡ true))
        ↔ (0 < (check_model order model).n_uaf)
  check_model-Reach hs = (
    (λ x. elim (Nat-cases (check_model order model).n_uaf) [
      | inl z ↦ let safe = check_model-safe z hs x.1 in let u = x.2 in absurd (ground arith)
      | inr p ↦ p
    ]),
    (λ h. let (t, end, u) = check_model-n_uaf.0 h in (t, end.reached, u.read_freed)),
  )
