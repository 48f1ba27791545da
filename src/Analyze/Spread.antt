-- ===== src/Analyze/Spread.antt =====
-- The extremes of the values that `spread_of` of src/analyze.c is given.
use comp.Shared.{
  ◌≡◌, refl, false, List, [], ◌∷◌, All, Mem, if◌then◌else◌, inl, inr, some, Bool-cases,
}
use comp.Analyze.{Doubles, spread_loop, spread_of}
use comp.Analyze.Order.{Ordered}

module _ {D : Type 0} (double : Doubles D) where
  abbrev pub AtLeast : D → List D → Type 0
  AtLeast m l = All (λ y. double.lt y m ≡ false) l

  abbrev pub AtMost : D → List D → Type 0
  AtMost m l = All (λ y. double.lt m y ≡ false) l

  -- The least of one list and the greatest of another.
  pub record Extremes (l r : List D) (lowhigh : D × D) : Type 0 where
    pub low_in : Mem lowhigh.0 l
    pub high_in : Mem lowhigh.1 r
    pub least : AtLeast lowhigh.0 l
    pub greatest : AtMost lowhigh.1 r

  module _ (order : Ordered double) where
    low_step :
        (v low m : D) (vs : List D)
        → Mem m ((if double.lt v low then v else low) ∷ vs)
        → AtLeast m ((if double.lt v low then v else low) ∷ vs)
        → Mem m (low ∷ (v ∷ vs)) × AtLeast m (low ∷ (v ∷ vs))
    low_step v low m vs mem least = elim (Bool-cases (double.lt v low)) [
      | inl y ↦
          let a : double.lt v m ≡ false = rw y at least.0 in
          (
            elim (rw y at mem) [ inl e ↦ inr (inl e) | inr h ↦ inr (inr h) ],
            (order.at_least m v low a (order.asymmetric v low y), (a, least.1)),
          )
      | inr n ↦
          let a : double.lt low m ≡ false = rw n at least.0 in
          (
            elim (rw n at mem) [ inl e ↦ inl e | inr h ↦ inr (inr h) ],
            (a, (order.at_least m low v a n, least.1)),
          )
    ]

    pub high_step :
        (v high m : D) (vs : List D)
        → Mem m ((if double.lt high v then v else high) ∷ vs)
        → AtMost m ((if double.lt high v then v else high) ∷ vs)
        → Mem m (high ∷ (v ∷ vs)) × AtMost m (high ∷ (v ∷ vs))
    high_step v high m vs mem most = elim (Bool-cases (double.lt high v)) [
      | inl y ↦
          let a : double.lt m v ≡ false = rw y at most.0 in
          (
            elim (rw y at mem) [ inl e ↦ inr (inl e) | inr h ↦ inr (inr h) ],
            (order.at_least high v m (order.asymmetric high v y) a, (a, most.1)),
          )
      | inr n ↦
          let a : double.lt m high ≡ false = rw n at most.0 in
          (
            elim (rw n at mem) [ inl e ↦ inl e | inr h ↦ inr (inr h) ],
            (a, (order.at_least v high m n a, most.1)),
          )
    ]

    spread_loop-Extremes :
        (l : List D) (low high : D) → Extremes (low ∷ l) (high ∷ l) (spread_loop double l low high)
    unfolding spread_loop
    spread_loop-Extremes [] low high = record {
      low_in = inl refl;
      high_in = inl refl;
      least = (order.irreflexive low, tt);
      greatest = (order.irreflexive high, tt);
    }
    spread_loop-Extremes (v ∷ vs) low high =
        let low' = if double.lt v low then v else low in
        let high' = if double.lt high v then v else high in
        let ih = spread_loop-Extremes vs low' high' in
        let out = spread_loop double vs low' high' in
        let (a, b) = low_step v low out.0 vs ih.low_in ih.least in
        let (c, d) = high_step v high out.1 vs ih.high_in ih.greatest in
        record { low_in = a; high_in = c; least = b; greatest = d }

    -- For values that are ordered, `spread_of` gives the difference between one of them that none
    -- exceeds and one of them that exceeds none.
    pub spread_of-Extremes :
        (v : D) (vs : List D)
        → (lowhigh : D × D) × (spread_of double (v ∷ vs) ≡ some (double.minus lowhigh.1 lowhigh.0))
          × Extremes (v ∷ vs) (v ∷ vs) lowhigh
    unfolding spread_of
    spread_of-Extremes v vs = (spread_loop double vs v v, refl, spread_loop-Extremes vs v v)
