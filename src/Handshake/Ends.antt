-- ===== src/Handshake/Ends.antt =====
-- The executions of the handshake as paths, and the ends that the search lists.
use comp.Shared.{
  All-mem, List, [], ◌∷◌, ◌<◌, ◌≡◌, refl, ℕ, zero, suc, arith, inl, inr, Mem, mem-append_iff, ◌⊎◌,
  List-cases,
}
use mathlib.Core.Path.{subst}
use comp.Handshake.{Order, Site, Model, State, moves}
use comp.Handshake.Rank.{rank, moves-Lower}
use comp.Handshake.Search.{gather, leaves, leaves-end, leaves-moves}

module _ (order : Site → Order) (model : Model) where
  abbrev pub Move : State → State → Type 0
  Move s t = Mem t (moves order model s)

  -- The states that some interleaving leads to.
  pub data Reach (s : State) : State → Type 0 where
    here : Reach s s
    next : {t u : State} → Reach s t → Move t u → Reach s u

  -- `t` is the end of an execution from `s`.
  pub record IsEnd (s t : State) : Type 0 where
    pub reached : Reach s t
    pub stays : moves order model t ≡ []

  pub prepend : {s c t : State} → Move s c → Reach c t → Reach s t
  prepend m here = next here m
  prepend m (next r n) = next (prepend m r) n

  pub append : {s t u : State} → Reach s t → Reach t u → Reach s u
  append r here = r
  append r (next q m) = next (append r q) m

  first-Move : {s t : State} → Reach s t → (t ≡ s) ⊎ ((c : State) × Move s c × Reach c t)
  first-Move here = inl refl
  first-Move {s} (next {t} {u} r m) = elim (first-Move r) [
    | inl e ↦ inr (u, subst (λ w. Move w u) e m, here)
    | inr (c, n, q) ↦ inr (c, n, next q m)
  ]

  gather-mem :
      (f : State → List State) (cs : List State) (t : State)
      → Mem t (gather f cs)
      → (c : State) × Mem c cs × Mem t (f c)
  gather-mem f [] t m = absurd m
  gather-mem f (c ∷ cs) t m = elim ((mem-append_iff t (f c) (gather f cs)).0 m) [
    | inl h ↦ (c, inl refl, h)
    | inr h ↦ let (d, n, q) = gather-mem f cs t h in (d, inr n, q)
  ]

  mem-gather :
      (f : State → List State) (cs : List State) (c t : State)
      → Mem c cs
      → Mem t (f c)
      → Mem t (gather f cs)
  mem-gather f [] c t n h = absurd n
  mem-gather f (d ∷ cs) c t (inl e) h =
      (mem-append_iff t (f d) (gather f cs)).1 (inl (subst (λ w. Mem t (f w)) e h))
  mem-gather f (d ∷ cs) c t (inr n) h =
      (mem-append_iff t (f d) (gather f cs)).1 (inr (mem-gather f cs c t n h))

  lower : (s c : State) → Move s c → rank c < rank s
  lower s c m = All-mem (λ t. rank t < rank s) (moves order model s) c (moves-Lower order model s) m

  pub leaves-IsEnd : (f : ℕ) (s t : State) → Mem t (leaves order model f s) → IsEnd s t
  unfolding leaves
  leaves-IsEnd zero s t m = absurd m
  leaves-IsEnd (suc f) s t m = elim (List-cases (moves order model s)) [
    | inl e ↦ elim (rw (leaves-end order model f s e) at m) [
      | inl q ↦ rw q (record { reached = here; stays = e })
      | inr h ↦ absurd h
    ]
    | inr (c, cs, e) ↦
        let (d, n, q) =
          gather-mem (leaves order model f) (moves order model s) t
            (rw (leaves-moves order model f s c cs e) at m) in
        let end = leaves-IsEnd f d t q in
        record { reached = prepend n end.reached; stays = end.stays }
  ]

  pub IsEnd-leaves : (f : ℕ) (s t : State) → rank s < f → IsEnd s t → Mem t (leaves order model f s)
  IsEnd-leaves zero s t h end = absurd (omega arith)
  IsEnd-leaves (suc f) s t h end = elim (first-Move end.reached) [
    | inl q ↦
        let e : moves order model s ≡ [] = subst (λ w. moves order model w ≡ []) q end.stays in
        rw (leaves-end order model f s e) (inl q)
    | inr (c, n, r) ↦ elim (List-cases (moves order model s)) [
      | inl e ↦ absurd (rw e at n)
      | inr (d, ds, e) ↦ rw (leaves-moves order model f s d ds e) (
          mem-gather (leaves order model f) (moves order model s) c t n (
            IsEnd-leaves f c t (omega (arith, lower s c n))
              (record { reached = r; stays = end.stays })))
    ]
  ]

  -- Every state can be run to an end.
  pub some-IsEnd : (f : ℕ) (s : State) → rank s < f → (t : State) × IsEnd s t
  some-IsEnd zero s h = absurd (omega arith)
  some-IsEnd (suc f) s h = elim (List-cases (moves order model s)) [
    | inl e ↦ (s, record { reached = here; stays = e })
    | inr (c, cs, e) ↦
        let n : Move s c = rw e (inl refl) in
        let (t, end) = some-IsEnd f c (omega (arith, lower s c n)) in
        (t, record { reached = prepend n end.reached; stays = end.stays })
  ]
