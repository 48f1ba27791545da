-- ===== src/MsQueue/Moves.antt =====
-- What one access of a thread in src/msqueue.c leaves behind.
use mathlib.Core.Path.{subst}
use comp.MsQueue.Accesses.{cas_tail-cases}
use comp.Shared.{ℕ, ◌≡◌, ◌⊎◌, List, some, Mem, true, update, inl, sym, inr, ◌∙◌, arith, ◌∷◌}
use comp.MsQueue.{Msqueue, Tagged, true, update, cas_tail}
use comp.MsQueue.Threads.{Doing, links, takes, with}
use comp.MsQueue.View.{View, Place, Keeps, Follows, Place-keep}
use comp.MsQueue.Crew.{Crew, Crew-Rightful, Crew-move}
use comp.MsQueue.Core.{Linked-after, Core, view, Evolves-refl, Core-retry, Evolves-tail, Core-tail}

-- The queue is in order and every thread at its place.
abbrev pub Good : Msqueue → (ℕ → Doing) → List ℕ → List ℕ → List ℕ → Type 0
Good q at given ins outs =
    (past : List ℕ) × (front : ℕ) × (rest : List ℕ) × Core q past front rest given ins outs
    × Crew (view q past front rest) at given

-- Or a pointer to freed memory has been followed.
abbrev pub After : (ℕ → Doing) → ℕ → List ℕ → List ℕ → List ℕ → Doing → Msqueue × Doing → Type 0
After at i given ins outs d x =
    (x.0.fault ≡ true)
    ⊎ Good x.0 (update at i x.1) given (with (links d x.1) ins) (with (takes d x.1) outs)

module _ (q : Msqueue) (past : List ℕ) (front : ℕ) (rest given ins outs : List ℕ)
    (c : Core q past front rest given ins outs) (at : ℕ → Doing)
    (w : Crew (view q past front rest) at given) (i : ℕ) (d : Doing)
    (own : (n : ℕ) → Keeps d n → Keeps (at i) n) where
  abbrev here : View
  here = view q past front rest

  -- The queue stays as it is.
  pub stays-Good : Place here d → Good q (update at i d) given ins outs
  stays-Good p = (
    past,
    front,
    rest,
    c,
    Crew-move here here at given given i d w (Evolves-refl q past front rest given ins outs c)
        (λ n m. m) (λ j n x ne k o. o) (Crew-Rightful at i d w own) p,
  )

  pub retry-Good :
      (r : ℕ) → Place here d → Good (record q { retries = r }) (update at i d) given ins outs
  retry-Good r p = (
    past,
    front,
    rest,
    Core-retry q past front rest given ins outs c r,
    Crew-move here here at given given i d w (Evolves-refl q past front rest given ins outs c)
        (λ n m. m) (λ j n x ne k o. o) (Crew-Rightful at i d w own) p,
  )

  tail-Good :
      (new : Tagged) (m : ℕ)
      → new.ptr ≡ some m
      → Mem m rest
      → Place here d
      → Good (record q { tail = new }) (update at i d) given ins outs
  tail-Good new m e inside p =
      let ev = Evolves-tail q past front rest given ins outs c new m e inside in
      let then_ = view (record q { tail = new }) past front rest in
      (
        past,
        front,
        rest,
        Core-tail q past front rest given ins outs c new m e inside,
        Crew-move here then_ at given given i d w ev (λ n m. m) (λ j n x ne k o. o)
            (Crew-Rightful at i d w own) (Place-keep here then_ ev d (λ n x k o. o) p),
      )

  -- A compare-and-swap of the tail.
  pub cas-Good :
      (old new : Tagged)
      → Follows here old.ptr new.ptr
      → Place here d
      → Good (cas_tail q old new) (update at i d) given ins outs
  cas-Good old new f p = elim (cas_tail-cases q old new) [
    | inl z ↦ subst (λ x. Good x (update at i d) given ins outs) (sym z) (stays-Good p)
    | inr won ↦
        let (t, is, k, (m, points, b)) = f in
        let (t', tail, l) = c.tail_in in
        let same : some t' ≡ some t = sym tail ∙ won.0 ∙ is in
        let e : t' ≡ t = ground arith in
        let live : Mem t (front ∷ rest) = subst (λ x. Mem x (front ∷ rest)) e l in
        subst (λ x. Good x (update at i d) given ins outs) (sym won.1)
          (tail-Good new m points (Linked-after q.heap front rest t m c.linked live (b live)) p)
  ]
