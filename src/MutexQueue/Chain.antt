-- ===== src/MutexQueue/Chain.antt =====
-- Linked lists on the heap of src/mutexqueue.c.
use comp.Shared.{
  ℕ, ◌≡◌, ◌≢◌, ◌∙◌, sym, refl, Option, none, some, List, [], ◌∷◌, ◌++◌, All, All-append, update,
  update_ne, arith, inl, inr, ◌⊎◌, Bool-cases, ◌==◌,
}
use mathlib.Core.Path.{subst}
use comp.MutexQueue.{Mnode, Heap}

-- A node with its address.
pub record Cell : Type 0 where
  pub at : ℕ
  pub held : ℕ

-- From `p` the nodes of `cs` in order, then the null pointer.
abbrev pub Chain : Heap → Option ℕ → List Cell → Type 0
Chain h p [] = p ≡ none
Chain h p (c ∷ cs) =
    (p ≡ some c.at)
    × ((next : Option ℕ) × (h c.at ≡ some (record { value = c.held; next = next }))
        × Chain h next cs)

abbrev pub Avoids : ℕ → List Cell → Type 0
Avoids a cs = All (λ c. a ≢ c.at) cs

abbrev pub Distinct : List Cell → Type 0
Distinct [] = Unit
Distinct (c ∷ cs) = Avoids c.at cs × Distinct cs

abbrev pub last_at : List Cell → Option ℕ
last_at [] = none
last_at (c ∷ []) = some c.at
last_at (c ∷ (d ∷ ds)) = last_at (d ∷ ds)

pub Chain-update :
    (h : Heap) (p : Option ℕ) (cs : List Cell) (a : ℕ) (o : Option Mnode)
    → Avoids a cs
    → Chain h p cs
    → Chain (update h a o) p cs
Chain-update h p [] a o v c = c
Chain-update h p (x ∷ cs) a o v c =
    (c.0, (c.1.0, update_ne h o v.0 ∙ c.1.1, Chain-update h c.1.0 cs a o v.1 c.1.2))

-- Memory that is not in use is in no list.
pub Chain-Avoids :
    (h : Heap) (p : Option ℕ) (cs : List Cell) (a : ℕ) → h a ≡ none → Chain h p cs → Avoids a cs
Chain-Avoids h p [] a e c = tt
Chain-Avoids h p (x ∷ cs) a e c =
    let at = c.1.1 in ((λ q. absurd (cc)), Chain-Avoids h c.1.0 cs a e c.1.2)

pub last_at-snoc : (cs : List Cell) (c : Cell) → last_at (cs ++ (c ∷ [])) ≡ some c.at
last_at-snoc [] c = refl
last_at-snoc (x ∷ []) c = refl
last_at-snoc (x ∷ (y ∷ cs)) c = last_at-snoc (y ∷ cs) c

pub Distinct-snoc :
    (cs : List Cell) (c : Cell) → Distinct cs → Avoids c.at cs → Distinct (cs ++ (c ∷ []))
Distinct-snoc [] c d v = (tt, tt)
Distinct-snoc (x ∷ cs) c d v = (
  All-append (λ y. x.at ≢ y.at) cs (c ∷ []) d.0 ((λ e. v.0 (sym e)), tt),
  Distinct-snoc cs c d.1 v.1,
)

-- The last node is one of the list.
pub last_at-Avoids : (cs : List Cell) (a t : ℕ) → Avoids a cs → last_at cs ≡ some t → a ≢ t
last_at-Avoids [] a t v e = ground arith
last_at-Avoids (x ∷ []) a t v e = ground arith
last_at-Avoids (x ∷ (y ∷ cs)) a t v e = last_at-Avoids (y ∷ cs) a t v.1 e

some_inj : {a b : ℕ} → some a ≡ some b → a ≡ b
some_inj e = ground arith

pub last-cases : (cs : List Cell) → (cs ≡ []) ⊎ ((t : ℕ) × (last_at cs ≡ some t))
last-cases [] = inl refl
last-cases (x ∷ []) = inr (x.at, refl)
last-cases (x ∷ (y ∷ cs)) = elim (last-cases (y ∷ cs)) [
  | inl e ↦ absurd (ground arith)
  | inr l ↦ inr l
]

pub Chain-last :
    (h : Heap) (p : Option ℕ) (cs : List Cell) (t : ℕ)
    → Chain h p cs
    → last_at cs ≡ some t
    → (n : Mnode) × (h t ≡ some n)
Chain-last h p [] t c e = absurd (ground arith)
Chain-last h p (x ∷ []) t c e = (
  record { value = x.held; next = c.1.0 },
  subst (λ a. h a ≡ some (record { value = x.held; next = c.1.0 })) (some_inj e) c.1.1,
)
Chain-last h p (x ∷ (y ∷ cs)) t c e = Chain-last h c.1.0 (y ∷ cs) t c.1.2 e

-- A new node behind the last one.
pub Chain-snoc :
    (h : Heap) (p : Option ℕ) (cs : List Cell) (t : ℕ) (n : Mnode) (c : Cell)
    → Chain h p cs
    → Distinct cs
    → Avoids c.at cs
    → last_at cs ≡ some t
    → h t ≡ some n
    → h c.at ≡ some (record { value = c.held; next = none })
    → Chain (update h t (some (record n { next = some c.at }))) p (cs ++ (c ∷ []))
Chain-snoc h p [] t n c ch d v e ht hc = absurd (ground arith)
Chain-snoc h p (x ∷ []) t n c ch d v e ht hc =
    let w = ch.1.1 in
    let same : x.at ≡ t = some_inj e in
    (
      ch.0,
      (
        some c.at,
        ground arith,
        (
          refl,
          (
            none,
            update_ne h (some (record n { next = some c.at })) (λ q. v.0 (sym (same ∙ q))) ∙ hc,
            refl,
          ),
        ),
      ),
    )
Chain-snoc h p (x ∷ (y ∷ cs)) t n c ch d v e ht hc = (
  ch.0,
  (
    ch.1.0,
    update_ne h (some (record n { next = some c.at }))
          (λ q. last_at-Avoids (y ∷ cs) x.at t d.0 e (sym q))
        ∙ ch.1.1,
    Chain-snoc h ch.1.0 (y ∷ cs) t n c ch.1.2 d.1 v.1 e ht hc,
  ),
)

-- Where the nodes of a list are all that is allocated, this holds of the rest once the first is
-- freed.
pub free-only :
    (h : Heap) (c : Cell) (cs : List Cell)
    → ((b : ℕ) → Avoids b (c ∷ cs) → h b ≡ none)
    → (b : ℕ) → Avoids b cs
    → update h c.at none b ≡ none
free-only h c cs only b v = elim (Bool-cases (c.at == b)) [
  | inl e ↦ rw e refl
  | inr e ↦ rw e (only b ((λ q. absurd (ground arith)), v))
]
