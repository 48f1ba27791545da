-- ===== src/MsQueue/Crew.antt =====
-- One thread of src/msqueue.c moves, and the others keep their places.
use comp.Shared.{ℕ, ◌≡◌, List, Mem, Bool-cases, inl, inr, ◌≢◌, update, ◌==◌, arith}
use comp.MsQueue.Threads.{Doing}
use comp.MsQueue.View.{View, Place, Private, Keeps, Evolves, Place-keep}

pub record Crew (v : View) (at : ℕ → Doing) (given : List ℕ) : Type 0 where
  pub places : (i : ℕ) → Place v (at i)
  pub apart : (i j n : ℕ) → Keeps (at i) n → Keeps (at j) n → i ≡ j
  pub mine : (i n : ℕ) → Keeps (at i) n → Mem n given

-- What the thread that moves has for itself.
abbrev pub Rightful : (ℕ → Doing) → ℕ → List ℕ → Doing → Type 0
Rightful at i given d = (n : ℕ) → Keeps d n → Mem n given × ((j : ℕ) → i ≢ j → ¬ Keeps (at j) n)

pub Crew-Rightful :
    {v : View} {given : List ℕ} (at : ℕ → Doing) (i : ℕ) (d : Doing)
    → Crew v at given
    → ((n : ℕ) → Keeps d n → Keeps (at i) n)
    → Rightful at i given d
Crew-Rightful at i d c o n k = (c.mine i n (o n k), λ j ne other. ne (c.apart i j n (o n k) other))

module _ (v w : View) (at : ℕ → Doing) (given given' : List ℕ) (i : ℕ) (d : Doing)
    (c : Crew v at given) (e : Evolves v w) (grow : (n : ℕ) → Mem n given → Mem n given')
    (keep : (j n x : ℕ) → i ≢ j → Keeps (at j) n → Private v n x → Private w n x)
    (own : Rightful at i given' d) where
  apart_after : (j k n : ℕ) → Keeps (update at i d j) n → Keeps (update at i d k) n → j ≡ k
  apart_after j k n a b = elim (Bool-cases (i == j)) [
    | inl y ↦ elim (Bool-cases (i == k)) [
      | inl z ↦ ground arith
      | inr z ↦ absurd ((own n (rw y at a)).1 k (λ s. absurd (ground arith)) (rw z at b))
    ]
    | inr y ↦ elim (Bool-cases (i == k)) [
      | inl z ↦ absurd ((own n (rw z at b)).1 j (λ s. absurd (ground arith)) (rw y at a))
      | inr z ↦ c.apart j k n (rw y at a) (rw z at b)
    ]
  ]

  pub Crew-move : Place w d → Crew w (update at i d) given'
  Crew-move place = record {
    places = λ j. elim (Bool-cases (i == j)) [
      | inl y ↦ rw y place
      | inr z ↦
          rw z
            (Place-keep v w e (at j) (λ n x. keep j n x (λ s. absurd (ground arith))) (c.places j))
    ];
    apart = apart_after;
    mine = λ j n k. elim (Bool-cases (i == j)) [
      | inl y ↦ (own n (rw y at k)).0
      | inr z ↦ grow n (c.mine j n (rw z at k))
    ];
  }
