-- ===== src/Grace/Steps/Readers.antt =====
-- The steps of the readers keep the invariant.
use comp.Shared.{
  ==_iff, ltb, ℕ, ◌≤◌, ◌<◌, ◌≡◌, ◌≢◌, refl, inl, inr, Option, none, some, arith, ◌==◌, update,
  Bool-cases,
}
use mathlib.Core.Path.{subst}
use comp.Rcu.{max_readers, Reader, rcu_unregister}
use comp.Rcu.Laws.{read_lock-IsInside, read_unlock-IsOutside, Registered, rcu_register_lem}
use comp.Table.{table_keys, Version, consistent}
use comp.Table.Laws.{IsWhole}
use comp.Grace.{
  Pc, gone, outside, entered, holding, loaded, checked, Upd, free_to_update, prepared, published,
  scanning, waiting, spinning, graced, reclaimed, System, read_at, join, quit, load,
}
use comp.Grace.Inv.{Heap, Block, Held, SlotOk, PhaseOk, Inv, update_both}

-- There is a whole version at `p`.
abbrev pub Live : Heap → ℕ → Type 0
Live h p = (v : Version) × (h p ≡ some v) × IsWhole v

Block-Live : {h : Heap} {a g : ℕ} → Block h a g → Live h a
Block-Live b = (b.version, b.at, b.whole)

-- What a reader may hold is allocated.
pub Held-Live :
    (s : System) (u : Upd) (i seq p : ℕ) → PhaseOk s u → Held s.cur u i seq p → Live s.heap p
Held-Live s free_to_update i seq p ok (inl e) = rw e (Block-Live ok.1.is_now)
Held-Live s free_to_update i seq p ok (inr h) = absurd h
Held-Live s (prepared old nv) i seq p ok (inl e) = rw (e, ok.1) (Block-Live ok.2.was)
Held-Live s (prepared old nv) i seq p ok (inr h) = absurd h
Held-Live s (published old nv) i seq p ok (inl e) = rw (e, ok.1) (Block-Live ok.2.is_now)
Held-Live s (published old nv) i seq p ok (inr e) = rw e (Block-Live ok.2.was)
Held-Live s (scanning old k ws) i seq p ok (inl e) = rw e (Block-Live ok.1.is_now)
Held-Live s (scanning old k ws) i seq p ok (inr h) = rw h.0 (Block-Live ok.1.was)
Held-Live s (waiting old ws) i seq p ok (inl e) = rw e (Block-Live ok.1.is_now)
Held-Live s (waiting old ws) i seq p ok (inr h) = rw h.0 (Block-Live ok.1.was)
Held-Live s (spinning old w ws) i seq p ok (inl e) = rw e (Block-Live ok.1.is_now)
Held-Live s (spinning old w ws) i seq p ok (inr h) = rw h.0 (Block-Live ok.1.was)
Held-Live s (graced old) i seq p ok (inl e) = rw e (Block-Live ok.1.is_now)
Held-Live s (graced old) i seq p ok (inr h) = absurd h
Held-Live s reclaimed i seq p ok (inl e) = rw e (Block-Live ok.1.is_now)
Held-Live s reclaimed i seq p ok (inr h) = absurd h

pub load-some :
    (s : System) (p : ℕ) (f : Version → System) (v : Version) → s.heap p ≡ some v → load s p f ≡ f v
load-some s p f v e = ground arith

module _ (s : System) (inv : Inv s) (i : ℕ) (fits : i < max_readers) where
  abbrev Slot : ℕ → Reader → Pc → Type 0
  Slot = SlotOk s.heap s.cur s.upd

  gone_above : (p : Pc) (j : ℕ) → max_readers ≤ j → update s.pc i p j ≡ gone
  gone_above p j h = ground (arith, inv.range j h)

  -- The thread of slot `i` stores into its reader and goes to `p`.
  enter :
      (r : Reader) (p : Pc)
      → Slot i r p
      → Inv (record s { readers = update s.readers i r; pc = update s.pc i p })
  enter r p ok = record {
    slots = update_both Slot s.readers s.pc i r p ok (λ j _. inv.slots j);
    phase = inv.phase;
    range = gone_above p;
    clean = inv.clean;
  }

  -- The thread of slot `i` goes to `p`.
  move : (p : Pc) → Slot i (s.readers i) p → Inv (record s { pc = update s.pc i p })
  move p ok = record { slots = at; phase = inv.phase; range = gone_above p; clean = inv.clean }
    where
      at : (j : ℕ) → Slot j (s.readers j) (update s.pc i p j)
      at j = elim (Bool-cases (i == j)) [
        | inl e ↦ let q : i ≡ j = ground arith in rw (e, ← q) ok
        | inr e ↦ rw e (inv.slots j)
      ]

  here : {p : Pc} → s.pc i ≡ p → Slot i (s.readers i) p
  here {p} e = subst (Slot i (s.readers i)) e (inv.slots i)

  pub read_at-Inv : (key : ℕ) → key < table_keys → (p : Pc) → s.pc i ≡ p → Inv (read_at s i key p)
  unfolding read_at consistent
  read_at-Inv key small gone e = inv
  read_at-Inv key small outside e = enter _ _ (read_lock-IsInside _ (here e), small)
  read_at-Inv key small (entered k) e =
      let ok = here e in move (holding k s.cur) (ok.0, ok.1, inl refl)
  read_at-Inv key small (holding k p) e =
      let ok = here e in
      let (v, at, whole) = Held-Live s s.upd i _ p inv.phase ok.2 in
      rw (load-some s p _ v at)
        (move (loaded k p (v.val k)) (ok.0, ok.1, ok.2, (v, at, whole k ok.1)))
  read_at-Inv key small (loaded k p x) e =
      let ok = here e in
      let (v, at, value) = ok.3 in
      rw (load-some s p _ v at) (move (checked x _) (ok.0, (==_iff _ _).1 value))
  read_at-Inv key small (checked x ok) e = enter _ _ (read_unlock-IsOutside _ (here e).0)

pub quit-Inv : (s : System) (i : ℕ) → s.pc i ≡ outside → Inv s → Inv (quit s i)
unfolding quit rcu_unregister
quit-Inv s i e inv = elim (Bool-cases (ltb i max_readers)) [
  | inl lt ↦ enter s inv i (ground arith) _ gone (refl, (here s inv i (ground arith) e).even)
  | inr ge ↦ let bad = inv.range i (ground arith) in cc
]

pub join-Inv : (s : System) → Inv s → Inv (join s)
unfolding join
join-Inv s inv = go _ (rcu_register_lem s.readers)
  where
    go :
        (r : Option ℕ × (ℕ → Reader))
        → Registered s.readers r
        → Inv (
            let (slot, readers) = r in
            elim slot [
              | none ↦ s
              | some i ↦ record s { readers = readers; pc = update s.pc i outside }
            ])
    go (none, after) ok = inv
    go (some i, after) ok = record {
      slots = λ j. elim (Bool-cases (i == j)) [
        | inl q ↦ let e : i ≡ j = ground arith in rw (q, ← e) ok.1
        | inr q ↦ rw (q, ok.2 j (ground arith)) (inv.slots j)
      ];
      phase = inv.phase;
      range = λ j h. let far : i ≢ j = omega (arith, ok.0.below) in ground (arith, inv.range j h);
      clean = inv.clean;
    }
