-- ===== src/Lifecycle/Paths.antt =====
-- Every way through a load of src/lifecycle.c, and what it leaves held.
use comp.Shared.{
  ◌∙◌, ◌≢◌, ltb, if◌then◌else◌, ℕ, ◌+◌, ◌-◌, ◌≡◌, sym, ap, refl, fun_ext, true, false, Option, none,
  some, ◌==◌, update, update_self, Bool-cases, Option-cases, inl, inr, ◌⊎◌, arith,
}
use mathlib.Core.Path.{subst}
use comp.Lifecycle.{
  Heap, State, Pointer, acquire, release, Loaded, failed, exit_module_model, attempt, after_c,
  after_b, after_a, init_module_model,
}

update_undo : (h : Heap) (p : ℕ) → h p ≡ false → update (update h p true) p false ≡ h
update_undo h p e = fun_ext (λ x. elim (Bool-cases (p == x)) [
  | inl y ↦ let q : p ≡ x = ground arith in rw y (sym (subst (λ z. h z ≡ false) q e))
  | inr n ↦ rw n refl
])

-- The state `t` with the memory `h` again, and one block less.
abbrev below : Heap → State → State
below h t = record { heap = h; live = t.live - 1; peak = t.peak }

-- Releasing the block acquired last.
release-last :
    (h : Heap) (p : ℕ) (t : State)
    → t.heap ≡ update h p true
    → h p ≡ false
    → release (some p) t ≡ some (below h t)
unfolding release
release-last h p t q e = rw (q, update_self h p true, update_undo h p e) refl

exit-blocks :
    (h : Heap) (a b c : ℕ) (t : State)
    → h a ≡ false
    → update h a true b ≡ false
    → update (update h a true) b true c ≡ false
    → t.heap ≡ update (update (update h a true) b true) c true
    → exit_module_model (some a) (some b) (some c) t
      ≡ some (below h (below (update h a true) (below (update (update h a true) b true) t)))
unfolding exit_module_model
exit-blocks h a b c t na nb nc ht =
    let t1 = below (update (update h a true) b true) t in
    let t2 = below (update h a true) t1 in
    rw
      (
        release-last (update (update h a true) b true) c t ht nc,
        release-last (update h a true) b t1 refl nb,
        release-last h a t2 refl na,
      )
      refl

-- What a load that has failed leaves: nothing.
pub record Unwound (s : State) (r : Loaded) (s' : State) : Type 0 where
  pub returned : r ≡ failed
  pub heap : s'.heap ≡ s.heap
  pub live : s'.live ≡ s.live

-- What a load has done that has succeeded with `fail_at` at `f`: it has taken three resources, which an unload gives back.
pub record Running (f : ℕ) (s : State) (r : Loaded) (s' : State) : Type 0 where
  pub returned : r.rc ≡ true
  pub unforced : (f ≢ 1) × (f ≢ 2) × (f ≢ 3)
  pub live : s'.live ≡ s.live + 3
  pub after : State
  pub unload : exit_module_model r.a r.b r.c s' ≡ some after
  pub heap_after : after.heap ≡ s.heap
  pub live_after : after.live ≡ s.live

abbrev pub Ended : ℕ → State → Option (Loaded × State) → Type 0
Ended f s o = (r : Loaded) × (s' : State) × (o ≡ some (r, s')) × (Unwound s r s' ⊎ Running f s r s')

module _ (malloc : Heap → Pointer) where
  attempt-cases :
      ((h : Heap) (p : ℕ) → malloc h ≡ some p → h p ≡ false)
      → (f k : ℕ) (s : State)
      → (attempt malloc f k s ≡ (none, s))
        ⊎ ((p : ℕ) × (peak : ℕ) × (f ≢ k)
            × (s.heap p ≡ false)
            × (attempt malloc f k s
                ≡ (some p, record { heap = update s.heap p true; live = s.live + 1; peak = peak })))
  unfolding acquire
  attempt-cases unused f k s = elim (Bool-cases (f == k)) [
    | inl y ↦ rw y (inl refl)
    | inr n ↦ rw n (elim (Option-cases (malloc s.heap)) [
      | inl e ↦ rw e (inl refl)
      | inr (p, e) ↦ rw e (
          inr (
            p,
            if ltb s.peak (s.live + 1) then s.live + 1 else s.peak,
            λ q. absurd (ground arith),
            unused s.heap p e,
            refl,
          ))
    ])
  ]

  module _ (unused : (h : Heap) (p : ℕ) → malloc h ≡ some p → h p ≡ false) where
    after_c-Ended :
        (f : ℕ) (s t : State) (a b : ℕ)
        → f ≢ 1
        → f ≢ 2
        → s.heap a ≡ false
        → update s.heap a true b ≡ false
        → t.heap ≡ update (update s.heap a true) b true
        → t.live ≡ s.live + 2
        → Ended f s (after_c malloc (some a) (some b) (attempt malloc f 3 t))
    unfolding after_c
    after_c-Ended f s t a b f1 f2 na nb ht lt = elim (attempt-cases unused f 3 t) [
      | inl e ↦
          let t1 = below (update s.heap a true) t in
          (
            failed,
            below s.heap t1,
            ap (after_c malloc (some a) (some b)) e
                ∙ rw
                    (
                      release-last (update s.heap a true) b t ht nb,
                      release-last s.heap a t1 refl na,
                    )
                    refl,
            inl (record { returned = refl; heap = refl; live = omega arith }),
          )
      | inr (c, k, f3, nc, e) ↦
          let u : State = record { heap = update t.heap c true; live = t.live + 1; peak = k } in
          (
            record { rc = true; a = some a; b = some b; c = some c },
            u,
            ap (after_c malloc (some a) (some b)) e,
            inr (record {
              returned = refl;
              unforced = (f1, f2, f3);
              live = omega arith;
              after =
                  below s.heap
                    (below (update s.heap a true) (below (update (update s.heap a true) b true) u));
              unload =
                  exit-blocks s.heap a b c u na nb (subst (λ h. h c ≡ false) ht nc)
                    (ap (λ h. update h c true) ht);
              heap_after = refl;
              live_after = omega arith;
            }),
          )
    ]

    after_b-Ended :
        (f : ℕ) (s t : State) (a : ℕ)
        → f ≢ 1
        → s.heap a ≡ false
        → t.heap ≡ update s.heap a true
        → t.live ≡ s.live + 1
        → Ended f s (after_b malloc f (some a) (attempt malloc f 2 t))
    unfolding after_b
    after_b-Ended f s t a f1 na ht lt = elim (attempt-cases unused f 2 t) [
      | inl e ↦ (
        failed,
        below s.heap t,
        ap (after_b malloc f (some a)) e ∙ rw (release-last s.heap a t ht na) refl,
        inl (record { returned = refl; heap = refl; live = omega arith }),
      )
      | inr (b, k, f2, nb, e) ↦
          subst (λ x. Ended f s (after_b malloc f (some a) x)) (sym e)
            (after_c-Ended f s (record { heap = update t.heap b true; live = t.live + 1; peak = k })
              a b f1 f2 na (subst (λ h. h b ≡ false) ht nb) (ap (λ h. update h b true) ht)
              (omega arith))
    ]

    -- Whatever acquisition is made to fail or fails of itself, `init_module_model` either reports
    -- failure and has left memory, the count of live resources and the three pointers as if it had
    -- taken nothing, or reports success with three resources held, and an unload then gives all
    -- three back.
    pub init_module_model-Ended : (f : ℕ) (s : State) → Ended f s (init_module_model malloc f s)
    unfolding init_module_model after_a
    init_module_model-Ended f s = elim (attempt-cases unused f 1 s) [
      | inl e ↦ (
        failed,
        s,
        ap (after_a malloc f) e,
        inl (record { returned = refl; heap = refl; live = refl }),
      )
      | inr (a, k, f1, na, e) ↦
          subst (λ x. Ended f s (after_a malloc f x)) (sym e)
            (after_b-Ended f s (record { heap = update s.heap a true; live = s.live + 1; peak = k })
              a f1 na refl (omega arith))
    ]
