-- ===== src/Lifecycle/Main.antt =====
-- The program's own run over all paths.
use comp.Shared.{◌>>=◌, ◌==◌, not, ap, ℕ, ◌≡◌, ◌∙◌, refl, false, some, inl, inr, ◌⊎◌, arith}
use comp.Lifecycle.{
  Heap, State, Pointer, Loaded, failed, exit_module_model, init_module_model, load_failing, main,
  Option, count, not,
}
use comp.Lifecycle.Paths.{init_module_model-Ended}

bind-some {ℓ κ} :
    {A : Type ℓ} {B : Type κ} (m : Option A) (f : A → Option B) (a : A) {r : Option B}
    → m ≡ some a
    → f a ≡ r
    → (m >>= f) ≡ r
bind-some m f a e q = ap (λ o. o >>= f) e ∙ q

module _ (malloc : Heap → Pointer)
    (unused : (h : Heap) (p : ℕ) → malloc h ≡ some p → h p ≡ false) where
  -- A load that is made to fail does, and leaves memory and the count of live resources alone.
  pub init_module_model-fails :
      (f : ℕ) (s : State)
      → (f ≡ 1) ⊎ (f ≡ 2) ⊎ (f ≡ 3)
      → (s' : State) × (init_module_model malloc f s ≡ some (failed, s'))
        × (s'.heap ≡ s.heap)
        × (s'.live ≡ s.live)
  init_module_model-fails f s h =
      let (r, s', e, o) = init_module_model-Ended malloc unused f s in
      elim o [
        | inl u ↦ (s', e ∙ ap (λ q. some (q, s')) u.returned, u.heap, u.live)
        | inr run ↦ let n = run.unforced in absurd (ground arith)
      ]

  load_failing-lem :
      (f : ℕ) (s : State)
      → (f ≡ 1) ⊎ (f ≡ 2) ⊎ (f ≡ 3)
      → s.live ≡ 0
      → (s' : State) × (load_failing malloc f (0, s) ≡ some (0, s'))
        × (s'.heap ≡ s.heap)
        × (s'.live ≡ 0)
  unfolding load_failing
  load_failing-lem f s h z =
      let (s', e, hh, l) = init_module_model-fails f s h in (s', rw (e, l ∙ z) refl, hh, l ∙ z)

  -- A load that is not made to fail, and the unload after it.
  load_unload :
      (s : State)
      → (r : Loaded) × (s1 : State) × (s2 : State) × (init_module_model malloc 0 s ≡ some (r, s1))
        × (exit_module_model r.a r.b r.c s1 ≡ some s2)
        × (s2.heap ≡ s.heap)
        × (s2.live ≡ s.live)
  unfolding exit_module_model
  load_unload s =
      let (r, s1, e, o) = init_module_model-Ended malloc unused 0 s in
      elim o [
        | inl u ↦ (r, s1, s1, e, rw u.returned refl, u.heap, u.live)
        | inr run ↦ (r, s1, run.after, e, run.unload, run.heap_after, run.live_after)
      ]

  -- With nothing live at the start, `main` counts no bad path, and has given back all memory, also
  -- where the allocator itself fails.
  pub main-clean :
      (s : State)
      → s.live ≡ 0
      → (s' : State) × (main malloc s ≡ some (0, s')) × (s'.heap ≡ s.heap) × (s'.live ≡ 0)
  unfolding main
  main-clean s z =
      let (r, s1, s2, e, u, h2, l2) = load_unload s in
      let z2 : s2.live ≡ 0 = l2 ∙ z in
      let (s3, e3, h3, z3) = load_failing-lem 1 s2 (inl refl) z2 in
      let (s4, e4, h4, z4) = load_failing-lem 2 s3 (inr (inl refl)) z3 in
      let (s5, e5, h5, z5) = load_failing-lem 3 s4 (inr (inr refl)) z4 in
      let e3' = ap (λ n. load_failing malloc 1 (count (not (n == 0)) 0, s2)) z2 ∙ e3 in
      let last : (x : ℕ × State) → Option (ℕ × State) = λ x. load_failing malloc 3 x in
      let rest : (x : ℕ × State) → Option (ℕ × State) = λ x. load_failing malloc 2 x >>= last in
      let done = bind-some (load_failing malloc 2 (0, s3)) last (0, s4) e4 e5 in
      let loads =
        bind-some (load_failing malloc 1 (count (not (s2.live == 0)) 0, s2)) rest (0, s3) e3'
          done in
      (
        s5,
        bind-some (init_module_model malloc 0 s) _ (r, s1) e
            (bind-some (exit_module_model r.a r.b r.c s1) _ s2 u loads),
        h5 ∙ h4 ∙ h3 ∙ h2,
        z5,
      )
