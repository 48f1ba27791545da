-- ===== src/Lifecycle/Tests.antt =====
-- Loads and unloads with an allocator over three addresses.
use comp.Shared.{
  ℕ, ◌≡◌, refl, Bool, true, false, Option, none, some, inl, inr, if◌then◌else◌, Bool-cases, arith,
}
use mathlib.Core.Path.{subst}
use comp.Lifecycle.{Heap, State, Pointer, Loaded, init_module_model}
use comp.Lifecycle.Paths.{Ended, init_module_model-Ended}

abbrev first_free : Heap → Pointer
first_free h = if h 0 then (if h 1 then (if h 2 then none else some 2) else some 1) else some 0

first_free-unused : (h : Heap) (p : ℕ) → first_free h ≡ some p → h p ≡ false
first_free-unused h p e = elim (Bool-cases (h 0)) [
  | inr n ↦
      let q : some 0 ≡ some p = rw (first_free, n) at e in
      let r : 0 ≡ p = ground arith in subst (λ b. h b ≡ false) r n
  | inl y ↦ elim (Bool-cases (h 1)) [
    | inr n ↦
        let q : some 1 ≡ some p = rw (first_free, y, n) at e in
        let r : 1 ≡ p = ground arith in subst (λ b. h b ≡ false) r n
    | inl z ↦ elim (Bool-cases (h 2)) [
      | inr n ↦
          let q : some 2 ≡ some p = rw (first_free, y, z, n) at e in
          let r : 2 ≡ p = ground arith in subst (λ b. h b ≡ false) r n
      | inl w ↦ absurd (ground arith)
    ]
  ]
]

abbrev nothing_held : State
nothing_held = record { heap = λ a. false; live = 0; peak = 0 }

abbrev rc_of : Option (Loaded × State) → Bool
rc_of none = false
rc_of (some x) = x.0.rc

load_0-succeeds : rc_of (init_module_model first_free 0 nothing_held) ≡ true
unfolding init_module_model
load_0-succeeds = refl

load_3-fails : rc_of (init_module_model first_free 3 nothing_held) ≡ false
unfolding init_module_model
load_3-fails = refl

init_module_model-Ended_example : Ended 3 nothing_held (init_module_model first_free 3 nothing_held)
init_module_model-Ended_example =
    init_module_model-Ended first_free first_free-unused 3 nothing_held
