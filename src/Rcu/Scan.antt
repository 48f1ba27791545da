-- ===== src/Rcu/Scan.antt =====
-- What the scan of synchronize_rcu collects.
use comp.Shared.{
  ℕ, zero, suc, ◌+◌, ◌%◌, ◌≤◌, ◌<◌, ◌≡◌, ◌↔◌, ◌⊎◌, inl, inr, zero, suc, true, List, [], ◌∷◌, ◌++◌,
  arith, ◌==◌, Bool-cases, Mem, mem_last, mem_append_left, mem_append_last,
}
use comp.Rcu.{max_readers, Reader, Wait, sample, sample_all}

-- The entry that the scan makes for slot `i`.
abbrev pub wait_of : (ℕ → Reader) → ℕ → Wait
wait_of readers i = record { slot = i; seq = (readers i).seq }

abbrev pub InSection : Reader → Type 0
InSection r = (r.in_use ≡ true) × (r.seq % 2 ≡ 1)

InSection-cases : (r : Reader) → InSection r ⊎ ¬ InSection r
InSection-cases r = ground arith

sample_inside :
    (readers : ℕ → Reader) (i : ℕ) (ws : List Wait)
    → InSection (readers i)
    → sample readers i ws ≡ ws ++ (wait_of readers i ∷ [])
unfolding sample
sample_inside readers i ws h = ground arith

sample_outside :
    (readers : ℕ → Reader) (i : ℕ) (ws : List Wait)
    → ¬ InSection (readers i)
    → sample readers i ws ≡ ws
unfolding sample
sample_outside readers i ws h = ground arith

-- What one round of the scan adds, and that it keeps what it has.
pub sample-mem :
    (readers : ℕ → Reader) (i : ℕ) (ws : List Wait) (w : Wait)
    → Mem w (sample readers i ws) ↔ (Mem w ws ⊎ (InSection (readers i) × (w ≡ wait_of readers i)))
sample-mem readers i ws w = elim (InSection-cases (readers i)) [
  | inl h ↦ rw (sample_inside readers i ws h) (
    λ m. elim (mem_append_last w (wait_of readers i) ws m) [
      | inl old ↦ inl old
      | inr new ↦ inr (h, new)
    ],
    elim [
      | inl old ↦ mem_append_left w (wait_of readers i) ws old
      | inr new ↦ rw (new.1) (mem_last (wait_of readers i) ws)
    ],
  )
  | inr h ↦
      rw (sample_outside readers i ws h)
        (λ m. inl m, elim [ inl old ↦ old | inr new ↦ absurd (h new.0) ])
]

-- A sum whose first part is a sum, grouped anew.
regroup : {P Q R S T U : Type 0} → T ↔ (Q ⊎ S) → Q ↔ (P ⊎ R) → U ↔ (R ⊎ S) → T ↔ (P ⊎ U)
regroup outer inner split = (
  λ t. elim (outer.0 t) [
    | inl q ↦ elim (inner.0 q) [ inl p ↦ inl p | inr r ↦ inr (split.1 (inl r)) ]
    | inr s ↦ inr (split.1 (inr s))
  ],
  elim [
    | inl p ↦ outer.1 (inl (inner.1 (inl p)))
    | inr u ↦ elim (split.0 u) [ inl r ↦ outer.1 (inl (inner.1 (inr r))) | inr s ↦ outer.1 (inr s) ]
  ],
)

-- `w` names a reader of the `n` slots from `i` on that is in a section, with its counter.
abbrev pub Sampled : (ℕ → Reader) → ℕ → ℕ → Wait → Type 0
Sampled readers n i w =
    (i ≤ w.slot) × (w.slot < i + n) × InSection (readers w.slot) × (w.seq ≡ (readers w.slot).seq)

Sampled-suc :
    (readers : ℕ → Reader) (n i : ℕ) (w : Wait)
    → Sampled readers (suc n) i w
      ↔ ((InSection (readers i) × (w ≡ wait_of readers i)) ⊎ Sampled readers n (i + 1) w)
Sampled-suc readers n i w = (
  λ h. elim (Bool-cases (i == w.slot)) [
    | inl e ↦ inl (ground arith, ground arith)
    | inr e ↦ inr (ground arith, omega arith, h.2, h.3)
  ],
  elim [
    | inl (h, e) ↦ (ground arith, ground arith, ground arith, ground arith)
    | inr h ↦ (omega arith, omega arith, h.2, h.3)
  ],
)

-- The scan finds exactly the readers that are in a section, each with its counter.
sample_all-mem :
    (n i : ℕ) (readers : ℕ → Reader) (ws : List Wait) (w : Wait)
    → Mem w (sample_all n i readers ws) ↔ (Mem w ws ⊎ Sampled readers n i w)
unfolding sample_all
sample_all-mem zero i readers ws w = (λ m. inl m, elim [ inl m ↦ m | inr h ↦ absurd (omega arith) ])
sample_all-mem (suc n) i readers ws w =
    regroup (sample_all-mem n (i + 1) readers (sample readers i ws) w) (sample-mem readers i ws w)
      (Sampled-suc readers n i w)

-- The scan of all the slots, begun with no entry: it is in the list that results exactly if it
-- names a registered reader that is inside a section, with the counter of that section.
pub sample_all-exact :
    (readers : ℕ → Reader) (w : Wait)
    → Mem w (sample_all max_readers 0 readers []) ↔ Sampled readers max_readers 0 w
sample_all-exact readers w = (
  λ m. elim ((sample_all-mem max_readers 0 readers [] w).0 m) [ inl h ↦ absurd h | inr h ↦ h ],
  λ h. (sample_all-mem max_readers 0 readers [] w).1 (inr h),
)
