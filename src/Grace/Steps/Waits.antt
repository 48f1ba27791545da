-- ===== src/Grace/Steps/Waits.antt =====
-- The accesses of synchronize_rcu keep the invariant.
use comp.Shared.{
  sym, ltb, ℕ, ◌+◌, ◌≤◌, ◌≡◌, refl, ◌⊎◌, inl, inr, List, [], ◌∷◌, arith, ◌==◌, Bool-cases, Mem, ◌%◌,
}
use comp.Rcu.{max_readers, Wait, sample, still_inside}
use comp.Rcu.Laws.{IsInside}
use comp.Rcu.Scan.{sample-mem}
use comp.Grace.{published, scanning, waiting, spinning, graced, System, update_at}
use comp.Grace.Inv.{Inv, entry}
use comp.Grace.Steps.Kept.{slots_keep, phase_at}

module _ (s : System) (inv : Inv s) where
  pub synchronize-Inv :
      (a old nv : ℕ) → s.upd ≡ published old nv → Inv (update_at s a (published old nv))
  unfolding update_at
  synchronize-Inv a old nv e =
      let ok = phase_at s inv e in
      record {
        slots =
            slots_keep s inv (published old nv) s.heap s.cur (scanning old 0 []) e
              (λ i q lt ins. elim [ inl h ↦ inl h | inr h ↦ inr (h, inl (omega arith)) ])
              (λ i q h. refl);
        phase = (sym ok.1, rw (ok.1) ok.2);
        range = inv.range;
        clean = inv.clean;
      }

  pub scan-Inv :
      (a old k : ℕ) (ws : List Wait)
      → s.upd ≡ scanning old k ws
      → Inv (update_at s a (scanning old k ws))
  unfolding update_at
  scan-Inv a old k ws e = elim (Bool-cases (ltb k max_readers)) [
    | inl more ↦ rw more (record {
      slots =
          slots_keep s inv (scanning old k ws) s.heap s.cur
            (scanning old (k + 1) (sample s.readers k ws)) e
            (λ i q lt ins. elim [ inl h ↦ inl h | inr h ↦ inr (h.0, later i ins h.1) ])
            (λ i q h. refl);
      phase = phase_at s inv e;
      range = inv.range;
      clean = inv.clean;
    })
    | inr done ↦ rw done (record {
      slots =
          slots_keep s inv (scanning old k ws) s.heap s.cur (waiting old ws) e
            (λ i q lt ins. elim [
              | inl h ↦ inl h
              | inr h ↦ inr (h.0, elim h.1 [ inl far ↦ absurd (ground arith) | inr m ↦ m ])
            ])
            (λ i q h. refl);
      phase = phase_at s inv e;
      range = inv.range;
      clean = inv.clean;
    })
  ]
    where
      later :
          (i : ℕ)
          → IsInside (s.readers i)
          → (k ≤ i) ⊎ Mem (entry i (s.readers i).seq) ws
          → (k + 1 ≤ i) ⊎ Mem (entry i (s.readers i).seq) (sample s.readers k ws)
      later i ins (inr m) = inr ((sample-mem s.readers k ws _).1 (inl m))
      later i ins (inl le) = elim (Bool-cases (k == i)) [
        | inl q ↦
            let e : k ≡ i = ground arith in
            inr ((sample-mem s.readers k ws _).1 (inr (rw e (ins.in_use, ins.odd), rw e refl)))
        | inr q ↦ inl (ground arith)
      ]

  pub wait-Inv :
      (a old : ℕ) (ws : List Wait) → s.upd ≡ waiting old ws → Inv (update_at s a (waiting old ws))
  unfolding update_at
  wait-Inv a old [] e = record {
    slots =
        slots_keep s inv (waiting old []) s.heap s.cur (graced old) e
          (λ i q lt ins. elim [ inl h ↦ inl h | inr h ↦ absurd h.1 ]) (λ i q h. refl);
    phase = phase_at s inv e;
    range = inv.range;
    clean = inv.clean;
  }
  wait-Inv a old (w ∷ ws) e = elim (Bool-cases (w.seq % 2 == 0)) [
    | inl even ↦ rw even (record {
      slots =
          slots_keep s inv (waiting old (w ∷ ws)) s.heap s.cur (waiting old ws) e
            (λ i q lt ins. elim [
              | inl h ↦ inl h
              | inr h ↦ inr (
                h.0,
                elim h.1 [ inl is ↦ let odd = ins.odd in absurd (ground arith) | inr m ↦ m ],
              )
            ])
            (λ i q h. refl);
      phase = phase_at s inv e;
      range = inv.range;
      clean = inv.clean;
    })
    | inr odd ↦ rw odd (record {
      slots =
          slots_keep s inv (waiting old (w ∷ ws)) s.heap s.cur (spinning old w ws) e
            (λ i q lt ins h. h) (λ i q h. refl);
      phase = let ok = phase_at s inv e in (ok.0, ok.1, ground arith);
      range = inv.range;
      clean = inv.clean;
    })
  ]

  pub spin-Inv :
      (a old : ℕ) (w : Wait) (ws : List Wait)
      → s.upd ≡ spinning old w ws
      → Inv (update_at s a (spinning old w ws))
  unfolding update_at still_inside
  spin-Inv a old w ws e = elim (Bool-cases (still_inside s.readers w)) [
    | inl stay ↦ rw stay inv
    | inr gone_on ↦ rw gone_on (record {
      slots =
          slots_keep s inv (spinning old w ws) s.heap s.cur (waiting old ws) e
            (λ i q lt ins. elim [
              | inl h ↦ inl h
              | inr h ↦ inr (h.0, elim h.1 [ inl is ↦ absurd (ground arith) | inr m ↦ m ])
            ])
            (λ i q h. refl);
      phase = let ok = phase_at s inv e in (ok.0, ok.1);
      range = inv.range;
      clean = inv.clean;
    })
  ]
