-- ===== src/Grace/Progress.antt =====
-- An update ends once the readers are out of their sections, and does what it is for.
use comp.Shared.{
  ◌*◌, ◌<◌, ◌∙◌, ap, ℕ, ◌+◌, ◌*◌, ◌<◌, ◌≡◌, ◌≢◌, refl, ◌⊎◌, inl, inr, none, some, arith,
}
use mathlib.Core.Path.{subst}
use comp.Table.{table_keys, Version}
use comp.Grace.{
  gone, outside, free_to_update, prepared, System, update_at, run_update, update_fuel, rt_update,
  rt_init, Reach,
}
use comp.Grace.Inv.{Inv, SlotOk, PhaseOk}
use comp.Grace.Steps.Readers.{load-some}
use comp.Grace.Steps.{Reach-Inv, update_at-Inv}
use comp.Grace.Safety.{rt_init-Inv, only_at}
use comp.Grace.Rank.{rank, IsQuiet, new_freed, busy-new_freed, run_update-Done, new_cur}

-- Where every thread that is registered is outside a section, the registry shows no section.
Outside-IsQuiet :
    (s : System) → Inv s → ((i : ℕ) → (s.pc i ≡ gone) ⊎ (s.pc i ≡ outside)) → IsQuiet s
Outside-IsQuiet s inv out i = elim (out i) [
  | inl e ↦ (subst (SlotOk s.heap s.cur s.upd i (s.readers i)) e (inv.slots i)).1
  | inr e ↦ (subst (SlotOk s.heap s.cur s.upd i (s.readers i)) e (inv.slots i)).even
]

-- The first access of an update, where the updater's copy is allocated.
record Started (s t : System) (a : ℕ) : Type 0 where
  upd : t.upd ≡ prepared s.latest a
  same : t.readers ≡ s.readers
  freed : t.freed ≡ s.freed

Single-live : (s : System) → PhaseOk s free_to_update → (w : Version) × (s.heap s.latest ≡ some w)
Single-live s ok = (ok.1.is_now.version, rw (ok.0) ok.1.is_now.at)

Started-at :
    (s : System) (a : ℕ)
    → (w : Version) × (s.heap s.latest ≡ some w)
    → Started s (update_at s a free_to_update) a
unfolding update_at
Started-at s a (w, e) =
    rw (load-some s s.latest _ w e) (record { upd = refl; same = refl; freed = refl })

module _ (a : ℕ) (v : Version) (s : System) (r : Reach (rt_init a v) s) where
  -- An update under way, wherever it stands, ends after the accesses that `rank` allows it if every
  -- reader is out of its section: the mutex is free, and one version more has been freed.
  pub update_finishes :
      (b : ℕ)
      → ((i : ℕ) → (s.pc i ≡ gone) ⊎ (s.pc i ≡ outside))
      → s.upd ≢ free_to_update
      → ((run_update (rank s.upd) b s).upd ≡ free_to_update)
        × ((run_update (rank s.upd) b s).freed ≡ s.freed + 1)
  update_finishes b out busy =
      let inv = Reach-Inv (rt_init-Inv a v) r in
      let done = run_update-Done (rank s.upd) b s inv (Outside-IsQuiet s inv out) (omega arith) in
      (done.idle, done.freed ∙ busy-new_freed s s.upd busy)

  -- An update that starts with every reader out of its section, and gets the unused address `b`,
  -- ends with a version of the next generation published there, which has its values at every key of
  -- the table, and with nothing else allocated.
  pub rt_update_lem :
      (b c key : ℕ)
      → ((i : ℕ) → (s.pc i ≡ gone) ⊎ (s.pc i ≡ outside))
      → s.upd ≡ free_to_update
      → s.heap b ≡ none
      → key < table_keys
      → ((rt_update b s).upd ≡ free_to_update)
        × ((rt_update b s).cur ≡ b)
        × ((rt_update b s).freed ≡ s.freed + 1)
        × ((w : Version) × ((rt_update b s).heap b ≡ some w)
            × (w.gen ≡ s.freed + 1)
            × (w.val key ≡ (s.freed + 1) * table_keys + key))
        × ((c ≡ b) ⊎ ((rt_update b s).heap c ≡ none))
  unfolding rt_update
  rt_update_lem b c key out idle unused lt =
      let inv = Reach-Inv (rt_init-Inv a v) r in
      let t = update_at s b free_to_update in
      let first = Started-at s b (Single-live s (subst (PhaseOk s) idle inv.phase)) in
      let quiet : IsQuiet t = λ i. rw (first.same) (Outside-IsQuiet s inv out i) in
      let done =
        run_update-Done update_fuel b t (update_at-Inv s inv b free_to_update idle λ _. unused)
          quiet (rw (first.upd) (omega arith)) in
      let cur = done.cur ∙ ap (new_cur t) first.upd in
      let freed = done.freed ∙ ap (new_freed t) first.upd ∙ ap (λ (n : ℕ). n + 1) first.freed in
      let end = run_update update_fuel b t in
      let ph : PhaseOk end free_to_update = subst (PhaseOk end) done.idle done.inv.phase in
      let blk = ph.1.is_now in
      let at : end.heap b ≡ some blk.version =
        subst (λ q. end.heap q ≡ some blk.version) cur blk.at in
      let gen = blk.gen ∙ freed in
      (
        done.idle,
        cur,
        freed,
        (blk.version, at, gen, blk.whole key lt ∙ ap (λ g. g * table_keys + key) gen),
        elim (only_at c ph.1) [ inl e ↦ inl (e ∙ cur) | inr e ↦ inr e ],
      )
