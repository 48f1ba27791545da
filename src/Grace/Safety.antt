-- ===== src/Grace/Safety.antt =====
-- What holds whenever an RCU table is used from its start: no lookup is torn, no pointer that a
-- reader holds is freed, and no version leaks.
use comp.Shared.{
  Option, ◌==◌, Bool-cases, ◌*◌, ◌+◌, ap, ◌<◌, ◌∙◌, sym, ℕ, ◌≡◌, ◌≢◌, refl, ◌⊎◌, inl, inr, Bool,
  true, false, none, some, arith,
}
use mathlib.Core.Path.{subst}
use comp.Table.{table_keys, Version, fill}
use comp.Table.Laws.{fill-IsWhole, fill-gen}
use comp.Grace.{
  Pc, holding, loaded, checked, free_to_update, graced, System, rt_init, Reach, rt_destroy,
}
use comp.Grace.Inv.{Held, Inv, SlotOk, PhaseOk, Single}
use comp.Grace.Steps.{Reach-Inv}

pub rt_init-Inv : (a : ℕ) (v : Version) → Inv (rt_init a v)
unfolding rt_init
rt_init-Inv a v = record {
  slots = λ i. (refl, refl);
  phase = (
    refl,
    record {
      is_now = record {
        version = fill v 0;
        at = ground arith;
        gen = fill-gen v 0;
        whole = fill-IsWhole v 0;
      };
      only = λ b ne. ground arith;
    },
  );
  range = λ i h. refl;
  clean = refl;
}

pub only_at : {h : ℕ → Option Version} {a g : ℕ} (b : ℕ) → Single h a g → (b ≡ a) ⊎ (h b ≡ none)
only_at {a} b one = elim (Bool-cases (b == a)) [
  | inl e ↦ inl (ground arith)
  | inr e ↦ inr (one.only b (ground arith))
]

module _ (a : ℕ) (v : Version) {s : System} (r : Reach (rt_init a v) s) where
  inv : Inv s
  inv = Reach-Inv (rt_init-Inv a v) r

  slot_at : {p : Pc} (i : ℕ) → s.pc i ≡ p → SlotOk s.heap s.cur s.upd i (s.readers i) p
  slot_at i e = subst (SlotOk s.heap s.cur s.upd i (s.readers i)) e (inv.slots i)

  -- From `rt_init` on, whatever readers and updaters do, no thread has read through a pointer to
  -- memory that was not allocated.
  pub no_use_after_free : s.fault ≡ false
  no_use_after_free = inv.clean

  -- From `rt_init` on, whatever readers and updaters do, a lookup that has tested its value has found
  -- it consistent with the generation of its version: no read is torn.
  pub lookup_never_torn : (i x : ℕ) (ok : Bool) → s.pc i ≡ checked x ok → ok ≡ true
  lookup_never_torn i x ok e = (slot_at i e).1

  graced-Held : (old i seq p : ℕ) → s.upd ≡ graced old → Held s.cur s.upd i seq p → p ≢ old
  graced-Held old i seq p e h q =
      let ok : PhaseOk s (graced old) = subst (PhaseOk s) e inv.phase in
      let h' : Held s.cur (graced old) i seq p = subst (λ u. Held s.cur u i seq p) e h in
      elim h' [ inl here ↦ ok.1.differ (sym q ∙ here) | inr no_one ↦ absurd no_one ]

  -- When synchronize_rcu has returned, and before the old version is freed, no reader holds it.
  pub grace_period :
      (old i k p : ℕ)
      → s.upd ≡ graced old
      → (s.pc i ≡ holding k p) ⊎ ((x : ℕ) × (s.pc i ≡ loaded k p x))
      → p ≢ old
  grace_period old i k p e (inl at) = graced-Held old i _ p e (slot_at i at).2
  grace_period old i k p e (inr (x, at)) = graced-Held old i _ p e (slot_at i at).2

  -- Between updates one version is allocated and no other address is: the published one, which is
  -- also the updater's own copy; its generation is the number of versions that were freed, and it has
  -- the value of that generation at every key of the table.
  pub no_leak :
      (b key : ℕ)
      → s.upd ≡ free_to_update
      → key < table_keys
      → (s.latest ≡ s.cur)
        × ((w : Version) × (s.heap s.cur ≡ some w)
            × (w.gen ≡ s.freed)
            × (w.val key ≡ s.freed * table_keys + key))
        × ((b ≡ s.cur) ⊎ (s.heap b ≡ none))
  no_leak b key e lt =
      let ok : PhaseOk s free_to_update = subst (PhaseOk s) e inv.phase in
      let blk = ok.1.is_now in
      (
        ok.0,
        (blk.version, blk.at, blk.gen, blk.whole key lt ∙ ap (λ g. g * table_keys + key) blk.gen),
        only_at b ok.1,
      )

  -- When no update is under way, rt_destroy frees the last version: nothing is allocated after it.
  pub rt_destroy-heap : (b : ℕ) → s.upd ≡ free_to_update → (rt_destroy s).heap b ≡ none
  unfolding rt_destroy
  rt_destroy-heap b e =
      let ok : PhaseOk s free_to_update = subst (PhaseOk s) e inv.phase in
      let same : s.latest ≡ s.cur = ok.0 in
      elim (only_at b ok.1) [ inl q ↦ ground arith | inr no_block ↦ ground arith ]
