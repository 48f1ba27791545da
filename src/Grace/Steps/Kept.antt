-- ===== src/Grace/Steps/Kept.antt =====
-- What an access of rt_update keeps for the readers.
use comp.Shared.{sym, ltb, ℕ, ◌<◌, ◌≡◌, ◌≢◌, inl, inr, Option, none, arith, update, Bool-cases}
use mathlib.Core.Path.{subst}
use comp.Rcu.{max_readers, Reader}
use comp.Rcu.Laws.{IsInside}
use comp.Table.{Version}
use comp.Grace.{Pc, gone, Upd, System}
use comp.Grace.Inv.{Heap, Block, Held, SlotOk, PhaseOk, Inv, SlotOk-keep}

-- A block that is not the written one stays.
pub Block-update :
    {h : Heap} {b g : ℕ} (a : ℕ) (c : Option Version)
    → a ≢ b
    → Block h b g
    → Block (update h a c) b g
Block-update a c ne blk = record {
  version = blk.version;
  at = ground (arith, blk.at);
  gen = blk.gen;
  whole = blk.whole;
}

-- Two addresses differ if one is allocated and the other is not.
pub apart : {h : Heap} {a b g : ℕ} → h a ≡ none → Block h b g → a ≢ b
apart {h} {a} {b} unused blk e = let at = blk.at in let no : h b ≡ none = rw (← e) unused in cc

-- A slot with no reader has nothing to keep.
SlotOk-gone :
    (h h' : Heap) (c c' : ℕ) (u u' : Upd) (i : ℕ) (r : Reader) (p : Pc)
    → p ≡ gone
    → SlotOk h c u i r p
    → SlotOk h' c' u' i r p
SlotOk-gone h h' c c' u u' i r p e ok =
    let free : SlotOk h c u i r gone = subst (SlotOk h c u i r) e ok in
    subst (SlotOk h' c' u' i r) (sym e) free

module _ (s : System) (inv : Inv s) where
  -- What the updater must keep when it goes from `u` to `u'`.
  abbrev pub Keeps : Upd → Heap → ℕ → Upd → Type 0
  Keeps u h' c' u' =
      (i q : ℕ)
      → i < max_readers
      → IsInside (s.readers i)
      → Held s.cur u i (s.readers i).seq q
      → Held c' u' i (s.readers i).seq q

  abbrev pub Spares : Upd → Heap → Type 0
  Spares u h' = (i q : ℕ) → Held s.cur u i (s.readers i).seq q → h' q ≡ s.heap q

  pub slots_keep :
      (u : Upd) (h' : Heap) (c' : ℕ) (u' : Upd)
      → s.upd ≡ u
      → Keeps u h' c' u'
      → Spares u h'
      → (i : ℕ) → SlotOk h' c' u' i (s.readers i) (s.pc i)
  slots_keep u h' c' u' e hold same i = elim (Bool-cases (ltb i max_readers)) [
    | inl lt ↦
        SlotOk-keep s.heap h' s.cur c' u u' i (s.readers i) (s.pc i) (λ q. hold i q (ground arith))
          (same i) was
    | inr ge ↦
        SlotOk-gone s.heap h' s.cur c' u u' i (s.readers i) (s.pc i) (inv.range i (ground arith))
          was
  ]
    where
      was : SlotOk s.heap s.cur u i (s.readers i) (s.pc i)
      was = subst (λ v. SlotOk s.heap s.cur v i (s.readers i) (s.pc i)) e (inv.slots i)

  pub phase_at : {u : Upd} → s.upd ≡ u → PhaseOk s u
  phase_at e = subst (PhaseOk s) e inv.phase
