-- ===== src/Grace/Inv.antt =====
-- The invariant of the RCU table: what each updater phase has allocated, and why each pointer that a
-- reader holds is still good.
use comp.Shared.{
  ◌%◌, ◌∙◌, ℕ, ◌≤◌, ◌+◌, ◌*◌, ◌≤◌, ◌<◌, ◌≡◌, ◌≢◌, ◌⊎◌, inl, inr, true, false, Option, none, some,
  ◌∷◌, arith, ◌==◌, update, Bool-cases, Mem,
}
use comp.Rcu.{max_readers, Reader, Wait}
use comp.Rcu.Laws.{IsOutside, IsInside}
use comp.Table.{table_keys, Version}
use comp.Table.Laws.{IsWhole}
use comp.Grace.{
  Pc, gone, outside, entered, holding, loaded, checked, Upd, free_to_update, prepared, published,
  scanning, waiting, spinning, graced, reclaimed, System,
}

abbrev pub Heap : Type 0
Heap = ℕ → Option Version

-- A whole version of generation `g` is allocated at `a`.
pub record Block (h : Heap) (a g : ℕ) : Type 0 where
  pub version : Version
  pub at : h a ≡ some version
  pub gen : version.gen ≡ g
  pub whole : IsWhole version

-- `old` waits for its end beside the new version, and nothing else is allocated.
pub record Retiring (h : Heap) (old new freed : ℕ) : Type 0 where
  pub differ : old ≢ new
  pub was : Block h old freed
  pub is_now : Block h new (freed + 1)
  pub only : (b : ℕ) → b ≢ old → b ≢ new → h b ≡ none

pub record Single (h : Heap) (a g : ℕ) : Type 0 where
  pub is_now : Block h a g
  pub only : (b : ℕ) → b ≢ a → h b ≡ none

abbrev pub PhaseOk : System → Upd → Type 0
PhaseOk s free_to_update = (s.latest ≡ s.cur) × Single s.heap s.cur s.freed
PhaseOk s (prepared old nv) = (s.latest ≡ old) × (s.cur ≡ old) × Retiring s.heap old nv s.freed
PhaseOk s (published old nv) = (s.latest ≡ old) × (s.cur ≡ nv) × Retiring s.heap old nv s.freed
PhaseOk s (scanning old i ws) = (s.latest ≡ s.cur) × Retiring s.heap old s.cur s.freed
PhaseOk s (waiting old ws) = (s.latest ≡ s.cur) × Retiring s.heap old s.cur s.freed
PhaseOk s (spinning old w ws) =
    (s.latest ≡ s.cur) × Retiring s.heap old s.cur s.freed × (w.seq % 2 ≢ 0)
PhaseOk s (graced old) = (s.latest ≡ s.cur) × Retiring s.heap old s.cur s.freed
PhaseOk s reclaimed = (s.latest ≡ s.cur) × Single s.heap s.cur (s.freed + 1)

abbrev pub entry : ℕ → ℕ → Wait
entry i seq = record { slot = i; seq = seq }

-- The updater will still wait for the section `seq` of slot `i`, in which `p` may be held.
abbrev pub Awaited : Upd → ℕ → ℕ → ℕ → Type 0
Awaited (published old nv) i seq p = p ≡ old
Awaited (scanning old k ws) i seq p = (p ≡ old) × ((k ≤ i) ⊎ Mem (entry i seq) ws)
Awaited (waiting old ws) i seq p = (p ≡ old) × Mem (entry i seq) ws
Awaited (spinning old w ws) i seq p = (p ≡ old) × Mem (entry i seq) (w ∷ ws)
Awaited u i seq p = ⊥

abbrev pub Held : ℕ → Upd → ℕ → ℕ → ℕ → Type 0
Held cur u i seq p = (p ≡ cur) ⊎ Awaited u i seq p

-- `x` is what the version at `p` has at `key`.
abbrev pub Value : Heap → ℕ → ℕ → ℕ → Type 0
Value h p key x = (v : Version) × (h p ≡ some v) × (x ≡ v.gen * table_keys + key)

-- The thread of a slot, with its reader and its place in `rt_lookup`.
abbrev pub SlotOk : Heap → ℕ → Upd → ℕ → Reader → Pc → Type 0
SlotOk h cur u i r gone = (r.in_use ≡ false) × (r.seq % 2 ≡ 0)
SlotOk h cur u i r outside = IsOutside r
SlotOk h cur u i r (entered k) = IsInside r × (k < table_keys)
SlotOk h cur u i r (holding k p) = IsInside r × (k < table_keys) × Held cur u i r.seq p
SlotOk h cur u i r (loaded k p x) =
    IsInside r × (k < table_keys) × Held cur u i r.seq p × Value h p k x
SlotOk h cur u i r (checked x ok) = IsInside r × (ok ≡ true)

pub record Inv (s : System) : Type 0 where
  pub slots : (i : ℕ) → SlotOk s.heap s.cur s.upd i (s.readers i) (s.pc i)
  pub phase : PhaseOk s s.upd
  pub range : (i : ℕ) → max_readers ≤ i → s.pc i ≡ gone
  pub clean : s.fault ≡ false

-- A statement about a slot, when the reader and the place of one slot change.
pub update_both :
    (P : ℕ → Reader → Pc → Type 0) (readers : ℕ → Reader) (pc : ℕ → Pc) (i : ℕ) (r : Reader)
    (p : Pc)
    → P i r p
    → ((j : ℕ) → i ≢ j → P j (readers j) (pc j))
    → (j : ℕ) → P j (update readers i r j) (update pc i p j)
update_both P readers pc i r p new old j = elim (Bool-cases (i == j)) [
  | inl e ↦ let q : i ≡ j = ground arith in rw (e, ← q) new
  | inr e ↦ rw e (old j (ground arith))
]

-- A slot keeps what it has if what it holds stays good and its target does not change.
pub SlotOk-keep :
    (h h' : Heap) (c c' : ℕ) (u u' : Upd) (i : ℕ) (r : Reader) (p : Pc)
    → ((q : ℕ) → IsInside r → Held c u i r.seq q → Held c' u' i r.seq q)
    → ((q : ℕ) → Held c u i r.seq q → h' q ≡ h q)
    → SlotOk h c u i r p
    → SlotOk h' c' u' i r p
SlotOk-keep h h' c c' u u' i r gone hold same ok = ok
SlotOk-keep h h' c c' u u' i r outside hold same ok = ok
SlotOk-keep h h' c c' u u' i r (entered k) hold same ok = ok
SlotOk-keep h h' c c' u u' i r (holding k p) hold same ok = (ok.0, ok.1, hold p ok.0 ok.2)
SlotOk-keep h h' c c' u u' i r (loaded k p x) hold same ok =
    (ok.0, ok.1, hold p ok.0 ok.2, (ok.3.0, same p ok.2 ∙ ok.3.1, ok.3.2))
SlotOk-keep h h' c c' u u' i r (checked x b) hold same ok = ok
