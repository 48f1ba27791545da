-- ===== src/Rcu/Laws.antt =====
-- What the operations of rcu.c promise, each by itself.
use comp.Shared.{
  ℕ, zero, suc, ◌+◌, ◌%◌, ◌^◌, ◌≤◌, ◌<◌, ◌≡◌, ◌≢◌, refl, inl, inr, true, false, Option, none, some,
  arith, ◌==◌, update, Bool-cases,
}
use comp.Rcu.{
  max_readers, Reader, claim, free_slot, rcu_register, rcu_read_lock, rcu_read_unlock, Wait,
  still_inside,
}

-- A reader between sections, and inside one.
pub record IsOutside (r : Reader) : Type 0 where
  pub in_use : r.in_use ≡ true
  pub own : r.local_seq ≡ r.seq
  pub small : r.seq < 2 ^ 64
  pub even : r.seq % 2 ≡ 0

pub record IsInside (r : Reader) : Type 0 where
  pub in_use : r.in_use ≡ true
  pub own : r.local_seq ≡ r.seq
  pub small : r.seq < 2 ^ 64
  pub odd : r.seq % 2 ≡ 1

pub read_lock-IsInside : (r : Reader) → IsOutside r → IsInside (rcu_read_lock r)
unfolding rcu_read_lock
read_lock-IsInside r h = ground arith

pub read_unlock-IsOutside : (r : Reader) → IsInside r → IsOutside (rcu_read_unlock r)
unfolding rcu_read_unlock
read_unlock-IsOutside r h = ground arith

-- The slots from `i` on, `n` of them, are all taken.
abbrev pub AllTaken : ℕ → ℕ → (ℕ → Reader) → Type 0
AllTaken n i readers = (j : ℕ) → i ≤ j → j < i + n → (readers j).in_use ≡ true

-- `j` is the first free one among the `n` slots from `i` on.
pub record IsFirstFree (n i j : ℕ) (readers : ℕ → Reader) : Type 0 where
  pub from : i ≤ j
  pub below : j < i + n
  pub free : (readers j).in_use ≡ false
  pub first : (k : ℕ) → i ≤ k → k < j → (readers k).in_use ≡ true

abbrev FreeSlot : ℕ → ℕ → (ℕ → Reader) → Option ℕ → Type 0
FreeSlot n i readers none = AllTaken n i readers
FreeSlot n i readers (some j) = IsFirstFree n i j readers

FreeSlot-suc :
    (n i : ℕ) (readers : ℕ → Reader) (o : Option ℕ)
    → (readers i).in_use ≡ true
    → FreeSlot n (i + 1) readers o
    → FreeSlot (suc n) i readers o
FreeSlot-suc n i readers none taken h = λ j lo hi. elim (Bool-cases (i == j)) [
  | inl e ↦ ground arith
  | inr e ↦ h j (ground arith) (omega arith)
]
FreeSlot-suc n i readers (some j) taken h = record {
  from = omega (arith, h.from);
  below = omega (arith, h.below);
  free = h.free;
  first = λ k lo hi. elim (Bool-cases (i == k)) [
    | inl e ↦ ground arith
    | inr e ↦ h.first k (ground arith) hi
  ];
}

free_slot_lem : (n i : ℕ) (readers : ℕ → Reader) → FreeSlot n i readers (free_slot n i readers)
unfolding free_slot
free_slot_lem zero i readers = λ j lo hi. absurd (omega arith)
free_slot_lem (suc n) i readers = elim (Bool-cases (readers i).in_use) [
  | inl taken ↦ rw taken (FreeSlot-suc n i readers _ taken (free_slot_lem n (i + 1) readers))
  | inr free ↦ rw free (record {
    from = omega arith;
    below = omega arith;
    free = free;
    first = λ k lo hi. absurd (omega arith);
  })
]

-- What a registration returns and leaves.
abbrev pub Registered : (ℕ → Reader) → Option ℕ × (ℕ → Reader) → Type 0
Registered readers (none, after) = AllTaken max_readers 0 readers × (after ≡ readers)
Registered readers (some i, after) =
    IsFirstFree max_readers 0 i readers
    × IsOutside (after i)
    × ((j : ℕ) → i ≢ j → after j ≡ readers j)

-- Registration either takes the first free slot of the 64, leaves its reader outside a section, and
-- touches no other slot, or finds every slot taken and leaves the registry as it was.
pub rcu_register_lem : (readers : ℕ → Reader) → Registered readers (rcu_register readers)
unfolding rcu_register
rcu_register_lem readers =
    go (free_slot max_readers 0 readers) (free_slot_lem max_readers 0 readers)
  where
    go :
        (o : Option ℕ)
        → FreeSlot max_readers 0 readers o
        → Registered readers (elim o [
          | none ↦ (none, readers)
          | some i ↦ (some i, update readers i (claim (readers i)))
        ])
    go none h = (h, refl)
    go (some i) h = (h, ground arith, λ j ne. ground arith)

-- The counter of a section never comes back at its end, nor in the section that follows at once.
pub read_unlock-ends :
    (readers : ℕ → Reader) (w : Wait)
    → IsInside (readers w.slot)
    → (readers w.slot).seq ≡ w.seq
    → (still_inside (update readers w.slot (rcu_read_unlock (readers w.slot))) w ≡ false)
      × (still_inside (update readers w.slot (rcu_read_lock (rcu_read_unlock (readers w.slot)))) w
          ≡ false)
unfolding still_inside rcu_read_unlock rcu_read_lock
read_unlock-ends readers w h e = ground arith
