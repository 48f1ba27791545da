-- ===== src/Rcu.antt =====
-- The user-space RCU of week4/examples/04-rcu-table/src/rcu.c: the reader registry and the
-- operations of a reader and of the grace period, one access to shared memory at a time where the
-- order of accesses matters (`sample` and `still_inside` are the loop bodies of synchronize_rcu).
pub mod Laws
pub mod Scan
mod Tests
use comp.Shared.{
  ℕ, zero, suc, ◌+◌, ◌%◌, ◌^◌, Bool, true, false, Option, none, some, List, [], ◌∷◌, ◌++◌, ◌==◌,
  if◌then◌else◌, add64, update,
}

-- RCU_MAX_READERS
abbrev pub max_readers : ℕ
max_readers = 64

-- `rcu_reader`; the three counters are unsigned longs of 64 bits.
pub record Reader : Type 0 where
  pub seq : ℕ
  pub reads : ℕ
  pub local_seq : ℕ
  pub in_use : Bool

-- What `rcu_register` stores into a free slot.
abbrev pub claim : Reader → Reader
claim r = record r { seq = 0; reads = 0; local_seq = 0; in_use = true }

-- The loop of `rcu_register` with `n` slots left, at slot `i`: the first free one.
unfoldable pub free_slot : ℕ → ℕ → (ℕ → Reader) → Option ℕ
free_slot zero i readers = none
free_slot (suc n) i readers =
    let rest = free_slot n (i + 1) readers in if (readers i).in_use then rest else some i

-- The slot that the caller gets, `none` for the null pointer, and the registry after the call.
unfoldable pub rcu_register : (ℕ → Reader) → Option ℕ × (ℕ → Reader)
unfolding free_slot
rcu_register readers = elim (free_slot max_readers 0 readers) [
  | none ↦ (none, readers)
  | some i ↦ (some i, update readers i (claim (readers i)))
]

unfoldable pub rcu_unregister : Reader → Reader
rcu_unregister r = record r { in_use = false }

unfoldable pub rcu_read_lock : Reader → Reader
rcu_read_lock r = let next = add64 r.local_seq 1 in record r { local_seq = next; seq = next }

unfoldable pub rcu_read_unlock : Reader → Reader
rcu_read_unlock r =
    let next = add64 r.local_seq 1 in
    record r { local_seq = next; seq = next; reads = add64 r.reads 1 }

-- An entry of the array `waiting`: the slot, and the counter that was sampled.
pub record Wait : Type 0 where
  pub slot : ℕ
  pub seq : ℕ

-- The body of the loop over the slots in `synchronize_rcu`.
unfoldable pub sample : (ℕ → Reader) → ℕ → List Wait → List Wait
sample readers i waiting =
    if (readers i).in_use
    then (if (readers i).seq % 2 == 1
        then waiting ++ (record { slot = i; seq = (readers i).seq } ∷ [])
        else waiting)
    else waiting

-- The test of the inner loop: this section of this reader has not ended.
unfoldable pub still_inside : (ℕ → Reader) → Wait → Bool
still_inside readers w = (readers w.slot).seq == w.seq

-- The whole scan, with `n` slots left at slot `i`, where no reader moves meanwhile.
unfoldable pub sample_all : ℕ → ℕ → (ℕ → Reader) → List Wait → List Wait
unfolding sample
sample_all zero i readers waiting = waiting
sample_all (suc n) i readers waiting = sample_all n (i + 1) readers (sample readers i waiting)
