-- ===== src/Table/Laws.antt =====
-- Every version that `fill` makes satisfies the rule of table.h at every key.
use comp.Shared.{
  ℕ, zero, suc, ◌+◌, ◌*◌, ◌≤◌, ◌<◌, ◌≡◌, refl, inl, inr, ap, ◌∙◌, true, arith, ◌==◌, update,
  Bool-cases,
}
use comp.Table.{
  table_keys, Version, fill_from, fill, consistent, read_key, rw_init, rw_lookup, rw_update,
  rw_updates,
}

-- The rule of table.h.
abbrev pub IsWhole : Version → Type 0
IsWhole v = (key : ℕ) → key < table_keys → v.val key ≡ v.gen * table_keys + key

fill_from-below :
    (n k gen : ℕ) (val : ℕ → ℕ) (key : ℕ) → key < k → fill_from n k gen val key ≡ val key
unfolding fill_from
fill_from-below zero k gen val key h = refl
fill_from-below (suc n) k gen val key h =
    ground (arith, fill_from-below n (k + 1) gen (update val k (gen * table_keys + k)) key)

fill_from_lem :
    (n k gen : ℕ) (val : ℕ → ℕ) (key : ℕ)
    → k ≤ key
    → key < k + n
    → fill_from n k gen val key ≡ gen * table_keys + key
unfolding fill_from
fill_from_lem zero k gen val key lo hi = absurd (omega arith)
fill_from_lem (suc n) k gen val key lo hi = elim (Bool-cases (k == key)) [
  | inl e ↦ ground (arith, fill_from-below n (k + 1) gen (update val k (gen * table_keys + k)) key)
  | inr e ↦
      fill_from_lem n (k + 1) gen (update val k (gen * table_keys + k)) key (ground arith)
        (omega arith)
]

pub fill-IsWhole : (v : Version) (gen : ℕ) → IsWhole (fill v gen)
unfolding fill
fill-IsWhole v gen key h = fill_from_lem table_keys 0 gen v.val key (omega arith) (omega arith)

pub fill-gen : (v : Version) (gen : ℕ) → (fill v gen).gen ≡ gen
unfolding fill
fill-gen v gen = refl

-- A lookup in a whole version is consistent, and gives the value of that version's generation.
pub read_key-IsWhole :
    (v : Version) (key : ℕ)
    → IsWhole v
    → key < table_keys
    → read_key v key ≡ record { ok = true; value = v.gen * table_keys + key }
unfolding read_key consistent
read_key-IsWhole v key h lt = ground (arith, h key)

rw_updates-gen : (n : ℕ) (v : Version) → (rw_updates n v).gen ≡ v.gen + n
unfolding rw_updates rw_update
rw_updates-gen zero v = omega arith
rw_updates-gen (suc n) v = omega (arith, rw_updates-gen n (rw_update v), fill-gen v (v.gen + 1))

rw_updates-IsWhole : (n : ℕ) (v : Version) → IsWhole v → IsWhole (rw_updates n v)
unfolding rw_updates rw_update
rw_updates-IsWhole zero v h = h
rw_updates-IsWhole (suc n) v h = rw_updates-IsWhole n (rw_update v) (fill-IsWhole v (v.gen + 1))

-- After `rw_init` and any number of updates, whatever the storage held, a lookup at any key of the
-- table is consistent and gives the value of that many generations.
pub rw_lookup-rw_updates :
    (n : ℕ) (v : Version) (key : ℕ)
    → key < table_keys
    → rw_lookup (rw_updates n (rw_init v)) key ≡ record { ok = true; value = n * table_keys + key }
unfolding rw_lookup rw_init
rw_lookup-rw_updates n v key lt =
    read_key-IsWhole w key (rw_updates-IsWhole n (fill v 0) (fill-IsWhole v 0)) lt
    ∙ ap (λ (g : ℕ). record { ok = true; value = g * table_keys + key })
        (rw_updates-gen n (fill v 0) ∙ omega arith)
  where
    w : Version
    w = rw_updates n (fill v 0)
