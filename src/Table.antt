-- ===== src/Table.antt =====
-- The versions of week4/examples/04-rcu-table/src/table.c, and its baseline: one version updated in
-- place under a rwlock. The RCU table itself is in Grace.antt. A `long` is a plain ℕ.
pub mod Laws
mod Tests
use comp.Shared.{ℕ, zero, suc, ◌+◌, ◌*◌, Bool, ◌==◌, update}

-- TABLE_KEYS
abbrev pub table_keys : ℕ
table_keys = 64

-- `version`: `val` is an array of `table_keys` entries.
pub record Version : Type 0 where
  pub gen : ℕ
  pub val : ℕ → ℕ

-- The loop of `fill` with `n` keys left, at key `k`.
unfoldable pub fill_from : ℕ → ℕ → ℕ → (ℕ → ℕ) → ℕ → ℕ
fill_from zero k gen val = val
fill_from (suc n) k gen val = fill_from n (k + 1) gen (update val k (gen * table_keys + k))

unfoldable pub fill : Version → ℕ → Version
unfolding fill_from
fill v gen = record { gen = gen; val = fill_from table_keys 0 gen v.val }

unfoldable pub consistent : Version → ℕ → ℕ → Bool
consistent v key x = x == v.gen * table_keys + key

-- What a lookup gives back: whether the value was consistent, and the value.
pub record Lookup : Type 0 where
  pub ok : Bool
  pub value : ℕ

-- The body of both lookups, once the version is at hand.
unfoldable pub read_key : Version → ℕ → Lookup
unfolding consistent
read_key v key = let x = v.val key in record { ok = consistent v key x; value = x }

-- `rw_init`, where the lock is made, from the storage that the caller gives.
unfoldable pub rw_init : Version → Version
unfolding fill
rw_init v = fill v 0

-- `rw_lookup` under the read lock, and `rw_update` under the write lock.
unfoldable pub rw_lookup : Version → ℕ → Lookup
unfolding read_key
rw_lookup v key = read_key v key

unfoldable pub rw_update : Version → Version
unfolding fill
rw_update v = fill v (v.gen + 1)

-- `n` updates, one after the other.
unfoldable pub rw_updates : ℕ → Version → Version
rw_updates zero v = v
rw_updates (suc n) v = rw_updates n (rw_update v)
