-- ===== src/Table/Tests.antt =====
-- The rwlock baseline at a concrete storage.
use comp.Shared.{◌*◌, ◌≡◌, refl, true}
use comp.Table.{Version, rw_init, rw_lookup, rw_update, rw_updates}

abbrev garbage : Version
garbage = record { gen = 3; val = λ k. k * k }

lookup_after_two : rw_lookup (rw_updates 2 (rw_init garbage)) 63 ≡ record { ok = true; value = 191 }
unfolding rw_lookup rw_updates rw_init rw_update
lookup_after_two = refl
