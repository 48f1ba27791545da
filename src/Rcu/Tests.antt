-- ===== src/Rcu/Tests.antt =====
-- The operations of rcu.c at concrete registries.
use comp.Shared.{ℕ, ◌^◌, ◌≡◌, refl, true, false, some, [], ◌∷◌, update, ◌-◌}
use comp.Rcu.{max_readers, Reader, rcu_register, sample_all}

abbrev inside : ℕ → Reader
inside n = record { seq = n; reads = 0; local_seq = n; in_use = true }

abbrev absent : Reader
absent = record { seq = 0; reads = 0; local_seq = 0; in_use = false }

-- Slots 0 and 1 are taken, the last counter before its wrap in slot 1.
abbrev some_readers : ℕ → Reader
some_readers = update (update (λ _. absent) 0 (inside 4)) 1 (inside (2 ^ 64 - 1))

register_third : (rcu_register some_readers).0 ≡ some 2
unfolding rcu_register
register_third = refl

scan_finds : sample_all max_readers 0 some_readers [] ≡ record { slot = 1; seq = 2 ^ 64 - 1 } ∷ []
unfolding sample_all
scan_finds = refl
