-- ===== src/Handshake/Tests.antt =====
-- Runs of the search, and each theorem at a concrete choice of orderings.
use comp.Handshake.Printed.{overrides, args_of, Judged, handshake_main-Judged}
use comp.Handshake.Program.{all_allowed, handshake_main, Verdict}
use comp.Shared.{true, false, ◌≡◌, refl, inl, inr, ◌↔◌, ◌<◌, List, ◌∷◌, [], none, ◌⊎◌, some}
use comp.Handshake.{
  Site, Order, relaxed, sequential, tso, arm, State, moves, allowed, orders_h, scan, release, List,
  announce, [], none, some,
}
use comp.Handshake.Explore.{check_model, initial}
use comp.Handshake.Ends.{Reach, here, next, IsEnd}
use comp.Handshake.Verdict.{IsUaf, check_model-n_uaf}
use comp.Handshake.Orders.{
  arm_fenced, tso_fenced, arm_uaf-fenced, tso_uaf-fenced, sequential-safe, orders_h-safe,
}

abbrev all_relaxed : Site → Order
all_relaxed s = relaxed

n_exec-tso : (check_model orders_h tso).n_exec ≡ 26
unfolding check_model orders_h
n_exec-tso = refl

n_exec-arm : (check_model orders_h arm).n_exec ≡ 105
unfolding check_model orders_h
n_exec-arm = refl

n_uaf-relaxed : (check_model all_relaxed arm).n_uaf ≡ 259
unfolding check_model
n_uaf-relaxed = refl

scan-no_release : allowed scan release ≡ false
unfolding allowed
scan-no_release = refl

-- The reader announces, commits, loads the version and reads it.
abbrev after_read : State
after_read = record initial { mem_seq = 1; pc_r = 3; p = 1 }

read_path : Reach orders_h arm initial after_read
unfolding moves orders_h
read_path = next (next (next (next here (inl refl)) (inr (inl refl))) (inl refl)) (inl refl)

read_path_tso : Reach orders_h tso initial after_read
unfolding moves orders_h
read_path_tso = next (next (next here (inl refl)) (inl refl)) (inl refl)

read_path_sequential : Reach all_relaxed sequential initial after_read
unfolding moves
read_path_sequential = next (next (next here (inl refl)) (inl refl)) (inl refl)

check_model-n_uaf_example :
    (0 < (check_model all_relaxed arm).n_uaf)
    ↔ ((t : State) × IsEnd all_relaxed arm initial t × IsUaf t)
check_model-n_uaf_example = check_model-n_uaf all_relaxed arm

arm_uaf-fenced_example :
    ((t : State) × Reach all_relaxed arm initial t × (t.uaf ≡ true))
    ↔ (arm_fenced all_relaxed ≡ false)
arm_uaf-fenced_example = arm_uaf-fenced all_relaxed

tso_uaf-fenced_example :
    ((t : State) × Reach all_relaxed tso initial t × (t.uaf ≡ true))
    ↔ (tso_fenced all_relaxed ≡ false)
tso_uaf-fenced_example = tso_uaf-fenced all_relaxed

sequential-safe_example : after_read.uaf ≡ false
sequential-safe_example = sequential-safe all_relaxed read_path_sequential

orders_h-safe_example : after_read.uaf ≡ false
orders_h-safe_example = orders_h-safe arm read_path

-- The announcement overridden to a release store
abbrev release_announce : List (Site × Order)
release_announce = (announce, release) ∷ []

handshake_main-Judged_example :
    ((all_allowed (overrides release_announce orders_h) ≡ false)
      × (handshake_main (args_of release_announce) ≡ none))
    ⊎ ((v : Verdict) × (all_allowed (overrides release_announce orders_h) ≡ true)
        × (handshake_main (args_of release_announce) ≡ some v)
        × Judged (overrides release_announce orders_h) v)
handshake_main-Judged_example = handshake_main-Judged release_announce
