-- ===== src/Grace/Tests.antt =====
-- Runs of the RCU table by given schedules, and the theorems at the states that they reach.
use comp.Shared.{
  ℕ, zero, suc, ◌+◌, ◌*◌, ◌≡◌, ◌≢◌, refl, ◌⊎◌, inl, inr, Bool, true, false, none, some, List, [],
  ◌∷◌, ◌++◌, arith, Bool-cases, Option-cases,
}
use native.Mathlib.Decide.{dec_lt}
use comp.Rcu.{
  max_readers, sample, still_inside, rcu_register, free_slot, rcu_read_lock, rcu_read_unlock,
}
use comp.Table.{table_keys, Version, fill, fill_from, consistent}
use comp.Grace.{
  gone, outside, loaded, free_to_update, spinning, graced, System, update_at, run_update, rt_update,
  rt_init, Reach, here, next, enlist, lookup, renew, join, read_at, locked, is_free,
}
use comp.Grace.Safety.{no_use_after_free, lookup_never_torn, grace_period, no_leak}
use comp.Grace.Progress.{update_finishes, rt_update_lem}
use comp.Grace.Rank.{is_free-false}

abbrev storage : Version
storage = record { gen = 99; val = λ k. k }

abbrev start : System
start = rt_init 1 storage

data Action : Type 0 where
  register : Action
  reader : (i key : ℕ) → Action
  updater : (a : ℕ) → Action

record Run : Type 0 where
  last : System
  reach : Reach start last

-- One access, if it may happen now.
turn : Run → Action → Run
turn r register = elim (Bool-cases (locked r.last.upd)) [
  | inl _ ↦ r
  | inr e ↦ record { last = _; reach = next r.reach (enlist e) }
]
turn r (reader i key) = elim (dec_lt i max_readers) [
  | no _ ↦ r
  | yes lt ↦ elim (dec_lt key table_keys) [
    | no _ ↦ r
    | yes small ↦ record { last = _; reach = next r.reach (lookup i key lt small) }
  ]
]
turn r (updater a) = elim (Bool-cases (is_free r.last.upd)) [
  | inr busy ↦ record {
    last = _;
    reach = next r.reach (renew a λ q. absurd (is_free-false r.last.upd busy q));
  }
  | inl _ ↦ elim (Option-cases (r.last.heap a)) [
    | inl e ↦ record { last = _; reach = next r.reach (renew a λ _. e) }
    | inr _ ↦ r
  ]
]

run : Run → List Action → Run
unfolding turn dec_lt Bool-cases Option-cases join read_at update_at rcu_register free_slot
    rcu_read_lock rcu_read_unlock sample still_inside consistent fill fill_from rt_init
run r [] = r
run r (x ∷ xs) = run (turn r x) xs

abbrev begin : Run
begin = record { last = start; reach = here }

abbrev times : ℕ → Action → List Action
times zero x = []
times (suc n) x = x ∷ times n x

-- A reader holds the first version when an update publishes the second.
abbrev held_run : Run
held_run = run begin (register ∷ reader 0 5 ∷ reader 0 5 ∷ updater 2 ∷ updater 2 ∷ reader 0 5 ∷ [])

-- The same, at the end of the scan: the updater spins.
abbrev spin_run : Run
spin_run = run held_run (times 70 (updater 2))

-- The same, after the reader has tested its value, left, and entered again.
abbrev graced_run : Run
graced_run = run spin_run (times 4 (reader 0 7) ++ times 2 (updater 2) ++ reader 0 7 ∷ [])

held_run-pc : held_run.last.pc 0 ≡ loaded 5 1 5
unfolding run
held_run-pc = refl

spin_run-upd : spin_run.last.upd ≡ spinning 1 (record { slot = 0; seq = 1 }) []
unfolding run
spin_run-upd = refl

graced_run-upd : (graced_run.last.upd ≡ graced 1) × (graced_run.last.pc 0 ≡ loaded 7 2 71)
unfolding run
graced_run-upd = (refl, refl)

no_use_after_free_example : graced_run.last.fault ≡ false
no_use_after_free_example = no_use_after_free 1 storage graced_run.reach

-- One access before the updater may free the first version.
abbrev checked_run : Run
checked_run = run spin_run (reader 0 7 ∷ [])

lookup_never_torn_example : ◌≡◌ {A = Bool} true true
unfolding run
lookup_never_torn_example = lookup_never_torn 1 storage checked_run.reach 0 5 true refl

grace_period_example : ◌≢◌ {A = ℕ} 2 1
unfolding run
grace_period_example = grace_period 1 storage graced_run.reach 1 0 7 2 refl (inr (71, refl))

-- After one whole update.
abbrev updated_run : Run
updated_run = run graced_run (times 2 (updater 2))

no_leak_example :
    (updated_run.last.latest ≡ updated_run.last.cur)
    × ((w : Version) × (updated_run.last.heap updated_run.last.cur ≡ some w)
        × (w.gen ≡ updated_run.last.freed)
        × (w.val 3 ≡ updated_run.last.freed * table_keys + 3))
    × ((◌≡◌ {A = ℕ} 1 updated_run.last.cur) ⊎ (updated_run.last.heap 1 ≡ none))
unfolding run
no_leak_example = no_leak 1 storage updated_run.reach 1 3 refl (omega arith)

-- A reader is registered, and the updater has published.
abbrev quiet_run : Run
quiet_run = run begin (register ∷ times 2 (updater 2))

quiet-outside : (i : ℕ) → (quiet_run.last.pc i ≡ gone) ⊎ (quiet_run.last.pc i ≡ outside)
unfolding run
quiet-outside zero = inr refl
quiet-outside (suc i) = inl (ground arith)

update_finishes_example :
    ((run_update 197 3 quiet_run.last).upd ≡ free_to_update)
    × ((run_update 197 3 quiet_run.last).freed ≡ quiet_run.last.freed + 1)
unfolding run
update_finishes_example =
    update_finishes 1 storage quiet_run.last quiet_run.reach 3 quiet-outside (λ e. cc)

rt_update_lem_example :
    ((rt_update 4 start).upd ≡ free_to_update)
    × ((rt_update 4 start).cur ≡ 4)
    × ((rt_update 4 start).freed ≡ start.freed + 1)
    × ((w : Version) × ((rt_update 4 start).heap 4 ≡ some w)
        × (w.gen ≡ start.freed + 1)
        × (w.val 9 ≡ (start.freed + 1) * table_keys + 9))
    × ((◌≡◌ {A = ℕ} 1 4) ⊎ ((rt_update 4 start).heap 1 ≡ none))
unfolding rt_init
rt_update_lem_example =
    rt_update_lem 1 storage start here 4 1 9 (λ i. inl refl) refl refl (omega arith)
