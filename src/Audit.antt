-- ===== src/Audit.antt =====
-- `main` of src/audit.c: how many runs it accepts, which it discards, and the rows it prints. What
-- a run gives, and the summary of it, are parameters.
mod Rows
mod Tests
use comp.Shared.{
  ℕ, zero, suc, ◌+◌, Bool, not, ◌||◌, Option, none, some, List, [], ◌∷◌, ◌==◌, if◌then◌else◌, ℤ,
  pos, ltb_ℤ, negsuc,
}
use comp.Workload.Records.{RunResult}

abbrev pub n_runs_default : ℕ
n_runs_default = 25

-- The first argument, as strtol reads it.
pub data Argument : Type 0 where
  absent : Argument
  not_a_number : Argument
  number_of_runs : ℤ → Argument

-- One line of output; `lost` where a warning says that the run completed fewer tasks than queued.
pub record Row (D S : Type 0) : Type 0 where
  pub run : ℕ
  pub result : RunResult D
  pub summary : S
  pub lost : Bool

-- Which calls of `wl_run` were warm-up, and the rows.
pub record AuditReport (D S : Type 0) : Type 0 where
  pub discarded : ℕ
  pub rows : List (Row D S)

abbrev pub requested : Argument → Option ℤ
requested absent = some (pos n_runs_default)
requested not_a_number = none
requested (number_of_runs n) = some n

-- None where `main` returns 1 before any run.
unfoldable pub accepted : Argument → Option ℕ
accepted argument = elim (requested argument) [
  | none ↦ none
  | some n ↦
      if ltb_ℤ n (pos 20) || ltb_ℤ (pos 1000) n
      then none
      else elim n [ pos runs ↦ some runs | negsuc k ↦ none ]
]

-- `run k` is what the k-th call of `wl_run` leaves.
module _ {D S : Type 0} (run : ℕ → RunResult D) (summarize : RunResult D → S) where
  unfoldable pub audit_row : ℕ → ℕ → Row D S
  audit_row warmup i =
      let result = run (warmup + i) in
      record {
        run = i;
        result = result;
        summary = summarize result;
        lost = not (result.completed == result.queued);
      }

  -- The second loop, with `left` runs to go.
  unfoldable pub rows_from : ℕ → ℕ → ℕ → List (Row D S)
  unfolding audit_row
  rows_from warmup zero i = []
  rows_from warmup (suc left) i = audit_row warmup i ∷ rows_from warmup left (suc i)

  unfoldable pub audit_main : ℕ → Argument → Option (AuditReport D S)
  unfolding accepted rows_from
  audit_main warmup argument = elim (accepted argument) [
    | none ↦ none
    | some n_runs ↦ some (record { discarded = warmup; rows = rows_from warmup n_runs 0 })
  ]
