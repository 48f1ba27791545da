-- ===== src/Audit/Rows.antt =====
-- The rows of src/audit.c.
use mathlib.Core.Path.{subst}
use comp.Shared.{
  ℕ, zero, suc, ◌+◌, ◌≡◌, ◌∙◌, ap, refl, ◌≤◌, ◌<◌, some, arith, pos, negsuc, length, get_elem?,
  none, ◌⊎◌, ltb_ℤ, Option-cases, ◌||◌, not, false, inl, ◌==◌, inr,
}
use comp.Workload.Records.{RunResult}
use comp.Audit.{
  Argument, absent, not_a_number, number_of_runs, accepted, audit_row, rows_from, none, AuditReport,
  audit_main, ltb_ℤ, Row, not,
}

module _ {D S : Type 0} (run : ℕ → RunResult D) (summarize : RunResult D → S) where
  length-rows_from : (warmup left i : ℕ) → length (rows_from run summarize warmup left i) ≡ left
  unfolding rows_from
  length-rows_from warmup zero i = refl
  length-rows_from warmup (suc left) i = ap suc (length-rows_from warmup left (suc i))

  get_elem?-rows_from :
      (warmup left i k : ℕ)
      → k < left
      → get_elem? (rows_from run summarize warmup left i) k
        ≡ some (audit_row run summarize warmup (i + k))
  unfolding rows_from
  get_elem?-rows_from warmup zero i k h = absurd (omega arith)
  get_elem?-rows_from warmup (suc left) i zero h =
      let e : i ≡ i + 0 = omega arith in ap (λ j. some (audit_row run summarize warmup j)) e
  get_elem?-rows_from warmup (suc left) i (suc k) h =
      let e : suc i + k ≡ i + suc k = omega arith in
      get_elem?-rows_from warmup left (suc i) k (omega arith)
      ∙ ap (λ j. some (audit_row run summarize warmup j)) e

  -- How many runs an argument asks for, if it is taken.
  abbrev pub Asks : Argument → ℕ → Type 0
  Asks absent n = n ≡ 25
  Asks not_a_number n = ⊥
  Asks (number_of_runs z) n = (z ≡ pos n) × (20 ≤ n) × (n ≤ 1000)

  accepted-Asks : (argument : Argument) (n : ℕ) → accepted argument ≡ some n → Asks argument n
  unfolding accepted
  accepted-Asks absent n e = ground arith
  accepted-Asks not_a_number n e = ground arith
  accepted-Asks (number_of_runs (pos m)) n e = ground arith
  accepted-Asks (number_of_runs (negsuc m)) n e = absurd (ground arith)

  not_accepted-Asks : (argument : Argument) (n : ℕ) → accepted argument ≡ none → ¬ Asks argument n
  unfolding accepted
  not_accepted-Asks absent n e a = ground arith
  not_accepted-Asks not_a_number n e a = a
  not_accepted-Asks (number_of_runs z) n e a =
      let f = a.0 in
      let test : (ltb_ℤ (pos n) (pos 20) || ltb_ℤ (pos 1000) (pos n)) ≡ false = ground arith in
      let e' : accepted (number_of_runs (pos n)) ≡ none =
        subst (λ y. accepted (number_of_runs y) ≡ none) f e in
      absurd (ground arith)

  -- The rows of `n` runs after `warmup` that are thrown away.
  pub record Complete (warmup n : ℕ) (report : AuditReport D S) : Type 0 where
    pub discarded : report.discarded ≡ warmup
    pub how_many : length report.rows ≡ n
    pub each :
        (k : ℕ)
        → k < n
        → (row : Row D S) × (get_elem? report.rows k ≡ some row)
          × (row.run ≡ k)
          × (row.result ≡ run (warmup + k))
          × (row.summary ≡ summarize (run (warmup + k)))
          × (row.lost ≡ not ((run (warmup + k)).completed == (run (warmup + k)).queued))

  -- The audit either refuses its argument, which then asks for no number of runs from 20 to 1000,
  -- or prints one row for each run that it asks for, 25 without an argument: after the warm-up
  -- runs, in order, each with the summary of its own run, and with a warning exactly if that run
  -- completed another number of tasks than it queued.
  pub audit_main-Complete :
      (warmup : ℕ) (argument : Argument)
      → ((audit_main run summarize warmup argument ≡ none) × ((n : ℕ) → ¬ Asks argument n))
        ⊎ ((n : ℕ) × (report : AuditReport D S) × (audit_main run summarize warmup argument
              ≡ some report)
            × Asks argument n
            × Complete warmup n report)
  unfolding audit_main
  audit_main-Complete warmup argument = elim (Option-cases (accepted argument)) [
    | inl e ↦ inl (
      ap
          (λ o. elim o [
            | none ↦ none
            | some n ↦
                some (record { discarded = warmup; rows = rows_from run summarize warmup n 0 })
          ])
          e,
      (λ n a. not_accepted-Asks argument n e a),
    )
    | inr (n, e) ↦ inr (
      n,
      record { discarded = warmup; rows = rows_from run summarize warmup n 0 },
      ap
          (λ o. elim o [
            | none ↦ none
            | some m ↦
                some (record { discarded = warmup; rows = rows_from run summarize warmup m 0 })
          ])
          e,
      accepted-Asks argument n e,
      record {
        discarded = refl;
        how_many = length-rows_from warmup n 0;
        each = λ k h. (
          audit_row run summarize warmup k,
          get_elem?-rows_from warmup n 0 k h
              ∙ ap (λ j. some (audit_row run summarize warmup j))
                  (let e : 0 + k ≡ k = omega arith in e),
          refl,
          refl,
          refl,
          refl,
        );
      },
    )
  ]
