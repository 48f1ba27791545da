-- ===== src/Audit/Tests.antt =====
-- The audit of runs that complete all their tasks but one.
use comp.Shared.{ℕ, ◌≡◌, refl, ◌⊎◌, none, some, [], pos, if◌then◌else◌, ◌==◌}
use comp.Workload.Records.{RunResult}
use comp.Audit.{absent, number_of_runs, accepted, AuditReport, audit_main}
use comp.Audit.Rows.{Asks, Complete, audit_main-Complete}

abbrev sample_run : ℕ → RunResult ℕ
sample_run k = record {
  queued = 4000;
  completed = if k == 5 then 3999 else 4000;
  shard0_count = 1000;
  shard1_count = 3000;
  workers = 3;
  pace_late_us = 0;
  records = [];
}

abbrev completed_of : RunResult ℕ → ℕ
completed_of r = r.completed

accepted-edges :
    (accepted (number_of_runs (pos 19)) ≡ none)
    × (accepted (number_of_runs (pos 20)) ≡ some 20)
    × (accepted (number_of_runs (pos 1001)) ≡ none)
unfolding accepted
accepted-edges = (refl, refl, refl)

audit_main-Complete_example :
    ((audit_main sample_run completed_of 3 absent ≡ none)
      × ((n : ℕ) → ¬ Asks sample_run completed_of absent n))
    ⊎ ((n : ℕ) × (report : AuditReport ℕ ℕ) × (audit_main sample_run completed_of 3 absent
          ≡ some report)
        × Asks sample_run completed_of absent n
        × Complete sample_run completed_of 3 n report)
audit_main-Complete_example = audit_main-Complete sample_run completed_of 3 absent
