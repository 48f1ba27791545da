-- ===== src/Workload/Schedule.antt =====
-- When the dispatch loop of src/workload.c releases which task.
use comp.Workload.Laws.{dispatch_from-all}
use comp.Shared.{
  ℕ, zero, suc, ◌-◌, ◌%◌, ◌≡◌, ◌∙◌, ap, refl, ◌&&◌, List, [], ◌∷◌, ◌++◌, map, inl, inr, Bool-cases,
  ltb, ◌==◌, ◌≤◌, false, if◌then◌else◌, ◌+◌, ◌*◌,
}
use comp.Workload.{Pathology, wl_tasks, is_burst, wl_burst_period, burst_end, range, dispatch_from}
use comp.Workload.Records.{Record}
use comp.Workload.Clock.{Clock, wl_now_ns}
use comp.Workload.Worker.{dispatch_record}
use comp.Workload.Pacing.{burst_records, pace_from}

map-append : {A B : Type 0} (f : A → B) (xs ys : List A) → map f (xs ++ ys) ≡ map f xs ++ map f ys
map-append f [] ys = refl
map-append f (x ∷ xs) ys = ap (λ l. f x ∷ l) (map-append f xs ys)

module _ {D : Type 0} (delay : ℕ → ℕ) (path : Pathology) (service_us : ℕ → D) (gap_ns : ℕ) where
  abbrev ids : List (Record D) → List ℕ
  ids rs = map (λ r. r.task_id) rs

  dispatch_record-id :
      (i : ℕ) (c : Clock) → (dispatch_record delay path service_us i c).0.task_id ≡ i
  unfolding dispatch_record
  dispatch_record-id i c = refl

  burst_records-ids :
      (n i : ℕ) (c : Clock) → ids (burst_records delay path service_us gap_ns n i c).0 ≡ range i n
  unfolding burst_records
  burst_records-ids zero i c = refl
  burst_records-ids (suc n) i c = ap (λ l. i ∷ l) (burst_records-ids n (suc i) _)

  pace_from-ids :
      (fuel i deadline : ℕ) (c : Clock)
      → ids (pace_from delay path service_us gap_ns fuel i deadline c).records
        ≡ dispatch_from path fuel i
  unfolding pace_from dispatch_from
  pace_from-ids zero i deadline c = refl
  pace_from-ids (suc fuel) i deadline c = elim (Bool-cases (ltb i wl_tasks)) [
    | inr out ↦ rw out refl
    | inl more ↦ elim (Bool-cases (is_burst path && (i % wl_burst_period == 0))) [
      | inl b ↦
          let n = burst_end i - i in
          let burst = burst_records delay path service_us gap_ns n i c in
          let read = wl_now_ns delay burst.1 in
          let rest = pace_from delay path service_us gap_ns fuel (burst_end i) read.time read in
          rw (more, b)
            (map-append (λ r. r.task_id) burst.0 rest.records
              ∙ ap (λ l. l ++ ids rest.records) (burst_records-ids n i c)
              ∙ ap (λ l. range i n ++ l) (pace_from-ids fuel (burst_end i) read.time read))
      | inr p ↦ rw (more, p) (ap (λ l. i ∷ l) (pace_from-ids fuel (suc i) _ _))
    ]
  ]

  -- Whatever calls take, the loop ends within one round for each task and leaves the record of task
  -- k at place k.
  pub pace_from-records :
      (deadline : ℕ) (c : Clock)
      → map (λ r. r.task_id) (pace_from delay path service_us gap_ns wl_tasks 0 deadline c).records
        ≡ range 0 wl_tasks
  pace_from-records deadline c = pace_from-ids wl_tasks 0 deadline c ∙ dispatch_from-all path

  -- The k-th task is ready after k + 1 gaps from `lo` at the earliest.
  abbrev pub NotBefore : ℕ → List (Record D) → Type 0
  NotBefore lo [] = Unit
  NotBefore lo (r ∷ rs) = (lo + gap_ns ≤ r.ready_ns) × NotBefore (lo + gap_ns) rs

  module _ (no_burst : is_burst path ≡ false) where
    -- What the loop does after a paced task that was `late` after its deadline `due`: a dispatcher no
    -- more than two gaps late keeps to its schedule, another starts a fresh one.
    abbrev pub rescheduled : ℕ → ℕ → ℕ
    rescheduled due late = if ltb (2 * gap_ns) late then due + late else due

    -- Records with how late each was, from a deadline on: each task is released `late` after a
    -- deadline one gap after the last one, and its record is ready then; and whatever it was late,
    -- the k-th task after it is not ready before k + 1 gaps from two gaps before its release.
    abbrev pub OnSchedule : ℕ → List (Record D) → List ℕ → Type 0
    OnSchedule deadline [] [] = Unit
    OnSchedule deadline (r ∷ rs) (late ∷ ls) =
        (deadline + gap_ns + late ≤ r.ready_ns)
        × NotBefore (deadline + gap_ns + late - 2 * gap_ns) rs
        × OnSchedule (rescheduled (deadline + gap_ns) late) rs ls
    OnSchedule deadline rs ls = ⊥
