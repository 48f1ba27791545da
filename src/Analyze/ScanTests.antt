-- ===== src/Analyze/ScanTests.antt =====
-- The invariant scan and the summary of two small runs, in whole numbers, with events sorted by
-- insertion.
use comp.Shared.{
  ℕ, ◌≡◌, refl, ◌≤◌, false, List, [], ◌∷◌, All, if◌then◌else◌, ltb, arith, inl, inr, Bool-cases,
}
use comp.Workload.Records.{Record, RunResult}
use comp.Analyze.Order.{Rearranged, same, keep, swap, both}
use comp.Analyze.Scan.{Event, invariant_scan}
use comp.Analyze.Episodes.{Interval, Maximal, violated_at}
use comp.Analyze.Sweeping.{ByTime}
use comp.Analyze.Contract.{SortsByTime, Reports, invariant_scan-Maximal}
use comp.Analyze.Deltas.{AllInOrder}
use comp.Analyze.Tests.{whole}

abbrev insert_event : Event → List Event → List Event
insert_event a [] = a ∷ []
insert_event a (x ∷ xs) =
    let rest = insert_event a xs in if ltb x.time_ns a.time_ns then x ∷ rest else a ∷ (x ∷ xs)

abbrev pub sort_events : List Event → List Event
sort_events [] = []
sort_events (x ∷ xs) = insert_event x (sort_events xs)

rearranged_self : (l : List Event) → Rearranged l l
rearranged_self [] = same
rearranged_self (x ∷ l) = keep x (rearranged_self l)

insert_event-Rearranged : (a : Event) (l : List Event) → Rearranged (a ∷ l) (insert_event a l)
insert_event-Rearranged a [] = keep a same
insert_event-Rearranged a (x ∷ xs) = elim (Bool-cases (ltb x.time_ns a.time_ns)) [
  | inl y ↦ rw y (both (swap a x) (keep x (insert_event-Rearranged a xs)))
  | inr n ↦ rw n (rearranged_self (a ∷ (x ∷ xs)))
]

sort_events-Rearranged : (l : List Event) → Rearranged l (sort_events l)
sort_events-Rearranged [] = same
sort_events-Rearranged (x ∷ xs) =
    both (keep x (sort_events-Rearranged xs)) (insert_event-Rearranged x (sort_events xs))

insert_event-All :
    (P : Event → Type 0) (a : Event) (l : List Event) → P a → All P l → All P (insert_event a l)
insert_event-All P a [] p h = (p, tt)
insert_event-All P a (x ∷ xs) p h = elim (Bool-cases (ltb x.time_ns a.time_ns)) [
  | inl y ↦ rw y (h.0, insert_event-All P a xs p h.1)
  | inr n ↦ rw n (p, h)
]

All-later :
    (a x : ℕ) (l : List Event)
    → a ≤ x
    → All (λ (f : Event). x ≤ f.time_ns) l
    → All (λ (f : Event). a ≤ f.time_ns) l
All-later a x [] n h = tt
All-later a x (y ∷ l) n h = let k = h.0 in (omega arith, All-later a x l n h.1)

insert_event-ByTime : (a : Event) (l : List Event) → ByTime l → ByTime (insert_event a l)
insert_event-ByTime a [] h = (tt, tt)
insert_event-ByTime a (x ∷ xs) h = elim (Bool-cases (ltb x.time_ns a.time_ns)) [
  | inl y ↦ rw y (
    insert_event-All (λ z. x.time_ns ≤ z.time_ns) a xs (ground arith) h.0,
    insert_event-ByTime a xs h.1,
  )
  | inr n ↦
      let le : a.time_ns ≤ x.time_ns = ground arith in
      rw n ((le, All-later a.time_ns x.time_ns xs le h.0), h)
]

sort_events-ByTime : (l : List Event) → ByTime (sort_events l)
sort_events-ByTime [] = tt
sort_events-ByTime (x ∷ xs) = insert_event-ByTime x (sort_events xs) (sort_events-ByTime xs)

pub sort_events-SortsByTime : SortsByTime sort_events
sort_events-SortsByTime = record { rearranges = sort_events-Rearranged; sorts = sort_events-ByTime }

abbrev task : ℕ → ℕ → ℕ → ℕ → ℕ → Record ℕ
task id shard ready start end = record {
  task_id = id;
  shard = shard;
  service_us = 300;
  is_holder = false;
  ready_ns = ready;
  start_ns = start;
  end_ns = end;
}

-- One of two workers is idle from 5000 on while a task waits, until 9000.
abbrev pub tasks : List (Record ℕ)
tasks =
    task 0 1 1000 1000 5000
    ∷ (task 1 1 2000 2000 12000 ∷ (task 2 1 3000 9000 13000 ∷ (task 3 0 4000 0 0 ∷ [])))

abbrev pub run : RunResult ℕ
run = record {
  queued = 4;
  completed = 3;
  shard0_count = 1;
  shard1_count = 3;
  workers = 2;
  pace_late_us = 0;
  records = tasks;
}

pub tasks-AllInOrder : AllInOrder tasks
tasks-AllInOrder = (
  (λ _. (omega arith, omega arith)),
  (
    (λ _. (omega arith, omega arith)),
    ((λ _. (omega arith, omega arith)), ((λ y. absurd (ground arith)), tt)),
  ),
)

invariant_scan-tasks :
    invariant_scan whole 2 3 sort_events tasks
    ≡ record { violation_us = 4; episodes = 1; span_us = 12 }
unfolding invariant_scan
invariant_scan-tasks = refl

invariant_scan-none_started :
    invariant_scan whole 2 3 sort_events (task 0 1 1000 0 0 ∷ [])
    ≡ record { violation_us = 0; episodes = 0; span_us = 0 }
unfolding invariant_scan
invariant_scan-none_started = refl

invariant_scan-Maximal_example :
    (is : List Interval) × Maximal (violated_at 2 tasks) is
    × Reports whole 3 (invariant_scan whole 2 3 sort_events tasks) is
invariant_scan-Maximal_example =
    invariant_scan-Maximal whole 3 2 sort_events sort_events-SortsByTime tasks tasks-AllInOrder
