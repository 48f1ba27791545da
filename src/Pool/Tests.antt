-- ===== src/Pool/Tests.antt =====
-- A run of the pool, and its first steps.
use comp.Shared.{
  ℕ, ◌≡◌, ◌≤◌, ◌+◌, ◌*◌, none, refl, ap, arith, inl, true, false, ◌⊎◌, if◌then◌else◌, ltb, ◌==◌,
  update,
}
use comp.TaskQueue.{Taskq, tq_init, tq_push, tq_pop}
use comp.Analyze.Order.{count}
use comp.Workload.{uneven_partition, wl_tasks, wl_pool_workers, dispatch_one, range, shard_workers}
use comp.Workload.Laws.{dispatch_from-all}
use comp.Pool.{
  Pool, dispatching, start_pool, total_workers, worker_queue, release, take, Reach, here, next,
  IsOver, passing, update,
}
use comp.Pool.Finished.{wl_run-Complete}
use comp.Pool.Progress.{run_on}
use comp.Pool.Sleep.{Sleepers, Goes, SleepReach, all_awake, acts, naps, dozes}
use comp.Pool.Wakeful.{wl_run-Wakeful}

abbrev first_push : Taskq
first_push = record (tq_init 64) { tail = 1; count = 1 }

abbrev first_pop : Taskq
first_pop = record (tq_init 64) { head = 1; tail = 1 }

-- With four workers, task 0 goes to queue 1 and worker 3 takes it.
abbrev released : Pool
released = record (start_pool uneven_partition 4) {
  q1 = first_push;
  main = dispatching (range 1 3999);
}

abbrev taken : Pool
taken = record released { q1 = first_pop; at = update released.at 3 (passing 0) }

taken-Reach : Reach uneven_partition (wl_pool_workers 4 8) 2 taken
unfolding start_pool tq_init tq_push tq_pop wl_pool_workers total_workers worker_queue shard_workers
    dispatch_one
taken-Reach =
    next
      (next here (
        release 0 (range 1 3999) first_push (ap dispatching (dispatch_from-all uneven_partition))
          refl))
      (take 3 0 first_pop (omega arith) refl refl)

-- Worker 3 has gone to sleep on queue 1 before task 0 is put there, and the signal wakes it.
abbrev three_sleeps : Sleepers
three_sleeps = record { asleep = update (λ i. false) 3 true; main_asleep = false }

abbrev three_woken : Sleepers
three_woken = record three_sleeps { asleep = update three_sleeps.asleep 3 false }

released-SleepReach : SleepReach uneven_partition (wl_pool_workers 4 8) 1 released three_woken
unfolding start_pool tq_init tq_push tq_pop wl_pool_workers total_workers worker_queue shard_workers
    dispatch_one
released-SleepReach =
    acts (naps all_awake (dozes 3 (omega arith) refl refl))
      (release 0 (range 1 3999) first_push (ap dispatching (dispatch_from-all uneven_partition))
        refl)
      refl (refl, inl (3, omega arith, refl, refl, refl))

wl_run-Wakeful_example :
    (1 ≤ 8 * wl_tasks + 2 * total_workers uneven_partition (wl_pool_workers 4 8) + 2)
    × (IsOver uneven_partition (wl_pool_workers 4 8) released
        ⊎ Goes uneven_partition (wl_pool_workers 4 8) released three_woken)
wl_run-Wakeful_example = wl_run-Wakeful uneven_partition 4 8 1 released-SleepReach

-- The run goes on from there to its end.
some_run :
    (last : ℕ) × (t : Pool) × Reach uneven_partition (wl_pool_workers 4 8) last t
    × IsOver uneven_partition (wl_pool_workers 4 8) t
unfolding total_workers shard_workers wl_pool_workers
some_run = run_on uneven_partition 4 8 40000 2 taken taken-Reach (omega arith)

wl_run-Complete_example :
    (some_run.1.completed ≡ wl_tasks)
    × ((t : ℕ) → count (λ x. x == t) some_run.1.ended ≡ (if ltb t wl_tasks then 1 else 0))
    × (some_run.1.gate ≡ none)
wl_run-Complete_example = wl_run-Complete uneven_partition 4 8 some_run.0 some_run.2 some_run.3
