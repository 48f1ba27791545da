-- ===== src/Lib.antt =====
-- A library of the systems-programming exercises of this repository: five weeks of C programs,
-- each a small subsystem with its tests and benchmarks. The parts that carry logic are modelled
-- here; what only prints, times or tests is left out.
--
-- week4/examples/04-rcu-table, a read-mostly table under RCU:
-- - Rcu (src/rcu.c, src/rcu.h): the reader registry, `rcu_register`, `rcu_unregister`,
--   `rcu_read_lock`, `rcu_read_unlock`, and the two loop bodies of `synchronize_rcu` (`sample`,
--   `still_inside`). The array of 64 readers is a family indexed by slot.
-- - Table (src/table.c, src/table.h): `version`, `fill`, `consistent`, and the rwlock baseline
--   (`rw_init`, `rw_lookup`, `rw_update`), each under its lock and so in one step.
-- - Handshake (model/handshake.c, src/orders.h): the model checker of the RCU handshake on weak
--   memory. `moves` lists the states that `explore` calls itself on, Handshake/Explore has
--   `explore`, which counts how executions end, and `check_model`, one round of the loop in
--   `main`; Handshake/Program is `main`, and `orders_h` is the choice of src/orders.h. The two
--   store buffers are lists; the trace kept for printing is left out.
-- - RcuBench (src/bench.c): the loop of `reader` and `main` from what the runs give, with the
--   bounds of its array. RcuBench/Once has the readers and the writer of `run_once` on the RCU
--   table at once, each access of theirs an access of Grace.
-- - Grace (src/rcu.c and src/table.c together): the RCU table run by any number of readers and
--   updaters. `System` is the shared memory with the place of each thread; `read_at` is the next
--   access of `rt_lookup`, `update_at` the next access of `rt_update` with `synchronize_rcu`
--   inside it; `Step` lets any thread move, and `Reach` collects what can happen after `rt_init`.
--   malloc is the environment's choice of any address that is not in use, freed ones included. The
--   malloc of `rt_update` is one step with taking the mutex, so an updater that holds a fresh
--   version while it waits for the mutex is left out.
--
-- week2/examples/02-proc-inspector, whose sources are the same as in week2/src:
-- - CopyGuard (src/copyguard.c): `kwrite`, `kread`, the guard behind the kernel buffer, the rows
--   of `sweep`, and the checks of `main`. Memory is a list of bytes with buffer and guard in one
--   region.
-- - Lifecycle (src/lifecycle.c): `acquire`, `release`, `init_module_model`, `exit_module_model`
--   and `main`, over a heap where the release of memory that is not allocated has no result.
--   malloc is a parameter, which gives unused memory or none.
-- - Procstat (module/procstat.c): `count_tasks` over the list of tasks that the walk visits, and
--   `procstat_show`, whose count of reads is under a lock; `session` loads the module
--   (`procstat_init`), serves any reads and unloads it (`procstat_exit`).
--
-- week3/examples/03-lockfree-queue, queues under contention:
-- - MutexQueue (src/mutexqueue.c): `mq_create`, `mq_enqueue`, `mq_dequeue`, `mq_destroy` on an
--   explicit heap, where a stray access or a double free has no result; `serve_all` runs a
--   client's calls. malloc is a parameter, which gives unused memory or none.
-- - MsQueue (src/msqueue.c): `node_new`, `msq_create`, and `msq_enqueue` and `msq_dequeue` one
--   access at a time (`enqueue_at`, `dequeue_at`), with a mark for a pointer to freed memory that
--   was followed; `run_enqueue` and `run_dequeue` let one thread run alone, Enqueuers lets any
--   number of threads enqueue at once, and Threads lets any number enqueue and dequeue, where in
--   `Ran` malloc gives no address twice, and in `Going` of Reuse any address that is not in use.
--   `msq_destroy` goes along the nodes on fuel: one round for each value and one for the dummy are
--   enough.
-- - QueueBench (src/bench.c): the calls of a worker, and the rows of `main` from the times of the
--   runs.
-- - AbaStack (src/aba_stack.c): `push`, `slow_pop` and `thread2` on a stack whose top is a bare
--   pointer, with thread 2 between the two halves of the pop.
--
-- week5/examples/05-invariant-audit, a pool of workers under audit:
-- - TaskQueue (src/workload.c): the bounded queue `taskq` between dispatcher and workers:
--   `tq_init`, `tq_push`, `tq_pop`, `tq_close`. Without the waits a call is one step under the
--   lock, and `Run` is any order of the steps of any number of threads; TaskQueue/Monitor has the
--   waits, signals and broadcasts, where a call is cut at the waits (`push_section`,
--   `pop_section`, `close_section`) and `Waited` is any order of the pieces.
-- - Pool (src/workload.c): `wl_run` as a whole, dispatcher, both queues, gate and workers, each
--   step of `Step` an access that others may see; `Reach` is any order of them, with the number of
--   steps taken. Times are left out here. Pool/Sleep adds who sleeps on which condition: `Nap` is
--   a thread that goes to sleep or wakes unasked, `Wakes` whom the signal or broadcast of a step
--   wakes, and `SleepReach` any order of both, with the steps counted and the naps not.
-- - Workload (src/workload.c, src/workload.h, config/params.h): `select_pathology`,
--   `wl_pool_workers`, `pace_workers`, `dispatch_one` and the order in which the loop of `wl_run`
--   dispatches, with one unit of fuel for each of the 4000 tasks. Workload/Records has the records
--   that the analysis reads; Workload/Clock the clock, sleeps and the loops that keep a worker
--   busy, where a parameter says what each call takes; Workload/Worker one round of `worker_main`;
--   Workload/Pacing the dispatch loop on the clock and the end of `wl_run`.
-- - Analyze (src/analyze.c, src/analyze.h): `median_of`, `spread_of`, `classify_latency`;
--   Analyze/Scan has `invariant_scan` with its two nested loops as one (`sweep_from`),
--   Analyze/Episodes the contract of the header, instant by instant, Analyze/Summary has
--   `summarize_run`. A double is an element of any type with the operations used, and qsort a
--   parameter that rearranges and sorts; Analyze/Comparing has the qsort that is given
--   `compare_double`, of which only what the C standard says is assumed.
-- - Audit (src/audit.c): `main`, with the runs and their summary as parameters.
-- - Windows (tools/windows.c): `main`, which scans each run with seven windows (`scan_windows`)
--   and prints what they give over the runs (`window_rows`); what `wl_run` leaves is a parameter.
--
-- week1/examples/01-syscall-profiler:
-- - Profiler (src/nullcall.c): the timed loops, where a parameter says what each call takes,
--   `median` and `main` with its exit codes.
--
-- Bounds. unsigned long is 64 bits wide and wraps, in the readers' counters too. `long` values
-- (generations, table values, the count of freed versions) are plain numbers: they stay below 2^63
-- for the first 2^57 updates. The registry has 64 slots, so an update alone takes 198 accesses at
-- most, which is the fuel of `rt_update`. Each move of the handshake lowers a rank that starts at
-- 16, so 17 is fuel enough for `explore`; the reader stores twice and the writer once, and a store
-- buffer of the source has room for four.
--
-- Not modelled: what MsQueue holds once freed memory is reused, but for its counts; threads
-- running at once in the benchmark of the queues; memory orderings weaker than sequential
-- consistency in Grace and MsQueue; a failing malloc in both, which leaves everything as it was;
-- failure of pthread calls; output of the command-line programs.
pub mod Shared
pub mod Procstat
pub mod RcuBench
pub mod QueueBench
pub mod Profiler
pub mod Rcu
pub mod Table
pub mod Grace
pub mod AbaStack
pub mod Analyze
pub mod Audit
pub mod CopyGuard
pub mod Handshake
pub mod Lifecycle
pub mod MsQueue
pub mod TaskQueue
pub mod Windows
pub mod Workload
pub mod Pool
pub mod MutexQueue
