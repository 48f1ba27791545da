-- ===== src/Workload.antt =====
-- The dispatcher of src/workload.c: which task it releases when, to which queue, and how many
-- workers serve each. Clocks, gaps and service times are left out.
pub mod Records
pub mod Clock
pub mod Config
pub mod Worker
mod Serving
pub mod Pacing
mod Schedule
pub mod Laws
mod Tests
use comp.Shared.{
  ℕ, zero, suc, ◌+◌, ◌-◌, ◌%◌, Bool, true, false, ◌&&◌, List, [], ◌∷◌, ◌++◌, ◌==◌, ltb, leb,
  if◌then◌else◌, map,
}

abbrev pub wl_tasks : ℕ
wl_tasks = 4000

abbrev pub wl_num_sizes : ℕ
wl_num_sizes = 4

abbrev pub wl_holder_period : ℕ
wl_holder_period = 400

abbrev pub wl_burst_period : ℕ
wl_burst_period = 150

abbrev pub wl_burst_size : ℕ
wl_burst_size = 30

abbrev pub wl_min_workers : ℕ
wl_min_workers = 3

abbrev pub wl_pace_max_workers : ℕ
wl_pace_max_workers = 4

pub data Pathology : Type 0 where
  blocked_holder burst_arrival uneven_partition : Pathology

abbrev pub pathology_of : ℕ → Pathology
pathology_of zero = blocked_holder
pathology_of (suc zero) = burst_arrival
pathology_of n = uneven_partition

unfoldable pub select_pathology : ℕ → Pathology
select_pathology seed = pathology_of (seed % 3)

-- From the configured count and what sysconf says of the CPUs, 0 or 1 where it says nothing.
unfoldable pub wl_pool_workers : ℕ → ℕ → ℕ
wl_pool_workers workers online =
    let n = if ltb 1 online && ltb (online - 1) workers then online - 1 else workers in
    if ltb n wl_min_workers then wl_min_workers else n

unfoldable pub pace_workers : ℕ → ℕ
pace_workers pool = if ltb pool wl_pace_max_workers then pool else wl_pace_max_workers

-- The workers of the two queues.
unfoldable pub shard_workers : Pathology → ℕ → ℕ × ℕ
shard_workers uneven_partition pool = (1, pool - 1)
shard_workers path pool = (pool, 0)

abbrev pub is_holder_path : Pathology → Bool
is_holder_path blocked_holder = true
is_holder_path path = false

abbrev pub is_burst : Pathology → Bool
is_burst burst_arrival = true
is_burst path = false

abbrev pub queue_of : Pathology → ℕ → ℕ
queue_of uneven_partition shard = shard
queue_of path shard = 0

-- What `dispatch_one` records of a task but for its times, and the queue that it goes to.
pub record Task : Type 0 where
  pub task_id : ℕ
  pub shard : ℕ
  pub size_class : ℕ
  pub is_holder : Bool
  pub queue : ℕ

unfoldable pub dispatch_one : Pathology → ℕ → Task
dispatch_one path task_id =
    let cls = task_id % wl_num_sizes in
    let shard = if cls == wl_num_sizes - 1 then 0 else 1 in
    record {
      task_id = task_id;
      shard = shard;
      size_class = cls;
      is_holder = is_holder_path path && (task_id % wl_holder_period == 0);
      queue = queue_of path shard;
    }

-- The `n` numbers from `i` on.
abbrev pub range : ℕ → ℕ → List ℕ
range i zero = []
range i (suc n) = i ∷ range (suc i) n

-- Where the burst that starts at `i` ends.
abbrev pub burst_end : ℕ → ℕ
burst_end i = let e = i + wl_burst_size in if ltb wl_tasks e then wl_tasks else e

-- The tasks that the loop of `wl_run` dispatches from task `i` on, on fuel, one a round.
unfoldable pub dispatch_from : Pathology → ℕ → ℕ → List ℕ
dispatch_from path zero i = []
dispatch_from path (suc fuel) i =
    let burst = dispatch_from path fuel (burst_end i) in
    let paced = dispatch_from path fuel (suc i) in
    if ltb i wl_tasks
    then (if is_burst path && (i % wl_burst_period == 0)
        then range i (burst_end i - i) ++ burst
        else i ∷ paced)
    else []

-- The count of shard 0 at the end of `wl_run`, over the tasks from `i` on.
unfoldable pub count_shard0 : Pathology → ℕ → ℕ → ℕ
unfolding dispatch_one
count_shard0 path zero i = 0
count_shard0 path (suc n) i =
    let rest = count_shard0 path n (suc i) in
    if (dispatch_one path i).shard == 0 then suc rest else rest
