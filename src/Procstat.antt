-- ===== src/Procstat.antt =====
-- The kernel module of week2/module/procstat.c. What the kernel says of a task is a parameter, as are
-- its calls that make and remove a file of /proc; the walk over the tasks is the list of those it
-- visits.
mod Laws
mod Session
mod Tests
use comp.Shared.{
  ℕ, zero, suc, ◌+◌, Bool, true, false, Option, none, some, List, [], ◌∷◌, if◌then◌else◌, add64, ℤ,
  pos, negsuc,
}

-- The four results of `count_tasks`.
pub record Tally : Type 0 where
  pub running : ℕ
  pub sleeping : ℕ
  pub zombie : ℕ
  pub total : ℕ

-- The five lines that a read of the file prints.
pub record Report : Type 0 where
  pub tasks_total : ℕ
  pub tasks_running : ℕ
  pub tasks_sleeping : ℕ
  pub tasks_zombie : ℕ
  pub reads : ℕ

module _ {ℓ} {T : Type ℓ} (is_zombie is_running : T → Bool) where
  -- The body of the loop of `count_tasks`.
  unfoldable pub count_task : Tally → T → Tally
  count_task k t =
      let seen = record k { total = add64 k.total 1 } in
      if is_zombie t
      then record seen { zombie = add64 k.zombie 1 }
      else if is_running t
      then record seen { running = add64 k.running 1 }
      else record seen { sleeping = add64 k.sleeping 1 }

  unfoldable pub count_from : Tally → List T → Tally
  unfolding count_task
  count_from k [] = k
  count_from k (t ∷ ts) = count_from (count_task k t) ts

  unfoldable pub count_tasks : List T → Tally
  unfolding count_from
  count_tasks ts = count_from (record { running = 0; sleeping = 0; zombie = 0; total = 0 }) ts

  -- What is printed, and `read_count` after it; the count is raised and read under `stat_lock`.
  unfoldable pub procstat_show : ℕ → List T → Report × ℕ
  unfolding count_tasks
  procstat_show read_count ts =
      let k = count_tasks ts in
      let reads = add64 read_count 1 in
      (
        record {
          tasks_total = k.total;
          tasks_running = k.running;
          tasks_sleeping = k.sleeping;
          tasks_zombie = k.zombie;
          reads = reads;
        },
        reads,
      )

  -- The reads of the file one after another, as they take `stat_lock`, each with the tasks it visits.
  unfoldable pub serve_reads : ℕ → List (List T) → List Report
  unfolding procstat_show
  serve_reads read_count [] = []
  serve_reads read_count (ts ∷ rest) =
      let (report, after) = procstat_show read_count ts in report ∷ serve_reads after rest

-- `proc_create` and `proc_remove` of the kernel, whose own state is of the type `W` and whose entries
-- are of the type `E`.
pub record ProcFs (W E : Type 0) : Type 0 where
  pub proc_create : W → Option E × W
  pub proc_remove : E → W → W

-- -ENOMEM
abbrev pub enomem : ℤ
enomem = negsuc 11

module _ {W E : Type 0} (kernel : ProcFs W E) where
  -- What is returned, and `entry`.
  unfoldable pub procstat_init : W → ℤ × (Option E × W)
  procstat_init w =
      let (entry, w') = kernel.proc_create w in
      (elim entry [ none ↦ enomem | some e ↦ pos 0 ], (entry, w'))

  unfoldable pub procstat_exit : E → W → W
  procstat_exit entry w = kernel.proc_remove entry w

  -- The module is loaded, read and unloaded; where it cannot be loaded nothing else of it runs.
  unfoldable pub session :
      {T : Type 0} → (T → Bool) → (T → Bool) → List (List T) → W → ℤ × (List Report × W)
  unfolding serve_reads procstat_init procstat_exit
  session is_zombie is_running reads w =
      let (status, (entry, w')) = procstat_init w in
      elim entry [
        | none ↦ (status, ([], w'))
        | some e ↦ (status, (serve_reads is_zombie is_running 0 reads, procstat_exit e w'))
      ]
