-- ===== src/Procstat/Laws.antt =====
-- What the counters of module/procstat.c stand for.
use comp.Shared.{
  ℕ, suc, ◌+◌, ◌^◌, ◌≡◌, refl, ◌<◌, Bool, List, [], ◌∷◌, length, if◌then◌else◌, add64, arith,
  Bool-cases, inl, inr,
}
use native.Mathlib.Nat.{mod-eq_of_lt}
use comp.Procstat.{Tally, count_task, count_from, Report, procstat_show, count_tasks}

module _ {ℓ} {T : Type ℓ} (is_zombie is_running : T → Bool) where
  -- The tasks of a list that are zombies, and those that run and are not.
  abbrev pub zombies : List T → ℕ
  zombies [] = 0
  zombies (t ∷ ts) = let rest = zombies ts in if is_zombie t then suc rest else rest

  abbrev pub runners : List T → ℕ
  runners [] = 0
  runners (t ∷ ts) =
      let rest = runners ts in if is_zombie t then rest else if is_running t then suc rest else rest

  -- `k'` is `k` with the tasks of `ts` counted.
  pub record Counted (k k' : Tally) (ts : List T) : Type 0 where
    pub total : k'.total ≡ k.total + length ts
    pub zombie : k'.zombie ≡ k.zombie + zombies ts
    pub running : k'.running ≡ k.running + runners ts
    pub parts :
        k'.running + k'.sleeping + k'.zombie + k.total
        ≡ k.running + k.sleeping + k.zombie + k'.total

  record IsSmall (k : Tally) (n : ℕ) : Type 0 where
    by_total : k.total + n < 2 ^ 64
    by_zombie : k.zombie + n < 2 ^ 64
    by_running : k.running + n < 2 ^ 64
    by_sleeping : k.sleeping + n < 2 ^ 64

  add64_small : (a : ℕ) → a + 1 < 2 ^ 64 → add64 a 1 ≡ a + 1
  add64_small a h = mod-eq_of_lt h

  -- `count_task` without the wrap.
  abbrev exact : Tally → T → Tally
  exact k t =
      if is_zombie t
      then record k { total = k.total + 1; zombie = k.zombie + 1 }
      else if is_running t
      then record k { total = k.total + 1; running = k.running + 1 }
      else record k { total = k.total + 1; sleeping = k.sleeping + 1 }

  count_task-exact :
      (k : Tally) (t : T) → IsSmall k 1 → count_task is_zombie is_running k t ≡ exact k t
  unfolding count_task
  count_task-exact k t s =
      rw
        (
          add64_small k.total s.by_total,
          add64_small k.zombie s.by_zombie,
          add64_small k.running s.by_running,
          add64_small k.sleeping s.by_sleeping,
        )
        refl

  IsSmall-one : (k : Tally) (n : ℕ) → IsSmall k (suc n) → IsSmall k 1
  IsSmall-one k n s = record {
    by_total = omega (arith, s.by_total);
    by_zombie = omega (arith, s.by_zombie);
    by_running = omega (arith, s.by_running);
    by_sleeping = omega (arith, s.by_sleeping);
  }

  count_from-Counted :
      (k : Tally) (ts : List T)
      → IsSmall k (length ts)
      → Counted k (count_from is_zombie is_running k ts) ts
  unfolding count_from
  count_from-Counted k [] s = record {
    total = omega arith;
    zombie = omega arith;
    running = omega arith;
    parts = refl;
  }
  count_from-Counted k (t ∷ ts) s =
      let a = s.by_total in
      let b = s.by_zombie in
      let c = s.by_running in
      let d = s.by_sleeping in
      rw (count_task-exact k t (IsSmall-one k (length ts) s)) (elim (Bool-cases (is_zombie t)) [
        | inl z ↦
            let k1 : Tally = record k { total = k.total + 1; zombie = k.zombie + 1 } in
            let ih = count_from-Counted k1 ts (record {
              by_total = omega arith;
              by_zombie = omega arith;
              by_running = omega arith;
              by_sleeping = omega arith;
            }) in
            rw z (record {
              total = omega (arith, ih.total);
              zombie = rw z (omega (arith, ih.zombie));
              running = rw z (omega (arith, ih.running));
              parts = omega (arith, ih.parts);
            })
        | inr n ↦ elim (Bool-cases (is_running t)) [
          | inl r ↦
              let k1 : Tally = record k { total = k.total + 1; running = k.running + 1 } in
              let ih = count_from-Counted k1 ts (record {
                by_total = omega arith;
                by_zombie = omega arith;
                by_running = omega arith;
                by_sleeping = omega arith;
              }) in
              rw (n, r)
                (record {
                  total = omega (arith, ih.total);
                  zombie = rw n (omega (arith, ih.zombie));
                  running = rw (n, r) (omega (arith, ih.running));
                  parts = omega (arith, ih.parts);
                })
          | inr m ↦
              let k1 : Tally = record k { total = k.total + 1; sleeping = k.sleeping + 1 } in
              let ih = count_from-Counted k1 ts (record {
                by_total = omega arith;
                by_zombie = omega arith;
                by_running = omega arith;
                by_sleeping = omega arith;
              }) in
              rw (n, m)
                (record {
                  total = omega (arith, ih.total);
                  zombie = rw n (omega (arith, ih.zombie));
                  running = rw (n, m) (omega (arith, ih.running));
                  parts = omega (arith, ih.parts);
                })
        ]
      ])

  -- What the file says of the tasks `ts` on its `n`-th read.
  pub record Right (ts : List T) (n : ℕ) (r : Report) : Type 0 where
    pub total : r.tasks_total ≡ length ts
    pub zombie : r.tasks_zombie ≡ zombies ts
    pub running : r.tasks_running ≡ runners ts
    pub parts : r.tasks_running + r.tasks_sleeping + r.tasks_zombie ≡ r.tasks_total
    pub numbered : r.reads ≡ n

  -- With fewer than 2^64 tasks and reads, a read of the file prints how many tasks there are, how
  -- many of them are zombies and how many run and are none, its three groups are all the tasks, and
  -- the reads are numbered in the order in which they take the lock.
  pub procstat_show-Right :
      (read_count : ℕ) (ts : List T)
      → length ts < 2 ^ 64
      → read_count + 1 < 2 ^ 64
      → let (report, after) = procstat_show is_zombie is_running read_count ts in
        Right ts (read_count + 1) report × (after ≡ read_count + 1)
  unfolding procstat_show count_tasks
  procstat_show-Right read_count ts h w =
      let none_yet : Tally = record { running = 0; sleeping = 0; zombie = 0; total = 0 } in
      let c = count_from-Counted none_yet ts (record {
        by_total = omega arith;
        by_zombie = omega arith;
        by_running = omega arith;
        by_sleeping = omega arith;
      }) in
      (
        record {
          total = omega (arith, c.total);
          zombie = omega (arith, c.zombie);
          running = omega (arith, c.running);
          parts = omega (arith, c.parts);
          numbered = mod-eq_of_lt w;
        },
        mod-eq_of_lt w,
      )
