-- ===== src/Pool/Dreams.antt =====
-- Sleepers of the pool of src/workload.c whom a step leaves asleep.
use comp.Shared.{
  ℕ, ◌≡◌, ◌≤◌, ◌<◌, ◌∙◌, ap, refl, sym, Bool, true, false, List, ◌∷◌, arith, update, Bool-cases,
  ◌==◌, inl, inr,
}
use comp.TaskQueue.{Taskq}
use comp.Workload.{Pathology}
use comp.Pool.{Pool, dispatching, looking}
use comp.Pool.Sums.{sum_mono}
use comp.Pool.Sleep.{Sleepers, serves_first, puts_first}
use comp.Pool.Rested.{queue_of, n, ready, lookers, Rested}

module _ (path : Pathology) (pool : ℕ) (s : Pool) (z : Sleepers) (c : Rested path pool s z) where
  abbrev first : ℕ → Bool
  first i = serves_first path pool i

  -- Worker `j` sleeps on where its queue is left and no fewer workers look.
  pub sleeps_on :
      (t : Pool) (y : Sleepers) (j : ℕ)
      → z.asleep j ≡ true
      → t.at j ≡ s.at j
      → queue_of t (first j) ≡ queue_of s (first j)
      → ((k : ℕ)
          → ready path pool s.at z.asleep (first j) k ≤ ready path pool t.at y.asleep (first j) k)
      → (j < n path pool)
        × (t.at j ≡ looking)
        × ((queue_of t (first j)).closed ≡ false)
        × ((queue_of t (first j)).count ≤ lookers path pool t y (first j))
  sleeps_on t y j dreams at queue more =
      let (small, look, open_, few) = c.dozing j dreams in
      (
        small,
        at ∙ look,
        ap (λ (q : Taskq). q.closed) queue ∙ open_,
        omega (
          arith,
          ap (λ (q : Taskq). q.count) queue,
          sum_mono (ready path pool s.at z.asleep (first j))
              (ready path pool t.at y.asleep (first j)) (n path pool) more,
        ),
      )

  -- The dispatcher sleeps on where it stays and its queue is left.
  pub main_sleeps_on :
      (t : Pool)
      → z.main_asleep ≡ true
      → t.main ≡ s.main
      → queue_of t (puts_first path pool s.main) ≡ queue_of s (puts_first path pool s.main)
      → (u : ℕ) × (l : List ℕ) × (t.main ≡ dispatching (u ∷ l))
        × ((queue_of t (puts_first path pool t.main)).count
            ≡ (queue_of t (puts_first path pool t.main)).capacity)
  main_sleeps_on t dreams main queue =
      let (u, l, e, full) = c.main_dozing dreams in
      let k : queue_of t (puts_first path pool t.main) ≡ queue_of s (puts_first path pool s.main) =
        ap (λ m. queue_of t (puts_first path pool m)) main ∙ queue in
      (
        u,
        l,
        main ∙ e,
        ap (λ (r : Taskq). r.count) k ∙ full ∙ sym (ap (λ (r : Taskq). r.capacity) k),
      )

  -- A thread that wakes unasked changes nothing else.
  pub wakes-Rested : (i : ℕ) → Rested path pool s (record z { asleep = update z.asleep i false })
  wakes-Rested i = record {
    dozing = λ j dreams.
        let dreamt : z.asleep j ≡ true = elim (Bool-cases (i == j)) [
          | inl y ↦ ground arith
          | inr d ↦ ground arith
        ] in
        sleeps_on s (record z { asleep = update z.asleep i false }) j dreamt refl refl
          (λ k. elim (Bool-cases (i == k)) [ inl y ↦ ground arith | inr d ↦ ground arith ]);
    main_dozing = λ dreams. main_sleeps_on s dreams refl refl;
  }

  pub main_wakes-Rested : Rested path pool s (record z { main_asleep = false })
  main_wakes-Rested = record {
    dozing = λ j dreams. sleeps_on s z j dreams refl refl (λ k. omega arith);
    main_dozing = λ dreams. absurd (ground arith);
  }
