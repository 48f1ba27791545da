-- ===== src/Pool/Released.antt =====
-- The signal of tq_push in src/workload.c, with those who sleep.
use comp.Shared.{
  ℕ, ◌+◌, ◌≡◌, ◌≢◌, ◌≤◌, ◌∙◌, ap, sym, Bool, true, false, some, arith, update, update_ne,
  Bool-cases, ◌==◌, inl, inr,
}
use comp.TaskQueue.{Taskq, tq_push}
use comp.Workload.{Pathology}
use comp.Pool.{Pool}
use comp.Pool.Moving.{push-closed}
use comp.Pool.Sums.{sum_more}
use comp.Pool.Sleep.{Sleepers, serves_first, WakesOne}
use comp.Pool.Rested.{queue_of, n, ready, Rested, same_side_cases, push-count}
use comp.Pool.Dreams.{sleeps_on}

module _ (path : Pathology) (pool : ℕ) (s : Pool) (z : Sleepers) (c : Rested path pool s z) where
  abbrev first : ℕ → Bool
  first i = serves_first path pool i

  -- The dispatcher puts a task in queue `b` and signals to its workers.
  pub release-Rested :
      (b : Bool) (u : ℕ) (q : Taskq) (t : Pool) (y : Sleepers)
      → tq_push (queue_of s b) u ≡ some q
      → z.main_asleep ≡ false
      → queue_of t b ≡ q
      → ((d : Bool) → b ≢ d → queue_of t d ≡ queue_of s d)
      → t.at ≡ s.at
      → WakesOne path pool b z y
      → Rested path pool t y
  release-Rested b u q t y e awake now kept at (stays, wakes) = record {
    dozing = λ j dreams. elim wakes [
      | inl (i, lt, side, slept, woken) ↦
          let (_, look, _, _) = c.dozing i slept in
          let ne : i ≢ j = λ h.
            let x : update z.asleep i false j ≡ true = sym (ap (λ f. f j) woken) ∙ dreams in
            absurd (ground arith) in
          let dreamt = sym (update_ne z.asleep false ne) ∙ sym (ap (λ f. f j) woken) ∙ dreams in
          let more = λ (k : ℕ).
            let x = ap (λ f. f k) at in
            let w = ap (λ f. f k) woken in
            let v : ready path pool s.at z.asleep (first j) k
                ≤ ready path pool t.at y.asleep (first j) k =
              rw (x, w)
                (elim (Bool-cases (i == k)) [ inl y ↦ ground arith | inr d ↦ ground arith ]) in
            v in
          elim (same_side_cases b (first j)) [
            | inl same ↦
                let (small, l, open_, few) = c.dozing j dreamt in
                let n1 : queue_of t (first j) ≡ q = ap (queue_of t) (sym same) ∙ now in
                let n2 : queue_of s (first j) ≡ queue_of s b = ap (queue_of s) (sym same) in
                let p = push-count (queue_of s b) q u e in
                let one : ready path pool s.at z.asleep (first j) i + 1
                    ≤ ready path pool t.at y.asleep (first j) i =
                  rw (ap (λ f. f i) at, ap (λ f. f i) woken) (ground arith) in
                let more_in =
                  sum_more (ready path pool s.at z.asleep (first j))
                    (ready path pool t.at y.asleep (first j)) i (n path pool) lt more one in
                (
                  small,
                  ap (λ f. f j) at ∙ l,
                  ap (λ (r : Taskq). r.closed) n1
                      ∙ push-closed (queue_of s b) q u e
                      ∙ sym (ap (λ (r : Taskq). r.closed) n2)
                      ∙ open_,
                  omega (arith, ap (λ (r : Taskq). r.count) n1, ap (λ (r : Taskq). r.count) n2),
                )
            | inr differ ↦
                sleeps_on path pool s z c t y j dreamt (ap (λ f. f j) at) (kept (first j) differ)
                  more
          ]
      | inr (nobody, same) ↦
          let dreamt = sym (ap (λ f. f j) same) ∙ dreams in
          let (small, _, _, _) = c.dozing j dreamt in
          let differ : b ≢ first j = λ h.
            let x : true ≡ false = sym dreamt ∙ nobody j small (sym h) in absurd (ground arith) in
          sleeps_on path pool s z c t y j dreamt (ap (λ f. f j) at) (kept (first j) differ)
            (λ k. rw (ap (λ f. f k) at, ap (λ f. f k) same) (omega arith))
    ];
    main_dozing =
        λ dreams. let x : true ≡ false = sym dreams ∙ stays ∙ awake in absurd (ground arith);
  }
