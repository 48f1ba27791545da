-- ===== src/Pool/Signals.antt =====
-- The steps of the pool of src/workload.c that wake sleepers.
use mathlib.Core.Path.{subst}
use comp.Shared.{
  ℕ, ◌+◌, ◌≡◌, ◌≢◌, ◌≤◌, ◌∙◌, ap, refl, sym, Bool, true, false, ◌==◌, if◌then◌else◌, update,
  update_ne, inl, inr, arith, Bool-cases,
}
use comp.TaskQueue.{Taskq, tq_pop, popped}
use comp.Workload.{Pathology}
use comp.Pool.{Station, Pool, looking, passing}
use comp.Pool.Moving.{pop-closed}
use comp.Pool.Sums.{sum_mono, sum_less}
use comp.Pool.Sleep.{Sleepers, serves_first, puts_first, same_side}
use comp.Pool.Rested.{looks, queue_of, n, ready, Rested, pop-count, same_side_cases, same_side-no}

module _ (path : Pathology) (pool : ℕ) (s : Pool) (z : Sleepers) (c : Rested path pool s z) where
  abbrev first : ℕ → Bool
  first i = serves_first path pool i

  -- After the queue of one side is another, and that of the other side the same.
  abbrev Swapped : Bool → Taskq → Pool → Type 0
  Swapped b q t =
      (queue_of t b ≡ q)
      × (queue_of t (if b then false else true) ≡ queue_of s (if b then false else true))

  other : (a b : Bool) → a ≢ b → (if a then false else true) ≡ b
  other true true h = absurd (h refl)
  other true false h = refl
  other false true h = refl
  other false false h = absurd (h refl)

  same_side-yes : (a : Bool) → same_side path pool a a ≡ true
  same_side-yes true = refl
  same_side-yes false = refl

  kept : (b d : Bool) (q : Taskq) (t : Pool) → Swapped b q t → b ≢ d → queue_of t d ≡ queue_of s d
  kept b d q t h ne = subst (λ x. queue_of t x ≡ queue_of s x) (other b d ne) h.1

  -- Worker `i` takes a task.
  pub take-Rested :
      (i u : ℕ) (q : Taskq) (t : Pool) (y : Sleepers)
      → tq_pop (queue_of s (first i)) ≡ popped u q
      → z.asleep i ≡ false
      → Swapped (first i) q t
      → t.at ≡ update s.at i (passing u)
      → t.main ≡ s.main
      → y.asleep ≡ z.asleep
      → y.main_asleep ≡ (
          if same_side path pool (puts_first path pool s.main) (first i)
          then false
          else z.main_asleep)
      → Rested path pool t y
  take-Rested i u q t y e awake swapped at main sleepers woken = record {
    dozing = λ j dreams.
        let dreamt = sym (ap (λ f. f j) sleepers) ∙ dreams in
        let (small, look, not_yet, few) = c.dozing j dreamt in
        let ne : i ≢ j =
          λ h. let x : false ≡ true = sym awake ∙ ap z.asleep h ∙ dreamt in absurd (ground arith) in
        let b = first j in
        let others = λ (k : ℕ) (ne : i ≢ k).
          let x : t.at k ≡ s.at k = ap (λ f. f k) at ∙ update_ne s.at (passing u) ne in
          let w : y.asleep k ≡ z.asleep k = ap (λ f. f k) sleepers in
          let v : ready path pool s.at z.asleep b k ≤ ready path pool t.at y.asleep b k =
            rw (x, w) (omega arith) in
          v in
        (
          small,
          ap (λ f. f j) at ∙ update_ne s.at (passing u) ne ∙ look,
          elim (same_side_cases (first i) b) [
            | inl same ↦
                ap (λ (r : Taskq). r.closed) (ap (queue_of t) (sym same) ∙ swapped.0)
                ∙ pop-closed (queue_of s (first i)) q u e
                ∙ ap (λ d. (queue_of s d).closed) same
                ∙ not_yet
            | inr differ ↦
                ap (λ (r : Taskq). r.closed) (kept (first i) b q t swapped differ) ∙ not_yet
          ],
          elim (same_side_cases (first i) b) [
            | inl same ↦
                let less = pop-count (queue_of s (first i)) q u e in
                let fewer =
                  sum_less (ready path pool s.at z.asleep b) (ready path pool t.at y.asleep b) i
                    (n path pool) others (ready-one s.at z.asleep b i _) in
                let now = ap (λ (r : Taskq). r.count) (ap (queue_of t) (sym same) ∙ swapped.0) in
                let was = ap (λ d. (queue_of s d).count) same in omega arith
            | inr differ ↦
                let more =
                  sum_mono (ready path pool s.at z.asleep b) (ready path pool t.at y.asleep b)
                    (n path pool)
                    (λ k. elim (Bool-cases (i == k)) [
                      | inr d ↦ others k (λ h. absurd (ground arith))
                      | inl d ↦
                          let h : i ≡ k = ground arith in
                          let no =
                            same_side-no path pool b (first k) (λ x. differ (ap first h ∙ sym x)) in
                          rw no (omega arith)
                    ]) in
                let now = ap (λ (r : Taskq). r.count) (kept (first i) b q t swapped differ) in
                omega arith
          ],
        );
    main_dozing = λ dreams. elim (same_side_cases (puts_first path pool s.main) (first i)) [
      | inl same ↦
          let yes : same_side path pool (puts_first path pool s.main) (first i) ≡ true =
            subst (λ x. same_side path pool (puts_first path pool s.main) x ≡ true) same
              (same_side-yes (puts_first path pool s.main)) in
          let x : true ≡ false = sym dreams ∙ woken ∙ rw yes refl in absurd (ground arith)
      | inr differ ↦
          let no = same_side-no path pool (puts_first path pool s.main) (first i) differ in
          let dreamt : z.main_asleep ≡ true =
            let w : y.main_asleep ≡ z.main_asleep = rw no at woken in sym w ∙ dreams in
          let (v, l, f, full) = c.main_dozing dreamt in
          let p = puts_first path pool s.main in
          let k : queue_of t (puts_first path pool t.main) ≡ queue_of s p =
            ap (λ m. queue_of t (puts_first path pool m)) main
            ∙ kept (first i) p q t swapped (λ h. differ (sym h)) in
          (
            v,
            l,
            main ∙ f,
            ap (λ (r : Taskq). r.count) k ∙ full ∙ sym (ap (λ (r : Taskq). r.capacity) k),
          )
    ];
  }
    where
      ready-one :
          (at : ℕ → Station) (asleep : ℕ → Bool) (b : Bool) (i m : ℕ)
          → ready path pool at asleep b i ≤ m + 1
      ready-one at asleep b i m = let l = looks-one (at i) in ground arith
        where
          looks-one : (st : Station) → looks st ≤ 1
          looks-one looking = omega arith
          looks-one st = ground arith
