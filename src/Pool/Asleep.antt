-- ===== src/Pool/Asleep.antt =====
-- The other steps of the pool of src/workload.c, with those who sleep.
use comp.Shared.{
  ℕ, ◌≡◌, ◌≢◌, ◌≤◌, ◌<◌, ◌∙◌, ap, refl, sym, Bool, true, false, none, List, ◌∷◌, arith, update,
  update_ne, Bool-cases, ◌==◌, inl, inr, if◌then◌else◌,
}
use comp.TaskQueue.{Taskq, tq_pop, tq_push, waits, drained}
use comp.Workload.{Pathology, dispatch_one}
use comp.Pool.{
  Pool, dispatching, closing, joining, looking, returned, total_workers, worker_queue, queue_at,
}
use comp.Pool.Sleep.{Sleepers, serves_first, puts_first, same_side}
use comp.Pool.Rested.{
  queue_of, n, ready, lookers, Rested, same_side_cases, same_side-no, push-count,
}
use comp.Pool.Dreams.{sleeps_on, main_sleeps_on}

pub drained-closed : (q : Taskq) → tq_pop q ≡ drained → q.closed ≡ true
unfolding tq_pop
drained-closed q e = ground arith

pub waits-open : (q : Taskq) → tq_pop q ≡ waits → (q.closed ≡ false) × (q.count ≡ 0)
unfolding tq_pop
waits-open q e = (ground arith, ground arith)

pub full-count : (q : Taskq) (t : ℕ) → tq_push q t ≡ none → q.count ≡ q.capacity
unfolding tq_push
full-count q t e = ground arith

module _ (path : Pathology) (pool : ℕ) (s : Pool) (z : Sleepers) (c : Rested path pool s z) where
  abbrev first : ℕ → Bool
  first i = serves_first path pool i

  -- Worker `i` leaves a queue that is closed.
  pub leave-Rested :
      (i : ℕ)
      → (queue_of s (first i)).closed ≡ true
      → Rested path pool (record s { at = update s.at i returned }) z
  leave-Rested i shut = record {
    dozing = λ j dreams.
        let (small, look, not_yet, few) = c.dozing j dreams in
        elim (same_side_cases (first i) (first j)) [
          | inl same ↦
              let x : true ≡ false = sym shut ∙ ap (λ d. (queue_of s d).closed) same ∙ not_yet in
              absurd (ground arith)
          | inr differ ↦
              let ne : i ≢ j = λ h. differ (ap first h) in
              sleeps_on path pool s z c (record s { at = update s.at i returned }) z j dreams
                (update_ne s.at returned ne) refl
                (λ k. elim (Bool-cases (i == k)) [
                  | inl y ↦
                      let h : i ≡ k = ground arith in
                      let no =
                        same_side-no path pool (first j) (first k)
                          (λ x. differ (ap first h ∙ sym x)) in
                      rw no (omega arith)
                  | inr d ↦
                      let ne : i ≢ k = λ e. absurd (ground arith) in
                      rw (update_ne s.at returned ne) (omega arith)
                ])
        ];
    main_dozing = λ dreams.
        main_sleeps_on path pool s z c (record s { at = update s.at i returned }) dreams refl refl;
  }

  -- Queue `b` closes, and all who sleep for it wake.
  pub close-Rested :
      (b : Bool) (t : Pool) (y : Sleepers)
      → t.at ≡ s.at
      → ((d : Bool) → d ≢ b → queue_of t d ≡ queue_of s d)
      → y.asleep ≡ (λ i. if same_side path pool b (first i) then false else z.asleep i)
      → y.main_asleep ≡ false
      → Rested path pool t y
  close-Rested b t y at queue sleepers main = record {
    dozing = λ j dreams.
        let d : (if same_side path pool b (first j) then false else z.asleep j) ≡ true =
          sym (ap (λ f. f j) sleepers) ∙ dreams in
        let differ : first j ≢ b = λ h.
          let x : (if same_side path pool (first j) (first j) then false else z.asleep j) ≡ true =
            ap (λ w. if same_side path pool w (first j) then false else z.asleep j) h ∙ d in
          not_here (first j) (z.asleep j) x in
        sleeps_on path pool s z c t y j (was b (first j) (z.asleep j) d) (ap (λ f. f j) at)
          (queue (first j) differ)
          (λ k.
            let x = ap (λ f. f k) at in
            let w = ap (λ f. f k) sleepers in
            rw (x, w) (more (first j) (first k) b (z.asleep k) (looks_at k)));
    main_dozing = λ dreams. let x : true ≡ false = sym dreams ∙ main in absurd (ground arith);
  }
    where
      looks_at : ℕ → ℕ
      looks_at k = comp.Pool.Rested.looks (s.at k)

      not_here : (a w : Bool) → (if same_side path pool a a then false else w) ≢ true
      not_here true w h = absurd (ground arith)
      not_here false w h = absurd (ground arith)

      was : (a b w : Bool) → (if same_side path pool a b then false else w) ≡ true → w ≡ true
      was a b true h = refl
      was a b false h = elim (Bool-cases (same_side path pool a b)) [
        | inl y ↦ absurd (ground arith)
        | inr d ↦ absurd (ground arith)
      ]

      more :
          (a d b w : Bool) (l : ℕ)
          → (if same_side path pool a d then (if w then 0 else l) else 0) ≤ (
              if same_side path pool a d
              then (if (if same_side path pool b d then false else w) then 0 else l)
              else 0)
      more a d b true l = ground arith
      more a d b false l = ground arith

  -- The dispatcher goes on with all tasks put.
  pub join-Rested :
      (k m : ℕ) → s.main ≡ joining k → Rested path pool (record s { main = joining m }) z
  join-Rested k m e = record {
    dozing = λ j dreams.
        sleeps_on path pool s z c (record s { main = joining m }) z j dreams refl refl
          (λ k. omega arith);
    main_dozing = λ dreams.
        let (u, l, f, full) = c.main_dozing dreams in
        let x : joining k ≡ dispatching (u ∷ l) = sym e ∙ f in absurd (ground arith);
  }

  -- Worker `i` goes to sleep on a queue that is empty.
  pub dozes-Rested :
      (i : ℕ)
      → i < n path pool
      → s.at i ≡ looking
      → tq_pop (queue_of s (first i)) ≡ waits
      → Rested path pool s (record z { asleep = update z.asleep i true })
  dozes-Rested i lt look e =
      let (open_, empty) = waits-open (queue_of s (first i)) e in
      record {
        dozing = λ j dreams. elim (same_side_cases (first i) (first j)) [
          | inl same ↦
              let o = ap (λ d. (queue_of s d).closed) same in
              let m = ap (λ d. (queue_of s d).count) same in
              let at = elim (Bool-cases (i == j)) as (λ _. (j < n path pool) × (s.at j ≡ looking)) [
                | inl y ↦ let h : i ≡ j = ground arith in (omega (arith, h), ap s.at (sym h) ∙ look)
                | inr d ↦
                    let h : i ≢ j = λ e. absurd (ground arith) in
                    let (small, l, _, _) = c.dozing j (sym (update_ne z.asleep true h) ∙ dreams) in
                    (small, l)
              ] in
              (at.0, at.1, sym o ∙ open_, omega arith)
          | inr differ ↦
              let h : i ≢ j = λ e. differ (ap first e) in
              sleeps_on path pool s z c s (record z { asleep = update z.asleep i true }) j
                (sym (update_ne z.asleep true h) ∙ dreams) refl refl
                (λ k. elim (Bool-cases (i == k)) [
                  | inl y ↦
                      let h : i ≡ k = ground arith in
                      let no =
                        same_side-no path pool (first j) (first k)
                          (λ x. differ (ap first h ∙ sym x)) in
                      rw no (omega arith)
                  | inr d ↦
                      let ne : i ≢ k = λ e. absurd (ground arith) in
                      rw (update_ne z.asleep true ne) (omega arith)
                ])
        ];
        main_dozing = λ dreams. main_sleeps_on path pool s z c s dreams refl refl;
      }

  -- The dispatcher goes to sleep on a queue that is full.
  pub main_dozes-Rested :
      (t : ℕ) (l : List ℕ)
      → s.main ≡ dispatching (t ∷ l)
      → tq_push (queue_at s (dispatch_one path t).queue) t ≡ none
      → Rested path pool s (record z { main_asleep = true })
  main_dozes-Rested t l e full = record {
    dozing = λ j dreams. sleeps_on path pool s z c s z j dreams refl refl (λ k. omega arith);
    main_dozing = λ dreams.
        let q : queue_of s (puts_first path pool s.main) ≡ queue_at s (dispatch_one path t).queue =
          ap (λ m. queue_of s (puts_first path pool m)) e in
        (
          t,
          l,
          e,
          ap (λ (r : Taskq). r.count) q
              ∙ full-count (queue_at s (dispatch_one path t).queue) t full
              ∙ sym (ap (λ (r : Taskq). r.capacity) q),
        );
  }
