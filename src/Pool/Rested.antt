-- ===== src/Pool/Rested.antt =====
-- No thread of the pool of src/workload.c sleeps on while it could go on and none is awake to do so.
use comp.Shared.{
  ℕ, ◌+◌, ◌≡◌, ◌≢◌, ◌≤◌, ◌⊎◌, ◌<◌, ◌∙◌, ap, refl, sym, Bool, true, false, some, List, ◌∷◌, ◌==◌,
  if◌then◌else◌, update, update_ne, inl, inr, arith, Bool-cases,
}
use comp.TaskQueue.{Taskq, tq_push, tq_pop, popped}
use comp.Workload.{Pathology}
use comp.Pool.{
  Station, dispatching, Pool, total_workers, looking, passing, starting, holding, serving, ending,
  counting, returned,
}
use comp.Pool.Sums.{sum, sum_mono}
use comp.Pool.Sleep.{Sleepers, serves_first, puts_first, same_side}

abbrev pub looks : Station → ℕ
looks looking = 1
looks st = 0

pub push-count :
    (q r : Taskq) (t : ℕ)
    → tq_push q t ≡ some r
    → (r.count ≤ q.count + 1) × (r.capacity ≡ q.capacity)
unfolding tq_push
push-count q r t e = elim (Bool-cases (q.count == q.capacity)) [
  | inl y ↦ absurd (ground arith)
  | inr n ↦ ground arith
]

pub pop-count : (q r : Taskq) (t : ℕ) → tq_pop q ≡ popped t r → r.count + 1 ≤ q.count
unfolding tq_pop
pop-count q r t e = ground arith

abbrev pub queue_of : Pool → Bool → Taskq
queue_of s b = if b then s.q0 else s.q1

pub same_side_cases : (a b : Bool) → (a ≡ b) ⊎ (a ≢ b)
same_side_cases true true = inl refl
same_side_cases true false = inr (λ h. absurd (ground arith))
same_side_cases false true = inr (λ h. absurd (ground arith))
same_side_cases false false = inl refl

module _ (path : Pathology) (pool : ℕ) where
  pub same_side-no : (a b : Bool) → a ≢ b → same_side path pool a b ≡ false
  same_side-no true true h = absurd (h refl)
  same_side-no true false h = refl
  same_side-no false true h = refl
  same_side-no false false h = absurd (h refl)

  abbrev pub n : ℕ
  n = total_workers path pool

  -- Whether worker `j` of a queue is awake and looks for a task.
  abbrev pub ready : (ℕ → Station) → (ℕ → Bool) → Bool → ℕ → ℕ
  ready at asleep b j =
      if same_side path pool b (serves_first path pool j)
      then (if asleep j then 0 else looks (at j))
      else 0

  abbrev pub lookers : Pool → Sleepers → Bool → ℕ
  lookers s z b = sum (ready s.at z.asleep b) n

  -- A worker that sleeps looks for a task in an open queue, of whose tasks there are no more than
  -- workers that look for one there and are awake; a dispatcher that sleeps has a task for a queue
  -- that is full.
  pub record Rested (s : Pool) (z : Sleepers) : Type 0 where
    pub dozing :
        (i : ℕ)
        → z.asleep i ≡ true
        → (i < n)
          × (s.at i ≡ looking)
          × ((queue_of s (serves_first path pool i)).closed ≡ false)
          × ((queue_of s (serves_first path pool i)).count ≤ lookers s z (serves_first path pool i))
    pub main_dozing :
        z.main_asleep ≡ true
        → (t : ℕ) × (l : List ℕ) × (s.main ≡ dispatching (t ∷ l))
          × ((queue_of s (puts_first path pool s.main)).count
              ≡ (queue_of s (puts_first path pool s.main)).capacity)

  module _ (s : Pool) (z : Sleepers) (c : Rested s z) where
    -- A worker that does not look for a task goes on.
    pub goes-Rested :
        (i : ℕ) (st : Station) (t : Pool)
        → s.at i ≢ looking
        → t.at ≡ update s.at i st
        → t.q0 ≡ s.q0
        → t.q1 ≡ s.q1
        → t.main ≡ s.main
        → Rested t z
    goes-Rested i st t away at q0 q1 main =
        let queue =
          λ (b : Bool). elim b as (λ b. queue_of t b ≡ queue_of s b) [ true ↦ q0 | false ↦ q1 ] in
        record {
          dozing = λ j dreams.
              let (small, look, open_, few) = c.dozing j dreams in
              let b = serves_first path pool j in
              let more : lookers s z b ≤ lookers t z b =
                sum_mono (ready s.at z.asleep b) (ready t.at z.asleep b) n (λ k.
                  elim (Bool-cases (i == k)) [
                    | inl y ↦
                        let e : i ≡ k = ground arith in
                        let zero_there : looks (s.at k) ≡ 0 =
                          not_looks (s.at k) (λ h. away (ap s.at e ∙ h)) in
                        ground arith
                    | inr d ↦
                        let ne : i ≢ k = λ e. absurd (ground arith) in
                        let e : t.at k ≡ s.at k = ap (λ f. f k) at ∙ update_ne s.at st ne in
                        rw e (omega arith)
                  ]) in
              let ne : i ≢ j = λ e. away (ap s.at e ∙ look) in
              (
                small,
                ap (λ f. f j) at ∙ update_ne s.at st ne ∙ look,
                ap (λ (q : Taskq). q.closed) (queue b) ∙ open_,
                omega (arith, ap (λ (q : Taskq). q.count) (queue b)),
              );
          main_dozing = λ dreams.
              let (u, l, e, full) = c.main_dozing dreams in
              (
                u,
                l,
                main ∙ e,
                ap (λ m. (queue_of t (puts_first path pool m)).count) main
                    ∙ ap (λ (q : Taskq). q.count) (queue (puts_first path pool s.main))
                    ∙ full
                    ∙ sym (
                        ap (λ m. (queue_of t (puts_first path pool m)).capacity) main
                        ∙ ap (λ (q : Taskq). q.capacity) (queue (puts_first path pool s.main))),
              );
        }
      where
        not_looks : (st : Station) → st ≢ looking → looks st ≡ 0
        not_looks looking h = absurd (h refl)
        not_looks (passing t) h = refl
        not_looks (starting t) h = refl
        not_looks (holding t) h = refl
        not_looks (serving t) h = refl
        not_looks (ending t) h = refl
        not_looks counting h = refl
        not_looks returned h = refl
