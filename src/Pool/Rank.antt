-- ===== src/Pool/Rank.antt =====
-- Every step of the pool of src/workload.c brings it nearer to its end.
use comp.Shared.{
  ℕ, ◌≡◌, ◌<◌, some, List, [], ◌∷◌, sym, ap, ◌∙◌, arith, inl, inr, Bool-cases, ◌==◌, update, length,
  length-append, ◌*◌, ◌+◌, ◌-◌,
}
use comp.TaskQueue.{Taskq, tq_push, tq_pop, tq_close}
use comp.TaskQueue.Ring.{contents}
use comp.Workload.{Pathology, dispatch_one}
use comp.Pool.{
  Station, Main, dispatching, closing, joining, Pool, queue_at, set_queue, worker_queue,
  total_workers, looking, passing, starting, holding, serving, ending, counting, returned, Step,
  release, close_first, close_second, join, take, leave, pass, hold, let_go, serve, served, popped,
}
use comp.Pool.Tally.{tally, tally-update}
use comp.Pool.Whole.{Inv}
use comp.Pool.Moving.{Moved, push-Moved, pop-Moved, close-Moved}

abbrev pub steps_left : Station → ℕ
steps_left looking = 1
steps_left (passing t) = 7
steps_left (starting t) = 6
steps_left (holding t) = 5
steps_left (serving t) = 5
steps_left (ending t) = 4
steps_left counting = 3
steps_left returned = 0

abbrev pub main_left : ℕ → Main → ℕ
main_left n (dispatching l) = 8 * length l + n + 2
main_left n closing = n + 1
main_left n (joining k) = n - k

-- With `n` workers, at most so many steps.
abbrev pub rank : ℕ → Pool → ℕ
rank n s =
    main_left n s.main
    + 7 * length (contents s.q0)
    + 7 * length (contents s.q1)
    + tally steps_left s.at n

Moved-length :
    (q r : Taskq) (gone come : List ℕ)
    → Moved q r gone come
    → length (contents q) + length come ≡ length gone + length (contents r)
Moved-length q r gone come m =
    sym (length-append (contents q) come) ∙ ap length m.order ∙ length-append gone (contents r)

module _ (path : Pathology) (pool : ℕ) (s : Pool) (c : Inv path pool s) where
  abbrev n : ℕ
  n = total_workers path pool

  release-rank :
      (t : ℕ) (l : List ℕ) (q : Taskq)
      → s.main ≡ dispatching (t ∷ l)
      → tq_push (queue_at s (dispatch_one path t).queue) t ≡ some q
      → rank n (record (set_queue s (dispatch_one path t).queue q) { main = dispatching l })
        < rank n s
  release-rank t l q e h = elim (Bool-cases ((dispatch_one path t).queue == 0)) [
    | inl y ↦ rw y (
        omega (
          arith,
          ap (main_left n) e,
          Moved-length s.q0 q [] (t ∷ []) (push-Moved s.q0 q t c.ok0 (rw y at h)),
        ))
    | inr d ↦ rw d (
        omega (
          arith,
          ap (main_left n) e,
          Moved-length s.q1 q [] (t ∷ []) (push-Moved s.q1 q t c.ok1 (rw d at h)),
        ))
  ]

  take-rank :
      (i t : ℕ) (q : Taskq)
      → i < n
      → s.at i ≡ looking
      → tq_pop (queue_at s (worker_queue path pool i)) ≡ popped t q
      → rank n
          (record (set_queue s (worker_queue path pool i) q) { at = update s.at i (passing t) })
        < rank n s
  take-rank i t q lt e h =
      let hands = tally-update steps_left s.at i n (passing t) lt in
      elim (Bool-cases (worker_queue path pool i == 0)) [
        | inl y ↦ rw y (
            omega (
              arith,
              ap steps_left e,
              hands,
              Moved-length s.q0 q (t ∷ []) [] (pop-Moved s.q0 q t c.ok0 (rw y at h)),
            ))
        | inr d ↦ rw d (
            omega (
              arith,
              ap steps_left e,
              hands,
              Moved-length s.q1 q (t ∷ []) [] (pop-Moved s.q1 q t c.ok1 (rw d at h)),
            ))
      ]

  moves-rank :
      (i : ℕ) (was st : Station)
      → i < n
      → s.at i ≡ was
      → steps_left st < steps_left was
      → tally steps_left (update s.at i st) n < tally steps_left s.at n
  moves-rank i was st lt e less =
      omega (arith, tally-update steps_left s.at i n st lt, ap steps_left e)

  pub Step-rank : {s' : Pool} → Step path pool s s' → rank n s' < rank n s
  Step-rank (release t l q e h) = release-rank t l q e h
  Step-rank (close_first e) =
      omega (
        arith,
        ap (main_left n) e,
        Moved-length s.q0 (tq_close s.q0) [] [] (close-Moved s.q0 c.ok0),
      )
  Step-rank (close_second e) =
      omega (
        arith,
        ap (main_left n) e,
        Moved-length s.q1 (tq_close s.q1) [] [] (close-Moved s.q1 c.ok1),
      )
  Step-rank (join k e lt r) = omega (arith, ap (main_left n) e)
  Step-rank (take i t q lt e h) = take-rank i t q lt e h
  Step-rank (leave i lt e h) = omega (arith, moves-rank i looking returned lt e (omega arith))
  Step-rank (pass i t lt e free) =
      omega (arith, moves-rank i (passing t) (starting t) lt e (omega arith))
  Step-rank (hold i t lt e is free) =
      omega (arith, moves-rank i (starting t) (holding t) lt e (omega arith))
  Step-rank (let_go i t lt e) =
      omega (arith, moves-rank i (holding t) (ending t) lt e (omega arith))
  Step-rank (serve i t lt e is) =
      omega (arith, moves-rank i (starting t) (serving t) lt e (omega arith))
  Step-rank (served i t lt e) =
      omega (arith, moves-rank i (serving t) (ending t) lt e (omega arith))
  Step-rank (Step.end i t lt e) = omega (arith, moves-rank i (ending t) counting lt e (omega arith))
  Step-rank (Step.count i lt e) = omega (arith, moves-rank i counting looking lt e (omega arith))
