-- ===== src/Pool/Sleep.antt =====
-- Who sleeps in the pool of src/workload.c, and whom its signals and broadcasts wake: a worker sleeps
-- on the not_empty of its queue, the dispatcher on the not_full of the queue of its next task.
use comp.Shared.{
  ℕ, suc, ◌≡◌, ◌<◌, Bool, true, false, none, List, ◌∷◌, ◌==◌, ◌⊎◌, if◌then◌else◌, update,
}
use comp.TaskQueue.{tq_push, tq_pop, waits}
use comp.Workload.{Pathology, dispatch_one}
use comp.Pool.{
  Main, dispatching, Pool, queue_at, worker_queue, total_workers, looking, start_pool, Step,
  release, close_first, close_second, join, take, leave, pass, hold, let_go, serve, served,
}

pub record Sleepers : Type 0 where
  pub asleep : ℕ → Bool
  pub main_asleep : Bool

module _ (path : Pathology) (pool : ℕ) where
  abbrev pub serves_first : ℕ → Bool
  serves_first i = worker_queue path pool i == 0

  -- The queue that the dispatcher puts its next task in, if it is the first.
  abbrev pub puts_first : Main → Bool
  puts_first (dispatching (t ∷ l)) = (dispatch_one path t).queue == 0
  puts_first m = true

  abbrev pub same_side : Bool → Bool → Bool
  same_side true b = b
  same_side false b = if b then false else true

  -- Whether the thread that makes a step is awake.
  abbrev pub IsAwake : Sleepers → {s t : Pool} → Step path pool s t → Type 0
  IsAwake z (release t l q e h) = z.main_asleep ≡ false
  IsAwake z (take i t q lt e h) = z.asleep i ≡ false
  IsAwake z (leave i lt e h) = z.asleep i ≡ false
  IsAwake z (close_first e) = Unit
  IsAwake z (close_second e) = Unit
  IsAwake z (join k e lt r) = Unit
  IsAwake z (pass i t lt e free) = Unit
  IsAwake z (hold i t lt e is free) = Unit
  IsAwake z (let_go i t lt e) = Unit
  IsAwake z (serve i t lt e is) = Unit
  IsAwake z (served i t lt e) = Unit
  IsAwake z (Step.end i t lt e) = Unit
  IsAwake z (Step.count i lt e) = Unit

  -- A signal to the workers of one queue wakes one that sleeps, where there is one.
  abbrev pub WakesOne : Bool → Sleepers → Sleepers → Type 0
  WakesOne first z y =
      (y.main_asleep ≡ z.main_asleep)
      × (((i : ℕ) × (i < total_workers path pool)
            × (serves_first i ≡ first)
            × (z.asleep i ≡ true)
            × (y.asleep ≡ update z.asleep i false))
          ⊎ (((i : ℕ) → i < total_workers path pool → serves_first i ≡ first → z.asleep i ≡ false)
              × (y.asleep ≡ z.asleep)))

  -- Who sleeps after a step.
  abbrev pub Wakes : Sleepers → {s t : Pool} → Step path pool s t → Sleepers → Type 0
  Wakes z (release t l q e h) y = WakesOne ((dispatch_one path t).queue == 0) z y
  Wakes z {s = s} (take i t q lt e h) y =
      (y.asleep ≡ z.asleep)
      × (y.main_asleep
          ≡ (if same_side (puts_first s.main) (serves_first i) then false else z.main_asleep))
  Wakes z (close_first e) y =
      (y.asleep ≡ (λ i. if same_side true (serves_first i) then false else z.asleep i))
      × (y.main_asleep ≡ false)
  Wakes z (close_second e) y =
      (y.asleep ≡ (λ i. if same_side false (serves_first i) then false else z.asleep i))
      × (y.main_asleep ≡ false)
  Wakes z (leave i lt e h) y = y ≡ z
  Wakes z (join k e lt r) y = y ≡ z
  Wakes z (pass i t lt e free) y = y ≡ z
  Wakes z (hold i t lt e is free) y = y ≡ z
  Wakes z (let_go i t lt e) y = y ≡ z
  Wakes z (serve i t lt e is) y = y ≡ z
  Wakes z (served i t lt e) y = y ≡ z
  Wakes z (Step.end i t lt e) y = y ≡ z
  Wakes z (Step.count i lt e) y = y ≡ z

  -- A thread goes to sleep where it has to wait, or wakes without a signal.
  pub data Nap (s : Pool) (z : Sleepers) : Sleepers → Type 0 where
    dozes :
        (i : ℕ)
        → i < total_workers path pool
        → s.at i ≡ looking
        → tq_pop (queue_at s (worker_queue path pool i)) ≡ waits
        → Nap s z (record z { asleep = update z.asleep i true })
    main_dozes :
        (t : ℕ) (l : List ℕ)
        → s.main ≡ dispatching (t ∷ l)
        → tq_push (queue_at s (dispatch_one path t).queue) t ≡ none
        → Nap s z (record z { main_asleep = true })
    stirs : (i : ℕ) → Nap s z (record z { asleep = update z.asleep i false })
    main_stirs : Nap s z (record z { main_asleep = false })

  -- A step that a thread which is awake can make, with the sleepers after it.
  abbrev pub Goes : Pool → Sleepers → Type 0
  Goes s z = (t : Pool) × (y : Sleepers) × (st : Step path pool s t) × IsAwake z st × Wakes z st y

  -- What can happen from the start on, where nobody sleeps, in so many steps.
  pub data SleepReach : ℕ → Pool → Sleepers → Type 0 where
    all_awake :
        SleepReach 0 (start_pool path pool) (record { asleep = λ i. false; main_asleep = false })
    acts :
        {k : ℕ} {s t : Pool} {z y : Sleepers}
        → SleepReach k s z
        → (st : Step path pool s t) → IsAwake z st
        → Wakes z st y
        → SleepReach (suc k) t y
    naps : {k : ℕ} {s : Pool} {z y : Sleepers} → SleepReach k s z → Nap s z y → SleepReach k s y
