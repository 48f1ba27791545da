-- ===== src/Pool/Waking.antt =====
-- The rule for sleepers holds through every step of the pool of src/workload.c.
use mathlib.Core.Path.{subst}
use comp.Shared.{ℕ, suc, ◌≡◌, ◌≢◌, refl, sym, Bool, true, false, arith, ◌==◌, if◌then◌else◌}
use comp.TaskQueue.{Taskq}
use comp.Workload.{Pathology, dispatch_one}
use comp.Pool.{
  Pool, looking, start_pool, Step, release, close_first, close_second, join, take, leave, pass,
  hold, let_go, serve, served, Reach, here, next, starting, holding, serving, ending, counting,
}
use comp.Pool.Sleep.{
  Sleepers, serves_first, IsAwake, Wakes, Nap, dozes, main_dozes, stirs, main_stirs, SleepReach,
  all_awake, acts, naps,
}
use comp.Pool.Rested.{queue_of, Rested, goes-Rested}
use comp.Pool.Dreams.{wakes-Rested, main_wakes-Rested}
use comp.Pool.Signals.{take-Rested}
use comp.Pool.Asleep.{
  leave-Rested, close-Rested, join-Rested, dozes-Rested, main_dozes-Rested, drained-closed,
}
use comp.Pool.Released.{release-Rested}

module _ (path : Pathology) (pool : ℕ) where
  abbrev first : ℕ → Bool
  first i = serves_first path pool i

  Nap-Rested :
      {s : Pool} {z y : Sleepers}
      → Rested path pool s z
      → Nap path pool s z y
      → Rested path pool s y
  Nap-Rested {s} {z} c (dozes i lt look e) = dozes-Rested path pool s z c i lt look e
  Nap-Rested {s} {z} c (main_dozes t l e full) = main_dozes-Rested path pool s z c t l e full
  Nap-Rested {s} {z} c (stirs i) = wakes-Rested path pool s z c i
  Nap-Rested {s} {z} c main_stirs = main_wakes-Rested path pool s z c

  -- What is in the queues after one of them is another.
  abbrev set_side : Pool → Bool → Taskq → Pool
  set_side s b q = if b then record s { q0 = q } else record s { q1 = q }

  set_now : (s : Pool) (b : Bool) (q : Taskq) → queue_of (set_side s b q) b ≡ q
  set_now s true q = refl
  set_now s false q = refl

  set_kept :
      (s : Pool) (b d : Bool) (q : Taskq) → b ≢ d → queue_of (set_side s b q) d ≡ queue_of s d
  set_kept s true true q h = absurd (h refl)
  set_kept s true false q h = refl
  set_kept s false true q h = refl
  set_kept s false false q h = absurd (h refl)

  set_other :
      (s : Pool) (b : Bool) (q : Taskq)
      → queue_of (set_side s b q) (if b then false else true)
        ≡ queue_of s (if b then false else true)
  set_other s true q = refl
  set_other s false q = refl

  set_at : (s : Pool) (b : Bool) (q : Taskq) → (set_side s b q).at ≡ s.at
  set_at s true q = refl
  set_at s false q = refl

  set_main : (s : Pool) (b : Bool) (q : Taskq) → (set_side s b q).main ≡ s.main
  set_main s true q = refl
  set_main s false q = refl

  Step-Rested :
      {s t : Pool} {z y : Sleepers}
      → Rested path pool s z
      → (st : Step path pool s t) → IsAwake path pool z st
      → Wakes path pool z st y
      → Rested path pool t y
  Step-Rested {s} {t} {z} {y} c (release u l q e h) awake w =
      let b = (dispatch_one path u).queue == 0 in
      release-Rested path pool s z c b u q t y h awake (set_now s b q) (λ d ne. set_kept s b d q ne)
        (set_at s b q) w
  Step-Rested {s} {t} {z} {y} c (close_first e) awake w =
      close-Rested path pool s z c true t y refl
        (λ d. elim d as (λ d. d ≢ true → queue_of t d ≡ queue_of s d) [
          | true ↦ λ ne. absurd (ne refl)
          | false ↦ λ ne. refl
        ])
        w.0 w.1
  Step-Rested {s} {t} {z} {y} c (close_second e) awake w =
      close-Rested path pool s z c false t y refl
        (λ d. elim d as (λ d. d ≢ false → queue_of t d ≡ queue_of s d) [
          | true ↦ λ ne. refl
          | false ↦ λ ne. absurd (ne refl)
        ])
        w.0 w.1
  Step-Rested {s} {t} {z} {y} c (join k e lt r) awake w =
      subst (λ x. Rested path pool t x) (sym w) (join-Rested path pool s z c k (suc k) e)
  Step-Rested {s} {t} {z} {y} c (take i u q lt e h) awake w =
      let b = first i in
      take-Rested path pool s z c i u q t y h awake (set_now s b q, set_other s b q) refl
        (set_main s b q) w.0 w.1
  Step-Rested {s} {t} {z} {y} c (leave i lt e h) awake w =
      subst (λ x. Rested path pool t x) (sym w)
        (leave-Rested path pool s z c i (drained-closed (queue_of s (first i)) h))
  Step-Rested {s} {t} {z} c (pass i u lt e free) awake w =
      subst (λ x. Rested path pool t x) (sym w)
        (goes-Rested path pool s z c i (starting u) t (λ h. absurd (ground arith)) refl refl refl
          refl)
  Step-Rested {s} {t} {z} c (hold i u lt e is free) awake w =
      subst (λ x. Rested path pool t x) (sym w)
        (goes-Rested path pool s z c i (holding u) t (λ h. absurd (ground arith)) refl refl refl
          refl)
  Step-Rested {s} {t} {z} c (let_go i u lt e) awake w =
      subst (λ x. Rested path pool t x) (sym w)
        (goes-Rested path pool s z c i (ending u) t (λ h. absurd (ground arith)) refl refl refl
          refl)
  Step-Rested {s} {t} {z} c (serve i u lt e is) awake w =
      subst (λ x. Rested path pool t x) (sym w)
        (goes-Rested path pool s z c i (serving u) t (λ h. absurd (ground arith)) refl refl refl
          refl)
  Step-Rested {s} {t} {z} c (served i u lt e) awake w =
      subst (λ x. Rested path pool t x) (sym w)
        (goes-Rested path pool s z c i (ending u) t (λ h. absurd (ground arith)) refl refl refl
          refl)
  Step-Rested {s} {t} {z} c (Step.end i u lt e) awake w =
      subst (λ x. Rested path pool t x) (sym w)
        (goes-Rested path pool s z c i counting t (λ h. absurd (ground arith)) refl refl refl refl)
  Step-Rested {s} {t} {z} c (Step.count i lt e) awake w =
      subst (λ x. Rested path pool t x) (sym w)
        (goes-Rested path pool s z c i looking t (λ h. absurd (ground arith)) refl refl refl refl)

  pub SleepReach-Reach :
      {k : ℕ} {s : Pool} {z : Sleepers}
      → SleepReach path pool k s z
      → Reach path pool k s × Rested path pool s z
  unfolding start_pool
  SleepReach-Reach all_awake = (
    here,
    record { dozing = λ j d. absurd (ground arith); main_dozing = λ d. absurd (ground arith) },
  )
  SleepReach-Reach (acts r st awake w) =
      let (reached, c) = SleepReach-Reach r in (next reached st, Step-Rested c st awake w)
  SleepReach-Reach (naps r nap) =
      let (reached, c) = SleepReach-Reach r in (reached, Nap-Rested c nap)
