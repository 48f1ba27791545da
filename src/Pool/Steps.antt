-- ===== src/Pool/Steps.antt =====
-- Every step of the pool of src/workload.c keeps the invariant.
use comp.Shared.{ℕ, ◌≡◌, ◌≢◌, ◌<◌, Bool, refl, sym, ap, ◌∙◌, arith, update}
use comp.Workload.{Pathology}
use comp.Pool.{
  Station, Pool, total_workers, passing, starting, holding, serving, ending, returned, Step,
  release, close_first, close_second, join, take, leave, pass, hold, let_go, serve, served, Reach,
  here, next,
}
use comp.Pool.Tally.{in_hand, counts}
use comp.Pool.Whole.{Inv, gate-keep, worker-Inv}
use comp.Pool.Releases.{release-Inv}
use comp.Pool.Takes.{take-Inv}
use comp.Pool.Start.{start_pool-Inv}
use comp.Pool.Closing.{close_first-Inv, close_second-Inv, join-Inv}
use comp.Pool.Gate.{elsewhere, leave-Inv, hold-Inv, let_go-Inv}
use comp.Pool.Ending.{end-Inv, count-Inv}

module _ (path : Pathology) (pool : ℕ) where
  abbrev n : ℕ
  n = total_workers path pool

  module _ (s : Pool) (c : Inv path pool s) where
    -- A worker that moves on with its task, and neither takes nor leaves the gate.
    moves-Inv :
        (i : ℕ) (was st : Station)
        → i < n
        → s.at i ≡ was
        → was ≢ returned
        → ((t : ℕ) → was ≢ holding t)
        → ((t : ℕ) → st ≢ holding t)
        → ((p : ℕ → Bool) → in_hand p st ≡ in_hand p was)
        → counts st ≡ counts was
        → st ≢ returned
        → Inv path pool (record s { at = update s.at i st })
    moves-Inv i was st lt e away held holds same same_counts stays =
        worker-Inv path pool s i st s.gate c lt (elsewhere path pool s c i was returned e away)
          (λ p. same p ∙ ap (in_hand p) (sym e)) (same_counts ∙ ap counts (sym e))
          (λ r. absurd (stays r))
          (gate-keep path pool n s.gate s.at i st c.gate_ok
            (λ t. elsewhere path pool s c i was (holding t) e (held t)) holds)

    pub Step-Inv : {s' : Pool} → Step path pool s s' → Inv path pool s'
    Step-Inv (release t l q e h) = release-Inv path pool s c t l q e h
    Step-Inv (close_first e) = close_first-Inv path pool s c e
    Step-Inv (close_second e) = close_second-Inv path pool s c e
    Step-Inv (join k e lt r) = join-Inv path pool s c k e lt r
    Step-Inv (take i t q lt e h) = take-Inv path pool s c i t q lt e h
    Step-Inv (leave i lt e h) = leave-Inv path pool s c i lt e h
    Step-Inv (pass i t lt e free) =
        moves-Inv i (passing t) (starting t) lt e (λ h. absurd (ground arith))
          (λ u h. absurd (ground arith)) (λ u h. absurd (ground arith)) (λ p. refl) refl
          (λ h. absurd (ground arith))
    Step-Inv (hold i t lt e is free) = hold-Inv path pool s c i t lt e free
    Step-Inv (let_go i t lt e) = let_go-Inv path pool s c i t lt e
    Step-Inv (serve i t lt e is) =
        moves-Inv i (starting t) (serving t) lt e (λ h. absurd (ground arith))
          (λ u h. absurd (ground arith)) (λ u h. absurd (ground arith)) (λ p. refl) refl
          (λ h. absurd (ground arith))
    Step-Inv (served i t lt e) =
        moves-Inv i (serving t) (ending t) lt e (λ h. absurd (ground arith))
          (λ u h. absurd (ground arith)) (λ u h. absurd (ground arith)) (λ p. refl) refl
          (λ h. absurd (ground arith))
    Step-Inv (Step.end i t lt e) = end-Inv path pool s c i t lt e
    Step-Inv (Step.count i lt e) = count-Inv path pool s c i lt e

  pub Reach-Inv : {k : ℕ} {s : Pool} → Reach path pool k s → Inv path pool s
  Reach-Inv here = start_pool-Inv path pool
  Reach-Inv (next {s = s} r st) = Step-Inv s (Reach-Inv r) st
