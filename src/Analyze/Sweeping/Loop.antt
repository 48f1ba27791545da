-- ===== src/Analyze/Sweeping/Loop.antt =====
-- The loop of the sweep of src/analyze.c, group by group of events at the same time.
use comp.Shared.{
  ℕ, suc, ◌≡◌, refl, ◌≤◌, ◌<◌, Bool, true, false, List, [], ◌∷◌, All, arith, inl, inr, Bool-cases,
  ℤ, pos, ◌+ℤ◌, ◌∙◌, ap, sym, eq_of_parts, int_laws, ◌==◌,
}
use mathlib.Core.Path.{subst}
use comp.Analyze.{Doubles}
use comp.Analyze.Scan.{Event, Sweep, now_violated, group_end, sweep_from}
use comp.Analyze.Episodes.{Interval}
use comp.Analyze.Sweeping.{
  sum_to, sum_to-before, All-gt, ByTime, Ended, now_of, group_end-Ended, Closes, Closes-step,
}

module _ {D : Type 0} (double : Doubles D) (workers : ℕ) (min_us : D) where
  -- `total_w t` and `total_b t` are the sums of all deltas up to `t`.
  module _ (total_w total_b : ℕ → ℤ) where
    abbrev pub violated : ℕ → Bool
    violated t = now_violated workers (total_w t) (total_b t)

    -- What is left to sum is the state, the group so far and the events from here on.
    abbrev pub Remain : (ℕ → ℤ) → (Event → ℤ) → ℤ → ℤ → List Event → ℕ → Type 0
    Remain sums delta before group es time =
        (t : ℕ) → time ≤ t → sums t ≡ before +ℤ (group +ℤ sum_to delta t es)

    abbrev pub Quiet : List Event → Type 0
    Quiet es = (t : ℕ) → All (λ f. f.time_ns ≤ t) es → violated t ≡ false

    sum_here :
        (delta : Event → ℤ) (t : ℕ) (e : Event) (es : List Event)
        → e.time_ns ≤ t
        → sum_to delta t (e ∷ es) ≡ delta e +ℤ sum_to delta t es
    sum_here delta t e es h = ground arith

    Remain-join :
        (sums : ℕ → ℤ) (delta : Event → ℤ) (before group : ℤ) (e : Event) (es : List Event)
        (time : ℕ)
        → e.time_ns ≤ time
        → Remain sums delta before group (e ∷ es) e.time_ns
        → Remain sums delta before (group +ℤ delta e) es time
    Remain-join sums delta before group e es time le h t k =
        h t (omega arith)
        ∙ ap (λ x. before +ℤ (group +ℤ x)) (sum_here delta t e es (omega arith))
        ∙ eq_of_parts _ _ (omega int_laws)

    Remain-end :
        (sums : ℕ → ℤ) (delta : Event → ℤ) (before group : ℤ) (e : Event) (es : List Event)
        (time : ℕ)
        → e.time_ns ≤ time
        → Remain sums delta before group (e ∷ es) e.time_ns
        → Remain sums delta (before +ℤ (group +ℤ delta e)) (pos 0) es time
    Remain-end sums delta before group e es time le h t k =
        Remain-join sums delta before group e es time le h t k ∙ eq_of_parts _ _ (omega int_laws)

    -- Until the next event the sums are those at the end of the group.
    Remain-between :
        (sums : ℕ → ℤ) (delta : Event → ℤ) (before group : ℤ) (e : Event) (es : List Event) (t : ℕ)
        → e.time_ns ≤ t
        → All (λ f. t < f.time_ns) es
        → Remain sums delta before group (e ∷ es) e.time_ns
        → sums t ≡ before +ℤ (group +ℤ delta e)
    Remain-between sums delta before group e es t le later h =
        Remain-join sums delta before group e es t le h t (omega arith)
        ∙ ap (λ x. before +ℤ (group +ℤ delta e +ℤ x)) (sum_to-before delta t es later)
        ∙ eq_of_parts _ _ (omega int_laws)

    abbrev pub Sums : Sweep D → ℤ → ℤ → List Event → ℕ → Type 0
    Sums s w b es time =
        Remain total_w (λ f. f.waiting_delta) s.waiting w es time
        × Remain total_b (λ f. f.busy_delta) s.busy b es time

    Sums-between :
        (s : Sweep D) (w b : ℤ) (e : Event) (es : List Event) (t : ℕ)
        → e.time_ns ≤ t
        → All (λ f. t < f.time_ns) es
        → Sums s w b (e ∷ es) e.time_ns
        → violated t ≡ now_of double workers min_us s (w +ℤ e.waiting_delta) (b +ℤ e.busy_delta)
    Sums-between s w b e es t le later h =
        ap (λ x. now_violated workers x (total_b t))
          (Remain-between total_w (λ f. f.waiting_delta) s.waiting w e es t le later h.0)
        ∙ ap (λ x. now_violated workers (s.waiting +ℤ (w +ℤ e.waiting_delta)) x)
            (Remain-between total_b (λ f. f.busy_delta) s.busy b e es t le later h.1)

    start_before :
        (i n : Bool) (s s' : Sweep D) (time later : ℕ)
        → Ended double workers min_us i n s time s'
        → (i ≡ true → s.episode_start < time)
        → time < later
        → n ≡ true
        → s'.episode_start < later
    start_before true true s s' time later e started lt h =
        let k = started refl in let f = e.0 in omega arith
    start_before false true s s' time later e started lt h = let f = e.0 in omega arith
    start_before true false s s' time later e started lt h = absurd (ground arith)
    start_before false false s s' time later e started lt h = absurd (ground arith)

    abbrev pub Swept : Event → List Event → Sweep D → ℤ → ℤ → ℕ → Type 0
    Swept e es s w b lo =
        (is : List Interval) × Closes double workers min_us violated s.in_episode s lo
          (sweep_from double workers min_us e es s w b) is

    last-Swept :
        (e : Event) (s : Sweep D) (w b : ℤ)
        → Sums s w b (e ∷ []) e.time_ns
        → (s.in_episode ≡ true → s.episode_start < e.time_ns)
        → Quiet (e ∷ [])
        → Swept e [] s w b e.time_ns
    unfolding sweep_from
    last-Swept e s w b h started quiet =
        let time = e.time_ns in
        let w' = w +ℤ e.waiting_delta in
        let b' = b +ℤ e.busy_delta in
        let s' = group_end double workers min_us s time w' b' in
        let no : now_of double workers min_us s w' b' ≡ false =
          sym (Sums-between s w b e [] time (omega arith) tt h) ∙ quiet time (omega arith, tt) in
        Closes-step double workers min_us violated s.in_episode false s s' s' time (suc time) []
          (subst (λ n. Ended double workers min_us s.in_episode n s time s') no
            (group_end-Ended double workers min_us s time w' b'))
          (omega arith) started (λ t h k. quiet t (h, tt))
          (refl, tt, λ t h. quiet t (omega arith, tt))

    -- The next event stands at a later time.
    next-Swept :
        (e f : Event) (es : List Event) (s : Sweep D) (w b : ℤ)
        → let s' =
            group_end double workers min_us s e.time_ns
              (w +ℤ e.waiting_delta)
              (b +ℤ e.busy_delta) in
          e.time_ns < f.time_ns
          → All (λ g. f.time_ns ≤ g.time_ns) es
          → Sums s w b (e ∷ (f ∷ es)) e.time_ns
          → (s.in_episode ≡ true → s.episode_start < e.time_ns)
          → (Sums s' (pos 0) (pos 0) (f ∷ es) f.time_ns
              → (s'.in_episode ≡ true → s'.episode_start < f.time_ns)
              → Swept f es s' (pos 0) (pos 0) f.time_ns)
          → (is : List Interval) × Closes double workers min_us violated s.in_episode s e.time_ns
              (sweep_from double workers min_us f es s' (pos 0) (pos 0))
              is
    unfolding group_end
    next-Swept e f es s w b lt order h started rest =
        let time = e.time_ns in
        let w' = w +ℤ e.waiting_delta in
        let b' = b +ℤ e.busy_delta in
        let s' = group_end double workers min_us s time w' b' in
        let ended = group_end-Ended double workers min_us s time w' b' in
        let sums : Sums s' (pos 0) (pos 0) (f ∷ es) f.time_ns = (
          Remain-end total_w (λ g. g.waiting_delta) s.waiting w e (f ∷ es) f.time_ns (omega arith)
              h.0,
          Remain-end total_b (λ g. g.busy_delta) s.busy b e (f ∷ es) f.time_ns (omega arith) h.1,
        ) in
        let (is, closes) = rest sums (
          start_before s.in_episode (now_of double workers min_us s w' b') s s' time f.time_ns ended
            started lt) in
        Closes-step double workers min_us violated s.in_episode
          (now_of double workers min_us s w' b') s s'
          (sweep_from double workers min_us f es s' (pos 0) (pos 0)) time f.time_ns is ended lt
          started
          (λ t le before.
            Sums-between s w b e (f ∷ es) t le (before, All-gt t f.time_ns es before order) h)
          closes

    pub sweep_from-Swept :
        (e : Event) (es : List Event) (s : Sweep D) (w b : ℤ)
        → ByTime (e ∷ es)
        → Sums s w b (e ∷ es) e.time_ns
        → (s.in_episode ≡ true → s.episode_start < e.time_ns)
        → Quiet (e ∷ es)
        → Swept e es s w b e.time_ns
    unfolding sweep_from
    sweep_from-Swept e [] s w b order h started quiet = last-Swept e s w b h started quiet
    sweep_from-Swept e (f ∷ es) s w b order h started quiet =
        let w' = w +ℤ e.waiting_delta in
        let b' = b +ℤ e.busy_delta in
        let le : e.time_ns ≤ f.time_ns = order.0.0 in
        let quiet' : Quiet (f ∷ es) = λ t h. quiet t (let k = h.0 in omega arith, h) in
        elim (Bool-cases (f.time_ns == e.time_ns)) [
          | inl y ↦
              let same : f.time_ns ≡ e.time_ns = ground arith in
              let sums : Sums s w' b' (f ∷ es) f.time_ns = (
                Remain-join total_w (λ g. g.waiting_delta) s.waiting w e (f ∷ es) f.time_ns le h.0,
                Remain-join total_b (λ g. g.busy_delta) s.busy b e (f ∷ es) f.time_ns le h.1,
              ) in
              rw y (
                subst (Swept f es s w' b') same (
                  sweep_from-Swept f es s w' b' order.1 sums (λ i. let k = started i in omega arith)
                    quiet'))
          | inr n ↦ rw n (
              next-Swept e f es s w b (ground arith) order.1.0 h started (λ sums before.
                sweep_from-Swept f es (group_end double workers min_us s e.time_ns w' b') (pos 0)
                  (pos 0) order.1 sums before quiet'))
        ]
