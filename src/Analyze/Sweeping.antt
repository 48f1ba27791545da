-- ===== src/Analyze/Sweeping.antt =====
-- The sweep of src/analyze.c over events in the order of time closes exactly the maximal intervals
-- in which the sums of the events so far violate the invariant.
pub mod Loop
use comp.Shared.{
  ℕ, suc, ◌≡◌, refl, ◌≤◌, ◌<◌, Bool, true, false, List, [], ◌∷◌, All, if◌then◌else◌, leb, arith,
  inl, inr, Bool-cases, ℤ, pos, ◌+ℤ◌, ◌∙◌, ap, sym, eq_of_parts, int_laws, ◌==◌,
}
use mathlib.Core.Path.{subst}
use comp.Analyze.{Doubles}
use comp.Analyze.Scan.{Event, Sweep, now_violated, close, group_end, sweep_from}
use comp.Analyze.Episodes.{
  Interval, Apart, tally_one, is_long, tally, within, Apart-mono, within-before,
}

abbrev pub ByTime : List Event → Type 0
ByTime [] = Unit
ByTime (e ∷ es) = All (λ f. e.time_ns ≤ f.time_ns) es × ByTime es

-- The sum of a delta over the events up to `t`.
abbrev pub sum_to : (Event → ℤ) → ℕ → List Event → ℤ
sum_to delta t [] = pos 0
sum_to delta t (e ∷ es) =
    let rest = sum_to delta t es in if leb e.time_ns t then delta e +ℤ rest else rest

pub sum_to-before :
    (delta : Event → ℤ) (t : ℕ) (es : List Event)
    → All (λ f. t < f.time_ns) es
    → sum_to delta t es ≡ pos 0
sum_to-before delta t [] h = refl
sum_to-before delta t (e ∷ es) h =
    let k = h.0 in let ih = sum_to-before delta t es h.1 in ground arith

pub All-gt :
    (t time : ℕ) (es : List Event)
    → t < time
    → All (λ f. time ≤ f.time_ns) es
    → All (λ f. t < f.time_ns) es
All-gt t time [] lt h = tt
All-gt t time (e ∷ es) lt h = let k = h.0 in (omega arith, All-gt t time es lt h.1)

abbrev pub counts : {D : Type 0} → Sweep D → ℕ × D
counts s = (s.episodes, s.violation_us)

-- The intervals that follow a state: the first is the episode that is open, if one is.
abbrev pub Follows : Bool → ℕ → ℕ → List Interval → Type 0
Follows false start lo is = Apart lo is
Follows true start lo [] = ⊥
Follows true start lo (i ∷ is) = (i.0 ≡ start) × ((lo ≤ i.1) × Apart (suc i.1) is)

module _ {D : Type 0} (double : Doubles D) (workers : ℕ) (min_us : D) where
  -- What the end of a group at `time` does with the episode, by whether one was open and the
  -- invariant is violated now.
  abbrev Ended : Bool → Bool → Sweep D → ℕ → Sweep D → Type 0
  Ended true true s time s' = (s'.episode_start ≡ s.episode_start) × (counts s' ≡ counts s)
  Ended true false s time s' =
      counts s' ≡ tally_one double min_us (counts s) (s.episode_start, time)
  Ended false true s time s' = (s'.episode_start ≡ time) × (counts s' ≡ counts s)
  Ended false false s time s' = counts s' ≡ counts s

  abbrev now_of : Sweep D → ℤ → ℤ → Bool
  now_of s w b = now_violated workers (s.waiting +ℤ w) (s.busy +ℤ b)

  close-counts :
      (s : Sweep D) (time : ℕ)
      → counts (close double min_us s time)
        ≡ tally_one double min_us (counts s) (s.episode_start, time)
  unfolding close
  close-counts s time = elim (Bool-cases (is_long double min_us (s.episode_start, time))) [
    | inl y ↦ rw y refl
    | inr n ↦ rw n refl
  ]

  group_end-Ended :
      (s : Sweep D) (time : ℕ) (w b : ℤ)
      → Ended s.in_episode (now_of s w b) s time (group_end double workers min_us s time w b)
  unfolding group_end
  group_end-Ended s time w b = elim (Bool-cases s.in_episode) [
    | inl i ↦ elim (Bool-cases (now_of s w b)) [
      | inl n ↦ rw (i, n) (refl, refl)
      | inr n ↦ rw (i, n) (close-counts (record s { in_episode = true }) time)
    ]
    | inr i ↦ elim (Bool-cases (now_of s w b)) [
      | inl n ↦ rw (i, n) (refl, refl)
      | inr n ↦ rw (i, n) refl
    ]
  ]

  module _ (p : ℕ → Bool) where
    -- Intervals that follow the state `s`, hold the instants of `p` from `lo` on, and are what `r`
    -- has counted more than `s`.
    abbrev pub Closes : Bool → Sweep D → ℕ → Sweep D → List Interval → Type 0
    Closes i s lo r is =
        (counts r ≡ tally double min_us (counts s) is)
        × Follows i s.episode_start lo is
        × ((t : ℕ) → lo ≤ t → p t ≡ within t is)

    -- What holds from `later` on and in between holds from `time` on.
    from_both :
        (q : ℕ → Bool) (time later : ℕ)
        → ((t : ℕ) → time ≤ t → t < later → p t ≡ q t)
        → ((t : ℕ) → later ≤ t → p t ≡ q t)
        → (t : ℕ) → time ≤ t
        → p t ≡ q t
    from_both q time later mid after t h = elim (Bool-cases (leb later t)) [
      | inl y ↦ after t (ground arith)
      | inr n ↦ mid t h (ground arith)
    ]

    -- From the state after the group at `time` back to the one before it, when the next group comes
    -- at `later` and the invariant is as `n` says in between.
    Closes-step :
        (i n : Bool) (s s' r : Sweep D) (time later : ℕ) (is : List Interval)
        → Ended i n s time s'
        → time < later
        → (i ≡ true → s.episode_start < time)
        → ((t : ℕ) → time ≤ t → t < later → p t ≡ n)
        → Closes n s' later r is
        → (js : List Interval) × Closes i s time r js
    Closes-step true true s s' r time later [] e lt started mid c = absurd c.1
    Closes-step true true s s' r time later (j ∷ is) e lt started mid c =
        let before = started refl in
        let first : j.0 ≡ s.episode_start = c.1.0 ∙ e.0 in
        let ends : later ≤ j.1 = c.1.1.0 in
        (
          j ∷ is,
          (
            c.0 ∙ ap (λ x. tally double min_us x (j ∷ is)) e.1,
            (first, (omega arith, c.1.1.1)),
            from_both (λ t. within t (j ∷ is)) time later (λ t a b. mid t a b ∙ ground arith) c.2,
          ),
        )
    Closes-step true false s s' r time later is e lt started mid c =
        let before = started refl in
        let j : Interval = (s.episode_start, time) in
        (
          j ∷ is,
          (
            c.0 ∙ ap (λ x. tally double min_us x is) e,
            (refl, (omega arith, Apart-mono (suc time) later is (omega arith) c.1)),
            from_both (λ t. within t (j ∷ is)) time later
                (λ t a b. let w = within-before t later is b c.1 in mid t a b ∙ ground arith)
                (λ t a. c.2 t a ∙ ground arith),
          ),
        )
    Closes-step false true s s' r time later [] e lt started mid c = absurd c.1
    Closes-step false true s s' r time later (j ∷ is) e lt started mid c =
        let first : j.0 ≡ time = c.1.0 ∙ e.0 in
        let ends : later ≤ j.1 = c.1.1.0 in
        (
          j ∷ is,
          (
            c.0 ∙ ap (λ x. tally double min_us x (j ∷ is)) e.1,
            (omega arith, (omega arith, c.1.1.1)),
            from_both (λ t. within t (j ∷ is)) time later (λ t a b. mid t a b ∙ ground arith) c.2,
          ),
        )
    Closes-step false false s s' r time later is e lt started mid c = (
      is,
      (
        c.0 ∙ ap (λ x. tally double min_us x is) e,
        Apart-mono time later is (omega arith) c.1,
        from_both (λ t. within t is) time later
            (λ t a b. mid t a b ∙ sym (within-before t later is b c.1)) c.2,
      ),
    )
