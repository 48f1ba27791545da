-- ===== src/RcuBench/Timing.antt =====
-- What the loops of src/bench.c of 04-rcu-table gather, and why the baseline tears no read.
use mathlib.Core.Path.{subst}
use comp.Shared.{
  ℕ, zero, suc, ◌+◌, ◌%◌, ◌≡◌, ◌∙◌, ap, refl, ◌≤◌, ◌<◌, inl, inr, Bool, true, false, ◌||◌, List, [],
  ◌∷◌, ◌==◌, if◌then◌else◌, length, ltb_ℤ, ℤ, pos, negsuc, some, ltb, ◌-◌, arith, Bool-cases,
}
use comp.Table.{table_keys, Version, rw_init, rw_lookup, rw_updates}
use comp.Table.Laws.{rw_lookup-rw_updates}
use comp.RcuBench.{reader, Run, Timed, timed_from, max_trials}

fewer_true : (f g : ℕ) → (ltb_ℤ (pos f) (pos 0) || ltb_ℤ (pos g) (pos f)) ≡ true → g ≤ f
fewer_true f g h = ground arith

fewer_false : (f g : ℕ) → (ltb_ℤ (pos f) (pos 0) || ltb_ℤ (pos g) (pos f)) ≡ false → f ≤ g
fewer_false f g h = ground arith

reader-all_ok :
    (lookup : ℕ → ℕ → Bool)
    → ((j key : ℕ) → key < table_keys → lookup j key ≡ true)
    → (left j torn : ℕ) → reader lookup left j torn ≡ torn
unfolding reader
reader-all_ok lookup ok zero j torn = refl
reader-all_ok lookup ok (suc left) j torn =
    ap (λ b. reader lookup left (suc j) (if b then torn else suc torn))
      (ok j (j % table_keys) (omega arith))
    ∙ reader-all_ok lookup ok left (suc j) torn

-- A reader of the rwlock baseline counts no torn read, however many updates came before each of its
-- reads.
pub reader-none_torn :
    (updates : ℕ → ℕ) (v : Version) (reads : ℕ)
    → reader (λ j key. (rw_lookup (rw_updates (updates j) (rw_init v)) key).ok) reads 0 0 ≡ 0
reader-none_torn updates v reads =
    reader-all_ok (λ j key. (rw_lookup (rw_updates (updates j) (rw_init v)) key).ok)
      (λ j key h. ap (λ l. l.ok) (rw_lookup-rw_updates (updates j) v key h)) reads 0 0

module _ {D : Type 0} where
  -- The seconds of `n` runs from run `k` on, and their torn reads.
  abbrev pub seconds_of : (ℕ → Run D) → ℕ → ℕ → List D
  seconds_of run zero k = []
  seconds_of run (suc n) k = (run k).seconds ∷ seconds_of run n (suc k)

  abbrev pub torn_of : (ℕ → Run D) → ℕ → ℕ → ℕ
  torn_of run zero k = 0
  torn_of run (suc n) k = (run k).torn + torn_of run n (suc k)

  pub length-seconds_of : (run : ℕ → Run D) (n k : ℕ) → length (seconds_of run n k) ≡ n
  length-seconds_of run zero k = refl
  length-seconds_of run (suc n) k = ap suc (length-seconds_of run n (suc k))

  -- The loop over the trials, where every time has a place.
  abbrev pub all_timed : (ℕ → Run D) → ℕ → ℕ → ℕ → ℤ → Timed D
  all_timed run zero k torn freed_min = record { times = []; torn = torn; freed_min = freed_min }
  all_timed run (suc left) k torn freed_min =
      let r = run k in
      let fewer = ltb_ℤ freed_min (pos 0) || ltb_ℤ (pos r.freed) freed_min in
      let rest =
        all_timed run left (suc k) (torn + r.torn) (if fewer then pos r.freed else freed_min) in
      record rest { times = r.seconds ∷ rest.times }

  -- It does not leave the array where there are trials enough to fill it and no more.
  pub timed_from-all_timed :
      (run : ℕ → Run D) (left k torn : ℕ) (freed_min : ℤ)
      → k - 1 + left ≤ max_trials
      → 0 < k
      → timed_from run left k torn freed_min ≡ some (all_timed run left k torn freed_min)
  unfolding timed_from
  timed_from-all_timed run zero k torn freed_min fits some_k = refl
  timed_from-all_timed run (suc left) k torn freed_min fits some_k =
      let test : ltb (k - 1) max_trials ≡ true = let h : k - 1 < 99 = omega arith in ground arith in
      rw
        (
          test,
          timed_from-all_timed run left (suc k) (torn + (run k).torn)
              (if ltb_ℤ freed_min (pos 0) || ltb_ℤ (pos (run k).freed) freed_min
                then pos (run k).freed
                else freed_min)
              (omega arith) (omega arith),
        )
        refl

  pub all_timed-times :
      (run : ℕ → Run D) (left k torn : ℕ) (freed_min : ℤ)
      → (all_timed run left k torn freed_min).times ≡ seconds_of run left k
  all_timed-times run zero k torn freed_min = refl
  all_timed-times run (suc left) k torn freed_min =
      ap (λ l. (run k).seconds ∷ l) (all_timed-times run left (suc k) _ _)

  pub all_timed-torn :
      (run : ℕ → Run D) (left k torn : ℕ) (freed_min : ℤ)
      → (all_timed run left k torn freed_min).torn ≡ torn + torn_of run left k
  all_timed-torn run zero k torn freed_min = omega arith
  all_timed-torn run (suc left) k torn freed_min =
      all_timed-torn run left (suc k) (torn + (run k).torn) _ ∙ omega arith

  -- The least number of freed versions of the runs from `k` on, if `m` is that of those before.
  pub record Least (run : ℕ → Run D) (low high : ℕ) (freed_min : ℤ) : Type 0 where
    pub at : ℕ
    pub low_at : low ≤ at
    pub at_high : at < high
    pub here : freed_min ≡ pos (run at).freed
    pub least : (j : ℕ) → low ≤ j → j < high → (run at).freed ≤ (run j).freed

  all_timed-Least :
      (run : ℕ → Run D) (left low k torn : ℕ) (m : ℤ)
      → Least run low k m
      → Least run low (k + left) (all_timed run left k torn m).freed_min
  all_timed-Least run zero low k torn m h =
      let e : k ≡ k + 0 = omega arith in subst (λ x. Least run low x m) e h
  all_timed-Least run (suc left) low k torn m h =
      let e : suc k + left ≡ k + suc left = omega arith in
      let t = torn + (run k).torn in
      let a = h.here in
      let b = h.low_at in
      let c = h.at_high in
      let step : Least run low (suc k)
          (if ltb_ℤ m (pos 0) || ltb_ℤ (pos (run k).freed) m then pos (run k).freed else m) =
        elim (Bool-cases (ltb_ℤ m (pos 0) || ltb_ℤ (pos (run k).freed) m)) [
          | inl y ↦ rw y (record {
            at = k;
            low_at = omega arith;
            at_high = omega arith;
            here = refl;
            least = λ j lo hi. elim (Bool-cases (j == k)) [
              | inl s ↦
                  let i : k ≡ j = ground arith in let q = ap (λ x. (run x).freed) i in omega arith
              | inr s ↦
                  let l = h.least j lo (ground arith) in
                  let f =
                    fewer_true (run h.at).freed (run k).freed
                      (subst (λ z. (ltb_ℤ z (pos 0) || ltb_ℤ (pos (run k).freed) z) ≡ true) a y) in
                  omega arith
            ];
          })
          | inr n ↦ rw n (record {
            at = h.at;
            low_at = b;
            at_high = omega arith;
            here = a;
            least = λ j lo hi. elim (Bool-cases (j == k)) [
              | inl s ↦
                  let i : k ≡ j = ground arith in
                  let q = ap (λ x. (run x).freed) i in
                  let f =
                    fewer_false (run h.at).freed (run k).freed
                      (subst (λ z. (ltb_ℤ z (pos 0) || ltb_ℤ (pos (run k).freed) z) ≡ false) a n) in
                  omega arith
              | inr s ↦ h.least j lo (ground arith)
            ];
          })
        ] in
      subst
        (λ x.
          Least run low x
            (all_timed run left (suc k) t (
              if ltb_ℤ m (pos 0) || ltb_ℤ (pos (run k).freed) m
              then pos (run k).freed
              else m)).freed_min)
        e (all_timed-Least run left low (suc k) t _ step)

  -- After the first trial its number of freed versions is the least.
  pub all_timed-first :
      (run : ℕ → Run D) (trials torn : ℕ)
      → 0 < trials
      → Least run 1 (suc trials) (all_timed run trials 1 torn (negsuc 0)).freed_min
  all_timed-first run zero torn h = absurd (omega arith)
  all_timed-first run (suc left) torn h =
      let first : Least run 1 2 (pos (run 1).freed) = record {
        at = 1;
        low_at = omega arith;
        at_high = omega arith;
        here = refl;
        least = λ j lo hi.
            let i : 1 ≡ j = omega arith in let q = ap (λ x. (run x).freed) i in omega arith;
      } in
      let e : 2 + left ≡ suc (suc left) = omega arith in
      subst
        (λ x.
          Least run 1 x (all_timed run left 2 (torn + (run 1).torn) (pos (run 1).freed)).freed_min)
        e (all_timed-Least run left 1 2 (torn + (run 1).torn) (pos (run 1).freed) first)
