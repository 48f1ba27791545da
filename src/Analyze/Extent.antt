-- ===== src/Analyze/Extent.antt =====
-- The span that `invariant_scan` of src/analyze.c reports.
use mathlib.Core.Path.{subst}
use comp.Shared.{
  ℕ, suc, ◌≡◌, ◌∙◌, refl, ◌≤◌, ◌<◌, true, false, List, [], ◌∷◌, All, Mem, ◌⊎◌, arith, inl, inr,
  Bool-cases, ◌==◌,
}
use comp.Workload.Records.{Record, is_started}
use comp.Analyze.{Doubles}
use comp.Analyze.Order.{count}
use comp.Analyze.Scan.{Span, Event, widen, span_of, microseconds, sub64, invariant_scan}
use comp.Analyze.Deltas.{span_of-started}

module _ {D : Type 0} where
  -- A task of the list that started, with the value `x` of `time`.
  abbrev pub Has : (Record D → ℕ) → ℕ → List (Record D) → Type 0
  Has time x rs = (r : Record D) × Mem r rs × (is_started r ≡ true) × (time r ≡ x)

  Has-cons :
      (time : Record D → ℕ) (x : ℕ) (r : Record D) (rs : List (Record D))
      → Has time x rs
      → Has time x (r ∷ rs)
  Has-cons time x r rs (q, m, y, e) = (q, inr m, y, e)

  widen-skips : (s : Span) (r : Record D) → is_started r ≡ false → widen s r ≡ s
  unfolding widen
  widen-skips s r n = rw n refl

  -- A task that started takes part.
  record Takes (s : Span) (r : Record D) (w : Span) : Type 0 where
    counted : w.started ≡ suc s.started
    low : w.earliest_ready ≤ r.ready_ns
    high : r.end_ns ≤ w.latest_end
    lower : 0 < s.started → w.earliest_ready ≤ s.earliest_ready
    higher : 0 < s.started → s.latest_end ≤ w.latest_end
    low_in :
        (r.ready_ns ≡ w.earliest_ready) ⊎ ((0 < s.started) × (s.earliest_ready ≡ w.earliest_ready))
    high_in : (r.end_ns ≡ w.latest_end) ⊎ ((0 < s.started) × (s.latest_end ≡ w.latest_end))

  widen-Takes : (s : Span) (r : Record D) → is_started r ≡ true → Takes s r (widen s r)
  unfolding widen
  widen-Takes s r y = rw y (record {
    counted = refl;
    low = ground arith;
    high = ground arith;
    lower = λ h. ground arith;
    higher = λ h. ground arith;
    low_in = ground arith;
    high_in = ground arith;
  })

  -- The least `ready_ns` and the greatest `end_ns` of those before, in `s`, and those in `rs`.
  record Widened (s : Span) (rs : List (Record D)) (out : Span) : Type 0 where
    low : All (λ r. is_started r ≡ true → out.earliest_ready ≤ r.ready_ns) rs
    high : All (λ r. is_started r ≡ true → r.end_ns ≤ out.latest_end) rs
    lower : 0 < s.started → out.earliest_ready ≤ s.earliest_ready
    higher : 0 < s.started → s.latest_end ≤ out.latest_end
    low_in :
        0 < out.started
        → ((0 < s.started) × (s.earliest_ready ≡ out.earliest_ready))
          ⊎ Has (λ r. r.ready_ns) out.earliest_ready rs
    high_in :
        0 < out.started
        → ((0 < s.started) × (s.latest_end ≡ out.latest_end))
          ⊎ Has (λ r. r.end_ns) out.latest_end rs

  span_of-Widened : (rs : List (Record D)) (s : Span) → Widened s rs (span_of rs s)
  unfolding span_of
  span_of-Widened [] s = record {
    low = tt;
    high = tt;
    lower = λ h. omega arith;
    higher = λ h. omega arith;
    low_in = λ h. inl (h, refl);
    high_in = λ h. inl (h, refl);
  }
  span_of-Widened (r ∷ rs) s =
      let ih = span_of-Widened rs (widen s r) in
      let out = span_of rs (widen s r) in
      elim (Bool-cases (is_started r)) [
        | inr n ↦
            let h : Widened s rs out = subst (λ w. Widened w rs out) (widen-skips s r n) ih in
            record {
              low = ((λ y. absurd (ground arith)), h.low);
              high = ((λ y. absurd (ground arith)), h.high);
              lower = h.lower;
              higher = h.higher;
              low_in = λ k. elim (h.low_in k) [ inl a ↦ inl a | inr b ↦ inr (Has-cons _ _ r rs b) ];
              high_in =
                  λ k. elim (h.high_in k) [ inl a ↦ inl a | inr b ↦ inr (Has-cons _ _ r rs b) ];
            }
        | inl y ↦
            let w = widen-Takes s r y in
            let some_in : 0 < (widen s r).started = let c = w.counted in omega arith in
            let below = ih.lower some_in in
            let above = ih.higher some_in in
            record {
              low = ((λ _. let c = w.low in omega arith), ih.low);
              high = ((λ _. let c = w.high in omega arith), ih.high);
              lower = λ k. let c = w.lower k in omega arith;
              higher = λ k. let c = w.higher k in omega arith;
              low_in = λ k. elim (ih.low_in k) [
                | inr b ↦ inr (Has-cons _ _ r rs b)
                | inl a ↦ elim w.low_in [
                  | inl e ↦ inr (r, inl refl, y, e ∙ a.1)
                  | inr e ↦ inl (e.0, e.1 ∙ a.1)
                ]
              ];
              high_in = λ k. elim (ih.high_in k) [
                | inr b ↦ inr (Has-cons _ _ r rs b)
                | inl a ↦ elim w.high_in [
                  | inl e ↦ inr (r, inl refl, y, e ∙ a.1)
                  | inr e ↦ inl (e.0, e.1 ∙ a.1)
                ]
              ];
            }
      ]

  pub record Spanning (rs : List (Record D)) (first last : ℕ) : Type 0 where
    pub first_in : Has (λ r. r.ready_ns) first rs
    pub last_in : Has (λ r. r.end_ns) last rs
    pub earliest : All (λ r. is_started r ≡ true → first ≤ r.ready_ns) rs
    pub latest : All (λ r. is_started r ≡ true → r.end_ns ≤ last) rs

  -- Where some task started, the span that invariant_scan reports runs from the ready_ns of one
  -- that started, before which no other became ready, to the end_ns of one that none ends after.
  pub invariant_scan-Spanning :
      (double : Doubles D) (workers : ℕ) (min_us : D) (qsort : List Event → List Event)
      (records : List (Record D))
      → 0 < count is_started records
      → (first : ℕ) × (last : ℕ) × Spanning records first last
        × ((invariant_scan double workers min_us qsort records).span_us
            ≡ microseconds double (sub64 last first))
  unfolding invariant_scan
  invariant_scan-Spanning double workers min_us qsort records h =
      let s : Span = record { started = 0; earliest_ready = 0; latest_end = 0 } in
      let span = span_of records s in
      let n = span_of-started records s in
      let w = span_of-Widened records s in
      let some_in : 0 < span.started = omega arith in
      let test : (span.started == 0) ≡ false = ground arith in
      (
        span.earliest_ready,
        span.latest_end,
        record {
          first_in = elim (w.low_in some_in) [
            | inl a ↦ absurd (let k = a.0 in omega arith)
            | inr b ↦ b
          ];
          last_in = elim (w.high_in some_in) [
            | inl a ↦ absurd (let k = a.0 in omega arith)
            | inr b ↦ b
          ];
          earliest = w.low;
          latest = w.high;
        },
        rw test refl,
      )
