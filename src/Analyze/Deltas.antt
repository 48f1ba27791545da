-- ===== src/Analyze/Deltas.antt =====
-- The sums of the deltas of the events of src/analyze.c are the counts of its contract.
use comp.Shared.{
  ℕ, suc, ◌+◌, ◌≡◌, ◌∙◌, ap, refl, ◌≤◌, Bool, true, false, ◌&&◌, List, [], ◌∷◌, All, if◌then◌else◌,
  ltb, leb, arith, inl, inr, Bool-cases, ℤ, pos, negsuc, ◌+ℤ◌, int_laws, eq_of_parts,
}
use comp.Workload.Records.{Record, is_started, InOrder}
use comp.Analyze.Order.{Rearranged, same, keep, swap, both, count}
use comp.Analyze.Scan.{Event, Span, widen, span_of, events_of, ready_event, start_event, end_event}
use comp.Analyze.Episodes.{waits_at, works_at}
use comp.Analyze.Sweeping.{sum_to}

abbrev pub waiting_of : Event → ℤ
waiting_of e = e.waiting_delta

abbrev pub busy_of : Event → ℤ
busy_of e = e.busy_delta

pub sum_to-Rearranged :
    (delta : Event → ℤ) (t : ℕ) {l r : List Event}
    → Rearranged l r
    → sum_to delta t l ≡ sum_to delta t r
sum_to-Rearranged delta t same = refl
sum_to-Rearranged delta t (keep x h) =
    ap (λ rest. if leb x.time_ns t then delta x +ℤ rest else rest) (sum_to-Rearranged delta t h)
sum_to-Rearranged delta t (swap {l} x y) =
    let a = delta x in
    let b = delta y in
    let rest = sum_to delta t l in
    let e : a +ℤ (b +ℤ rest) ≡ b +ℤ (a +ℤ rest) = eq_of_parts _ _ (omega int_laws) in ground arith
sum_to-Rearranged delta t (both h k) = sum_to-Rearranged delta t h ∙ sum_to-Rearranged delta t k

pub All-Rearranged : (P : Event → Type 0) {l r : List Event} → Rearranged l r → All P r → All P l
All-Rearranged P same a = a
All-Rearranged P (keep x h) a = (a.0, All-Rearranged P h a.1)
All-Rearranged P (swap x y) a = (a.1.0, (a.0, a.1.1))
All-Rearranged P (both h k) a = All-Rearranged P h (All-Rearranged P k a)

abbrev pub add_if : Bool → ℤ → ℤ → ℤ
add_if b a rest = if b then a +ℤ rest else rest

-- What one task that started adds to the sums.
waits_deltas :
    (ready start end t n : ℕ)
    → ready ≤ start
    → add_if
        (leb ready t)
        (pos 1)
        (add_if (leb start t) (negsuc 0) (add_if (leb end t) (pos 0) (pos n)))
      ≡ pos (if leb ready t && ltb t start then suc n else n)
unfolding ◌+ℤ◌
waits_deltas ready start end t n h = elim (Bool-cases (leb start t)) [
  | inl y ↦
      let r : leb ready t ≡ true = ground arith in
      let s : ltb t start ≡ false = ground arith in
      rw (y, r, s)
        (elim (Bool-cases (leb end t)) [
          | inl e ↦ rw e (ground arith)
          | inr e ↦ rw e (ground arith)
        ])
  | inr early ↦
      let s : ltb t start ≡ true = ground arith in
      rw (early, s)
        (elim (Bool-cases (leb end t)) [
          | inl e ↦ rw e (ground arith)
          | inr e ↦ rw e (ground arith)
        ])
]

works_deltas :
    (ready start end t n : ℕ)
    → start ≤ end
    → add_if
        (leb ready t)
        (pos 0)
        (add_if (leb start t) (pos 1) (add_if (leb end t) (negsuc 0) (pos n)))
      ≡ pos (if leb start t && ltb t end then suc n else n)
unfolding ◌+ℤ◌
works_deltas ready start end t n h = elim (Bool-cases (leb end t)) [
  | inl y ↦
      let r : leb start t ≡ true = ground arith in
      let s : ltb t end ≡ false = ground arith in rw (y, r, s) (ground arith)
  | inr early ↦ let s : ltb t end ≡ true = ground arith in rw (early, s) (ground arith)
]

module _ {D : Type 0} where
  -- Every task that started has its times in order.
  abbrev pub AllInOrder : List (Record D) → Type 0
  AllInOrder records = All (λ r. is_started r ≡ true → InOrder r) records

  pub sum_to-waits :
      (t : ℕ) (rs : List (Record D))
      → AllInOrder rs
      → sum_to waiting_of t (events_of rs) ≡ pos (count (waits_at t) rs)
  unfolding events_of
  sum_to-waits t [] h = refl
  sum_to-waits t (r ∷ rs) h =
      let ih = sum_to-waits t rs h.1 in
      elim (Bool-cases (is_started r)) [
        | inr n ↦ rw n ih
        | inl y ↦ rw (y, ih) (waits_deltas r.ready_ns r.start_ns r.end_ns t _ (h.0 y).0)
      ]

  pub sum_to-works :
      (t : ℕ) (rs : List (Record D))
      → AllInOrder rs
      → sum_to busy_of t (events_of rs) ≡ pos (count (works_at t) rs)
  unfolding events_of
  sum_to-works t [] h = refl
  sum_to-works t (r ∷ rs) h =
      let ih = sum_to-works t rs h.1 in
      elim (Bool-cases (is_started r)) [
        | inr n ↦ rw n ih
        | inl y ↦ rw (y, ih) (works_deltas r.ready_ns r.start_ns r.end_ns t _ (h.0 y).1)
      ]

  -- At an instant after all events no task waits.
  pub waits-after :
      (t : ℕ) (rs : List (Record D))
      → All (λ (e : Event). e.time_ns ≤ t) (events_of rs)
      → count (waits_at t) rs ≡ 0
  unfolding events_of
  waits-after t [] h = refl
  waits-after t (r ∷ rs) h = elim (Bool-cases (is_started r)) [
    | inr n ↦ let ih = waits-after t rs (rw n at h) in rw n ih
    | inl y ↦
        let k : All (λ (e : Event). e.time_ns ≤ t)
            (ready_event r ∷ (start_event r ∷ (end_event r ∷ events_of rs))) =
          rw y at h in
        let ih = waits-after t rs k.1.1.1 in let le = k.1.0 in ground arith
  ]

  widen-started :
      (s : Span) (r : Record D)
      → (widen s r).started ≡ (if is_started r then suc s.started else s.started)
  unfolding widen
  widen-started s r = elim (Bool-cases (is_started r)) [ inr n ↦ rw n refl | inl y ↦ rw y refl ]

  pub span_of-started :
      (rs : List (Record D)) (s : Span) → (span_of rs s).started ≡ s.started + count is_started rs
  unfolding span_of
  span_of-started [] s = omega arith
  span_of-started (r ∷ rs) s =
      let one = widen-started s r in
      span_of-started rs (widen s r)
      ∙ ap (λ x. x + count is_started rs) one
      ∙ elim (Bool-cases (is_started r)) [ inr n ↦ rw n refl | inl y ↦ rw y (omega arith) ]

  pub count-less :
      (p : Record D → Bool) (rs : List (Record D))
      → ((r : Record D) → is_started r ≡ false → p r ≡ false)
      → count p rs ≤ count is_started rs
  count-less p [] h = omega arith
  count-less p (r ∷ rs) h =
      let ih = count-less p rs h in
      elim (Bool-cases (is_started r)) [
        | inr n ↦ let k = h r n in rw (n, k) ih
        | inl y ↦ rw y (ground arith)
      ]
