-- ===== src/Handshake/Orders.antt =====
-- Which orderings of src/orders.h the search of model/handshake.c finds strong enough.
use comp.Shared.{
  iff_trans, Bool, true, false, not, ◌&&◌, ◌≡◌, ◌<◌, refl, arith, Bool-cases, inl, inr, ◌↔◌,
}
use comp.Handshake.{
  Site, Order, relaxed, acquire, release, seq_cst, announce, deref, exit, publish, scan, Model,
  orders_h, sequential, tso, arm, is_seq_cst, is_relaxed, State, step_store, load_enabled, do_store,
  store_enabled,
}
use comp.Handshake.Explore.{check_model, initial, explore_fuel, no_counts, Counts}
use comp.Handshake.Ends.{Reach}
use comp.Handshake.Verdict.{check_model-safe, check_model-Reach}
use comp.Handshake.Agree.{Agree, explore-Agree}
use comp.Handshake.Rows.{judged, arm_orders, tso_orders, strong, arm_rows, tso_rows}

-- What ARMv8 needs: no relaxed announcement or publication, and seq_cst loads.
unfoldable pub arm_fenced : (Site → Order) → Bool
arm_fenced o =
    not (is_relaxed (o announce))
    && (is_seq_cst (o deref) && (not (is_relaxed (o publish)) && is_seq_cst (o scan)))

-- What TSO needs: seq_cst stores of the announcement and the publication.
unfoldable pub tso_fenced : (Site → Order) → Bool
tso_fenced o = is_seq_cst (o announce) && is_seq_cst (o publish)

strong-relaxed : (x : Order) → is_relaxed (strong (not (is_relaxed x))) ≡ is_relaxed x
strong-relaxed relaxed = refl
strong-relaxed acquire = refl
strong-relaxed release = refl
strong-relaxed seq_cst = refl

strong-seq_cst : (x : Order) → is_seq_cst (strong (is_seq_cst x)) ≡ is_seq_cst x
strong-seq_cst relaxed = refl
strong-seq_cst acquire = refl
strong-seq_cst release = refl
strong-seq_cst seq_cst = refl

abbrev arm_like : (Site → Order) → Site → Order
arm_like o =
    arm_orders (not (is_relaxed (o announce))) (is_seq_cst (o deref)) (not (is_relaxed (o exit)))
      (not (is_relaxed (o publish))) (is_seq_cst (o scan))

abbrev tso_like : (Site → Order) → Site → Order
tso_like o = tso_orders (is_seq_cst (o announce)) (is_seq_cst (o exit)) (is_seq_cst (o publish))

arm_like-Agree : (o : Site → Order) → Agree arm o (arm_like o)
unfolding step_store load_enabled do_store store_enabled
arm_like-Agree o = record {
  at_announce = λ s. rw (strong-relaxed (o announce)) refl;
  at_deref = λ s. rw (strong-seq_cst (o deref)) refl;
  at_exit = λ s. rw (strong-relaxed (o exit)) refl;
  at_publish = λ s. rw (strong-relaxed (o publish)) refl;
  at_scan = λ s. rw (strong-seq_cst (o scan)) refl;
}

tso_like-Agree : (o : Site → Order) → Agree tso o (tso_like o)
unfolding step_store load_enabled do_store store_enabled
tso_like-Agree o = record {
  at_announce = λ s. rw (strong-seq_cst (o announce)) refl;
  at_deref = λ s. refl;
  at_exit = λ s. rw (strong-seq_cst (o exit)) refl;
  at_publish = λ s. rw (strong-seq_cst (o publish)) refl;
  at_scan = λ s. refl;
}

judged-arm : (o : Site → Order) → judged (arm_fenced o) (check_model o arm) ≡ true
unfolding check_model arm_fenced
judged-arm o =
    rw (explore-Agree arm o (arm_like o) (arm_like-Agree o) explore_fuel initial no_counts) (
      arm_rows (not (is_relaxed (o announce))) (is_seq_cst (o deref)) (not (is_relaxed (o exit)))
        (not (is_relaxed (o publish))) (is_seq_cst (o scan)))

judged-tso : (o : Site → Order) → judged (tso_fenced o) (check_model o tso) ≡ true
unfolding check_model tso_fenced
judged-tso o =
    rw (explore-Agree tso o (tso_like o) (tso_like-Agree o) explore_fuel initial no_counts)
      (tso_rows (is_seq_cst (o announce)) (is_seq_cst (o exit)) (is_seq_cst (o publish)))

judged-n_stuck : (b : Bool) (k : Counts) → judged b k ≡ true → k.n_stuck ≡ 0
judged-n_stuck true k h = ground arith
judged-n_stuck false k h = ground arith

judged-n_uaf : (b : Bool) (k : Counts) → judged b k ≡ true → (0 < k.n_uaf) ↔ (b ≡ false)
judged-n_uaf true k h = ground arith
judged-n_uaf false k h = ground arith

-- On ARMv8 a use after free can be reached exactly where the announcement or the publication is
-- relaxed, or the reader's load of the version or the writer's scan is not seq_cst. The ordering
-- of the exit plays no part.
pub arm_uaf-fenced :
    (o : Site → Order)
    → ((t : State) × Reach o arm initial t × (t.uaf ≡ true)) ↔ (arm_fenced o ≡ false)
arm_uaf-fenced o =
    iff_trans (check_model-Reach o arm (judged-n_stuck (arm_fenced o) _ (judged-arm o)))
      (judged-n_uaf (arm_fenced o) _ (judged-arm o))

-- On TSO a use after free can be reached exactly where the announcement or the publication is not
-- seq_cst. The other three orderings play no part.
pub tso_uaf-fenced :
    (o : Site → Order)
    → ((t : State) × Reach o tso initial t × (t.uaf ≡ true)) ↔ (tso_fenced o ≡ false)
tso_uaf-fenced o =
    iff_trans (check_model-Reach o tso (judged-n_stuck (tso_fenced o) _ (judged-tso o)))
      (judged-n_uaf (tso_fenced o) _ (judged-tso o))

-- Under sequential consistency no interleaving reaches a use after free, whatever the orderings.
pub sequential-safe : (o : Site → Order) {t : State} → Reach o sequential initial t → t.uaf ≡ false
unfolding check_model
sequential-safe o r = check_model-safe o sequential refl refl r

-- With the orderings of src/orders.h no interleaving reaches a use after free, on each of the
-- three memory models.
pub orders_h-safe : (m : Model) {t : State} → Reach orders_h m initial t → t.uaf ≡ false
unfolding arm_fenced tso_fenced orders_h
orders_h-safe sequential r = sequential-safe orders_h r
orders_h-safe tso {t} r = elim (Bool-cases t.uaf) [
  | inl u ↦ let e = (tso_uaf-fenced orders_h).0 (t, r, u) in absurd (ground arith)
  | inr n ↦ n
]
orders_h-safe arm {t} r = elim (Bool-cases t.uaf) [
  | inl u ↦ let e = (arm_uaf-fenced orders_h).0 (t, r, u) in absurd (ground arith)
  | inr n ↦ n
]
