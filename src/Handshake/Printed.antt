-- ===== src/Handshake/Printed.antt =====
-- What `main` of week4/examples/04-rcu-table/model/handshake.c prints for which arguments.
use comp.Handshake.Verdict.{check_model-n_uaf, IsUaf}
use comp.Handshake.Ends.{IsEnd}
use comp.Shared.{
  iff_trans, ℕ, false, some, List, [], ◌∷◌, ◌≡◌, refl, bind_some, Bool, true, if◌then◌else◌, ◌↔◌,
  ◌||◌, arith, ltb, Bool-cases, ◌<◌, inl, inr, none, ◌⊎◌, ap,
}
use Prim.Native.String.{String}
use text.Mathlib.Text.{◌==◌}
use comp.Handshake.{
  Order, relaxed, acquire, release, seq_cst, Site, announce, deref, exit, publish, scan, Model,
  Bool, State, true, sequential, tso, arm, orders_h, none,
}
use comp.Handshake.Explore.{initial, check_model}
use comp.Handshake.Program.{
  order_name, site_flag, parse_order, parse_site, override, Settings, parse_args, Verdict,
  verdict_of, handshake_main, all_allowed,
}

-- The arguments that override these sites, in order.
abbrev pub args_of : List (Site × Order) → List String
args_of [] = []
args_of (x ∷ xs) = site_flag x.0 ∷ (order_name x.1 ∷ args_of xs)

abbrev pub overrides : List (Site × Order) → (Site → Order) → Site → Order
overrides [] order = order
overrides (x ∷ xs) order = overrides xs (override order x.0 x.1)

parse_order-order_name : (o : Order) → parse_order (order_name o) ≡ some o
unfolding parse_order
parse_order-order_name relaxed = refl
parse_order-order_name acquire = refl
parse_order-order_name release = refl
parse_order-order_name seq_cst = refl

parse_site-site_flag : (k : Site) → parse_site (site_flag k) ≡ some k
unfolding parse_site
parse_site-site_flag announce = refl
parse_site-site_flag deref = refl
parse_site-site_flag exit = refl
parse_site-site_flag publish = refl
parse_site-site_flag scan = refl

no_trace : (k : Site) → (site_flag k == "--trace") ≡ false
no_trace announce = refl
no_trace deref = refl
no_trace exit = refl
no_trace publish = refl
no_trace scan = refl

parse_args-args_of :
    (l : List (Site × Order)) (s : Settings)
    → parse_args (args_of l) s ≡ some (record s { order = overrides l s.order })
unfolding parse_args
parse_args-args_of [] s = refl
parse_args-args_of (x ∷ xs) s = rw (no_trace x.0) (
    bind_some _ (parse_site-site_flag x.0) (
      bind_some _ (parse_order-order_name x.1)
        (parse_args-args_of xs (record s { order = override s.order x.0 x.1 }))))

-- Some interleaving runs to its end, completes, and has read the freed version.
abbrev pub HasUaf : (Site → Order) → Model → Type 0
HasUaf order m = (t : State) × IsEnd order m initial t × IsUaf t

-- The verdict on these orderings.
pub record Judged (order : Site → Order) (v : Verdict) : Type 0 where
  pub same_order : v.settings.order ≡ order
  pub unsafe_on : (m : Model) → (v.is_unsafe m ≡ true) ↔ HasUaf order m
  pub safe_on_all : (v.safe ≡ true) ↔ ((m : Model) → ¬ HasUaf order m)

positive_iff : (n : ℕ) → (ltb 0 n ≡ true) ↔ (0 < n)
positive_iff n = ground arith

unsafe-HasUaf : (s : Settings) (m : Model) → ((verdict_of s).is_unsafe m ≡ true) ↔ HasUaf s.order m
unfolding verdict_of
unsafe-HasUaf s m =
    iff_trans (positive_iff (check_model s.order m).n_uaf) (check_model-n_uaf s.order m)

safe-unsafe :
    (s : Settings)
    → let u = (verdict_of s).is_unsafe in
      (verdict_of s).safe ≡ (if u sequential || u tso || u arm then false else true)
unfolding verdict_of
safe-unsafe s = refl

none_unsafe :
    (u : Model → Bool)
    → (if u sequential || u tso || u arm then false else true) ≡ true
    → (m : Model) → u m ≡ false
none_unsafe u h sequential = ground arith
none_unsafe u h tso = ground arith
none_unsafe u h arm = ground arith

all_safe :
    (u : Model → Bool)
    → ((m : Model) → u m ≡ false)
    → (if u sequential || u tso || u arm then false else true) ≡ true
all_safe u h = rw (h sequential, h tso, h arm) refl

verdict_of-Judged : (s : Settings) → Judged s.order (verdict_of s)
unfolding verdict_of
verdict_of-Judged s =
    let u = (verdict_of s).is_unsafe in
    record {
      same_order = refl;
      unsafe_on = unsafe-HasUaf s;
      safe_on_all = (
        (λ h m x.
            let n = none_unsafe u h m in
            let y = (unsafe-HasUaf s m).1 x in absurd (true_false u m y n)),
        (λ h. all_safe u (λ m. elim (Bool-cases (u m)) [
          | inl y ↦ absurd (h m ((unsafe-HasUaf s m).0 y))
          | inr n ↦ n
        ])),
      );
    }
  where
    true_false : (u : Model → Bool) (m : Model) → u m ≡ true → u m ≡ false → ⊥
    true_false u m y n = cc

-- For any list of overrides of the orderings in src/orders.h, the last of a site deciding, the
-- program either refuses the orderings, where one is not allowed at its site, or calls exactly those
-- models unsafe on which some interleaving of the reader, the writer and their store buffers runs to
-- its end with a use after free, and the handshake safe exactly if there is no such model.
pub handshake_main-Judged :
    (l : List (Site × Order))
    → ((all_allowed (overrides l orders_h) ≡ false) × (handshake_main (args_of l) ≡ none))
      ⊎ ((v : Verdict) × (all_allowed (overrides l orders_h) ≡ true)
          × (handshake_main (args_of l) ≡ some v)
          × Judged (overrides l orders_h) v)
unfolding handshake_main
handshake_main-Judged l =
    let s : Settings = record { trace = false; order = overrides l orders_h } in
    let parsed = parse_args-args_of l (record { trace = false; order = orders_h }) in
    elim (Bool-cases (all_allowed (overrides l orders_h))) [
      | inl y ↦ inr (
        verdict_of s,
        y,
        bind_some _ parsed (ap (λ b. if b then some (verdict_of s) else none) y),
        verdict_of-Judged s,
      )
      | inr n ↦ inl (n, bind_some _ parsed (ap (λ b. if b then some (verdict_of s) else none) n))
    ]
