-- ===== src/Handshake/Rows.antt =====
-- The verdict of the search for each choice of strong and weak orderings, by evaluation.
use comp.Shared.{Bool, true, false, not, ◌&&◌, ◌==◌, ◌≡◌, refl, arith}
use comp.Handshake.{Site, Order, relaxed, seq_cst, announce, deref, exit, publish, scan, tso, arm}
use comp.Handshake.Explore.{check_model, Counts}

-- An ordering for each site.
abbrev orders : Order → Order → Order → Order → Order → Site → Order
orders a d e p s announce = a
orders a d e p s deref = d
orders a d e p s exit = e
orders a d e p s publish = p
orders a d e p s scan = s

abbrev pub strong : Bool → Order
strong true = seq_cst
strong false = relaxed

abbrev both : (Bool → Bool) → Bool
both f = f true && f false

both_all : (f : Bool → Bool) → both f ≡ true → (b : Bool) → f b ≡ true
both_all f h true = ground arith
both_all f h false = ground arith

-- The verdict `fenced` is that of the counts, and nothing is stuck.
abbrev pub judged : Bool → Counts → Bool
judged true k = (k.n_uaf == 0) && (k.n_stuck == 0)
judged false k = not (k.n_uaf == 0) && (k.n_stuck == 0)

abbrev pub arm_orders : Bool → Bool → Bool → Bool → Bool → Site → Order
arm_orders a d e p s = orders (strong a) (strong d) (strong e) (strong p) (strong s)

abbrev pub arm_row : Bool → Bool → Bool → Bool → Bool → Bool
arm_row a d e p s = judged (a && (d && (p && s))) (check_model (arm_orders a d e p s) arm)

arm_table : both (λ a. both (λ d. both (λ e. both (λ p. both (λ s. arm_row a d e p s))))) ≡ true
unfolding check_model
arm_table = refl

abbrev pub tso_orders : Bool → Bool → Bool → Site → Order
tso_orders a e p = orders (strong a) relaxed (strong e) (strong p) relaxed

abbrev pub tso_row : Bool → Bool → Bool → Bool
tso_row a e p = judged (a && p) (check_model (tso_orders a e p) tso)

tso_table : both (λ a. both (λ e. both (λ p. tso_row a e p))) ≡ true
unfolding check_model
tso_table = refl

pub arm_rows : (a d e p s : Bool) → arm_row a d e p s ≡ true
arm_rows a d e p s =
    both_all (arm_row a d e p)
      (both_all (λ p. both (arm_row a d e p))
        (both_all (λ e. both (λ p. both (arm_row a d e p)))
          (both_all (λ d. both (λ e. both (λ p. both (arm_row a d e p))))
            (both_all (λ a. both (λ d. both (λ e. both (λ p. both (arm_row a d e p))))) arm_table a)
            d)
          e)
        p)
      s

pub tso_rows : (a e p : Bool) → tso_row a e p ≡ true
tso_rows a e p =
    both_all (tso_row a e)
      (both_all (λ e. both (tso_row a e))
        (both_all (λ a. both (λ e. both (tso_row a e))) tso_table a) e)
      p
