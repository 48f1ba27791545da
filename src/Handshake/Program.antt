-- ===== src/Handshake/Program.antt =====
-- `main` of week4/examples/04-rcu-table/model/handshake.c: its arguments, the orderings it settles
-- on, and its verdict.
use comp.Shared.{
  Bool, true, false, ◌&&◌, ◌||◌, Option, none, some, List, [], ◌∷◌, if◌then◌else◌, ltb, ◌>>=◌,
}
use Prim.Native.String.{String}
use text.Mathlib.Text.{◌==◌}
use comp.Handshake.{
  Order, relaxed, acquire, release, seq_cst, Site, announce, deref, exit, publish, scan, Model,
  sequential, tso, arm, allowed, orders_h,
}
use comp.Handshake.Explore.{Counts, check_model}

-- C's `memory_order`
pub data MemoryOrder : Type 0 where
  memory_order_relaxed memory_order_consume memory_order_acquire memory_order_release
        memory_order_acq_rel memory_order_seq_cst :
      MemoryOrder

unfoldable pub from_c : MemoryOrder → Order
from_c memory_order_seq_cst = seq_cst
from_c memory_order_release = release
from_c memory_order_acquire = acquire
from_c o = relaxed

abbrev pub order_name : Order → String
order_name relaxed = "relaxed"
order_name acquire = "acquire"
order_name release = "release"
order_name seq_cst = "seq_cst"

-- "--" and the name of a site
abbrev pub site_flag : Site → String
site_flag announce = "--announce"
site_flag deref = "--deref"
site_flag exit = "--exit"
site_flag publish = "--publish"
site_flag scan = "--scan"

unfoldable pub parse_order : String → Option Order
parse_order s =
    if s == "relaxed"
    then some relaxed
    else if s == "acquire"
    then some acquire
    else if s == "release"
    then some release
    else if s == "seq_cst"
    then some seq_cst
    else none

-- The search among the names of the sites, which keeps the last that fits.
unfoldable pub parse_site : String → Option Site
parse_site s =
    if s == "--scan"
    then some scan
    else if s == "--publish"
    then some publish
    else if s == "--exit"
    then some exit
    else if s == "--deref"
    then some deref
    else if s == "--announce"
    then some announce
    else none

abbrev pub same_site : Site → Site → Bool
same_site announce announce = true
same_site deref deref = true
same_site exit exit = true
same_site publish publish = true
same_site scan scan = true
same_site a b = false

abbrev pub override : (Site → Order) → Site → Order → Site → Order
override order site o k = if same_site site k then o else order k

pub record Settings : Type 0 where
  pub trace : Bool
  pub order : Site → Order

-- The loop over the arguments; none where `main` prints its usage and returns 2.
unfoldable pub parse_args : List String → Settings → Option Settings
unfolding parse_site parse_order
parse_args [] s = some s
parse_args (a ∷ []) s = if a == "--trace" then some (record s { trace = true }) else none
parse_args (a ∷ (b ∷ rest)) s =
    let traced = parse_args (b ∷ rest) (record s { trace = true }) in
    let set =
      λ (site : Site) (o : Order). parse_args rest (record s { order = override s.order site o }) in
    if a == "--trace" then traced else do site ← parse_site a; o ← parse_order b; set site o

abbrev pub all_allowed : (Site → Order) → Bool
all_allowed order =
    allowed announce (order announce)
    && allowed deref (order deref)
    && allowed exit (order exit)
    && allowed publish (order publish)
    && allowed scan (order scan)

-- What is printed: the counts of each model, and on which of them the handshake is unsafe.
pub record Verdict : Type 0 where
  pub settings : Settings
  pub counts : Model → Counts
  pub is_unsafe : Model → Bool
  pub safe : Bool

unfoldable pub verdict_of : Settings → Verdict
unfolding check_model
verdict_of s =
    let is_unsafe = λ (m : Model). ltb 0 (check_model s.order m).n_uaf in
    record {
      settings = s;
      counts = check_model s.order;
      is_unsafe = is_unsafe;
      safe = if is_unsafe sequential || is_unsafe tso || is_unsafe arm then false else true;
    }

unfoldable pub handshake_main : List String → Option Verdict
unfolding parse_args verdict_of orders_h allowed
handshake_main args = do
  s ← parse_args args (record { trace = false; order = orders_h })
  (if all_allowed s.order then some (verdict_of s) else none)
