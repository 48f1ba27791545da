-- ===== src/Lifecycle.antt =====
-- The module lifecycle of week2/src/lifecycle.c. A result `none` of an operation is undefined
-- behaviour: memory was freed that is not allocated.
mod Paths
mod Main
mod Tests
use comp.Shared.{
  ◌>>=◌, ℕ, zero, suc, ◌+◌, ◌-◌, Bool, true, false, Option, none, some, ltb, ◌==◌, if◌then◌else◌,
  update, ◌||◌, not,
}

abbrev pub Heap : Type 0
Heap = ℕ → Bool

-- The allocator's view of memory, and the counters `live` and `peak`.
pub record State : Type 0 where
  pub heap : Heap
  pub live : ℕ
  pub peak : ℕ

-- A pointer is null or the address of a block.
abbrev pub Pointer : Type 0
Pointer = Option ℕ

-- `p` is what malloc gives.
unfoldable pub acquire : Pointer → State → Pointer × State
acquire none s = (none, s)
acquire (some p) s =
    let live = s.live + 1 in
    (
      some p,
      record {
        heap = update s.heap p true;
        live = live;
        peak = if ltb s.peak live then live else s.peak;
      },
    )

unfoldable pub release : Pointer → State → Option State
release none s = some s
release (some p) s =
    if s.heap p then some (record s { heap = update s.heap p false; live = s.live - 1 }) else none

-- What `init_module_model` returns and leaves in `*a`, `*b` and `*c`.
pub record Loaded : Type 0 where
  pub rc : Bool  -- whether it returns 0
  pub a : Pointer
  pub b : Pointer
  pub c : Pointer

abbrev pub failed : Loaded
failed = record { rc = false; a = none; b = none; c = none }

unfoldable pub exit_module_model : Pointer → Pointer → Pointer → State → Option State
unfolding release
exit_module_model a b c s = do s1 ← release c s; s2 ← release b s1; release a s2

-- A path that went wrong adds one to `bad`.
abbrev pub count : Bool → ℕ → ℕ
count wrong bad = if wrong then bad + 1 else bad

module _ (malloc : Heap → Pointer) where
  -- One acquisition, the `k`-th, which is made to fail if `fail_at` says so.
  abbrev pub attempt : ℕ → ℕ → State → Pointer × State
  attempt fail_at k s = if fail_at == k then (none, s) else acquire (malloc s.heap) s

  -- `init_module_model` from the result of the third acquisition on, of the second, and of the first.
  unfoldable pub after_c : Pointer → Pointer → Pointer × State → Option (Loaded × State)
  unfolding release
  after_c a b (none, s3) = do s4 ← release b s3; s5 ← release a s4; some (failed, s5)
  after_c a b (some c, s3) = some (record { rc = true; a = a; b = b; c = some c }, s3)

  unfoldable pub after_b : ℕ → Pointer → Pointer × State → Option (Loaded × State)
  unfolding acquire release after_c
  after_b fail_at a (none, s2) = do s3 ← release a s2; some (failed, s3)
  after_b fail_at a (some b, s2) = after_c a (some b) (attempt fail_at 3 s2)

  unfoldable pub after_a : ℕ → Pointer × State → Option (Loaded × State)
  unfolding acquire after_b
  after_a fail_at (none, s1) = some (failed, s1)
  after_a fail_at (some a, s1) = after_b fail_at (some a) (attempt fail_at 2 s1)

  unfoldable pub init_module_model : ℕ → State → Option (Loaded × State)
  unfolding acquire after_a
  init_module_model fail_at s = after_a fail_at (attempt fail_at 1 s)

  -- One round of the loop over the failures in `main`, with its count `bad`.
  unfoldable pub load_failing : ℕ → ℕ × State → Option (ℕ × State)
  unfolding init_module_model
  load_failing f (bad, s) = do
    (r, s') ← init_module_model f s
    some (count (r.rc || not (s'.live == 0)) bad, s')

  -- `main`, up to its last count.
  unfoldable pub main : State → Option (ℕ × State)
  unfolding init_module_model exit_module_model load_failing
  main s = do
    (r, s1) ← init_module_model 0 s
    s2 ← exit_module_model r.a r.b r.c s1
    x1 ← load_failing 1 (count (not (s2.live == 0)) 0, s2)
    x2 ← load_failing 2 x1
    load_failing 3 x2
