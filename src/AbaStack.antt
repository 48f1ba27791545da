-- ===== src/AbaStack.antt =====
-- The ABA exercise src/aba_stack.c: a stack whose top is a bare pointer. The gates let thread 2 run
-- exactly between the two halves of `slow_pop`. The nodes are static, and a `none` from `thread2`
-- is a null pointer followed.
mod Run
mod Tests
use comp.Shared.{
  ℕ, zero, suc, Bool, true, false, Option, none, some, ◌==◌, if◌then◌else◌, update, ◌>>=◌,
}

pub record Stack : Type 0 where
  pub top : Option ℕ
  pub next : ℕ → Option ℕ

-- `failures` is how often the weak CAS fails although `top` is as it was read.
unfoldable pub push : ℕ → ℕ → Stack → Stack
push zero n s = record { top = some n; next = update s.next n s.top }
push (suc failures) n s = push failures n (record s { next = update s.next n s.top })

unfoldable pub thread2 : ℕ → Stack → Option Stack
unfolding push
thread2 failures s = do
  a ← s.top
  b ← s.next a
  some (push failures a (record s { top = s.next b }))

-- The test of the CAS: the top is the address `t`.
abbrev pub is_at : Option ℕ → ℕ → Bool
is_at none t = false
is_at (some p) t = p == t

-- The CAS of `slow_pop`, which read `t` and `next`, on the stack as it then is.
unfoldable pub commit : ℕ → Option ℕ → Stack → Option (Option ℕ × Stack)
commit t next s = if is_at s.top t then some (some t, record s { top = next }) else some (none, s)

-- `slow_pop` from its read of `top` on. `meanwhile` is what the other thread does between the reads
-- and the CAS.
unfoldable pub pop_from : (Stack → Option Stack) → Stack → Option ℕ → Option (Option ℕ × Stack)
unfolding commit
pop_from meanwhile s none = some (none, s)
pop_from meanwhile s (some t) = meanwhile s >>= commit t (s.next t)

unfoldable pub slow_pop : (Stack → Option Stack) → Stack → Option (Option ℕ × Stack)
unfolding pop_from
slow_pop meanwhile s = pop_from meanwhile s s.top
