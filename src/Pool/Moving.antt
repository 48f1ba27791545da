-- ===== src/Pool/Moving.antt =====
-- What a push, a pop and a close of src/workload.c do to the tasks that a queue holds.
use mathlib.Core.List.{append-nil}
use comp.Shared.{
  ℕ, ◌≡◌, ◌≢◌, Bool, some, List, [], ◌∷◌, ◌++◌, sym, ap, ◌∙◌, arith, inl, inr, Bool-cases, ◌==◌,
  ◌+◌,
}
use comp.TaskQueue.{Taskq, tq_push, tq_pop, tq_close, popped}
use comp.TaskQueue.Ring.{Ok, contents}
use comp.TaskQueue.Trace.{done, step, push, pop, close, run-Balanced}
use comp.Analyze.Order.{count}
use comp.Pool.{passing}
use comp.Pool.Tally.{in_hand, count-append}

pub count-cons :
    (p : ℕ → Bool) (t : ℕ) (l : List ℕ) → count p (t ∷ l) ≡ in_hand p (passing t) + count p l
count-cons p t l = ground arith

pub record Moved (q r : Taskq) (gone come : List ℕ) : Type 0 where
  pub ok : Ok r
  pub order : contents q ++ come ≡ gone ++ contents r

pub push-Moved : (q r : Taskq) (t : ℕ) → Ok q → tq_push q t ≡ some r → Moved q r [] (t ∷ [])
push-Moved q r t ok e =
    let b = run-Balanced ok (step (push t e) done) in record { ok = b.ok; order = b.order }

pub pop-Moved : (q r : Taskq) (t : ℕ) → Ok q → tq_pop q ≡ popped t r → Moved q r (t ∷ []) []
pop-Moved q r t ok e =
    let b = run-Balanced ok (step (pop t e) done) in record { ok = b.ok; order = b.order }

pub close-Moved : (q : Taskq) → Ok q → Moved q (tq_close q) [] []
close-Moved q ok =
    let b = run-Balanced ok (step close done) in record { ok = b.ok; order = b.order }

pub push-closed : (q r : Taskq) (t : ℕ) → tq_push q t ≡ some r → r.closed ≡ q.closed
unfolding tq_push
push-closed q r t e = elim (Bool-cases (q.count == q.capacity)) [
  | inl y ↦ absurd (ground arith)
  | inr n ↦ ground arith
]

pub pop-closed : (q r : Taskq) (t : ℕ) → tq_pop q ≡ popped t r → r.closed ≡ q.closed
unfolding tq_pop
pop-closed q r t e = ground arith

pub Moved-count :
    (q r : Taskq) (gone come : List ℕ) (p : ℕ → Bool)
    → Moved q r gone come
    → count p (contents q) + count p come ≡ count p gone + count p (contents r)
Moved-count q r gone come p m =
    sym (count-append p (contents q) come) ∙ ap (count p) m.order ∙ count-append p gone (contents r)

pub pop-some : (q r : Taskq) (t : ℕ) → Ok q → tq_pop q ≡ popped t r → contents q ≢ []
pop-some q r t ok e z =
    let m = pop-Moved q r t ok e in
    let s : [] ≡ t ∷ contents r = sym z ∙ sym (append-nil (contents q)) ∙ m.order in
    absurd (ground arith)
