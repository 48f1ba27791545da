-- ===== src/TaskQueue/Trace.antt =====
-- Any number of dispatchers and workers on one queue, as the steps that they take in turn.
use comp.Shared.{
  ℕ, zero, suc, ◌≡◌, ◌≢◌, ◌∙◌, sym, ap, refl, ◌<◌, some, List, [], ◌∷◌, ◌++◌, ◌==◌, arith,
  Bool-cases, inl, inr, ◌⊎◌,
}
use mathlib.Core.Path.{subst}
use mathlib.Core.List.{append_assoc, append-nil}
use comp.TaskQueue.{Taskq, tq_push, tq_pop, popped, tq_close}
use comp.TaskQueue.Ring.{Ok, contents, tq_push-Ok, tq_pop-Ok, Pushed}

-- What a step did that some thread took.
pub data Event : Type 0 where
  put : (task_id : ℕ) → Event
  took : (task_id : ℕ) → Event
  closing : Event

pub data Step (q : Taskq) : Event → Taskq → Type 0 where
  push : {r : Taskq} (v : ℕ) → tq_push q v ≡ some r → Step q (put v) r
  pop : {r : Taskq} (v : ℕ) → tq_pop q ≡ popped v r → Step q (took v) r
  close : Step q closing (tq_close q)

-- The steps of all threads, in the order in which they held the lock.
pub data Run : Taskq → List Event → Taskq → Type 0 where
  done : {q : Taskq} → Run q [] q
  step : {q r s : Taskq} {e : Event} {es : List Event} → Step q e r → Run r es s → Run q (e ∷ es) s

abbrev pub puts : List Event → List ℕ
puts [] = []
puts (put v ∷ es) = v ∷ puts es
puts (e ∷ es) = puts es

abbrev pub tooks : List Event → List ℕ
tooks [] = []
tooks (took v ∷ es) = v ∷ tooks es
tooks (e ∷ es) = tooks es

some_inj : {q r : Taskq} → some q ≡ some r → q ≡ r
some_inj e = ground arith

push-room : (q r : Taskq) (v : ℕ) → Ok q → tq_push q v ≡ some r → q.count < q.capacity
unfolding tq_push
push-room q r v ok e = elim (Bool-cases (q.count == q.capacity)) [
  | inl y ↦ absurd (ground arith)
  | inr n ↦ let b = ok.bounded in ground arith
]

push-Pushed : (q r : Taskq) (v : ℕ) → Ok q → tq_push q v ≡ some r → Pushed q r v
push-Pushed q r v ok e =
    let (s, f, p) = tq_push-Ok q v ok (push-room q r v ok e) in
    subst (λ t. Pushed q t v) (some_inj (sym f ∙ e)) p

Nat-cases : (n : ℕ) → (n ≡ 0) ⊎ ((m : ℕ) × (n ≡ suc m))
Nat-cases zero = inl refl
Nat-cases (suc m) = inr (m, refl)

popped-out : {v w : ℕ} {q r : Taskq} → popped v q ≡ popped w r → v ≡ w
popped-out e = ground arith

popped-q : {v w : ℕ} {q r : Taskq} → popped v q ≡ popped w r → q ≡ r
popped-q e = ground arith

pop-some : (q r : Taskq) (v : ℕ) → tq_pop q ≡ popped v r → q.count ≢ 0
unfolding tq_pop
pop-some q r v e z = elim (Bool-cases q.closed) [
  | inl y ↦ absurd (ground arith)
  | inr n ↦ absurd (ground arith)
]

pop-first :
    (q r : Taskq) (v : ℕ)
    → Ok q
    → tq_pop q ≡ popped v r
    → Ok r × (contents q ≡ v ∷ contents r) × (r.capacity ≡ q.capacity)
pop-first q r v ok e = elim (Nat-cases q.count) [
  | inl z ↦ absurd (pop-some q r v e z)
  | inr (n, m) ↦
      let (out, s, f, ok', c, k) = tq_pop-Ok q n ok m in
      let same : popped out s ≡ popped v r = sym f ∙ e in
      let es = popped-q same in
      (
        subst Ok es ok',
        c ∙ rw (popped-out same, es) refl,
        subst (λ t. t.capacity ≡ q.capacity) es k,
      )
]

close-Ok : (q : Taskq) → Ok q → Ok (tq_close q)
unfolding tq_close
close-Ok q ok = record {
  size = ok.size;
  small = ok.small;
  some_room = ok.some_room;
  head_in = ok.head_in;
  tail_at = ok.tail_at;
  bounded = ok.bounded;
}

-- How a run from `q` has gone that ends at `s`.
pub record Balanced (q s : Taskq) (es : List Event) : Type 0 where
  pub ok : Ok s
  pub same_capacity : s.capacity ≡ q.capacity
  pub order : contents q ++ puts es ≡ tooks es ++ contents s

-- Along any run the queue stays whole, and what it held with what was put in is what was taken
-- with what it then holds, in this order.
pub run-Balanced : {q s : Taskq} {es : List Event} → Ok q → Run q es s → Balanced q s es
unfolding tq_close
run-Balanced {q} ok done = record { ok = ok; same_capacity = refl; order = append-nil (contents q) }
run-Balanced {q} {s} ok (step {r} {es} (push v e) rest) =
    let p = push-Pushed q r v ok e in
    let b = run-Balanced p.ok rest in
    record {
      ok = b.ok;
      same_capacity = b.same_capacity ∙ p.same_capacity;
      order =
          sym (append_assoc (contents q) (v ∷ []) (puts es))
          ∙ ap (λ l. l ++ puts es) (sym p.added)
          ∙ b.order;
    }
run-Balanced {q} {s} ok (step {r} {es} (pop v e) rest) =
    let (ok1, first, k) = pop-first q r v ok e in
    let b = run-Balanced ok1 rest in
    record {
      ok = b.ok;
      same_capacity = b.same_capacity ∙ k;
      order = ap (λ l. l ++ puts es) first ∙ ap (λ l. v ∷ l) b.order;
    }
run-Balanced {q} {s} ok (step {r} {es} close rest) =
    let b = run-Balanced (close-Ok q ok) rest in
    record { ok = b.ok; same_capacity = b.same_capacity; order = b.order }
