-- ===== src/MsQueue/Solo.antt =====
-- A thread that runs src/msqueue.c alone for one call.
use comp.Shared.{
  if◌then◌else◌, ◌≢◌, update_self, ℕ, suc, ◌≡◌, ◌∙◌, ap, refl, true, false, Option, none, some,
  ◌==◌, update, add64, arith, ◌≢◌,
}
use comp.MsQueue.{
  Tagged, Node, Msqueue, Enqueue, start, enqueued, has_tail, has_next, linking, swinging,
  enqueue_at, run_enqueue, Dequeue, begin, has_head, has_both, has_all, reading, swapping, freeing,
  dequeued, dequeue_at, run_dequeue, same_ptr, same_tagged, lagging, missed,
}

abbrev pub tagged : Option ℕ → ℕ → Tagged
tagged p c = record { ptr = p; count = c }

pub eq_self : (a : ℕ) → (a == a) ≡ true
eq_self a = ground arith

pub run_enqueue-suc :
    (k : ℕ) (q q' : Msqueue) (e e' : Enqueue) {r : Msqueue × Enqueue}
    → enqueue_at false q e ≡ (q', e')
    → run_enqueue k q' e' ≡ r
    → run_enqueue (suc k) q e ≡ r
unfolding run_enqueue
run_enqueue-suc k q q' e e' h f = ap (λ x. run_enqueue k x.0 x.1) h ∙ f

-- On a queue whose tail is its last node, at `t`, an enqueue of the node `n` that no other thread
-- and no spurious failure disturbs ends after five accesses: `n` hangs behind `t` and is the tail,
-- both counts have moved on by one, and nothing else has changed.
pub run_enqueue_lem :
    (q : Msqueue) (t c m v n : ℕ)
    → q.tail ≡ tagged (some t) c
    → q.heap t ≡ some (record { value = v; next = tagged none m })
    → run_enqueue 5 q (start n) ≡ (
      record q {
        heap = update q.heap t (some (record { value = v; next = tagged (some n) (add64 m 1) }));
        tail = tagged (some n) (add64 c 1);
      },
      enqueued,
    )
unfolding enqueue_at run_enqueue
run_enqueue_lem q t c m v n et ht =
    let tail = tagged (some t) c in
    let next = tagged none m in
    let g = update q.heap t (some (record { value = v; next = tagged (some n) (add64 m 1) })) in
    let linked : Msqueue = record q { heap = g; tail = tail } in
    rw et (
      run_enqueue-suc 4 (record q { tail = tail }) (record q { tail = tail }) (start n)
        (has_tail n tail) refl
        (run_enqueue-suc 3 (record q { tail = tail }) (record q { tail = tail }) (has_tail n tail)
          (has_next n tail next) (rw (enqueue_at, ht) refl)
          (run_enqueue-suc 2 (record q { tail = tail }) (record q { tail = tail })
            (has_next n tail next) (linking n tail next) (rw (enqueue_at, eq_self t) refl)
            (run_enqueue-suc 1 (record q { tail = tail }) linked (linking n tail next)
              (swinging n tail) (rw (enqueue_at, ht, eq_self m) refl)
              (run_enqueue-suc 0 linked (record linked { tail = tagged (some n) (add64 c 1) })
                (swinging n tail) enqueued (rw (enqueue_at, eq_self t, eq_self c) refl) refl)))))

ne_false : (a b : ℕ) → a ≢ b → (a == b) ≡ false
ne_false a b h = ground arith

pub run_dequeue-suc :
    (k : ℕ) (q q' : Msqueue) (d d' : Dequeue) {r : Msqueue × Dequeue}
    → dequeue_at q d ≡ (q', d')
    → run_dequeue k q' d' ≡ r
    → run_dequeue (suc k) q d ≡ r
unfolding run_dequeue
run_dequeue-suc k q q' d d' h f = ap (λ x. run_dequeue k x.0 x.1) h ∙ f

pub run_dequeue-zero : (q : Msqueue) (d : Dequeue) → run_dequeue 0 q d ≡ (q, d)
unfolding run_dequeue
run_dequeue-zero q d = refl

-- The queue `q` once its first node, at `a`, is freed and `b` is its head.
abbrev pub without_first : Msqueue → ℕ → ℕ → ℕ → Msqueue
without_first q a b c = record q { heap = update q.heap a none; head = tagged (some b) (add64 c 1) }

-- On a queue whose tail is not its dummy node, at `a`, a dequeue that no other thread disturbs ends
-- after seven accesses with the value of the node after it, at `b`: that node is the new dummy, the
-- count of the head has moved on by one, and the old dummy is freed.
pub run_dequeue_lem :
    (q : Msqueue) (a b c m v t k : ℕ) (node : Node)
    → q.head ≡ tagged (some a) c
    → q.tail ≡ tagged (some t) k
    → a ≢ t
    → q.heap a ≡ some (record { value = v; next = tagged (some b) m })
    → q.heap b ≡ some node
    → run_dequeue 7 q begin ≡ (without_first q a b c, dequeued node.value)
unfolding dequeue_at
run_dequeue_lem q a b c m v t k node eh et ne ha hb =
    let head = tagged (some a) c in
    let tail = tagged (some t) k in
    let next = tagged (some b) m in
    let q1 : Msqueue = record q { head = tagged (some b) (add64 c 1) } in
    let checked =
      ap
        (λ x.
          if same_ptr (some a) x.ptr
          then (q, if same_ptr (some a) (some t) then lagging tail next else reading head next)
          else (q, begin))
        eh
      ∙ rw (eq_self a, ne_false a t ne) refl in
    let swapped =
      ap (λ x. if same_tagged x head then (q1, freeing head node.value) else (q, missed)) eh
      ∙ rw (eq_self a, eq_self c) refl in
    run_dequeue-suc 6 q q begin (has_head head) (ap (λ x. (q, has_head x)) eh) (
      run_dequeue-suc 5 q q (has_head head) (has_both head tail) (ap (λ x. (q, has_both head x)) et)
        (run_dequeue-suc 4 q q (has_both head tail) (has_all head tail next)
          (rw (dequeue_at, ha) refl)
          (run_dequeue-suc 3 q q (has_all head tail next) (reading head next) checked (
            run_dequeue-suc 2 q q (reading head next) (swapping head next node.value)
              (rw (dequeue_at, hb) refl)
              (run_dequeue-suc 1 q q1 (swapping head next node.value) (freeing head node.value)
                swapped
                (run_dequeue-suc 0 q1 (record q1 { heap = update q.heap a none })
                  (freeing head node.value) (dequeued node.value) refl
                  (run_dequeue-zero (without_first q a b c) (dequeued node.value))))))))

follow-fault :
    (r : Msqueue) (a c : ℕ) (tail : Tagged)
    → r.heap a ≡ none
    → (dequeue_at r (has_both (tagged (some a) c) tail)).0.fault ≡ true
unfolding dequeue_at
follow-fault r a c tail h = rw (dequeue_at, h) refl

-- A thread that has loaded the head and the tail of such a queue before that dequeue, and goes on
-- after it, follows a pointer to memory that is freed.
pub late_reader-fault :
    (q : Msqueue) (a b c m v t k : ℕ) (node : Node)
    → q.head ≡ tagged (some a) c
    → q.tail ≡ tagged (some t) k
    → a ≢ t
    → q.heap a ≡ some (record { value = v; next = tagged (some b) m })
    → q.heap b ≡ some node
    → (dequeue_at (run_dequeue 7 q begin).0 (run_dequeue 2 q begin).1).0.fault ≡ true
unfolding dequeue_at run_dequeue
late_reader-fault q a b c m v t k node eh et ne ha hb =
    let r = without_first q a b c in
    ap (λ x. (dequeue_at x.0 (has_both q.head q.tail)).0.fault)
      (run_dequeue_lem q a b c m v t k node eh et ne ha hb)
    ∙ ap (λ head. (dequeue_at r (has_both head q.tail)).0.fault) eh
    ∙ follow-fault r a c q.tail (update_self q.heap a none)
