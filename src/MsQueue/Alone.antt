-- ===== src/MsQueue/Alone.antt =====
-- One thread in `msq_dequeue` of src/msqueue.c that runs alone, on a queue as other threads have
-- left it.
use mathlib.Core.Path.{subst}
use mathlib.Core.List.{append-nil}
use comp.Shared.{
  ℕ, ◌≡◌, ◌⊎◌, List, [], ◌∷◌, ◌++◌, refl, none, some, false, suc, arith, inl, inr, ap, ◌≢◌, ◌≤◌,
  Option, ◌∙◌, Bool-cases, if◌then◌else◌, add64, ◌==◌, Mem, sym,
}
use comp.MsQueue.{
  Node, Msqueue, begin, has_head, has_both, has_all, lagging, missed, empty, dequeued, dequeue_at,
  run_dequeue, Dequeue, Option, add64, same_ptr, reading, same_tagged,
}
use comp.MsQueue.Chained.{Distinct, Linked, values, value_at}
use comp.MsQueue.Solo.{
  tagged, run_dequeue-suc, run_dequeue-zero, eq_self, run_dequeue_lem, without_first,
}
use comp.MsQueue.Threads.{Threads, Ran}
use comp.MsQueue.Fifo.{Ran-Fifo}

module _ (q : Msqueue) (a c k v m : ℕ) (eh : q.head ≡ tagged (some a) c)
    (et : q.tail ≡ tagged (some a) k) where
  -- The dummy is the only node.
  empty_lem :
      q.heap a ≡ some (record { value = v; next = tagged none m })
      → run_dequeue 4 q begin ≡ (q, empty)
  unfolding dequeue_at
  empty_lem ha =
      let head = tagged (some a) c in
      let tail = tagged (some a) k in
      let next = tagged none m in
      let checked =
        ap
          (λ x.
            if same_ptr (some a) x.ptr
            then (q, if same_ptr (some a) (some a) then empty else reading head next)
            else (q, begin))
          eh
        ∙ rw (eq_self a) refl in
      run_dequeue-suc 3 q q begin (has_head head) (ap (λ x. (q, has_head x)) eh) (
        run_dequeue-suc 2 q q (has_head head) (has_both head tail)
          (ap (λ x. (q, has_both head x)) et)
          (run_dequeue-suc 1 q q (has_both head tail) (has_all head tail next)
            (rw (dequeue_at, ha) refl)
            (run_dequeue-suc 0 q q (has_all head tail next) empty checked
              (run_dequeue-zero q empty))))

  -- The tail lags at the dummy: it moves to the next node, and the loop starts again.
  lag_lem :
      (b j : ℕ) {r : Msqueue × Dequeue}
      → q.heap a ≡ some (record { value = v; next = tagged (some b) m })
      → run_dequeue j
          (record q { tail = tagged (some b) (add64 k 1); retries = add64 q.retries 1 })
          begin
        ≡ r
      → run_dequeue (suc (suc (suc (suc (suc (suc j)))))) q begin ≡ r
  unfolding dequeue_at
  lag_lem b j {r} ha done =
      let head = tagged (some a) c in
      let tail = tagged (some a) k in
      let next = tagged (some b) m in
      let q1 : Msqueue = record q { tail = tagged (some b) (add64 k 1) } in
      let checked =
        ap
          (λ x.
            if same_ptr (some a) x.ptr
            then (q, if same_ptr (some a) (some a) then lagging tail next else reading head next)
            else (q, begin))
          eh
        ∙ rw (eq_self a) refl in
      let helped =
        ap (λ x. (if same_tagged x tail then q1 else q, missed)) et
        ∙ rw (eq_self a, eq_self k) refl in
      run_dequeue-suc (suc (suc (suc (suc (suc j))))) q q begin (has_head head)
        (ap (λ x. (q, has_head x)) eh)
        (run_dequeue-suc (suc (suc (suc (suc j)))) q q (has_head head) (has_both head tail)
          (ap (λ x. (q, has_both head x)) et)
          (run_dequeue-suc (suc (suc (suc j))) q q (has_both head tail) (has_all head tail next)
            (rw (dequeue_at, ha) refl)
            (run_dequeue-suc (suc (suc j)) q q (has_all head tail next) (lagging tail next) checked
              (run_dequeue-suc (suc j) q q1 (lagging tail next) missed helped (
                run_dequeue-suc j q1 (record q1 { retries = add64 q1.retries 1 }) missed begin refl
                  done)))))

-- How a dequeue that runs alone ends: with nothing where nothing is left, and else with the first
-- value that has not been taken out.
abbrev pub Answered : List ℕ → List ℕ → Msqueue → ℕ → Type 0
Answered ins outs q k =
    ((ins ≡ outs) × (run_dequeue k q begin ≡ (q, empty)))
    ⊎ ((v : ℕ) × (r : List ℕ) × (q' : Msqueue) × (ins ≡ outs ++ (v ∷ r))
        × (run_dequeue k q begin ≡ (q', dequeued v))
        × (q'.fault ≡ q.fault))

-- Nodes by their parts.
next_parts :
    (node : Node) (p : Option ℕ)
    → node.next.ptr ≡ p
    → some node ≡ some (record { value = node.value; next = tagged p node.next.count })
next_parts node p e =
    ap (λ x. some (record { value = node.value; next = tagged x node.next.count })) e

first_node :
    (h : ℕ → Option Node) (b : ℕ) (r : List ℕ)
    → Linked h (b ∷ r)
    → (node : Node) × (h b ≡ some node)
first_node h b [] k = (k.0, k.1)
first_node h b (d ∷ r) k = (k.0.0, k.0.1)

value-first :
    (h : ℕ → Option Node) (b : ℕ) (node : Node) → h b ≡ some node → value_at h b ≡ node.value
value-first h b node e = ap (λ o. elim o [ none ↦ 0 | some x ↦ x.value ]) e

answer :
    (q : Msqueue) (front t : ℕ) (rest ins outs : List ℕ)
    → ins ≡ outs ++ values q.heap rest
    → q.head ≡ tagged (some front) q.head.count
    → q.tail ≡ tagged (some t) q.tail.count
    → Linked q.heap (front ∷ rest)
    → Distinct (front ∷ rest)
    → (t ≡ front) ⊎ (t ≢ front)
    → (t ≢ front → rest ≢ [])
    → (k : ℕ) × (k ≤ 13) × Answered ins outs q k
answer q front t [] ins outs order eh et k d (inl same) some_rest =
    let at = k.1 ∙ next_parts k.0 none k.2 in
    (
      4,
      omega arith,
      inl (
        order ∙ append-nil outs,
        empty_lem q front q.head.count q.tail.count k.0.value k.0.next.count eh
            (et ∙ ap (λ x. tagged (some x) q.tail.count) same) at,
      ),
    )
answer q front t [] ins outs order eh et k d (inr ne) some_rest = absurd (some_rest ne refl)
answer q front t (b ∷ r) ins outs order eh et k d (inl same) some_rest =
    let node = k.0.0 in
    let at = k.0.1 ∙ next_parts node (some b) k.0.2 in
    let (first, there) = first_node q.heap b r k.1 in
    let lag = et ∙ ap (λ x. tagged (some x) q.tail.count) same in
    let helped = record q {
      tail = tagged (some b) (add64 q.tail.count 1);
      retries = add64 q.retries 1;
    } in
    let ne : front ≢ b = λ s. d.0 (inl s) in
    (
      13,
      omega arith,
      inr (
        first.value,
        values q.heap r,
        without_first helped front b q.head.count,
        order ∙ ap (λ x. outs ++ (x ∷ values q.heap r)) (value-first q.heap b first there),
        lag_lem q front q.head.count q.tail.count node.value node.next.count eh lag b 7 at (
            run_dequeue_lem helped front b q.head.count node.next.count node.value b
              (add64 q.tail.count 1) first eh refl ne at there),
        refl,
      ),
    )
answer q front t (b ∷ r) ins outs order eh et k d (inr ne) some_rest =
    let node = k.0.0 in
    let at = k.0.1 ∙ next_parts node (some b) k.0.2 in
    let (first, there) = first_node q.heap b r k.1 in
    (
      7,
      omega arith,
      inr (
        first.value,
        values q.heap r,
        without_first q front b q.head.count,
        order ∙ ap (λ x. outs ++ (x ∷ values q.heap r)) (value-first q.heap b first there),
        run_dequeue_lem q front b q.head.count node.next.count node.value t q.tail.count first eh et
            (λ s. ne (sym s)) at there,
        refl,
      ),
    )

-- However the threads in msq_enqueue and msq_dequeue stand, with a malloc that gives no address twice
-- and no pointer to freed memory followed so far, a further msq_dequeue that runs alone ends within
-- 13 accesses and follows none either: it finds the queue empty exactly where every value that was
-- put in has been taken out, and else returns the first that has not.
pub run_dequeue-Answered :
    (given ins outs : List ℕ) (s : Threads)
    → Ran given ins outs s
    → s.queue.fault ≡ false
    → (k : ℕ) × (k ≤ 13) × Answered ins outs s.queue k
run_dequeue-Answered given ins outs s r safe =
    let (front, rest, order, head_at, linked, (t, tail_at, l), d) =
      Ran-Fifo given ins outs s r safe in
    answer s.queue front t rest ins outs order (ap (λ p. tagged p s.queue.head.count) head_at)
      (ap (λ p. tagged p s.queue.tail.count) tail_at) linked d
      (elim (Bool-cases (t == front)) [
        | inl y ↦ inl (ground arith)
        | inr n ↦ inr (λ e. absurd (ground arith))
      ])
      (λ ne z. elim l [ inl e ↦ ne e | inr m ↦ subst (Mem t) z m ])
