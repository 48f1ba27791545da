-- ===== src/MsQueue/Helping.antt =====
-- One thread in `msq_enqueue` of src/msqueue.c that runs alone, on a queue as other threads have
-- left it.
use comp.MsQueue.Together.{enqueued-IsChained}
use comp.MsQueue.Enqueuers.{Enqueuing, Enqueued}
use comp.Shared.{
  suc, ℕ, [], refl, List, Option, ◌≡◌, Mem, ◌∷◌, some, length, none, ◌+◌, ◌*◌, ◌<◌, ◌≤◌, add64, ◌∙◌,
  inl, update, ap, arith, sym, suc, inr,
}
use comp.MsQueue.{
  Node, enqueue_at, Msqueue, Option, node_new, Enqueue, some, run_enqueue, none, add64, start,
  has_tail, update, has_next, enqueued, helping, suc,
}
use comp.MsQueue.Chained.{Linked, Linked-other, Linked-member, length-values}
use comp.MsQueue.Solo.{tagged, run_enqueue-suc, eq_self, run_enqueue_lem}

-- Where the tail lags, four accesses move it to the next node.
help_lem :
    (k : ℕ) (q : Msqueue) (t c b m v n : ℕ) {r : Msqueue × Enqueue}
    → q.tail ≡ tagged (some t) c
    → q.heap t ≡ some (record { value = v; next = tagged (some b) m })
    → run_enqueue k (record q { tail = tagged (some b) (add64 c 1) }) (start n) ≡ r
    → run_enqueue (suc (suc (suc (suc k)))) q (start n) ≡ r
unfolding enqueue_at
help_lem k q t c b m v n {r} et ht done =
    let tail = tagged (some t) c in
    let next = tagged (some b) m in
    let q' : Msqueue = record q { tail = tail } in
    rw et (
      run_enqueue-suc (suc (suc (suc k))) q' q' (start n) (has_tail n tail) refl (
        run_enqueue-suc (suc (suc k)) q' q' (has_tail n tail) (has_next n tail next)
          (rw (enqueue_at, ht) refl)
          (run_enqueue-suc (suc k) q' q' (has_next n tail next) (helping n tail next)
            (rw (enqueue_at, eq_self t) refl)
            (run_enqueue-suc k q' (record q { tail = tagged (some b) (add64 c 1) })
              (helping n tail next) (start n) (rw (enqueue_at, eq_self t, eq_self c) refl) done))))

-- What `k` accesses of an enqueue of the node `n` do: `n` hangs behind the last node and is the
-- tail, and the call has ended.
abbrev pub Appended : ℕ → Msqueue → ℕ → Type 0
Appended k q n =
    (last v m c : ℕ) × (q.heap last ≡ some (record { value = v; next = tagged none m }))
    × (run_enqueue k q (start n) ≡ (
      record q {
        heap = update q.heap last (some (record { value = v; next = tagged (some n) (add64 m 1) }));
        tail = tagged (some n) c;
      },
      enqueued,
    ))

catches_up :
    (rest : List ℕ) (q : Msqueue) (t c n : ℕ)
    → q.tail ≡ tagged (some t) c
    → Linked q.heap (t ∷ rest)
    → Appended (5 + 4 * length rest) q n
catches_up [] q t c n e k =
    let at =
      k.1 ∙ ap (λ p. some (record { value = k.0.value; next = tagged p k.0.next.count })) k.2 in
    (
      t,
      k.0.value,
      k.0.next.count,
      add64 c 1,
      at,
      run_enqueue_lem q t c k.0.next.count k.0.value n e at,
    )
catches_up (b ∷ rest) q t c n e k =
    let (last, v, m, c', at, run) =
      catches_up rest (record q { tail = tagged (some b) (add64 c 1) }) b (add64 c 1) n refl k.1 in
    let here =
      k.0.1
      ∙ ap (λ p. some (record { value = k.0.0.value; next = tagged p k.0.0.next.count })) k.0.2 in
    let count : 5 + 4 * suc (length rest) ≡ suc (suc (suc (suc (5 + 4 * length rest)))) =
      omega arith in
    (
      last,
      v,
      m,
      c',
      at,
      ap (λ k. run_enqueue k q (start n)) count
          ∙ help_lem (5 + 4 * length rest) q t c b k.0.0.next.count k.0.0.value n e here run,
    )

Linked-from :
    (h : ℕ → Option Node) (l : List ℕ) (t : ℕ)
    → Linked h l
    → Mem t l
    → (rest : List ℕ) × Linked h (t ∷ rest) × (length rest < length l)
Linked-from h [] t k m = absurd m
Linked-from h (a ∷ []) t k (inl e) = ([], (k.0, ap h e ∙ k.1, k.2), omega arith)
Linked-from h (a ∷ []) t k (inr m) = absurd m
Linked-from h (a ∷ (b ∷ r)) t k (inl e) =
    (b ∷ r, ((k.0.0, ap h e ∙ k.0.1, k.0.2), k.1), omega arith)
Linked-from h (a ∷ (b ∷ r)) t k (inr m) =
    let (rest, l, lt) = Linked-from h (b ∷ r) t k.1 m in (rest, l, omega arith)

-- However the threads in msq_enqueue stand, a further call that runs alone from its start, and whose
-- weak compare-and-swap does not fail spuriously, ends within five accesses and four for each value
-- linked before: its node hangs behind the last one and is the tail, and nothing else has changed.
pub run_enqueue-Appended :
    (log : List ℕ) (s : Enqueuing) (n value : ℕ)
    → Enqueued log s
    → s.queue.heap n ≡ none
    → (k : ℕ) × (k ≤ 5 + 4 * length log) × Appended k (node_new n value s.queue) n
unfolding node_new
run_enqueue-Appended log s n value r unused =
    let (nodes, c) = enqueued-IsChained log s r in
    let (t, e, m) = c.tail_in in
    let (rest, linked, lt) = Linked-from s.queue.heap nodes t c.linked m in
    let new : Node = record { value = value; next = record { ptr = none; count = 0 } } in
    let out : ¬ Mem n (t ∷ rest) = λ inside.
      let (node, there, z) = Linked-member s.queue.heap (t ∷ rest) n linked inside in
      let q : none ≡ some node = sym unused ∙ there in absurd (ground arith) in
    let bound : length nodes ≡ suc (length log) =
      sym (length-values s.queue.heap nodes) ∙ ap length c.logged in
    (
      5 + 4 * length rest,
      omega arith,
      catches_up rest (node_new n value s.queue) t s.queue.tail.count n
          (ap (λ p. tagged p s.queue.tail.count) e)
          (Linked-other s.queue.heap (t ∷ rest) n (some new) out linked),
    )
