-- ===== src/MutexQueue/Client.antt =====
-- Whole runs of the mutex queue, from `mq_create` to `mq_destroy`.
use comp.Shared.{
  ℕ, length, ◌≡◌, ap, refl, true, false, Option, none, some, List, [], ◌∷◌, ◌++◌, update, inl, inr,
  Option-cases,
}
use comp.MutexQueue.{
  Heap, Mqueue, mq_enqueue, mq_dequeue, free_from, mq_destroy, Call, enqueue, dequeue, Return,
  stored, taken, serve, serve_all, mq_create,
}
use comp.MutexQueue.Chain.{free-only, Cell, Chain, Avoids, Distinct, Chain-update}
use comp.MutexQueue.Refine.{
  IsQueue, mq_enqueue-IsQueue, mq_dequeue-empty, mq_dequeue-IsQueue, mq_create-IsQueue,
}

module _ (malloc : Heap → Option ℕ) where
  -- What a first-in first-out queue with the values `xs` returns to a list of calls, as it goes from
  -- one state to another, and what is then in it: a value is refused exactly where malloc gives no
  -- memory for it.
  pub data Fifo : Mqueue → List ℕ → List Call → List Return → Mqueue → List ℕ → Type 0 where
    done : {q : Mqueue} {xs : List ℕ} → Fifo q xs [] [] q xs
    put :
        {q q1 q2 : Mqueue} {xs ys : List ℕ} {cs : List Call} {rs : List Return} (v a : ℕ)
        → malloc q.heap ≡ some a
        → serve malloc q (enqueue v) ≡ some (stored true, q1)
        → Fifo q1 (xs ++ (v ∷ [])) cs rs q2 ys
        → Fifo q xs (enqueue v ∷ cs) (stored true ∷ rs) q2 ys
    full :
        {q q2 : Mqueue} {xs ys : List ℕ} {cs : List Call} {rs : List Return} (v : ℕ)
        → malloc q.heap ≡ none
        → serve malloc q (enqueue v) ≡ some (stored false, q)
        → Fifo q xs cs rs q2 ys
        → Fifo q xs (enqueue v ∷ cs) (stored false ∷ rs) q2 ys
    take :
        {q q1 q2 : Mqueue} {xs ys : List ℕ} {cs : List Call} {rs : List Return} (x : ℕ)
        → serve malloc q dequeue ≡ some (taken (some x), q1)
        → Fifo q1 xs cs rs q2 ys
        → Fifo q (x ∷ xs) (dequeue ∷ cs) (taken (some x) ∷ rs) q2 ys
    empty :
        {q q2 : Mqueue} {ys : List ℕ} {cs : List Call} {rs : List Return}
        → serve malloc q dequeue ≡ some (taken none, q)
        → Fifo q [] cs rs q2 ys
        → Fifo q [] (dequeue ∷ cs) (taken none ∷ rs) q2 ys

abbrev pub values : List Cell → List ℕ
values [] = []
values (c ∷ cs) = c.held ∷ values cs

values-snoc : (cs : List Cell) (c : Cell) → values (cs ++ (c ∷ [])) ≡ values cs ++ (c.held ∷ [])
values-snoc [] c = refl
values-snoc (x ∷ cs) c = ap (λ l. x.held ∷ l) (values-snoc cs c)

free_from-Chain :
    (h : Heap) (p : Option ℕ) (cs : List Cell)
    → Chain h p cs
    → Distinct cs
    → ((b : ℕ) → Avoids b cs → h b ≡ none)
    → (r : Heap) × (free_from (length cs) h p ≡ some r) × ((b : ℕ) → r b ≡ none)
unfolding free_from
free_from-Chain h p [] ch d only = (h, rw ch refl, λ b. only b tt)
free_from-Chain h p (c ∷ cs) ch d only =
    let (r, e, z) =
      free_from-Chain (update h c.at none) ch.1.0 cs (Chain-update h ch.1.0 cs c.at none d.0 ch.1.2)
        d.1 (free-only h c cs only) in
    (r, rw (ch.0, ch.1.1) e, z)

-- `mq_destroy` frees every node once, and nothing is left allocated.
pub mq_destroy-IsQueue :
    (q : Mqueue) (cs : List Cell)
    → IsQueue q cs
    → (r : Heap) × (mq_destroy (length cs) q ≡ some r) × ((b : ℕ) → r b ≡ none)
unfolding mq_destroy
mq_destroy-IsQueue q cs i = free_from-Chain q.heap q.head cs i.chain i.distinct i.only

module _ (malloc : Heap → Option ℕ) where
  -- How a run of calls went: what they returned, the state after it, and its nodes.
  pub record Ran (q : Mqueue) (xs : List ℕ) (cs : List Call) : Type 0 where
    pub returns : List Return
    pub after : Mqueue
    pub cells : List Cell
    pub ran : serve_all malloc q cs ≡ some (returns, after)
    pub kept : IsQueue after cells
    pub fifo : Fifo malloc q xs cs returns after (values cells)

  serve_all-next :
      (q q' q'' : Mqueue) (c : Call) (r : Return) (cs : List Call) (rs : List Return)
      → serve malloc q c ≡ some (r, q')
      → serve_all malloc q' cs ≡ some (rs, q'')
      → serve_all malloc q (c ∷ cs) ≡ some (r ∷ rs, q'')
  unfolding serve_all
  serve_all-next q q' q'' c r cs rs e f = rw (serve_all, e, f) refl

  serve-full :
      (q : Mqueue) (v : ℕ)
      → malloc q.heap ≡ none
      → serve malloc q (enqueue v) ≡ some (stored false, q)
  unfolding serve mq_enqueue
  serve-full q v e = rw (serve, e) refl

  serve-put :
      (q q' : Mqueue) (v a : ℕ)
      → malloc q.heap ≡ some a
      → mq_enqueue q (some a) v ≡ some (true, q')
      → serve malloc q (enqueue v) ≡ some (stored true, q')
  unfolding serve
  serve-put q q' v a e f = rw (serve, e, f) refl

  serve-take :
      (q q' : Mqueue) (o : Option ℕ)
      → mq_dequeue q ≡ some (o, q')
      → serve malloc q dequeue ≡ some (taken o, q')
  unfolding serve
  serve-take q q' o f = rw (serve, f) refl

  module _ (malloc_unused : (h : Heap) (a : ℕ) → malloc h ≡ some a → h a ≡ none) where
    -- With a malloc that gives unused memory or none, any calls on a queue return without touching
    -- memory that is not theirs, and return what a first-in first-out queue with the same values
    -- does, which refuses a value exactly where malloc gives no memory for it.
    pub serve_all-Fifo :
        (q : Mqueue) (cells : List Cell) (cs : List Call)
        → IsQueue q cells
        → Ran q (values cells) cs
    unfolding serve_all
    serve_all-Fifo q cells [] i = record {
      returns = [];
      after = q;
      cells = cells;
      ran = refl;
      kept = i;
      fifo = done;
    }
    serve_all-Fifo q cells (enqueue v ∷ cs) i = elim (Option-cases (malloc q.heap)) [
      | inl e ↦
          let r = serve_all-Fifo q cells cs i in
          record {
            returns = stored false ∷ r.returns;
            after = r.after;
            cells = r.cells;
            ran =
                serve_all-next q q r.after (enqueue v) (stored false) cs r.returns
                  (serve-full q v e) r.ran;
            kept = r.kept;
            fifo = full v e (serve-full q v e) r.fifo;
          }
      | inr (a, e) ↦
          let (q', f, j) = mq_enqueue-IsQueue q cells a v i (malloc_unused q.heap a e) in
          let r = serve_all-Fifo q' (cells ++ (record { at = a; held = v } ∷ [])) cs j in
          record {
            returns = stored true ∷ r.returns;
            after = r.after;
            cells = r.cells;
            ran =
                serve_all-next q q' r.after (enqueue v) (stored true) cs r.returns
                  (serve-put q q' v a e f) r.ran;
            kept = r.kept;
            fifo = put v a e (serve-put q q' v a e f) (rw values-snoc at r.fifo);
          }
    ]
    serve_all-Fifo q [] (dequeue ∷ cs) i =
        let r = serve_all-Fifo q [] cs i in
        record {
          returns = taken none ∷ r.returns;
          after = r.after;
          cells = r.cells;
          ran =
              serve_all-next q q r.after dequeue (taken none) cs r.returns
                (serve-take q q none (mq_dequeue-empty q i)) r.ran;
          kept = r.kept;
          fifo = empty (serve-take q q none (mq_dequeue-empty q i)) r.fifo;
        }
    serve_all-Fifo q (c ∷ cells) (dequeue ∷ cs) i =
        let (q', f, j) = mq_dequeue-IsQueue q c cells i in
        let r = serve_all-Fifo q' cells cs j in
        record {
          returns = taken (some c.held) ∷ r.returns;
          after = r.after;
          cells = r.cells;
          ran =
              serve_all-next q q' r.after dequeue (taken (some c.held)) cs r.returns
                (serve-take q q' (some c.held) f) r.ran;
          kept = r.kept;
          fifo = take c.held (serve-take q q' (some c.held) f) r.fifo;
        }

    -- From `mq_create` on, any calls return, as a first-in first-out queue does, and `mq_destroy`
    -- then frees all that was allocated.
    pub client_run :
        (cs : List Call)
        → (run : Ran (mq_create (λ a. none)) [] cs) × ((r : Heap) × (mq_destroy
                (length run.cells)
                run.after
              ≡ some r)
            × ((b : ℕ) → r b ≡ none))
    client_run cs =
        let run = serve_all-Fifo (mq_create (λ a. none)) [] cs mq_create-IsQueue in
        (run, mq_destroy-IsQueue run.after run.cells run.kept)
