-- ===== src/MutexQueue/Refine.antt =====
-- The queue of src/mutexqueue.c on its heap, as a list of nodes.
use comp.Shared.{
  ℕ, ◌≡◌, ◌≢◌, ◌∙◌, sym, refl, true, Option, none, some, List, [], ◌∷◌, ◌++◌, update, update_self,
  update_ne, inl, inr,
}
use comp.MutexQueue.{Mnode, Heap, Mqueue, mq_create, mq_enqueue, mq_dequeue}
use comp.MutexQueue.Chain.{
  free-only, Cell, Chain, Avoids, Distinct, last_at, Chain-update, Chain-Avoids, last_at-snoc,
  Distinct-snoc, Chain-snoc, Chain-last, last-cases, last_at-Avoids,
}

-- The nodes `cs` are the queue, and all that is allocated.
pub record IsQueue (q : Mqueue) (cs : List Cell) : Type 0 where
  pub chain : Chain q.heap q.head cs
  pub tail : q.tail ≡ last_at cs
  pub distinct : Distinct cs
  pub only : (b : ℕ) → Avoids b cs → q.heap b ≡ none

pub mq_create-IsQueue : IsQueue (mq_create (λ a. none)) []
unfolding mq_create
mq_create-IsQueue = record { chain = refl; tail = refl; distinct = tt; only = λ b v. refl }

abbrev cell : ℕ → ℕ → Cell
cell n value = record { at = n; held = value }

Avoids-last :
    (cs : List Cell) (b : ℕ) (c : Cell) → Avoids b (cs ++ (c ∷ [])) → Avoids b cs × (b ≢ c.at)
Avoids-last [] b c v = (tt, v.0)
Avoids-last (x ∷ cs) b c v = let r = Avoids-last cs b c v.1 in ((v.0, r.0), r.1)

enqueue-empty :
    (q : Mqueue) (n value : ℕ)
    → IsQueue q []
    → (r : Mqueue) × (mq_enqueue q (some n) value ≡ some (true, r)) × IsQueue r (cell n value ∷ [])
unfolding mq_enqueue
enqueue-empty q n value i = (
  record {
    heap = update q.heap n (some (record { value = value; next = none }));
    head = some n;
    tail = some n;
  },
  rw i.tail refl,
  record {
    chain = (refl, (none, update_self q.heap n _, refl));
    tail = refl;
    distinct = (tt, tt);
    only = λ b v. update_ne q.heap _ (λ e. v.0 (sym e)) ∙ i.only b tt;
  },
)

last-differs : (h : Heap) (t n : ℕ) (node : Mnode) → h n ≡ none → h t ≡ some node → n ≢ t
last-differs h t n node e f q = absurd (cc)

enqueue-last :
    (q : Mqueue) (cs : List Cell) (n value t : ℕ) (last : Mnode)
    → IsQueue q cs
    → q.heap n ≡ none
    → last_at cs ≡ some t
    → q.heap t ≡ some last
    → (r : Mqueue) × (mq_enqueue q (some n) value ≡ some (true, r))
      × IsQueue r (cs ++ (cell n value ∷ []))
unfolding mq_enqueue
enqueue-last q cs n value t last i fresh lt ht =
    let h = update q.heap n (some (record { value = value; next = none })) in
    let away : Avoids n cs = Chain-Avoids q.heap q.head cs n fresh i.chain in
    let ht' : h t ≡ some last = update_ne q.heap _ (last-differs q.heap t n last fresh ht) ∙ ht in
    (
      record {
        heap = update h t (some (record last { next = some n }));
        head = q.head;
        tail = some n;
      },
      rw (i.tail ∙ lt, mq_enqueue, ht') refl,
      record {
        chain =
            Chain-snoc h q.head cs t last (cell n value)
              (Chain-update q.heap q.head cs n _ away i.chain) i.distinct away lt ht'
              (update_self q.heap n _);
        tail = sym (last_at-snoc cs (cell n value));
        distinct = Distinct-snoc cs (cell n value) i.distinct away;
        only = λ b v.
            let w = Avoids-last cs b (cell n value) v in
            update_ne h _ (λ e. last_at-Avoids cs b t w.0 lt (sym e))
            ∙ update_ne q.heap _ (λ e. w.1 (sym e))
            ∙ i.only b w.0;
      },
    )

-- With memory for the node `mq_enqueue` returns true, and its value is the last of the queue.
pub mq_enqueue-IsQueue :
    (q : Mqueue) (cs : List Cell) (n value : ℕ)
    → IsQueue q cs
    → q.heap n ≡ none
    → (r : Mqueue) × (mq_enqueue q (some n) value ≡ some (true, r))
      × IsQueue r (cs ++ (cell n value ∷ []))
mq_enqueue-IsQueue q cs n value i fresh = elim (last-cases cs) [
  | inl e ↦ rw e (enqueue-empty q n value (rw e at i))
  | inr (t, lt) ↦
      let (last, ht) = Chain-last q.heap q.head cs t i.chain lt in
      enqueue-last q cs n value t last i fresh lt ht
]

pub mq_dequeue-empty : (q : Mqueue) → IsQueue q [] → mq_dequeue q ≡ some (none, q)
unfolding mq_dequeue
mq_dequeue-empty q i = rw i.chain refl

abbrev tail_from : Option ℕ → Option ℕ → Option ℕ
tail_from next t = elim next [ none ↦ none | some m ↦ t ]

tail_from-last :
    (h : Heap) (next t : Option ℕ) (c : Cell) (cs : List Cell)
    → Chain h next cs
    → t ≡ last_at (c ∷ cs)
    → tail_from next t ≡ last_at cs
tail_from-last h next t c [] ch e = rw ch refl
tail_from-last h next t c (d ∷ ds) ch e = rw (ch.0, e) refl

-- The first value of a queue that is not empty is taken out and its node freed.
pub mq_dequeue-IsQueue :
    (q : Mqueue) (c : Cell) (cs : List Cell)
    → IsQueue q (c ∷ cs)
    → (r : Mqueue) × (mq_dequeue q ≡ some (some c.held, r)) × IsQueue r cs
unfolding mq_dequeue
mq_dequeue-IsQueue q c cs i =
    let next = i.chain.1.0 in
    (
      record { heap = update q.heap c.at none; head = next; tail = tail_from next q.tail },
      rw (i.chain.0, i.chain.1.1) refl,
      record {
        chain = Chain-update q.heap next cs c.at none i.distinct.0 i.chain.1.2;
        tail = tail_from-last q.heap next q.tail c cs i.chain.1.2 i.tail;
        distinct = i.distinct.1;
        only = free-only q.heap c cs i.only;
      },
    )
