-- ===== src/MsQueue/Enqueuers.antt =====
-- Any number of threads in `msq_enqueue` of src/msqueue.c at once, each access a step; malloc gives
-- any address that is not in use.
use comp.Shared.{ℕ, Bool, none, List, [], ◌∷◌, ◌++◌, update, ◌≡◌}
use comp.MsQueue.{
  Msqueue, node_new, msq_create, Enqueue, start, enqueued, swinging, linking, enqueue_at,
}

-- The queue, the value that each thread was last called with, and where it stands; a thread that is
-- not in a call stands at `enqueued`.
pub record Enqueuing : Type 0 where
  pub queue : Msqueue
  pub value : ℕ → ℕ
  pub at : ℕ → Enqueue

abbrev pub begin_enqueue : Enqueuing → ℕ → ℕ → ℕ → Enqueuing
begin_enqueue s i n value = record {
  queue = node_new n value s.queue;
  value = update s.value i value;
  at = update s.at i (start n);
}

abbrev pub access : Enqueuing → ℕ → Bool → Enqueuing
access s i spurious =
    let (queue, e) = enqueue_at spurious s.queue (s.at i) in
    record { queue = queue; value = s.value; at = update s.at i e }

-- The call's value, if an access links its node.
abbrev pub links_with : ℕ → Enqueue → Enqueue → List ℕ
links_with value (linking n tail next) (swinging m t) = value ∷ []
links_with value e e' = []

abbrev pub links : Enqueuing → ℕ → Bool → List ℕ
links s i spurious = links_with (s.value i) (s.at i) (enqueue_at spurious s.queue (s.at i)).1

-- What can happen from `msq_create` on, with the values of the calls whose nodes were linked, in
-- order.
pub data Enqueued : List ℕ → Enqueuing → Type 0 where
  created :
      (dummy : ℕ)
      → Enqueued []
          (record { queue = msq_create (λ a. none) dummy; value = λ i. 0; at = λ i. enqueued })
  called :
      {log : List ℕ} {s : Enqueuing} (i n value : ℕ)
      → Enqueued log s
      → s.at i ≡ enqueued
      → s.queue.heap n ≡ none
      → Enqueued log (begin_enqueue s i n value)
  moved :
      {log : List ℕ} {s : Enqueuing} (i : ℕ) (spurious : Bool)
      → Enqueued log s
      → Enqueued (log ++ links s i spurious) (access s i spurious)
