-- ===== src/MsQueue/Tests.antt =====
-- Runs of the lock-free queue.
use comp.MsQueue.Helping.{Appended, run_enqueue-Appended}
use comp.MsQueue.Destroy.{msq_destroy-enqueued}
use comp.MsQueue.Together.{enqueued-IsChained}
use comp.MsQueue.Standing.{IsChained}
use comp.MsQueue.Enqueuers.{
  Enqueuing, Enqueued, begin_enqueue, called, access, moved, created, links,
}
use comp.Shared.{
  ◌≡◌, refl, true, none, arith, List, [], ℕ, ◌∷◌, false, ◌++◌, Option, some, zero, suc, ◌≤◌, ◌∙◌,
  Bool, ltb, ◌≢◌, update_ne, ◌&&◌, update,
}
use comp.MsQueue.{
  Msqueue, msq_create, node_new, start, begin, empty, dequeued, dequeue_at, run_enqueue,
  run_dequeue, enqueued, enqueue_at, Node, msq_destroy, Bool, update, Enqueue,
}
use comp.MsQueue.Solo.{tagged, late_reader-fault}

-- The queue with the dummy at 0 and one value, 7, at 1.
abbrev one_value : Msqueue
one_value = (run_enqueue 5 (node_new 1 7 (msq_create (λ a. none) 0)) (start 1)).0

takes_7 : (run_dequeue 7 one_value begin).1 ≡ dequeued 7
unfolding run_dequeue run_enqueue msq_create
takes_7 = refl

then_empty : (run_dequeue 4 (run_dequeue 7 one_value begin).0 begin).1 ≡ empty
unfolding run_dequeue run_enqueue msq_create
then_empty = refl

late_reader-fault_example :
    (dequeue_at (run_dequeue 7 one_value begin).0 (run_dequeue 2 one_value begin).1).0.fault ≡ true
unfolding run_enqueue msq_create node_new
late_reader-fault_example =
    late_reader-fault one_value 0 1 0 1 0 1 1 (record { value = 7; next = tagged none 0 }) refl refl
      (λ e. absurd (omega arith)) refl refl

-- Two threads: the second swings no tail until the first has linked its node.
abbrev two_threads : Enqueuing
two_threads =
    begin_enqueue
      (begin_enqueue
        (record { queue = msq_create (λ a. none) 0; value = λ i. 0; at = λ i. enqueued }) 0 1 7)
      1 2 8

abbrev steps : List ℕ → Enqueuing → Enqueuing
steps [] s = s
steps (i ∷ r) s = steps r (access s i false)

abbrev logs : List ℕ → Enqueuing → List ℕ → List ℕ
logs [] s log = log
logs (i ∷ r) s log = logs r (access s i false) (log ++ links s i false)

steps-Enqueued :
    (order log : List ℕ) (s : Enqueuing)
    → Enqueued log s
    → Enqueued (logs order s log) (steps order s)
steps-Enqueued [] log s r = r
steps-Enqueued (i ∷ order) log s r = steps-Enqueued order _ _ (moved i false r)

abbrev order : List ℕ
order = 0 ∷ 1 ∷ 0 ∷ 1 ∷ 0 ∷ 1 ∷ 0 ∷ 1 ∷ 1 ∷ 1 ∷ 1 ∷ 1 ∷ 1 ∷ 1 ∷ 0 ∷ 1 ∷ 1 ∷ 1 ∷ 1 ∷ 1 ∷ []

two_threads-Enqueued : Enqueued [] two_threads
unfolding msq_create node_new
two_threads-Enqueued = called 1 2 8 (called 0 1 7 (created 0) refl refl) refl refl

both_linked : logs order two_threads [] ≡ 7 ∷ 8 ∷ []
unfolding msq_create node_new enqueue_at
both_linked = refl

enqueued-IsChained_example :
    (nodes : List ℕ) × IsChained (steps order two_threads) nodes (logs order two_threads [])
enqueued-IsChained_example =
    enqueued-IsChained (logs order two_threads []) (steps order two_threads)
      (steps-Enqueued order [] two_threads two_threads-Enqueued)

abbrev under : ℕ → List ℕ → Bool
under n [] = true
under n (i ∷ r) = ltb i n && under n r

-- A thread that is not in the list stays where it is.
stays :
    (order : List ℕ) (s : Enqueuing) (n k : ℕ)
    → under n order ≡ true
    → n ≤ k
    → (steps order s).at k ≡ s.at k
stays [] s n k u le = refl
stays (i ∷ r) s n k u le =
    let ne : i ≢ k = λ e. absurd (ground arith) in
    stays r (access s i false) n k (ground arith) le
    ∙ update_ne s.at (enqueue_at false s.queue (s.at i)).1 ne

at_rest : (k : ℕ) → 2 ≤ k → two_threads.at k ≡ enqueued
at_rest k le =
    let first : 0 ≢ k = λ e. absurd (ground arith) in
    let second : 1 ≢ k = λ e. absurd (ground arith) in
    update_ne (update {A = Enqueue} (λ i. enqueued) 0 (start 1)) (start 2) second
    ∙ update_ne (λ i. enqueued) (start 1) first

all_ended : (i : ℕ) → (steps order two_threads).at i ≡ enqueued
unfolding msq_create node_new enqueue_at
all_ended zero = refl
all_ended (suc zero) = refl
all_ended (suc (suc i)) =
    stays order two_threads 2 (suc (suc i)) refl (omega arith) ∙ at_rest (suc (suc i)) (omega arith)

msq_destroy-enqueued_example :
    (g : ℕ → Option Node) × (msq_destroy 3 (steps order two_threads).queue ≡ some g)
    × ((a : ℕ) → g a ≡ none)
unfolding msq_create node_new enqueue_at
msq_destroy-enqueued_example =
    msq_destroy-enqueued (logs order two_threads []) (steps order two_threads)
      (steps-Enqueued order [] two_threads two_threads-Enqueued) all_ended

-- The first thread has linked its node, and no thread has moved the tail.
abbrev lagging_tail : List ℕ
lagging_tail = 0 ∷ 1 ∷ 0 ∷ 1 ∷ 0 ∷ 0 ∷ []

run_enqueue-Appended_example :
    (k : ℕ) × (k ≤ 9) × Appended k (node_new 3 9 (steps lagging_tail two_threads).queue) 3
unfolding msq_create node_new enqueue_at
run_enqueue-Appended_example =
    run_enqueue-Appended (logs lagging_tail two_threads []) (steps lagging_tail two_threads) 3 9
      (steps-Enqueued lagging_tail [] two_threads two_threads-Enqueued) refl
