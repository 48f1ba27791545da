-- ===== src/MsQueue/FifoTests.antt =====
-- Runs of enqueuers and a dequeuer of the lock-free queue, access by access.
use comp.Shared.{ℕ, ◌≡◌, List, [], ◌∷◌, refl, none, false, arith, update}
use comp.MsQueue.{msq_create, node_new, start, begin, enqueue_at, dequeue_at, update}
use comp.MsQueue.Threads.{
  idle, enqueueing, dequeueing, Threads, Ran, created, enqueues, dequeues, moves, move, step, links,
  takes, with,
}

abbrev after : List ℕ → Threads → Threads
after [] s = s
after (i ∷ r) s = after r (step s i false)

abbrev put_in : List ℕ → Threads → List ℕ → List ℕ
put_in [] s l = l
put_in (i ∷ r) s l =
    put_in r (step s i false) (with (links (s.at i) (move false s.queue (s.at i)).1) l)

abbrev taken_out : List ℕ → Threads → List ℕ → List ℕ
taken_out [] s l = l
taken_out (i ∷ r) s l =
    taken_out r (step s i false) (with (takes (s.at i) (move false s.queue (s.at i)).1) l)

after-Ran :
    (order given ins outs : List ℕ) (s : Threads)
    → Ran given ins outs s
    → Ran given (put_in order s ins) (taken_out order s outs) (after order s)
after-Ran [] given ins outs s r = r
after-Ran (i ∷ order) given ins outs s r =
    after-Ran order given (with (links (s.at i) (move false s.queue (s.at i)).1) ins)
      (with (takes (s.at i) (move false s.queue (s.at i)).1) outs) (step s i false)
      (moves i false r)

-- Threads 0 and 1 are about to enqueue 7 and 8, and thread 2 to dequeue.
abbrev three_threads : Threads
three_threads = record {
  queue = node_new 2 8 (node_new 1 7 (msq_create (λ a. none) 0));
  at =
      update (update (update (λ i. idle) 0 (enqueueing 7 (start 1))) 1 (enqueueing 8 (start 2))) 2
        (dequeueing begin);
}

three_threads-Ran : Ran (2 ∷ 1 ∷ 0 ∷ []) [] [] three_threads
unfolding node_new msq_create
three_threads-Ran =
    dequeues 2
      (enqueues 1 2 8 (enqueues 0 1 7 (created 0) tt (λ m. absurd (omega arith))) tt
        (λ m. absurd (omega arith)))
      tt

-- Thread 0 links its node, thread 1 helps it with the tail and links its own, and thread 2 takes 7.
abbrev order : List ℕ
order = 0 ∷ 1 ∷ 0 ∷ 0 ∷ 0 ∷ 1 ∷ 1 ∷ 1 ∷ 1 ∷ 1 ∷ 1 ∷ 1 ∷ 0 ∷ 1 ∷ 2 ∷ 2 ∷ 2 ∷ 2 ∷ 2 ∷ 2 ∷ 2 ∷ []

puts_both : put_in order three_threads [] ≡ 7 ∷ 8 ∷ []
unfolding node_new msq_create move enqueue_at dequeue_at
puts_both = refl

takes_first : taken_out order three_threads [] ≡ 7 ∷ []
unfolding node_new msq_create move enqueue_at dequeue_at
takes_first = refl
