-- ===== src/MsQueue/ReuseTests.antt =====
-- The head of the lock-free queue points to an address for the second time.
use comp.Shared.{ℕ, ◌≡◌, ◌+◌, List, [], ◌∷◌, refl, none, some, false, arith, update, Option}
use comp.MsQueue.{
  Tagged, node_new, start, begin, enqueue_at, dequeue_at, swapping, swinging, helping, lagging,
  missed,
}
use comp.MsQueue.Threads.{idle, enqueueing, dequeueing, Threads, move, step}
use comp.MsQueue.Reuse.{
  Going, stays, enqueues, dequeues, moves, moves_head, moves_tail, late_head-Fails, late_tail-Fails,
}

abbrev tagged : Option ℕ → ℕ → Tagged
tagged p c = record { ptr = p; count = c }

-- The dummy at 0, and 7 at 1.
abbrev one_value : Threads
one_value = record {
  queue = record {
    heap =
        update (update (λ a. none) 0 (some (record { value = 0; next = tagged (some 1) 1 }))) 1
          (some (record { value = 7; next = tagged none 0 }));
    head = tagged (some 0) 0;
    tail = tagged (some 1) 1;
    retries = 0;
    fault = false;
  };
  at = λ i. idle;
}

abbrev after : List ℕ → Threads → Threads
after [] s = s
after (i ∷ r) s = after r (step s i false)

abbrev heads_in : List ℕ → Threads → ℕ → ℕ
heads_in [] s n = n
heads_in (i ∷ r) s n = heads_in r (step s i false) (n + moves_head s.queue (s.at i))

abbrev tails_in : List ℕ → Threads → ℕ → ℕ
tails_in [] s n = n
tails_in (i ∷ r) s n = tails_in r (step s i false) (n + moves_tail s.queue (s.at i))

after-Going :
    (order : List ℕ) (s t : Threads) (heads tails : ℕ)
    → Going s heads tails t
    → Going s (heads_in order t heads) (tails_in order t tails) (after order t)
after-Going [] s t heads tails g = g
after-Going (i ∷ order) s t heads tails g =
    after-Going order s (step t i false) (heads + moves_head t.queue (t.at i))
      (tails + moves_tail t.queue (t.at i)) (moves i false g)

abbrev seven : List ℕ
seven = 0 ∷ (0 ∷ (0 ∷ (0 ∷ (0 ∷ (0 ∷ (0 ∷ []))))))

abbrev five : List ℕ
five = 0 ∷ (0 ∷ (0 ∷ (0 ∷ (0 ∷ []))))

abbrev dequeueing_one : Threads → Threads
dequeueing_one s = record s { at = update s.at 0 (dequeueing begin) }

-- 7 is taken, and its dummy freed.
abbrev taken : Threads
taken = after seven (dequeueing_one one_value)

-- 8 is put in at the address that was freed.
abbrev put_again : Threads
put_again =
    after five
      (record { queue = node_new 0 8 taken.queue; at = update taken.at 0 (enqueueing 8 (start 0)) })

-- And taken: the head is at 0 again.
abbrev back : Threads
back = after seven (dequeueing_one put_again)

back-Going : Going one_value 2 1 back
unfolding move enqueue_at dequeue_at node_new
back-Going = after-Going seven one_value (dequeueing_one put_again) 1 1 (
    dequeues 0
      (after-Going five one_value
        (record {
          queue = node_new 0 8 taken.queue;
          at = update taken.at 0 (enqueueing 8 (start 0));
        })
        1 0
        (enqueues 0 0 8
          (after-Going seven one_value (dequeueing_one one_value) 0 0 (dequeues 0 stays tt)) tt
          refl))
      tt)

back-at_0 : back.queue.head ≡ tagged (some 0) 2
unfolding move enqueue_at dequeue_at node_new
back-at_0 = refl

late_head-Fails_example :
    dequeue_at back.queue (swapping one_value.queue.head (tagged (some 1) 1) 7)
    ≡ (back.queue, missed)
late_head-Fails_example =
    late_head-Fails one_value (omega arith) (omega arith) (tagged (some 1) 1) 7 back-Going
      (omega arith) (omega arith)

late_tail-Fails_example :
    ((enqueue_at false back.queue (swinging 9 one_value.queue.tail)).0 ≡ back.queue)
    × ((enqueue_at false back.queue (helping 9 one_value.queue.tail (tagged (some 1) 1))).0
        ≡ back.queue)
    × ((dequeue_at back.queue (lagging one_value.queue.tail (tagged (some 1) 1))).0 ≡ back.queue)
late_tail-Fails_example =
    late_tail-Fails one_value (omega arith) (omega arith) 9 (tagged (some 1) 1) back-Going
      (omega arith) (omega arith)
