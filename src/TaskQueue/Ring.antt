-- ===== src/TaskQueue/Ring.antt =====
-- The ring of slots of `taskq` in src/workload.c, as the list of tasks it holds.
use comp.Shared.{
  ==_iff, ltb, ℕ, zero, suc, ◌+◌, ◌-◌, ◌%◌, ◌^◌, ◌≡◌, ◌≢◌, ◌∙◌, sym, ap, refl, ◌≤◌, ◌<◌, length,
  false, some, List, [], ◌∷◌, ◌++◌, ◌==◌, if◌then◌else◌, set, get_or, add32, length-set, arith,
  Bool-cases, inl, inr, ltb,
}
use comp.TaskQueue.{Taskq, tq_init, tq_push, tq_pop, popped, zeros}
use mathlib.Core.Path.{subst}
use native.Mathlib.Nat.{mod_self, mod-eq_of_lt}

-- The slot after `i` of `cap`, and the one `n` further on.
abbrev pub after : ℕ → ℕ → ℕ
after cap i = if i + 1 == cap then 0 else i + 1

abbrev further : ℕ → ℕ → ℕ → ℕ
further cap h n = if ltb (h + n) cap then h + n else h + n - cap

step_lt : (cap i : ℕ) → i < cap → (i + 1 == cap) ≡ false → i + 1 < cap
step_lt cap i h n = ground arith

add32-after : (cap i : ℕ) → i < cap → cap < 2 ^ 32 → add32 i 1 % cap ≡ after cap i
add32-after cap i h w = elim (Bool-cases (i + 1 == cap)) [
  | inl y ↦
      let e : i + 1 ≡ cap = (==_iff (i + 1) cap).0 y in
      rw y (ap (λ n. n % cap) (mod-eq_of_lt (omega arith) ∙ e) ∙ mod_self cap)
  | inr n ↦ rw n (ap (λ n. n % cap) (mod-eq_of_lt (omega arith)) ∙ mod-eq_of_lt (step_lt cap i h n))
]

-- The `n` tasks from slot `h` on.
abbrev pub items : List ℕ → ℕ → ℕ → ℕ → List ℕ
items slot cap h zero = []
items slot cap h (suc n) = get_or slot h 0 ∷ items slot cap (after cap h) n

pub record Ok (q : Taskq) : Type 0 where
  pub size : length q.slot ≡ q.capacity
  pub small : q.capacity < 2 ^ 32
  pub some_room : 0 < q.capacity
  pub head_in : q.head < q.capacity
  pub tail_at : q.tail ≡ further q.capacity q.head q.count
  pub bounded : q.count ≤ q.capacity

abbrev pub contents : Taskq → List ℕ
contents q = items q.slot q.capacity q.head q.count

get_or-set_self : (l : List ℕ) (i v : ℕ) → i < length l → get_or (set l i v) i 0 ≡ v
get_or-set_self [] i v h = absurd (omega arith)
get_or-set_self (x ∷ l) zero v h = refl
get_or-set_self (x ∷ l) (suc i) v h = get_or-set_self l i v (omega arith)

get_or-set_ne : (l : List ℕ) (i j v : ℕ) → i ≢ j → get_or (set l i v) j 0 ≡ get_or l j 0
get_or-set_ne [] i j v h = refl
get_or-set_ne (x ∷ l) zero zero v h = absurd (h refl)
get_or-set_ne (x ∷ l) zero (suc j) v h = refl
get_or-set_ne (x ∷ l) (suc i) zero v h = refl
get_or-set_ne (x ∷ l) (suc i) (suc j) v h = get_or-set_ne l i j v (λ e. h (ap suc e))

after_lt : (cap h : ℕ) → h < cap → after cap h < cap
after_lt cap h l = ground arith

further_lt : (cap h n : ℕ) → h < cap → n < cap → further cap h n < cap
further_lt cap h n l m = ground arith

further-after :
    (cap h n : ℕ) → h < cap → n < cap → further cap (after cap h) n ≡ further cap h (suc n)
further-after cap h n l m = ground arith

after-further :
    (cap h n : ℕ) → h < cap → n < cap → after cap (further cap h n) ≡ further cap h (suc n)
after-further cap h n l m = ground arith

further_ne : (cap h n : ℕ) → h < cap → suc n < cap → further cap h (suc n) ≢ h
further_ne cap h n l m = ground arith

cons_cong : {x y : ℕ} {l r : List ℕ} → x ≡ y → l ≡ r → x ∷ l ≡ y ∷ r
cons_cong e f = rw (e, f) refl

length-zeros : (n : ℕ) → length (zeros n) ≡ n
length-zeros zero = refl
length-zeros (suc n) = ap suc (length-zeros n)

-- A write behind the last of `n` tasks adds it.
items-set :
    (slot : List ℕ) (cap h n v : ℕ)
    → length slot ≡ cap
    → h < cap
    → n < cap
    → items (set slot (further cap h n) v) cap h (suc n) ≡ items slot cap h n ++ (v ∷ [])
items-set slot cap h zero v e hc nc =
    let at : further cap h 0 ≡ h = ground arith in
    rw at (ap (λ x. x ∷ []) (get_or-set_self slot h v (omega arith)))
items-set slot cap h (suc n) v e hc nc =
    let ih = items-set slot cap (after cap h) n v e (after_lt cap h hc) (omega arith) in
    let at : further cap (after cap h) n ≡ further cap h (suc n) =
      further-after cap h n hc (omega arith) in
    let ne : further cap h (suc n) ≢ h = further_ne cap h n hc nc in
    cons_cong (get_or-set_ne slot (further cap h (suc n)) h v ne) (
      subst
        (λ k.
          items (set slot k v) cap (after cap h) (suc n)
          ≡ items slot cap (after cap h) n ++ (v ∷ []))
        at ih)

-- `tq_init` gives an empty queue.
pub tq_init-Ok : (capacity : ℕ) → 0 < capacity → capacity < 2 ^ 32 → Ok (tq_init capacity)
unfolding tq_init
tq_init-Ok capacity h w = record {
  size = length-zeros capacity;
  small = w;
  some_room = h;
  head_in = h;
  tail_at = ground arith;
  bounded = omega arith;
}

-- What a push has done to the queue `q` where it leaves `r`.
pub record Pushed (q r : Taskq) (v : ℕ) : Type 0 where
  pub ok : Ok r
  pub added : contents r ≡ contents q ++ (v ∷ [])
  pub same_capacity : r.capacity ≡ q.capacity

-- With room `tq_push` puts the task behind the others.
pub tq_push-Ok :
    (q : Taskq) (v : ℕ)
    → Ok q
    → q.count < q.capacity
    → (r : Taskq) × (tq_push q v ≡ some r) × Pushed q r v
unfolding tq_push
tq_push-Ok q v ok lt =
    let c = q.capacity in
    let tail_lt : q.tail < c = rw ok.tail_at (further_lt c q.head q.count ok.head_in lt) in
    let tail' : add32 q.tail 1 % c ≡ after c q.tail = add32-after c q.tail tail_lt ok.small in
    let count' : add32 q.count 1 ≡ suc q.count =
      mod-eq_of_lt (omega (arith, ok.small)) ∙ omega arith in
    let full : (q.count == c) ≡ false = ground arith in
    let r : Taskq = record q {
      slot = set q.slot q.tail v;
      tail = after c q.tail;
      count = suc q.count;
    } in
    (
      r,
      rw (full, tail', count') refl,
      record {
        ok = record {
          size = length-set q.slot q.tail v ∙ ok.size;
          small = ok.small;
          some_room = ok.some_room;
          head_in = ok.head_in;
          tail_at = ap (after c) ok.tail_at ∙ after-further c q.head q.count ok.head_in lt;
          bounded = omega arith;
        };
        added =
            ap (λ t. items (set q.slot t v) c q.head (suc q.count)) ok.tail_at
            ∙ items-set q.slot c q.head q.count v ok.size ok.head_in lt;
        same_capacity = refl;
      },
    )

-- From a queue that is not empty `tq_pop` takes the first task.
pub tq_pop-Ok :
    (q : Taskq) (n : ℕ)
    → Ok q
    → q.count ≡ suc n
    → (out : ℕ) × (r : Taskq) × (tq_pop q ≡ popped out r)
      × Ok r
      × (contents q ≡ out ∷ contents r)
      × (r.capacity ≡ q.capacity)
unfolding tq_pop
tq_pop-Ok q n ok e =
    let c = q.capacity in
    let less : q.count - 1 ≡ n = omega arith in
    let some_in : (q.count == 0) ≡ false = ground arith in
    let head' : add32 q.head 1 % c ≡ after c q.head = add32-after c q.head ok.head_in ok.small in
    let r : Taskq = record q { head = after c q.head; count = q.count - 1 } in
    (
      get_or q.slot q.head 0,
      r,
      rw (some_in, head') refl,
      record {
        size = ok.size;
        small = ok.small;
        some_room = ok.some_room;
        head_in = after_lt c q.head ok.head_in;
        tail_at =
            ok.tail_at
            ∙ ap (further c q.head) e
            ∙ sym (further-after c q.head n ok.head_in (omega (arith, ok.bounded)))
            ∙ ap (further c (after c q.head)) (sym less);
        bounded = omega (arith, ok.bounded);
      },
      ap (items q.slot c q.head) e
          ∙ ap (λ m. get_or q.slot q.head 0 ∷ items q.slot c (after c q.head) m) (sym less),
      refl,
    )
