-- ===== src/AbaStack/Run.antt =====
-- What `slow_pop` of src/aba_stack.c does with a stack that changes under it.
use comp.Shared.{
  ◌>>=◌, if◌then◌else◌, ℕ, zero, suc, ◌≡◌, ◌≢◌, ◌∙◌, sym, ap, refl, All, List, [], ◌∷◌, true,
  Option, none, some, if◌then◌else◌, update, update_ne, update_self, ◌>>=◌, arith,
}
use mathlib.Core.Path.{subst}
use comp.AbaStack.{Stack, push, thread2, slow_pop, is_at, pop_from, commit}

-- From `p` the nodes of `l` in order, then the null pointer.
abbrev pub Holds : (ℕ → Option ℕ) → Option ℕ → List ℕ → Type 0
Holds next p [] = p ≡ none
Holds next p (x ∷ l) = (p ≡ some x) × Holds next (next x) l

abbrev pub Avoids : ℕ → List ℕ → Type 0
Avoids a l = All (λ x. a ≢ x) l

push-top : (k n : ℕ) (s : Stack) → (push k n s).top ≡ some n
unfolding push
push-top zero n s = refl
push-top (suc k) n s = push-top k n (record s { next = update s.next n s.top })

push-next : (k n m : ℕ) (s : Stack) → n ≢ m → (push k n s).next m ≡ s.next m
unfolding push
push-next zero n m s h = update_ne s.next s.top h
push-next (suc k) n m s h =
    push-next k n m (record s { next = update s.next n s.top }) h ∙ update_ne s.next s.top h

push-next_self : (k n : ℕ) (s : Stack) → (push k n s).next n ≡ s.top
unfolding push
push-next_self zero n s = update_self s.next n s.top
push-next_self (suc k) n s = push-next_self k n (record s { next = update s.next n s.top })

push-Holds :
    (k n : ℕ) (s : Stack) (p : Option ℕ) (l : List ℕ)
    → Avoids n l
    → Holds s.next p l
    → Holds (push k n s).next p l
push-Holds k n s p [] v h = h
push-Holds k n s p (x ∷ l) v h = (
  h.0,
  subst (λ q. Holds (push k n s).next q l) (sym (push-next k n x s v.0))
      (push-Holds k n s (s.next x) l v.1 h.1),
)

is_at_refl : (o : Option ℕ) (t : ℕ) → o ≡ some t → is_at o t ≡ true
is_at_refl o t e = ground arith

-- The CAS succeeds wherever the top is the same address again, and sets what was read before.
slow_pop-commit :
    (meanwhile : Stack → Option Stack) (s s' : Stack) (t : ℕ)
    → s.top ≡ some t
    → meanwhile s ≡ some s'
    → s'.top ≡ some t
    → slow_pop meanwhile s ≡ some (some t, record s' { top = s.next t })
unfolding slow_pop commit
slow_pop-commit meanwhile s s' t h e h' =
    ap (pop_from meanwhile s) h
    ∙ ap (λ o. o >>= commit t (s.next t)) e
    ∙ ap (λ b. if b then some (some t, record s' { top = s.next t }) else some (none, s'))
        (is_at_refl s'.top t h')

-- A pop with no one in between takes the top, and the rest is the stack.
pub slow_pop-quiet :
    (s : Stack) (a : ℕ) (rest : List ℕ)
    → Holds s.next s.top (a ∷ rest)
    → (s' : Stack) × (slow_pop some s ≡ some (some a, s')) × Holds s'.next s'.top rest
slow_pop-quiet s a rest h =
    (record s { top = s.next a }, slow_pop-commit some s s a h.0 refl h.0, h.1)

-- Thread 2 pops `a` and `b` and pushes `a` back: the stack is then `a` and what was below `b`.
pub thread2-Holds :
    (k : ℕ) (s : Stack) (a b : ℕ) (rest : List ℕ)
    → Avoids a (b ∷ rest)
    → Holds s.next s.top (a ∷ (b ∷ rest))
    → (s' : Stack) × (thread2 k s ≡ some s')
      × Holds s'.next s'.top (a ∷ rest)
      × Holds s'.next (some b) (b ∷ rest)
unfolding thread2
thread2-Holds k s a b rest v h =
    let s2 : Stack = record s { top = s.next b } in
    (
      push k a s2,
      rw (h.0, thread2, h.1.0) refl,
      (
        push-top k a s2,
        subst (λ q. Holds (push k a s2).next q rest) (sym (push-next_self k a s2))
            (push-Holds k a s2 (s.next b) rest v.1 h.1.1),
      ),
      push-Holds k a s2 (some b) (b ∷ rest) v (refl, h.1.1),
    )

-- However often the weak CAS of its push fails, thread 2 between the two halves of the pop goes
-- unnoticed: the pop still returns `a`, and the stack is then `b`, which thread 2 has popped, with
-- all that was below it.
pub slow_pop-thread2 :
    (k : ℕ) (s : Stack) (a b : ℕ) (rest : List ℕ)
    → Avoids a (b ∷ rest)
    → Holds s.next s.top (a ∷ (b ∷ rest))
    → (s' : Stack) × (slow_pop (thread2 k) s ≡ some (some a, s')) × Holds s'.next s'.top (b ∷ rest)
slow_pop-thread2 k s a b rest v h =
    let (s2, e, now, old) = thread2-Holds k s a b rest v h in
    (record s2 { top = s.next a }, slow_pop-commit (thread2 k) s s2 a h.0 e now.0, (h.1.0, old.1))
