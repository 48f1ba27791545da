-- ===== src/MsQueue/Chained.antt =====
-- The chain of nodes of src/msqueue.c.
use comp.Shared.{
  ℕ, ◌≡◌, ◌≢◌, ◌∙◌, ap, refl, sym, ◌⊎◌, inl, inr, Option, none, some, List, [], ◌∷◌, ◌++◌, Mem,
  update, update_self, update_ne, ◌==◌, arith, Bool-cases, mem_append_last, length, suc,
}
use mathlib.Core.Path.{subst}
use comp.MsQueue.{Tagged, Node, suc}

-- The value of a node.
abbrev pub value_at : (ℕ → Option Node) → ℕ → ℕ
value_at heap a = elim (heap a) [ none ↦ 0 | some node ↦ node.value ]

-- Each node points to the next one, and the last to none.
abbrev pub Linked : (ℕ → Option Node) → List ℕ → Type 0
Linked h [] = ⊥
Linked h (a ∷ []) = (node : Node) × (h a ≡ some node) × (node.next.ptr ≡ none)
Linked h (a ∷ (b ∷ r)) =
    ((node : Node) × (h a ≡ some node) × (node.next.ptr ≡ some b)) × Linked h (b ∷ r)

abbrev pub InPtr : Option ℕ → List ℕ → Type 0
InPtr p l = (t : ℕ) × (p ≡ some t) × Mem t l

abbrev pub values : (ℕ → Option Node) → List ℕ → List ℕ
values h [] = []
values h (a ∷ r) = value_at h a ∷ values h r

-- The nodes that a pointer leads to, from the first one on.
abbrev pub IsFirst : Option ℕ → List ℕ → Type 0
IsFirst p l = (t : ℕ) × (p ≡ some t) × ((rest : List ℕ) × (l ≡ t ∷ rest))

abbrev pub Distinct : List ℕ → Type 0
Distinct [] = Unit
Distinct (a ∷ r) = (¬ Mem a r) × Distinct r

pub Distinct-append : (l : List ℕ) (n : ℕ) → Distinct l → ¬ Mem n l → Distinct (l ++ (n ∷ []))
Distinct-append [] n d o = ((λ m. m), tt)
Distinct-append (a ∷ r) n d o = (
  (λ m. elim (mem_append_last a n r m) [ inl old ↦ d.0 old | inr same ↦ o (inl (sym same)) ]),
  Distinct-append r n d.1 (λ m. o (inr m)),
)

pub Linked-member :
    (h : ℕ → Option Node) (l : List ℕ) (a : ℕ)
    → Linked h l
    → Mem a l
    → (node : Node) × (h a ≡ some node) × ((node.next.ptr ≡ none) ⊎ InPtr node.next.ptr l)
Linked-member h [] a k m = absurd m
Linked-member h (b ∷ []) a k (inl e) = (k.0, ap h e ∙ k.1, inl k.2)
Linked-member h (b ∷ []) a k (inr m) = absurd m
Linked-member h (b ∷ (c ∷ r)) a k (inl e) = (k.0.0, ap h e ∙ k.0.1, inr (c, k.0.2, inr (inl refl)))
Linked-member h (b ∷ (c ∷ r)) a k (inr m) =
    let (node, e, n) = Linked-member h (c ∷ r) a k.1 m in
    (node, e, elim n [ inl z ↦ inl z | inr i ↦ inr (i.0, i.1, inr i.2) ])

-- A change of a node that is not in the chain.
pub Linked-other :
    (h : ℕ → Option Node) (l : List ℕ) (n : ℕ) (x : Option Node)
    → ¬ Mem n l
    → Linked h l
    → Linked (update h n x) l
Linked-other h [] n x o k = k
Linked-other h (a ∷ []) n x o k = (k.0, update_ne h x (λ e. o (inl e)) ∙ k.1, k.2)
Linked-other h (a ∷ (b ∷ r)) n x o k = (
  (k.0.0, update_ne h x (λ e. o (inl e)) ∙ k.0.1, k.0.2),
  Linked-other h (b ∷ r) n x (λ m. o (inr m)) k.1,
)

abbrev pub next_of : Option Node → Option ℕ
next_of none = none
next_of (some node) = node.next.ptr

-- The last node is no other.
last_ne :
    (h : ℕ → Option Node) (t a b : ℕ) (node other : Node)
    → h t ≡ some node
    → node.next.ptr ≡ none
    → h a ≡ some other
    → other.next.ptr ≡ some b
    → t ≢ a
last_ne h t a b node other e z f y s =
    let q : none ≡ some b = sym (ap next_of e ∙ z) ∙ ap (λ x. next_of (h x)) s ∙ ap next_of f ∙ y in
    absurd (ground arith)

-- A new node behind the one that points to none.
pub Linked-link :
    (h : ℕ → Option Node) (l : List ℕ) (t n c : ℕ) (node new : Node)
    → Linked h l
    → Mem t l
    → h t ≡ some node
    → node.next.ptr ≡ none
    → h n ≡ some new
    → new.next.ptr ≡ none
    → ¬ Mem n l
    → Linked
        (update h t (some (record node { next = record { ptr = some n; count = c } })))
        (l ++ (n ∷ []))
Linked-link h [] t n c node new k m e z f y o = absurd m
Linked-link h (a ∷ []) t n c node new k (inr m) e z f y o = absurd m
Linked-link h (a ∷ []) t n c node new k (inl s) e z f y o =
    let linked : Option Node = some (record node { next = record { ptr = some n; count = c } }) in
    (
      (
        record node { next = record { ptr = some n; count = c } },
        subst (λ b. update h t linked b ≡ linked) s (update_self h t linked),
        refl,
      ),
      (new, update_ne h linked (λ q. o (inl (sym q ∙ s))) ∙ f, y),
    )
Linked-link h (a ∷ (b ∷ r)) t n c node new k (inl s) e z f y o =
    absurd (last_ne h t a b node k.0.0 e z k.0.1 k.0.2 s)
Linked-link h (a ∷ (b ∷ r)) t n c node new k (inr m) e z f y o =
    let linked : Option Node = some (record node { next = record { ptr = some n; count = c } }) in
    (
      (k.0.0, update_ne h linked (last_ne h t a b node k.0.0 e z k.0.1 k.0.2) ∙ k.0.1, k.0.2),
      Linked-link h (b ∷ r) t n c node new k.1 m e z f y (λ q. o (inr q)),
    )

pub length-values : (h : ℕ → Option Node) (l : List ℕ) → length (values h l) ≡ length l
length-values h [] = refl
length-values h (a ∷ l) = ap suc (length-values h l)

pub values-append :
    (h : ℕ → Option Node) (l : List ℕ) (n : ℕ)
    → values h (l ++ (n ∷ [])) ≡ values h l ++ (value_at h n ∷ [])
values-append h [] n = refl
values-append h (a ∷ l) n = ap (λ r. value_at h a ∷ r) (values-append h l n)

pub values-same :
    (h g : ℕ → Option Node) (l : List ℕ)
    → ((a : ℕ) → Mem a l → value_at g a ≡ value_at h a)
    → values g l ≡ values h l
values-same h g [] e = refl
values-same h g (a ∷ l) e =
    ap (λ v. v ∷ values g l) (e a (inl refl))
    ∙ ap (λ r. value_at h a ∷ r) (values-same h g l (λ b m. e b (inr m)))

-- A node that is not the one that changes keeps its value; so does one whose link changes.
pub value_at-other :
    (h : ℕ → Option Node) (n a : ℕ) (x : Option Node)
    → n ≢ a
    → value_at (update h n x) a ≡ value_at h a
value_at-other h n a x ne =
    ap (λ o. elim o [ none ↦ 0 | some node ↦ node.value ]) (update_ne h x ne)

pub value_at-link :
    (h : ℕ → Option Node) (t a : ℕ) (node : Node) (next : Tagged)
    → h t ≡ some node
    → value_at (update h t (some (record node { next = next }))) a ≡ value_at h a
value_at-link h t a node next e = elim (Bool-cases (t == a)) [
  | inl y ↦
      let s : t ≡ a = ground arith in
      ap (λ b. value_at (update h t (some (record node { next = next }))) b) (sym s)
      ∙ ap (λ o. elim o [ none ↦ 0 | some x ↦ x.value ])
          (update_self h t (some (record node { next = next })))
      ∙ ap (λ o. elim o [ none ↦ 0 | some x ↦ x.value ]) (sym e)
      ∙ ap (value_at h) s
  | inr n ↦ value_at-other h t a (some (record node { next = next })) (λ s. absurd (ground arith))
]
