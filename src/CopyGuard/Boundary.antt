-- ===== src/CopyGuard/Boundary.antt =====
-- The four rules of the boundary, for any lengths that a caller asks for.
use comp.Shared.{
  ℕ, zero, suc, ◌+◌, ◌-◌, ◌≡◌, ◌≢◌, ◌≤◌, ◌<◌, ◌∙◌, refl, ap, length, get_or, List, [], ◌∷◌, ◌++◌,
  arith, All, Option, none, some, length-append, ◌⊎◌, length-set,
}
use comp.CopyGuard.{
  memcpy, strlen, Kernel, guard, guard_intact, kwrite, kread, min, kbuf_sz, all_guard, changed,
  sweep_row, bytes, big_sz,
}
use comp.CopyGuard.Copies.{
  get_or-memcpy-copied, get_or-memcpy-kept, length-memcpy, drop-memcpy, drop-set, get_or-set-other,
  memcpy-prefix, strlen-memcpy, strlen-set,
}

get_or-append : (s t : List ℕ) (i : ℕ) → i < length s → get_or (s ++ t) i 0 ≡ get_or s i 0
get_or-append [] t i h = absurd (omega arith)
get_or-append (x ∷ s) t zero h = refl
get_or-append (x ∷ s) t (suc i) h = get_or-append s t i (omega arith)

min_le_left : (a b : ℕ) → min a b ≤ a
min_le_left a b = ground arith

min_le_right : (a b : ℕ) → min a b ≤ b
min_le_right a b = ground arith

-- What `kwrite` has done with the destination `dst` when it returns `left` and leaves `out`.
pub record Clamped (dst src : List ℕ) (ulen left : ℕ) (out : List ℕ) : Type 0 where
  pub copied : ℕ
  pub all_asked : left + copied ≡ ulen
  pub as_much : (copied ≡ ulen) ⊎ (copied ≡ length src)
  pub no_more : copied ≤ length src
  pub same_size : length out ≡ length dst
  pub given : (i : ℕ) → i < copied → get_or out i 0 ≡ get_or src i 0
  pub untouched : (i : ℕ) → copied ≤ i → get_or out i 0 ≡ get_or dst i 0

-- Rules 1 and 2: into a buffer of the length asked for, `kwrite` copies the bytes asked for or all
-- that the kernel holds, leaves the rest of the buffer alone, and returns how many were not copied.
pub kwrite-Clamped :
    (dst s t : List ℕ) (ulen : ℕ)
    → ulen ≤ length dst
    → (out : List ℕ) × (kwrite (some dst) ulen (s ++ t) (length s)
        ≡ (ulen - min ulen (length s), some out))
      × Clamped dst s ulen (ulen - min ulen (length s)) out
unfolding kwrite
kwrite-Clamped dst s t ulen h =
    let n = min ulen (length s) in
    let n_le : n ≤ ulen = min_le_left ulen (length s) in
    let n_len : n ≤ length s = min_le_right ulen (length s) in
    (
      memcpy n dst (s ++ t),
      refl,
      record {
        copied = n;
        all_asked = omega arith;
        as_much = ground arith;
        no_more = n_len;
        same_size = length-memcpy n dst (s ++ t);
        given = λ i lt.
            get_or-memcpy-copied n i dst (s ++ t) lt (omega arith)
              (omega (arith, length-append s t))
            ∙ get_or-append s t i (omega arith);
        untouched = λ i le. get_or-memcpy-kept n i dst (s ++ t) le;
      },
    )

-- No byte of kernel memory past the `length s` that `kwrite` is told of has any effect on what it
-- returns or stores: nothing that lies behind the kernel's data leaks.
pub kwrite-no_leak :
    (dst : Option (List ℕ)) (s t u : List ℕ) (ulen : ℕ)
    → kwrite dst ulen (s ++ t) (length s) ≡ kwrite dst ulen (s ++ u) (length s)
unfolding kwrite
kwrite-no_leak none s t u ulen = refl
kwrite-no_leak (some dst) s t u ulen =
    ap (λ l. (ulen - min ulen (length s), some l))
      (memcpy-prefix (min ulen (length s)) dst s t u (min_le_right ulen (length s)))

-- Rule 3: whatever the caller offers, a null pointer included, `kread` leaves every byte of the
-- guard as it was.
pub kread-guard :
    (k : Kernel) (usrc : Option (List ℕ)) (ulen : ℕ) → guard (kread k usrc ulen).1 ≡ guard k
unfolding kread
kread-guard k none ulen = refl
kread-guard k (some src) ulen =
    let n = min ulen 63 in
    let le : n ≤ 63 = min_le_right ulen 63 in
    drop-set (memcpy n k.kmem src) n 64 0 (omega arith) ∙ drop-memcpy n 64 k.kmem src (omega arith)

pub kread-guard_intact :
    (k : Kernel) (usrc : Option (List ℕ)) (ulen : ℕ)
    → guard_intact (kread k usrc ulen).1 ≡ guard_intact k
unfolding guard_intact
kread-guard_intact k usrc ulen = ap all_guard (kread-guard k usrc ulen)

-- The state after `kread` of `ulen` bytes of `src`, where it returns `left`.
pub record Accepted (src : List ℕ) (ulen left : ℕ) (k : Kernel) : Type 0 where
  pub all_offered : left + k.kbuf_len ≡ ulen
  pub bounded : k.kbuf_len < kbuf_sz
  pub as_much : (k.kbuf_len ≡ ulen) ⊎ (k.kbuf_len + 1 ≡ kbuf_sz)
  pub stored : (i : ℕ) → i < k.kbuf_len → get_or k.kmem i 0 ≡ get_or src i 0
  pub terminated : strlen k.kmem ≤ k.kbuf_len
  pub whole : All (λ b. b ≢ 0) src → strlen k.kmem ≡ k.kbuf_len

-- Rules 3 and 4: `kread` stores all that is offered or as much as the buffer holds, returns how
-- many bytes it did not store, and ends them with a zero: a string function stops there at the
-- latest, and exactly there where the data has no zero.
pub kread-Accepted :
    (k : Kernel) (src : List ℕ) (ulen : ℕ)
    → kbuf_sz ≤ length k.kmem
    → ulen ≤ length src
    → Accepted src ulen (kread k (some src) ulen).0 (kread k (some src) ulen).1
unfolding kread
kread-Accepted k src ulen hk hs =
    let n = min ulen 63 in
    let le : n ≤ 63 = min_le_right ulen 63 in
    let le' : n ≤ ulen = min_le_left ulen 63 in
    record {
      all_offered = omega arith;
      bounded = omega arith;
      as_much = ground arith;
      stored = λ i lt.
          get_or-set-other (memcpy n k.kmem src) n i 0 (λ e. absurd (omega arith))
          ∙ get_or-memcpy-copied n i k.kmem src lt (omega arith) (omega arith);
      terminated = strlen-set (memcpy n k.kmem src) n (omega (arith, length-memcpy n k.kmem src));
      whole = λ nz. strlen-memcpy n k.kmem src (omega arith) (omega arith) nz;
    }

pub length-kread :
    (k : Kernel) (src : List ℕ) (ulen : ℕ) → length (kread k (some src) ulen).1.kmem ≡ length k.kmem
unfolding kread
length-kread k src ulen =
    let n = min ulen 63 in length-set (memcpy n k.kmem src) n 0 ∙ length-memcpy n k.kmem src

-- What `kread` has stored, `kwrite` gives back: as many bytes of the user's data as were stored and
-- are asked for, at the front of the destination.
pub kwrite-kread :
    (k : Kernel) (src dst : List ℕ) (ulen asked i : ℕ)
    → kbuf_sz ≤ length k.kmem
    → ulen ≤ length src
    → asked ≤ length dst
    → i < asked
    → i < (kread k (some src) ulen).1.kbuf_len
    → (out : List ℕ) × ((kwrite
          (some dst)
          asked
          (kread k (some src) ulen).1.kmem
          (kread k (some src) ulen).1.kbuf_len).1
        ≡ some out)
      × (get_or out i 0 ≡ get_or src i 0)
unfolding kwrite
kwrite-kread k src dst ulen asked i hk hs hd lt lt' =
    let r = (kread k (some src) ulen).1 in
    let acc = kread-Accepted k src ulen hk hs in
    let n = min asked r.kbuf_len in
    let lt_n : i < n = ground arith in
    (
      memcpy n dst r.kmem,
      refl,
      get_or-memcpy-copied n i dst r.kmem lt_n (omega (arith, min_le_left asked r.kbuf_len))
            (omega (arith, length-kread k src ulen, min_le_right asked r.kbuf_len, acc.bounded))
          ∙ acc.stored i lt',
    )

changed-bytes : (r n : ℕ) → changed r (bytes 88 (suc n)) ≡ 0
unfolding changed
changed-bytes zero n = refl
changed-bytes (suc r) n = refl

-- For every request that its buffer has room for, the sweep prints the five bytes of the string or
-- fewer if fewer are asked for, and the rest of the request as the tail.
pub sweep_row-min :
    (kmem : List ℕ) (req : ℕ)
    → 6 ≤ length kmem
    → req ≤ big_sz
    → sweep_row kmem req ≡ (min req 5, req - min req 5)
unfolding sweep_row
sweep_row-min (a ∷ (b ∷ (c ∷ (d ∷ (e ∷ (f ∷ rest)))))) zero h le = refl
sweep_row-min (a ∷ (b ∷ (c ∷ (d ∷ (e ∷ (f ∷ rest)))))) (suc zero) h le = refl
sweep_row-min (a ∷ (b ∷ (c ∷ (d ∷ (e ∷ (f ∷ rest)))))) (suc (suc zero)) h le = refl
sweep_row-min (a ∷ (b ∷ (c ∷ (d ∷ (e ∷ (f ∷ rest)))))) (suc (suc (suc zero))) h le = refl
sweep_row-min (a ∷ (b ∷ (c ∷ (d ∷ (e ∷ (f ∷ rest)))))) (suc (suc (suc (suc zero)))) h le = refl
sweep_row-min (a ∷ (b ∷ (c ∷ (d ∷ (e ∷ (f ∷ rest)))))) (suc (suc (suc (suc (suc r))))) h le =
    let q : min (suc (suc (suc (suc (suc r))))) 5 ≡ 5 = ground arith in
    rw (q, changed-bytes r 506) refl
sweep_row-min l req h le = absurd (omega arith)
