-- ===== src/CopyGuard.antt =====
-- The user-copy boundary of week2/src/copyguard.c. A region of memory is the list of its bytes; the
-- kernel buffer and its guard are one region, as they are one struct, so that a copy past the
-- buffer would land in the guard.
mod Copies
mod Boundary
mod Main
mod Tests
use comp.Shared.{
  ℕ, zero, suc, ◌+◌, ◌-◌, ◌≡◌, Bool, true, false, Option, none, some, List, [], ◌∷◌, ◌++◌, ltb,
  ◌==◌, if◌then◌else◌, set, not, ◌&&◌, length, get_or,
}

abbrev pub kbuf_sz : ℕ
kbuf_sz = 64

abbrev pub guard_sz : ℕ
guard_sz = 512

abbrev pub guard_byte : ℕ
guard_byte = 126

abbrev pub ubuf_sz : ℕ
ubuf_sz = 64

abbrev pub min : ℕ → ℕ → ℕ
min a b = if ltb a b then a else b

-- memcpy(dst, src, n). What lies past the end of a region is not modelled.
unfoldable pub memcpy : ℕ → List ℕ → List ℕ → List ℕ
memcpy zero dst src = dst
memcpy (suc n) [] src = []
memcpy (suc n) (d ∷ dst) [] = d ∷ dst
memcpy (suc n) (d ∷ dst) (s ∷ src) = s ∷ memcpy n dst src

-- memset(dst, byte, n)
unfoldable pub memset : List ℕ → ℕ → ℕ → List ℕ
memset dst byte zero = dst
memset [] byte (suc n) = []
memset (d ∷ dst) byte (suc n) = byte ∷ memset dst byte n

abbrev pub drop : ℕ → List ℕ → List ℕ
drop zero l = l
drop (suc n) [] = []
drop (suc n) (x ∷ l) = drop n l

abbrev pub take : ℕ → List ℕ → List ℕ
take zero l = []
take (suc n) [] = []
take (suc n) (x ∷ l) = x ∷ take n l

-- strlen, where the region ends at the latest
unfoldable pub strlen : List ℕ → ℕ
strlen [] = 0
strlen (c ∷ s) = let rest = strlen s in if c == 0 then 0 else suc rest

pub record Kernel : Type 0 where
  pub kmem : List ℕ
  pub kbuf_len : ℕ

-- The guard is the part of `kmem` behind the buffer.
abbrev pub guard : Kernel → List ℕ
guard k = drop kbuf_sz k.kmem

unfoldable pub guard_arm : Kernel → Kernel
unfolding memset
guard_arm k = record k { kmem = take kbuf_sz k.kmem ++ memset (guard k) guard_byte guard_sz }

-- The loop of `guard_intact`, over the bytes of the guard.
unfoldable pub all_guard : List ℕ → Bool
all_guard [] = true
all_guard (b ∷ l) = let rest = all_guard l in if b == guard_byte then rest else false

unfoldable pub guard_intact : Kernel → Bool
unfolding all_guard
guard_intact k = all_guard (guard k)

-- What `kwrite` returns, and the destination after it; `none` is the null pointer.
unfoldable pub kwrite : Option (List ℕ) → ℕ → List ℕ → ℕ → ℕ × Option (List ℕ)
unfolding memcpy
kwrite none ulen ksrc klen = (ulen, none)
kwrite (some udst) ulen ksrc klen = (ulen - min ulen klen, some (memcpy (min ulen klen) udst ksrc))

unfoldable pub kread : Kernel → Option (List ℕ) → ℕ → ℕ × Kernel
unfolding memcpy
kread k none ulen = (ulen, k)
kread k (some usrc) ulen =
    let n = min ulen (kbuf_sz - 1) in
    (ulen - n, record { kmem = set (memcpy n k.kmem usrc) n 0; kbuf_len = n })

-- The inner loop of `sweep`: the bytes that the copy has changed.
unfoldable pub changed : ℕ → List ℕ → ℕ
changed zero big = 0
changed (suc req) [] = 0
changed (suc req) (b ∷ big) = let rest = changed req big in if b == 88 then 0 else suc rest

-- strcpy(dst, s)
abbrev pub strcpy : List ℕ → List ℕ → List ℕ
strcpy dst s = memcpy (suc (length s)) dst (s ++ (0 ∷ []))

-- "hello", and 'X' of the sweep's buffer
abbrev pub hello : List ℕ
hello = 104 ∷ (101 ∷ (108 ∷ (108 ∷ (111 ∷ []))))

abbrev pub big_sz : ℕ
big_sz = 512

-- A region of `n` bytes that are all the same
abbrev pub bytes : ℕ → ℕ → List ℕ
bytes b zero = []
bytes b (suc n) = b ∷ bytes b n

-- The lines that `sweep` prints for one request: the bytes copied, and the tail left alone.
unfoldable pub sweep_row : List ℕ → ℕ → ℕ × ℕ
unfolding kwrite changed memcpy
sweep_row kmem req =
    let kbuf = strcpy kmem hello in
    let (left, big) = kwrite (some (bytes 88 big_sz)) req kbuf 5 in
    (elim big [ none ↦ 0 | some b ↦ changed req b ], left)

-- `check`, which counts a failure where its test does not hold
abbrev pub check : ℕ → Bool → ℕ
check failures ok = if ok then failures else failures + 1

abbrev byte_at : Option (List ℕ) → ℕ → ℕ
byte_at none i = 0
byte_at (some l) i = get_or l i 0

-- The tests that `main` hands to `check`, and the kernel memory between them.
unfoldable pub rule_1 : Bool
unfolding kwrite
rule_1 = (kwrite none 16 hello 5).0 == 16

abbrev pub after_hello : Kernel → Kernel
after_hello k = record { kmem = strcpy k.kmem hello; kbuf_len = 5 }

unfoldable pub rule_2 : Kernel → Bool
unfolding kwrite
rule_2 k =
    let (left, ubuf) = kwrite (some (bytes 88 ubuf_sz)) ubuf_sz k.kmem k.kbuf_len in
    (left == ubuf_sz - k.kbuf_len) && (byte_at ubuf 5 == 88)

abbrev pub after_big : Kernel → Kernel
after_big k = (kread k (some (bytes 65 256)) 256).1

unfoldable pub rule_3 : Kernel → Bool
unfolding kread guard_intact
rule_3 k =
    let (left, k') = kread k (some (bytes 65 256)) 256 in
    guard_intact k' && ((k'.kbuf_len == kbuf_sz - 1) && (left == 256 - (kbuf_sz - 1)))

unfoldable pub rule_4 : Kernel → Bool
unfolding kread strlen
rule_4 k = strlen (kread k (some (bytes 66 8)) 8).1.kmem == 8

-- The failures that `main` counts, from the kernel memory that it starts with.
unfoldable pub main_failures : Kernel → ℕ
unfolding rule_1 rule_2 rule_3 rule_4 guard_arm
main_failures k =
    let k' = after_hello (guard_arm k) in
    check (check (check (check 0 rule_1) (rule_2 k')) (rule_3 k')) (rule_4 (after_big k'))
