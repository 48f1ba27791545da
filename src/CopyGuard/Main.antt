-- ===== src/CopyGuard/Main.antt =====
-- The program's own four checks.
use comp.Shared.{
  ◌&&◌, ◌==◌, ℕ, zero, suc, ◌+◌, ◌≡◌, ◌≤◌, ◌∙◌, refl, ap, length, List, [], ◌∷◌, ◌++◌, arith, true,
  length-append, ◌≢◌, All,
}
use comp.CopyGuard.{
  memset, drop, take, guard, guard_arm, guard_intact, all_guard, Kernel, hello, bytes,
  main_failures, kbuf_sz, guard_sz, guard_byte, some, after_hello, rule_2, rule_3, rule_4,
  after_big,
}
use comp.CopyGuard.Copies.{drop-memcpy, length-memcpy, strlen-memcpy, get_or-memcpy-kept}
use comp.CopyGuard.Boundary.{kread-guard_intact, length-kread}

drop-take : (n : ℕ) (l r : List ℕ) → n ≤ length l → drop n (take n l ++ r) ≡ r
drop-take zero l r h = refl
drop-take (suc n) [] r h = absurd (omega arith)
drop-take (suc n) (x ∷ l) r h = drop-take n l r (omega arith)

length-drop : (n : ℕ) (l : List ℕ) → n ≤ length l → length (drop n l) + n ≡ length l
length-drop zero l h = omega arith
length-drop (suc n) [] h = absurd (omega arith)
length-drop (suc n) (x ∷ l) h = omega (arith, length-drop n l (omega arith))

length-take : (n : ℕ) (l : List ℕ) → n ≤ length l → length (take n l) ≡ n
length-take zero l h = refl
length-take (suc n) [] h = absurd (omega arith)
length-take (suc n) (x ∷ l) h = ap suc (length-take n l (omega arith))

length-memset : (l : List ℕ) (b n : ℕ) → length (memset l b n) ≡ length l
unfolding memset
length-memset l b zero = refl
length-memset [] b (suc n) = refl
length-memset (x ∷ l) b (suc n) = ap suc (length-memset l b n)

all_guard-memset : (l : List ℕ) (n : ℕ) → length l ≤ n → all_guard (memset l guard_byte n) ≡ true
unfolding all_guard memset
all_guard-memset [] zero h = refl
all_guard-memset [] (suc n) h = refl
all_guard-memset (x ∷ l) zero h = absurd (omega arith)
all_guard-memset (x ∷ l) (suc n) h = all_guard-memset l n (omega arith)

abbrev kmem_sz : ℕ
kmem_sz = kbuf_sz + guard_sz

-- `guard_arm` fills the guard, and keeps the size of the region.
guard_intact-guard_arm : (k : Kernel) → length k.kmem ≡ kmem_sz → guard_intact (guard_arm k) ≡ true
unfolding guard_intact guard_arm
guard_intact-guard_arm k h =
    ap all_guard (drop-take kbuf_sz k.kmem (memset (guard k) guard_byte guard_sz) (omega arith))
    ∙ all_guard-memset (guard k) guard_sz (omega (arith, length-drop kbuf_sz k.kmem (omega arith)))

length-guard_arm : (k : Kernel) → length k.kmem ≡ kmem_sz → length (guard_arm k).kmem ≡ kmem_sz
unfolding guard_arm
length-guard_arm k h = omega (
  arith,
  length-append (take kbuf_sz k.kmem) (memset (guard k) guard_byte guard_sz),
  length-take kbuf_sz k.kmem (omega arith),
  length-memset (guard k) guard_byte guard_sz,
  length-drop kbuf_sz k.kmem (omega arith),
)

bytes-nonzero : (b n : ℕ) → b ≢ 0 → All (λ c. c ≢ 0) (bytes b n)
bytes-nonzero b zero h = tt
bytes-nonzero b (suc n) h = (h, bytes-nonzero b n h)

guard_intact-after_hello : (k : Kernel) → guard_intact (after_hello k) ≡ guard_intact k
unfolding guard_intact
guard_intact-after_hello k =
    ap all_guard (drop-memcpy 6 kbuf_sz k.kmem (hello ++ (0 ∷ [])) (omega arith))

rule_2-true : (m : List ℕ) → rule_2 (record { kmem = m; kbuf_len = 5 }) ≡ true
unfolding rule_2
rule_2-true m = rw (get_or-memcpy-kept 5 5 (bytes 88 64) m (omega arith)) refl

rule_3-true : (k : Kernel) → guard_intact k ≡ true → rule_3 k ≡ true
unfolding rule_3
rule_3-true k h = ap (λ b. b && true) (kread-guard_intact k (some (bytes 65 256)) 256 ∙ h)

rule_4-true : (k : Kernel) → length k.kmem ≡ kmem_sz → rule_4 k ≡ true
unfolding rule_4
rule_4-true k h =
    ap (λ n. n == 8)
      (strlen-memcpy 8 k.kmem (bytes 66 8) (omega arith) (omega arith)
        (bytes-nonzero 66 8 (λ e. absurd (omega arith))))

-- From any content of the kernel's region `main` finds that all four rules hold.
pub main_failures-zero : (k : Kernel) → length k.kmem ≡ kmem_sz → main_failures k ≡ 0
unfolding main_failures
main_failures-zero k h =
    let k' = after_hello (guard_arm k) in
    let len : length k'.kmem ≡ kmem_sz =
      length-memcpy 6 (guard_arm k).kmem (hello ++ (0 ∷ [])) ∙ length-guard_arm k h in
    let len' : length (after_big k').kmem ≡ kmem_sz = length-kread k' (bytes 65 256) 256 ∙ len in
    let armed : guard_intact k' ≡ true =
      guard_intact-after_hello (guard_arm k) ∙ guard_intact-guard_arm k h in
    rw (rule_2-true k'.kmem, rule_3-true k' armed, rule_4-true (after_big k') len') refl
