-- ===== src/CopyGuard/Tests.antt =====
-- The boundary at concrete lengths.
use comp.Shared.{ℕ, ◌≡◌, refl, some, List, arith, get_or}
use comp.CopyGuard.{Kernel, kwrite, kread, guard, main_failures, bytes, sweep_row, hello}
use comp.CopyGuard.Boundary.{Accepted, kread-guard, kread-Accepted, kwrite-kread}

abbrev zeroed : Kernel
zeroed = record { kmem = bytes 0 576; kbuf_len = 0 }

main_failures-zeroed : main_failures zeroed ≡ 0
unfolding main_failures
main_failures-zeroed = refl

sweep_row-128 : sweep_row zeroed.kmem 128 ≡ (5, 123)
unfolding sweep_row
sweep_row-128 = refl

kread-guard_example : guard (kread zeroed (some (bytes 65 256)) 256).1 ≡ guard zeroed
kread-guard_example = kread-guard zeroed (some (bytes 65 256)) 256

kread-Accepted_example :
    Accepted
      (bytes 65 256)
      256
      (kread zeroed (some (bytes 65 256)) 256).0
      (kread zeroed (some (bytes 65 256)) 256).1
kread-Accepted_example = kread-Accepted zeroed (bytes 65 256) 256 (omega arith) (omega arith)

kwrite-kread_example :
    (out : List ℕ) × ((kwrite
        (some (bytes 88 64))
        10
        (kread zeroed (some hello) 5).1.kmem
        (kread zeroed (some hello) 5).1.kbuf_len).1
      ≡ some out)
    × (get_or out 2 0 ≡ 108)
unfolding kread
kwrite-kread_example =
    kwrite-kread zeroed hello (bytes 88 64) 5 10 2 (omega arith) (omega arith) (omega arith)
      (omega arith) (omega arith)
