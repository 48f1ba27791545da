-- ===== src/AbaStack/Tests.antt =====
-- The three nodes of the program, at 1, 2 and 3.
use comp.Shared.{zero, suc, ℕ, ◌≡◌, refl, [], ◌∷◌, Option, none, some, arith}
use comp.AbaStack.{Stack, thread2, slow_pop}
use comp.AbaStack.Run.{Holds, slow_pop-thread2}

abbrev next_node : ℕ → Option ℕ
next_node (suc zero) = some 2
next_node (suc (suc zero)) = some 3
next_node n = none

abbrev abc : Stack
abc = record { top = some 1; next = next_node }

slow_pop-thread2_example :
    (s' : Stack) × (slow_pop (thread2 1) abc ≡ some (some 1, s'))
    × Holds s'.next s'.top (2 ∷ (3 ∷ []))
slow_pop-thread2_example =
    slow_pop-thread2 1 abc 1 2 (3 ∷ [])
      ((λ e. absurd (omega arith)), ((λ e. absurd (omega arith)), tt)) (refl, (refl, (refl, refl)))
