-- ===== src/Procstat/Tests.antt =====
-- Three tasks, told apart by a number: 0 is a zombie, 1 runs.
use comp.Shared.{
  none, some, suc, refl, Bool-cases, inl, inr, ◌-◌, if◌then◌else◌, ◌⊎◌, pos, ℕ, ◌≡◌, Bool, List, [],
  ◌∷◌, ◌==◌, arith,
}
use comp.Procstat.{ProcFs, Report, enomem, session}
use comp.Procstat.Session.{Undoes, Numbered, session-Clean}

abbrev zombie : ℕ → Bool
zombie t = t == 0

abbrev running : ℕ → Bool
running t = t == 1

abbrev tasks : List ℕ
tasks = 1 ∷ (0 ∷ (2 ∷ []))

-- A /proc with room for five files, of which only the number matters.
abbrev five_files : ProcFs ℕ ℕ
five_files = record {
  proc_create = λ w. if w == 5 then (none, w) else (some w, suc w);
  proc_remove = λ e w. w - 1;
}

five_files-Undoes : Undoes five_files
five_files-Undoes = record {
  unmade = λ w h. elim (Bool-cases (w == 5)) [
    | inl y ↦ rw y refl
    | inr n ↦ absurd (ground (arith, rw n at h))
  ];
  removed = λ w e h. elim (Bool-cases (w == 5)) [
    | inl y ↦ absurd (ground (arith, rw y at h))
    | inr n ↦ rw n (omega arith)
  ];
}

session_full : session five_files zombie running (tasks ∷ []) 5 ≡ (enomem, ([], 5))
unfolding session
session_full = refl

session-Clean_example :
    (((five_files.proc_create 2).0 ≡ none)
      × (session five_files zombie running (tasks ∷ (tasks ∷ [])) 2 ≡ (enomem, ([], 2))))
    ⊎ ((reports : List Report) × (session five_files zombie running (tasks ∷ (tasks ∷ [])) 2
          ≡ (pos 0, (reports, 2)))
        × Numbered zombie running 1 (tasks ∷ (tasks ∷ [])) reports)
session-Clean_example =
    session-Clean zombie running five_files five_files-Undoes (tasks ∷ (tasks ∷ [])) 2
      (omega arith, (omega arith, tt)) (omega arith)
