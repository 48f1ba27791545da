-- ===== src/Procstat/Session.antt =====
-- The module of module/procstat.c from its loading to its unloading.
use comp.Shared.{
  ℕ, ◌+◌, ◌^◌, ◌≡◌, refl, ◌<◌, Bool, none, some, List, [], ◌∷◌, length, All, arith, pos, ◌⊎◌, inl,
  inr, Option-cases,
}
use comp.Procstat.{Report, ProcFs, enomem, serve_reads, procstat_init, procstat_exit, session}
use comp.Procstat.Laws.{Right, procstat_show-Right}

-- What the kernel promises: a file that cannot be made changes nothing, and one that is removed is
-- gone, whatever it was made from.
pub record Undoes {W E : Type 0} (kernel : ProcFs W E) : Type 0 where
  pub unmade : (w : W) → (kernel.proc_create w).0 ≡ none → (kernel.proc_create w).1 ≡ w
  pub removed :
      (w : W) (e : E)
      → (kernel.proc_create w).0 ≡ some e
      → kernel.proc_remove e (kernel.proc_create w).1 ≡ w

module _ {W E : Type 0} (kernel : ProcFs W E) (w : W) where
  init-refused : (kernel.proc_create w).0 ≡ none → (procstat_init kernel w).0 ≡ enomem
  unfolding procstat_init
  init-refused h = rw h refl

  init-made : (e : E) → (kernel.proc_create w).0 ≡ some e → (procstat_init kernel w).0 ≡ pos 0
  unfolding procstat_init
  init-made e h = rw h refl

module _ {T : Type 0} (is_zombie is_running : T → Bool) where
  -- One report for each read, numbered from `n` on.
  abbrev pub Numbered : ℕ → List (List T) → List Report → Type 0
  Numbered n [] [] = Unit
  Numbered n [] (r ∷ rs) = ⊥
  Numbered n (ts ∷ reads) [] = ⊥
  Numbered n (ts ∷ reads) (r ∷ rs) = Right is_zombie is_running ts n r × Numbered (n + 1) reads rs

  serve_reads-Numbered :
      (n : ℕ) (reads : List (List T))
      → All (λ ts. length ts < 2 ^ 64) reads
      → n + length reads < 2 ^ 64
      → Numbered (n + 1) reads (serve_reads is_zombie is_running n reads)
  unfolding serve_reads
  serve_reads-Numbered n [] few h = tt
  serve_reads-Numbered n (ts ∷ reads) few h =
      let (right, after) = procstat_show-Right is_zombie is_running n ts few.0 (omega arith) in
      (right, rw after (serve_reads-Numbered (n + 1) reads few.1 (omega arith)))

  -- Where the kernel cannot make the file, loading the module gives -ENOMEM and nothing is left
  -- behind. Else loading gives 0, the reads are numbered from 1 on in the order in which they take
  -- the lock, each with the right counts of the tasks that it visits, its three groups being all of
  -- them, and unloading leaves the kernel as it was; as long as there are fewer than 2^64 reads, and
  -- tasks in each.
  pub session-Clean :
      {W E : Type 0} (kernel : ProcFs W E)
      → Undoes kernel
      → (reads : List (List T)) (w : W) → All (λ ts. length ts < 2 ^ 64) reads
      → length reads < 2 ^ 64
      → (((kernel.proc_create w).0 ≡ none)
          × (session kernel is_zombie is_running reads w ≡ (enomem, ([], w))))
        ⊎ ((reports : List Report) × (session kernel is_zombie is_running reads w
              ≡ (pos 0, (reports, w)))
            × Numbered 1 reads reports)
  unfolding session procstat_init procstat_exit
  session-Clean kernel undoes reads w few h = elim (Option-cases (kernel.proc_create w).0) [
    | inl e ↦ inl (e, rw (session, e, undoes.unmade w e, init-refused kernel w e) refl)
    | inr (entry, e) ↦ inr (
      serve_reads is_zombie is_running 0 reads,
      rw (session, e, undoes.removed w entry e, init-made kernel w entry e) refl,
      serve_reads-Numbered 0 reads few (omega arith),
    )
  ]
