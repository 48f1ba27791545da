-- ===== src/Grace/Rank.antt =====
-- Every access brings an update nearer to its end, where no reader is inside.
use comp.Shared.{
  ◌*◌, ◌<◌, ◌∙◌, sym, ap, ltb, ℕ, zero, suc, ◌+◌, ◌-◌, ◌*◌, ◌≤◌, ◌<◌, ◌≡◌, ◌≢◌, refl, inl, inr,
  true, false, List, [], ◌∷◌, arith, ◌==◌, Bool-cases, ◌%◌, length, length-append,
}
use comp.Rcu.{max_readers, Reader, Wait, sample, still_inside}
use comp.Grace.{
  Upd, free_to_update, prepared, published, scanning, waiting, spinning, graced, reclaimed, System,
  update_at, is_free, run_update,
}
use comp.Grace.Inv.{Inv, PhaseOk}
use comp.Grace.Steps.{update_at-Inv}

-- The accesses that an update has left, at most, where it meets no reader inside.
abbrev pub rank : Upd → ℕ
rank free_to_update = 0
rank reclaimed = 1
rank (graced old) = 2
rank (waiting old ws) = 3 + 2 * length ws
rank (spinning old w ws) = 4 + 2 * length ws
rank (scanning old k ws) = 4 + 2 * length ws + 3 * (max_readers - k)
rank (published old nv) = 197
rank (prepared old nv) = 198

-- No reader is in a section.
abbrev pub IsQuiet : System → Type 0
IsQuiet s = (i : ℕ) → (s.readers i).seq % 2 ≡ 0

length-sample :
    (readers : ℕ → Reader) (k : ℕ) (ws : List Wait) → length (sample readers k ws) ≤ length ws + 1
unfolding sample
length-sample readers k ws = grind (arith, length-append)

-- The state that the update will leave, as far as it is decided.
abbrev pub new_cur : System → Upd → ℕ
new_cur s (prepared old nv) = nv
new_cur s u = s.cur

abbrev pub new_freed : System → Upd → ℕ
new_freed s free_to_update = s.freed
new_freed s u = s.freed + 1

record Advance (s t : System) (u : Upd) : Type 0 where
  closer : rank t.upd < rank u
  same : t.readers ≡ s.readers
  cur : new_cur t t.upd ≡ new_cur s u
  freed : new_freed t t.upd ≡ new_freed s u

moved_on :
    (s : System) (w : Wait)
    → (s.readers w.slot).seq % 2 ≡ 0
    → w.seq % 2 ≢ 0
    → still_inside s.readers w ≡ false
unfolding still_inside
moved_on s w even odd = ground arith

Advance-at :
    (s : System) (a : ℕ) (u : Upd)
    → IsQuiet s
    → PhaseOk s u
    → u ≢ free_to_update
    → Advance s (update_at s a u) u
unfolding update_at
Advance-at s a free_to_update quiet ok busy = absurd (busy refl)
Advance-at s a (prepared old nv) quiet ok busy = record {
  closer = omega arith;
  same = refl;
  cur = refl;
  freed = refl;
}
Advance-at s a (published old nv) quiet ok busy = record {
  closer = omega arith;
  same = refl;
  cur = refl;
  freed = refl;
}
Advance-at s a (scanning old k ws) quiet ok busy = elim (Bool-cases (ltb k max_readers)) [
  | inl more ↦ rw more (record {
    closer = ground (arith, length-sample s.readers k ws);
    same = refl;
    cur = refl;
    freed = refl;
  })
  | inr done ↦ rw done (record { closer = omega arith; same = refl; cur = refl; freed = refl })
]
Advance-at s a (waiting old []) quiet ok busy = record {
  closer = omega arith;
  same = refl;
  cur = refl;
  freed = refl;
}
Advance-at s a (waiting old (w ∷ ws)) quiet ok busy = elim (Bool-cases (w.seq % 2 == 0)) [
  | inl even ↦ rw even (record { closer = omega arith; same = refl; cur = refl; freed = refl })
  | inr odd ↦ rw odd (record { closer = omega arith; same = refl; cur = refl; freed = refl })
]
Advance-at s a (spinning old w ws) quiet ok busy =
    rw (moved_on s w (quiet w.slot) ok.2)
      (record { closer = omega arith; same = refl; cur = refl; freed = refl })
Advance-at s a (graced old) quiet ok busy = record {
  closer = omega arith;
  same = refl;
  cur = refl;
  freed = refl;
}
Advance-at s a reclaimed quiet ok busy = record {
  closer = omega arith;
  same = refl;
  cur = refl;
  freed = refl;
}

pub busy-new_freed : (s : System) (u : Upd) → u ≢ free_to_update → new_freed s u ≡ s.freed + 1
busy-new_freed s free_to_update busy = absurd (busy refl)
busy-new_freed s u busy = refl

pub record Done (s t : System) : Type 0 where
  pub inv : Inv t
  pub idle : t.upd ≡ free_to_update
  pub cur : t.cur ≡ new_cur s s.upd
  pub freed : t.freed ≡ new_freed s s.upd

pub is_free-true : (u : Upd) → is_free u ≡ true → u ≡ free_to_update
is_free-true free_to_update e = refl
is_free-true u e = cc

pub is_free-false : (u : Upd) → is_free u ≡ false → u ≢ free_to_update
is_free-false u e q = let f : is_free u ≡ true = ap is_free q in cc

-- No update under way.
rank-zero : (u : Upd) → rank u ≤ 0 → u ≡ free_to_update
rank-zero free_to_update h = refl
rank-zero u h = absurd (omega arith)

Done-idle : (s : System) → Inv s → s.upd ≡ free_to_update → Done s s
Done-idle s inv idle = record {
  inv = inv;
  idle = idle;
  cur = sym (ap (new_cur s) idle);
  freed = sym (ap (new_freed s) idle);
}

pub run_update-Done :
    (n a : ℕ) (s : System) → Inv s → IsQuiet s → rank s.upd ≤ n → Done s (run_update n a s)
unfolding run_update
run_update-Done zero a s inv quiet few = Done-idle s inv (rank-zero s.upd few)
run_update-Done (suc n) a s inv quiet few = elim (Bool-cases (is_free s.upd)) [
  | inl idle ↦ rw idle (Done-idle s inv (is_free-true s.upd idle))
  | inr busy ↦
      let ne = is_free-false s.upd busy in
      let step = Advance-at s a s.upd quiet inv.phase ne in
      let t = update_at s a s.upd in
      let quiet' : IsQuiet t = λ i. rw (step.same) (quiet i) in
      let done =
        run_update-Done n a t (update_at-Inv s inv a s.upd refl (λ q. absurd (ne q))) quiet'
          (omega (arith, step.closer)) in
      rw busy (record {
        inv = done.inv;
        idle = done.idle;
        cur = done.cur ∙ step.cur;
        freed = done.freed ∙ step.freed;
      })
]
