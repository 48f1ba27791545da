-- ===== src/Grace/Steps/Versions.antt =====
-- The accesses of rt_update that make, publish and free a version keep the invariant.
use comp.Shared.{
  ◌∙◌, sym, ap, ℕ, ◌+◌, ◌≡◌, ◌≢◌, refl, inl, inr, none, some, arith, ◌==◌, update, Bool-cases,
}
use comp.Table.{fill}
use comp.Table.Laws.{fill-IsWhole, fill-gen}
use comp.Grace.{free_to_update, prepared, published, graced, reclaimed, System, update_at}
use comp.Grace.Inv.{Heap, Block, PhaseOk, Inv}
use comp.Grace.Steps.Readers.{load-some}
use comp.Grace.Steps.Kept.{Block-update, apart, slots_keep, phase_at}

module _ (s : System) (inv : Inv s) where
  pub prepare-Inv :
      (a : ℕ) → s.upd ≡ free_to_update → s.heap a ≡ none → Inv (update_at s a free_to_update)
  unfolding update_at
  prepare-Inv a e unused = rw (load-some s s.latest _ blk.version old_at) (record {
    slots =
        slots_keep s inv free_to_update after s.cur (prepared s.latest a) e
          (λ i q lt ins. elim [ inl h ↦ inl h | inr h ↦ absurd h ])
          (λ i q. elim [ inl h ↦ let ne : a ≢ q = rw h ne_cur in ground arith | inr h ↦ absurd h ]);
    phase = (
      refl,
      sym ok.0,
      record {
        differ = λ q. ne_cur (sym q ∙ ok.0);
        was = rw (ok.0) (Block-update a _ ne_cur blk);
        is_now = record {
          version = fill blk.version (blk.version.gen + 1);
          at = ground arith;
          gen = fill-gen blk.version (blk.version.gen + 1) ∙ ap (λ (g : ℕ). g + 1) blk.gen;
          whole = fill-IsWhole blk.version (blk.version.gen + 1);
        };
        only = λ b ne_old ne_a.
            let none_at = ok.1.only b (λ q. ne_old (q ∙ sym ok.0)) in
            let ne : a ≢ b = λ q. ne_a (sym q) in ground arith;
      },
    );
    range = inv.range;
    clean = inv.clean;
  })
    where
      ok : PhaseOk s free_to_update
      ok = phase_at s inv e

      blk : Block s.heap s.cur s.freed
      blk = ok.1.is_now

      after : Heap
      after = update s.heap a (some (fill blk.version (blk.version.gen + 1)))

      ne_cur : a ≢ s.cur
      ne_cur = apart unused blk

      old_at : s.heap s.latest ≡ some blk.version
      old_at = rw (ok.0) blk.at

  pub publish-Inv : (a old nv : ℕ) → s.upd ≡ prepared old nv → Inv (update_at s a (prepared old nv))
  unfolding update_at
  publish-Inv a old nv e =
      let ok = phase_at s inv e in
      record {
        slots =
            slots_keep s inv (prepared old nv) s.heap nv (published old nv) e
              (λ i q lt ins. elim [ inl h ↦ inr (h ∙ ok.1) | inr h ↦ absurd h ]) (λ i q h. refl);
        phase = (ok.0, refl, ok.2);
        range = inv.range;
        clean = inv.clean;
      }

  pub free-Inv : (a old : ℕ) → s.upd ≡ graced old → Inv (update_at s a (graced old))
  unfolding update_at
  free-Inv a old e =
      let ok = phase_at s inv e in
      record {
        slots =
            slots_keep s inv (graced old) (update s.heap old none) s.cur reclaimed e
              (λ i q lt ins. elim [ inl h ↦ inl h | inr h ↦ absurd h ])
              (λ i q. elim [
                | inl h ↦ let ne : old ≢ q = rw h ok.1.differ in ground arith
                | inr h ↦ absurd h
              ]);
        phase = (
          ok.0,
          record {
            is_now = Block-update old none ok.1.differ ok.1.is_now;
            only = λ b ne. elim (Bool-cases (old == b)) [
              | inl q ↦ ground arith
              | inr q ↦ let no = ok.1.only b (ground arith) ne in ground arith
            ];
          },
        );
        range = inv.range;
        clean = inv.clean;
      }

  pub count-Inv : (a : ℕ) → s.upd ≡ reclaimed → Inv (update_at s a reclaimed)
  unfolding update_at
  count-Inv a e = record {
    slots =
        slots_keep s inv reclaimed s.heap s.cur free_to_update e
          (λ i q lt ins. elim [ inl h ↦ inl h | inr h ↦ absurd h ]) (λ i q h. refl);
    phase = phase_at s inv e;
    range = inv.range;
    clean = inv.clean;
  }
