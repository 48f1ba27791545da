-- ===== src/Grace/Steps/Updater.antt =====
-- The steps of the updater keep the invariant.
use comp.Shared.{ℕ, ◌≡◌, refl, none}
use comp.Grace.{
  Upd, free_to_update, prepared, published, scanning, waiting, spinning, graced, reclaimed, System,
  update_at,
}
use comp.Grace.Inv.{Inv}
use comp.Grace.Steps.Versions.{prepare-Inv, publish-Inv, free-Inv, count-Inv}
use comp.Grace.Steps.Waits.{synchronize-Inv, scan-Inv, wait-Inv, spin-Inv}

module _ (s : System) (inv : Inv s) where
  pub update_at-Inv :
      (a : ℕ) (u : Upd) → s.upd ≡ u → (u ≡ free_to_update → s.heap a ≡ none) → Inv (update_at s a u)
  update_at-Inv a free_to_update e unused = prepare-Inv s inv a e (unused refl)
  update_at-Inv a (prepared old nv) e unused = publish-Inv s inv a old nv e
  update_at-Inv a (published old nv) e unused = synchronize-Inv s inv a old nv e
  update_at-Inv a (scanning old k ws) e unused = scan-Inv s inv a old k ws e
  update_at-Inv a (waiting old ws) e unused = wait-Inv s inv a old ws e
  update_at-Inv a (spinning old w ws) e unused = spin-Inv s inv a old w ws e
  update_at-Inv a (graced old) e unused = free-Inv s inv a old e
  update_at-Inv a reclaimed e unused = count-Inv s inv a e
