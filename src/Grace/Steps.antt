-- ===== src/Grace/Steps.antt =====
-- Every step of the system keeps the invariant.
pub mod Readers
mod Kept
mod Versions
mod Waits
pub mod Updater
pub use Readers.{read_at-Inv, join-Inv, quit-Inv}
pub use Updater.{update_at-Inv}
use comp.Shared.{ℕ, refl}
use comp.Grace.{System, Step, enlist, leave, lookup, renew, Reach, here, next}
use comp.Grace.Inv.{Inv}

pub Step-Inv : {s t : System} → Step s t → Inv s → Inv t
Step-Inv {s} (enlist open_) inv = join-Inv s inv
Step-Inv {s} (leave i e open_) inv = quit-Inv s i e inv
Step-Inv {s} (lookup i key lt small) inv = read_at-Inv s inv i lt key small (s.pc i) refl
Step-Inv {s} (renew a unused) inv = update_at-Inv s inv a s.upd refl unused

pub Reach-Inv : {start s : System} → Inv start → Reach start s → Inv s
Reach-Inv inv here = inv
Reach-Inv inv (next r st) = Step-Inv st (Reach-Inv inv r)
