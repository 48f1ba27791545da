-- ===== src/Grace.antt =====
-- The RCU table of table.c over the registry of rcu.c, run by any number of readers and updaters.
-- Memory is sequentially consistent here; the weaker orderings are the business of Handshake.
-- A reader thread owns a slot of the registry; updaters exclude each other by the mutex `update`,
-- so one updater at most has left the state `free_to_update`. Each step makes one access to
-- memory that another thread can see; but the malloc of `rt_update`, which comes before its lock, is
-- one step with taking the mutex, so an updater that holds a fresh version while it waits for the
-- mutex is left out: "no update under way" means that no updater is inside `rt_update` at all.
pub mod Inv
pub mod Steps
pub mod Safety
mod Rank
pub mod Progress
mod Tests
use comp.Shared.{
  ℕ, suc, zero, ◌+◌, ◌%◌, ◌<◌, ◌≡◌, Bool, true, false, Option, none, some, List, [], ◌∷◌, ◌==◌,
  if◌then◌else◌, add64, update, ltb,
}
use comp.Rcu.{
  max_readers, Reader, rcu_register, rcu_unregister, rcu_read_lock, rcu_read_unlock, Wait, sample,
  still_inside,
}
use comp.Table.{table_keys, Version, fill, consistent}

-- Where the thread of a slot stands in `rt_lookup`, with its locals.
pub data Pc : Type 0 where
  gone : Pc  -- the slot is not registered
  outside : Pc  -- registered, no lookup under way
  entered : (key : ℕ) → Pc  -- after rcu_read_lock
  holding : (key p : ℕ) → Pc  -- after rcu_dereference
  loaded : (key p x : ℕ) → Pc  -- after `x = v->val[key]`
  checked : (x : ℕ) (ok : Bool) → Pc  -- after `consistent`

-- Where the updater that holds the mutex stands in `rt_update`.
pub data Upd : Type 0 where
  free_to_update : Upd  -- no updater holds the mutex
  prepared : (old nv : ℕ) → Upd  -- the copy is filled
  published : (old nv : ℕ) → Upd  -- after rcu_assign_pointer
  scanning : (old i : ℕ) (ws : List Wait) → Upd  -- first loop of synchronize_rcu, before slot `i`
  waiting : (old : ℕ) (ws : List Wait) → Upd  -- second loop, at the head of `ws`
  spinning : (old : ℕ) (w : Wait) (ws : List Wait) → Upd  -- its inner loop
  graced : (old : ℕ) → Upd  -- synchronize_rcu has returned
  reclaimed : Upd  -- `old` is freed

pub record System : Type 0 where
  pub readers : ℕ → Reader
  pub pc : ℕ → Pc
  pub heap : ℕ → Option Version
  pub cur : ℕ
  pub latest : ℕ
  pub upd : Upd
  pub sync_waits : ℕ
  pub freed : ℕ
  pub fault : Bool  -- some thread read through a pointer to memory that was not allocated

-- The updater holds the registry lock while it scans, and only then.
abbrev pub locked : Upd → Bool
locked (scanning old i ws) = true
locked u = false

-- A thread registers, and takes the slot that it is given.
unfoldable pub join : System → System
join s =
    let (slot, readers) = rcu_register s.readers in
    elim slot [ none ↦ s | some i ↦ record s { readers = readers; pc = update s.pc i outside } ]

-- The thread of slot `i` unregisters.
unfoldable pub quit : System → ℕ → System
quit s i = record s {
  readers = update s.readers i (rcu_unregister (s.readers i));
  pc = update s.pc i gone;
}

-- The thread of slot `i` goes to `p`.
abbrev pub goto : System → ℕ → Pc → System
goto s i p = record s { pc = update s.pc i p }

-- A load through `p`: of what is there, or a fault.
abbrev pub load : System → ℕ → (Version → System) → System
load s p use_it = elim (s.heap p) [ none ↦ record s { fault = true } | some v ↦ use_it v ]

-- The next access of `rt_lookup` by the thread of slot `i`; a new lookup is for `key`.
unfoldable pub read_at : System → ℕ → ℕ → Pc → System
read_at s i key gone = s
read_at s i key outside = record s {
  readers = update s.readers i (rcu_read_lock (s.readers i));
  pc = update s.pc i (entered key);
}
read_at s i key (entered k) = goto s i (holding k s.cur)
read_at s i key (holding k p) = load s p (λ v. goto s i (loaded k p (v.val k)))
read_at s i key (loaded k p x) = load s p (λ v. goto s i (checked x (consistent v k x)))
read_at s i key (checked x ok) = record s {
  readers = update s.readers i (rcu_read_unlock (s.readers i));
  pc = update s.pc i outside;
}

-- The next access of `rt_update`; `a` is what malloc gives to an updater that starts.
unfoldable pub update_at : System → ℕ → Upd → System
update_at s a free_to_update = load s s.latest (λ old. record s {
  heap = update s.heap a (some (fill old (old.gen + 1)));
  upd = prepared s.latest a;
})
update_at s a (prepared old nv) = record s { cur = nv; upd = published old nv }
update_at s a (published old nv) = record s { latest = nv; upd = scanning old 0 [] }
update_at s a (scanning old i ws) =
    if ltb i max_readers
    then record s { upd = scanning old (i + 1) (sample s.readers i ws) }
    else record s { upd = waiting old ws }
update_at s a (waiting old []) = record s { upd = graced old }
update_at s a (waiting old (w ∷ ws)) =
    if w.seq % 2 == 0
    then record s { upd = waiting old ws }
    else record s { sync_waits = add64 s.sync_waits 1; upd = spinning old w ws }
update_at s a (spinning old w ws) =
    if still_inside s.readers w then s else record s { upd = waiting old ws }
update_at s a (graced old) = record s { heap = update s.heap old none; upd = reclaimed }
update_at s a reclaimed = record s { freed = s.freed + 1; upd = free_to_update }

abbrev pub is_free : Upd → Bool
is_free free_to_update = true
is_free u = false

-- `n` accesses of the updater that holds the mutex, at most, with nothing in between.
unfoldable pub run_update : ℕ → ℕ → System → System
run_update zero a s = s
run_update (suc n) a s =
    let rest = run_update n a (update_at s a s.upd) in if is_free s.upd then s else rest

-- Enough for one update: 64 slots are scanned, and each takes two more steps at most.
abbrev pub update_fuel : ℕ
update_fuel = 198

-- A whole `rt_update` that gets `a` from malloc, where no reader moves meanwhile.
unfoldable pub rt_update : ℕ → System → System
rt_update a s = run_update update_fuel a (update_at s a free_to_update)

-- One step of the system. `malloc` may give any address that is not in use, one freed before too;
-- where it gives none, `rt_update` returns and nothing has changed.
pub data Step (s : System) : System → Type 0 where
  enlist : locked s.upd ≡ false → Step s (join s)
  leave : (i : ℕ) → s.pc i ≡ outside → locked s.upd ≡ false → Step s (quit s i)
  lookup : (i key : ℕ) → i < max_readers → key < table_keys → Step s (read_at s i key (s.pc i))
  renew : (a : ℕ) → (s.upd ≡ free_to_update → s.heap a ≡ none) → Step s (update_at s a s.upd)

-- The static registry before any call.
abbrev pub unused_reader : Reader
unused_reader = record { seq = 0; reads = 0; local_seq = 0; in_use = false }

-- After `rt_init` has put its version at `a`, where the storage held `v`, and before any reader has
-- registered.
unfoldable pub rt_init : ℕ → Version → System
rt_init a v = record {
  readers = λ _. unused_reader;
  pc = λ _. gone;
  heap = update (λ _. none) a (some (fill v 0));
  cur = a;
  latest = a;
  upd = free_to_update;
  sync_waits = 0;
  freed = 0;
  fault = false;
}

-- `rt_destroy`, which no reader and no updater may overlap.
unfoldable pub rt_destroy : System → System
rt_destroy s = record s { heap = update s.heap s.latest none }

-- What can happen after `rt_init`.
pub data Reach (start : System) : System → Type 0 where
  here : Reach start start
  next : {s t : System} → Reach start s → Step s t → Reach start t
