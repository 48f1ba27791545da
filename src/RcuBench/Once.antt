-- ===== src/RcuBench/Once.antt =====
-- `run_once` of src/bench.c of 04-rcu-table with the RCU table: its readers and its writer at once,
-- each taking its accesses in any order. `freed` counts from the call of `rt_init` on, as the
-- difference that `run_once` reports does; the spinning of the writer and the clock are left out.
use comp.Shared.{ℕ, ◌+◌, ◌%◌, ◌≡◌, ◌<◌, Bool, true, false, none, some, if◌then◌else◌, update}
use comp.Rcu.{max_readers, rcu_register}
use comp.Table.{table_keys, Version}
use comp.Grace.{
  Pc, outside, checked, Upd, free_to_update, reclaimed, System, locked, join, quit, read_at,
  update_at, rt_init,
}

-- The table with `j` of the reader of each slot, what the readers have added up in `torn`, how many
-- of them have registered and how many have been joined, and `u` of the writer.
pub record Once : Type 0 where
  pub sys : System
  pub j : ℕ → ℕ
  pub torn : ℕ
  pub registered : ℕ
  pub joined : ℕ
  pub u : ℕ

-- Whether the next access ends a lookup, and what `torn += !ok` adds then.
abbrev pub ends_lookup : Pc → Bool
ends_lookup (checked x ok) = true
ends_lookup p = false

abbrev pub torn_by : Pc → ℕ
torn_by (checked x true) = 0
torn_by (checked x false) = 1
torn_by p = 0

abbrev pub ends_update : Upd → Bool
ends_update reclaimed = true
ends_update p = false

-- A reader that starts; `j` is 0 in the slot that it is given.
unfoldable pub register_reader : Once → Once
register_reader s = record s {
  sys = join s.sys;
  j = elim (rcu_register s.sys.readers).0 [ none ↦ s.j | some i ↦ update s.j i 0 ];
  registered = s.registered + 1;
}

-- The next access of the reader of slot `i`, which is in `rt_lookup` or about to call it.
unfoldable pub reader_access : Once → ℕ → Once
reader_access s i = record s {
  sys = read_at s.sys i (s.j i % table_keys) (s.sys.pc i);
  j = if ends_lookup (s.sys.pc i) then update s.j i (s.j i + 1) else s.j;
  torn = s.torn + torn_by (s.sys.pc i);
}

-- A reader after its last lookup.
unfoldable pub reader_leaves : Once → ℕ → Once
reader_leaves s i = record s { sys = quit s.sys i; joined = s.joined + 1 }

-- The next access of the writer; `a` is what malloc gives to an update that starts.
unfoldable pub writer_access : Once → ℕ → Once
writer_access s a = record s {
  sys = update_at s.sys a s.sys.upd;
  u = if ends_update s.sys.upd then s.u + 1 else s.u;
}

-- One access of a thread of `run_once` with so many updates, reads of each reader, and readers.
pub data OnceStep (updates reads nreaders : ℕ) (s : Once) : Once → Type 0 where
  registers :
      s.registered < nreaders
      → locked s.sys.upd ≡ false
      → OnceStep updates reads nreaders s (register_reader s)
  reads_on :
      (i : ℕ)
      → i < max_readers
      → s.j i < reads
      → OnceStep updates reads nreaders s (reader_access s i)
  leaves :
      (i : ℕ)
      → s.j i ≡ reads
      → s.sys.pc i ≡ outside
      → locked s.sys.upd ≡ false
      → OnceStep updates reads nreaders s (reader_leaves s i)
  writes :
      (a : ℕ)
      → s.u < updates
      → (s.sys.upd ≡ free_to_update → s.sys.heap a ≡ none)
      → OnceStep updates reads nreaders s (writer_access s a)

-- Before any thread has run, where `rt_init` has put its version at `a`.
unfoldable pub once_start : ℕ → Version → Once
once_start a v = record {
  sys = rt_init a v;
  j = λ i. 0;
  torn = 0;
  registered = 0;
  joined = 0;
  u = 0;
}

pub data OnceReach (updates reads nreaders : ℕ) (start : Once) : Once → Type 0 where
  begins : OnceReach updates reads nreaders start start
  goes_on :
      {s t : Once}
      → OnceReach updates reads nreaders start s
      → OnceStep updates reads nreaders s t
      → OnceReach updates reads nreaders start t
