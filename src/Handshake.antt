-- ===== src/Handshake.antt =====
-- The model checker week4/examples/04-rcu-table/model/handshake.c: one reader and one writer of the
-- RCU handshake on three memory models, and the search through every interleaving. A store buffer
-- is a list, oldest store first. The trace that is kept for printing is left out.
pub mod Explore
pub mod Search
pub mod Rank
pub mod Ends
pub mod Persist
pub mod Verdict
pub mod Agree
pub mod Program
mod Printed
mod Tests
pub mod Rows
pub mod Orders
use comp.Shared.{
  ℕ, zero, suc, ◌+◌, ◌%◌, Bool, true, false, not, ◌&&◌, Option, none, some, List, [], ◌∷◌, ◌++◌,
  ◌==◌, if◌then◌else◌, foldl,
}

pub data Order : Type 0 where
  relaxed acquire release seq_cst : Order

pub data Site : Type 0 where
  announce deref exit publish scan : Site

pub data Model : Type 0 where
  sequential tso arm : Model

pub data Var : Type 0 where
  head seq : Var

pub data Thread : Type 0 where
  reader writer : Thread

-- OLD and NEW, the two versions.
abbrev pub old_version : ℕ
old_version = 1

abbrev pub new_version : ℕ
new_version = 2

pub record Entry : Type 0 where
  pub var : Var
  pub val : ℕ
  pub stlr : Bool

pub record State : Type 0 where
  pub mem_head : ℕ
  pub mem_seq : ℕ
  pub buf_r : List Entry
  pub buf_w : List Entry
  pub pc_r : ℕ
  pub pc_w : ℕ
  pub p : ℕ
  pub snap : ℕ
  pub freed : Bool
  pub uaf : Bool

abbrev pub is_seq_cst : Order → Bool
is_seq_cst seq_cst = true
is_seq_cst o = false

abbrev pub is_relaxed : Order → Bool
is_relaxed relaxed = true
is_relaxed o = false

abbrev pub is_arm : Model → Bool
is_arm arm = true
is_arm m = false

abbrev pub is_tso : Model → Bool
is_tso tso = true
is_tso m = false

abbrev pub is_sequential : Model → Bool
is_sequential sequential = true
is_sequential m = false

abbrev pub same_var : Var → Var → Bool
same_var head head = true
same_var seq seq = true
same_var a b = false

abbrev pub mem : State → Var → ℕ
mem s head = s.mem_head
mem s seq = s.mem_seq

abbrev pub buf : State → Thread → List Entry
buf s reader = s.buf_r
buf s writer = s.buf_w

abbrev pub set_mem : State → Var → ℕ → State
set_mem s head v = record s { mem_head = v }
set_mem s seq v = record s { mem_seq = v }

abbrev pub set_buf : State → Thread → List Entry → State
set_buf s reader b = record s { buf_r = b }
set_buf s writer b = record s { buf_w = b }

abbrev pub set_pc : State → Thread → ℕ → State
set_pc s reader n = record s { pc_r = n }
set_pc s writer n = record s { pc_w = n }

-- The newest store to `v` in a buffer.
unfoldable pub newest : List Entry → Var → Option ℕ
newest [] v = none
newest (e ∷ es) v = elim (newest es v) [
  | some x ↦ some x
  | none ↦ if same_var e.var v then some e.val else none
]

unfoldable pub any_stlr : List Entry → Bool
any_stlr [] = false
any_stlr (e ∷ es) = if e.stlr then true else any_stlr es

-- The loop of `flush_enabled`: no store before `e` keeps it back.
unfoldable pub none_before : List Entry → Entry → Bool
none_before [] e = true
none_before (b ∷ bs) e =
    if same_var b.var e.var then false else if e.stlr then false else none_before bs e

abbrev pub is_empty : List Entry → Bool
is_empty [] = true
is_empty (e ∷ es) = false

module _ (order : Site → Order) (model : Model) where
  unfoldable pub read_var : State → Thread → Var → ℕ
  unfolding newest
  read_var s t v =
      if is_sequential model
      then mem s v
      else elim (newest (buf s t) v) [ some x ↦ x | none ↦ mem s v ]

  unfoldable pub load_enabled : State → Thread → Site → Bool
  unfolding any_stlr
  load_enabled s t site =
      if is_arm model && is_seq_cst (order site) then not (any_stlr (buf s t)) else true

  unfoldable pub store_enabled : State → Thread → Site → Bool
  store_enabled s t site =
      if is_tso model && is_seq_cst (order site) then is_empty (buf s t) else true

  unfoldable pub do_store : State → Thread → Site → Var → ℕ → State
  do_store s t site v x =
      if is_sequential model
      then set_mem s v x
      else if is_tso model && is_seq_cst (order site)
      then set_mem s v x
      else set_buf s t (
          buf s t
          ++ (record { var = v; val = x; stlr = is_arm model && not (is_relaxed (order site)) }
              ∷ []))

  -- `before` are the stores of the buffer that are older than `e`.
  unfoldable pub flush_enabled : List Entry → Entry → Bool
  unfolding none_before
  flush_enabled before e = if is_tso model then is_empty before else none_before before e

  -- The states that `step_store` goes on to, one or none.
  unfoldable pub step_store : State → Thread → Site → Var → ℕ → ℕ → List State
  unfolding store_enabled do_store
  step_store s t site v x next_pc =
      if store_enabled s t site then set_pc (do_store s t site v x) t next_pc ∷ [] else []

  -- The reader's part of `explore`, at its program counter.
  unfoldable pub reader_moves : State → ℕ → List State
  unfolding step_store load_enabled read_var
  reader_moves s zero = step_store s reader announce seq 1 1
  reader_moves s (suc zero) =
      if load_enabled s reader deref
      then record s { p = read_var s reader head; pc_r = 2 } ∷ []
      else []
  reader_moves s (suc (suc zero)) =
      (if (s.p == old_version) && s.freed
        then record s { uaf = true; pc_r = 3 }
        else record s { pc_r = 3 })
      ∷ []
  reader_moves s (suc (suc (suc zero))) = step_store s reader exit seq 2 4
  reader_moves s n = []

  -- The writer's part.
  unfoldable pub writer_moves : State → ℕ → List State
  unfolding step_store load_enabled read_var
  writer_moves s zero = step_store s writer publish head new_version 1
  writer_moves s (suc zero) =
      if load_enabled s writer scan
      then (let snap = read_var s writer seq in
          record s { snap = snap; pc_w = if snap % 2 == 0 then 3 else 2 } ∷ [])
      else []
  writer_moves s (suc (suc zero)) =
      if load_enabled s writer scan && not (read_var s writer seq == s.snap)
      then record s { pc_w = 3 } ∷ []
      else []
  writer_moves s (suc (suc (suc zero))) = record s { freed = true; pc_w = 4 } ∷ []
  writer_moves s n = []

  -- The commits from the buffer of `t`, of which `before` has been looked at.
  unfoldable pub flush_moves : State → Thread → List Entry → List Entry → List State
  unfolding flush_enabled
  flush_moves s t before [] = []
  flush_moves s t before (e ∷ after) =
      (if flush_enabled before e
        then set_buf (set_mem s e.var e.val) t (before ++ after) ∷ []
        else [])
      ++ flush_moves s t (before ++ (e ∷ [])) after

  -- Every state that `explore` calls itself on, in order.
  unfoldable pub moves : State → List State
  unfolding reader_moves writer_moves flush_moves
  moves s =
      reader_moves s s.pc_r
      ++ (writer_moves s s.pc_w
          ++ (flush_moves s reader [] s.buf_r ++ flush_moves s writer [] s.buf_w))

-- The check of the orderings in `main`: no store acquires and no load releases.
unfoldable pub allowed : Site → Order → Bool
allowed announce acquire = false
allowed exit acquire = false
allowed publish acquire = false
allowed deref release = false
allowed scan release = false
allowed site o = true

-- The orderings of src/orders.h.
unfoldable pub orders_h : Site → Order
orders_h announce = seq_cst
orders_h deref = seq_cst
orders_h exit = release
orders_h publish = seq_cst
orders_h scan = seq_cst
