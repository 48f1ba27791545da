-- ===== src/Handshake/Persist.antt =====
-- The record of a use after free along the moves.
use comp.Shared.{
  All, All-mem, List, [], ◌∷◌, ◌++◌, ◌≡◌, ℕ, zero, suc, Bool-cases, arith, inl, inr, true,
  All-append,
}
use comp.Handshake.{
  Order, Site, Model, State, Thread, Var, Entry, reader, writer, moves, step_store, do_store,
  reader_moves, writer_moves, flush_moves, store_enabled, flush_enabled, set_buf, set_mem, head,
  seq, announce, exit, publish,
}
use comp.Handshake.Ends.{Reach, here, next}

module _ (order : Site → Order) (model : Model) where
  do_store-uaf :
      (s : State) (t : Thread) (site : Site) (v : Var) (x : ℕ)
      → s.uaf ≡ true
      → (do_store order model s t site v x).uaf ≡ true
  unfolding do_store
  do_store-uaf s reader site head x h = ground arith
  do_store-uaf s reader site seq x h = ground arith
  do_store-uaf s writer site head x h = ground arith
  do_store-uaf s writer site seq x h = ground arith

  abbrev Uaf : List State → Type 0
  Uaf ts = All (λ t. t.uaf ≡ true) ts

  step_store-Uaf :
      (s : State) (t : Thread) (site : Site) (v : Var) (x n : ℕ)
      → s.uaf ≡ true
      → Uaf (step_store order model s t site v x n)
  unfolding step_store
  step_store-Uaf s reader site v x n h =
      elim (Bool-cases (store_enabled order model s reader site)) [
        | inl go ↦ rw go (do_store-uaf s reader site v x h, tt)
        | inr stop ↦ rw stop tt
      ]
  step_store-Uaf s writer site v x n h =
      elim (Bool-cases (store_enabled order model s writer site)) [
        | inl go ↦ rw go (do_store-uaf s writer site v x h, tt)
        | inr stop ↦ rw stop tt
      ]

  reader_moves-Uaf : (s : State) (n : ℕ) → s.uaf ≡ true → Uaf (reader_moves order model s n)
  unfolding reader_moves
  reader_moves-Uaf s zero h = step_store-Uaf s reader announce seq 1 1 h
  reader_moves-Uaf s (suc zero) h = ground arith
  reader_moves-Uaf s (suc (suc zero)) h = ground arith
  reader_moves-Uaf s (suc (suc (suc zero))) h = step_store-Uaf s reader exit seq 2 4 h
  reader_moves-Uaf s n h = tt

  writer_moves-Uaf : (s : State) (n : ℕ) → s.uaf ≡ true → Uaf (writer_moves order model s n)
  unfolding writer_moves
  writer_moves-Uaf s zero h = step_store-Uaf s writer publish head _ _ h
  writer_moves-Uaf s (suc zero) h = ground arith
  writer_moves-Uaf s (suc (suc zero)) h = ground arith
  writer_moves-Uaf s (suc (suc (suc zero))) h = ground arith
  writer_moves-Uaf s n h = tt

  commit-uaf :
      (s : State) (t : Thread) (v : Var) (x : ℕ) (b : List Entry)
      → s.uaf ≡ true
      → (set_buf (set_mem s v x) t b).uaf ≡ true
  commit-uaf s reader head x b h = h
  commit-uaf s reader seq x b h = h
  commit-uaf s writer head x b h = h
  commit-uaf s writer seq x b h = h

  flush_moves-Uaf :
      (s : State) (t : Thread) (before after : List Entry)
      → s.uaf ≡ true
      → Uaf (flush_moves order model s t before after)
  unfolding flush_moves
  flush_moves-Uaf s t before [] h = tt
  flush_moves-Uaf s t before (x ∷ after) h =
      All-append (λ u. u.uaf ≡ true) _ _
        (elim (Bool-cases (flush_enabled order model before x)) [
          | inl go ↦ rw go (commit-uaf s t x.var x.val _ h, tt)
          | inr stop ↦ rw stop tt
        ])
        (flush_moves-Uaf s t (before ++ (x ∷ [])) after h)

  moves-Uaf : (s : State) → s.uaf ≡ true → Uaf (moves order model s)
  unfolding moves
  moves-Uaf s h = All-append _ _ _ (reader_moves-Uaf s s.pc_r h) (
      All-append _ _ _ (writer_moves-Uaf s s.pc_w h) (
        All-append _ _ _ (flush_moves-Uaf s reader [] s.buf_r h)
          (flush_moves-Uaf s writer [] s.buf_w h)))

  pub Reach-uaf : {s t : State} → Reach order model s t → s.uaf ≡ true → t.uaf ≡ true
  Reach-uaf here h = h
  Reach-uaf (next {t} {u} r m) h =
      All-mem (λ w. w.uaf ≡ true) (moves order model t) u (moves-Uaf t (Reach-uaf r h)) m
