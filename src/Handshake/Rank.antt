-- ===== src/Handshake/Rank.antt =====
-- A rank of the states of the handshake, and what a move does to it.
use mathlib.Core.List.{append_assoc}
use comp.Shared.{
  refl, All, length, length-append, List, [], ◌∷◌, ◌++◌, ◌+◌, ◌*◌, ◌-◌, ◌≤◌, ◌<◌, ◌≡◌, ℕ, zero, suc,
  Bool-cases, arith, inl, inr, All-append, ◌∙◌, sym,
}
use comp.Handshake.{
  Order, Site, Model, Thread, reader, writer, Var, Entry, State, store_enabled, do_store,
  step_store, reader_moves, writer_moves, announce, exit, publish, head, seq, buf, flush_moves,
  moves, set_buf, set_mem, flush_enabled,
}

abbrev pub rank : State → ℕ
rank s = 2 * (4 - s.pc_r) + 2 * (4 - s.pc_w) + length s.buf_r + length s.buf_w

-- The counters stay, and a store buffer grows by one entry at most.
record Stored (s s' : State) : Type 0 where
  pc_r : s'.pc_r ≡ s.pc_r
  pc_w : s'.pc_w ≡ s.pc_w
  size : length s'.buf_r + length s'.buf_w ≤ length s.buf_r + length s.buf_w + 1

length_last : (b : List Entry) (e : Entry) → length (b ++ (e ∷ [])) ≡ length b + 1
length_last b e = length-append b (e ∷ [])

module _ (order : Site → Order) (model : Model) where
  abbrev Lower : State → List State → Type 0
  Lower s ts = All (λ t. rank t < rank s) ts

  do_store-Stored :
      (s : State) (t : Thread) (site : Site) (v : Var) (x : ℕ)
      → Stored s (do_store order model s t site v x)
  unfolding do_store
  do_store-Stored s reader site head x = grind (arith, length_last)
  do_store-Stored s reader site seq x = grind (arith, length_last)
  do_store-Stored s writer site head x = grind (arith, length_last)
  do_store-Stored s writer site seq x = grind (arith, length_last)

  step_reader-Lower :
      (s : State) (site : Site) (v : Var) (x n : ℕ)
      → s.pc_r ≡ n
      → n < 4
      → Lower s (step_store order model s reader site v x (suc n))
  unfolding step_store
  step_reader-Lower s site v x n e lt =
      elim (Bool-cases (store_enabled order model s reader site)) [
        | inl go ↦
            let st = do_store-Stored s reader site v x in
            rw go (omega (arith, st.pc_w, st.size), tt)
        | inr stop ↦ rw stop tt
      ]

  step_writer-Lower :
      (s : State) (site : Site) (v : Var) (x n : ℕ)
      → s.pc_w ≡ n
      → n < 4
      → Lower s (step_store order model s writer site v x (suc n))
  unfolding step_store
  step_writer-Lower s site v x n e lt =
      elim (Bool-cases (store_enabled order model s writer site)) [
        | inl go ↦
            let st = do_store-Stored s writer site v x in
            rw go (omega (arith, st.pc_r, st.size), tt)
        | inr stop ↦ rw stop tt
      ]

  reader_moves-Lower : (s : State) (n : ℕ) → s.pc_r ≡ n → Lower s (reader_moves order model s n)
  unfolding reader_moves
  reader_moves-Lower s zero e = step_reader-Lower s announce seq 1 0 e (omega arith)
  reader_moves-Lower s (suc zero) e = ground arith
  reader_moves-Lower s (suc (suc zero)) e = ground arith
  reader_moves-Lower s (suc (suc (suc zero))) e = step_reader-Lower s exit seq 2 3 e (omega arith)
  reader_moves-Lower s n e = tt

  writer_moves-Lower : (s : State) (n : ℕ) → s.pc_w ≡ n → Lower s (writer_moves order model s n)
  unfolding writer_moves
  writer_moves-Lower s zero e = step_writer-Lower s publish head _ 0 e (omega arith)
  writer_moves-Lower s (suc zero) e = ground arith
  writer_moves-Lower s (suc (suc zero)) e = ground arith
  writer_moves-Lower s (suc (suc (suc zero))) e = ground arith
  writer_moves-Lower s n e = tt

  commit_lt :
      (s : State) (t : Thread) (v : Var) (x : ℕ) (before after : List Entry) (e : Entry)
      → buf s t ≡ before ++ (e ∷ after)
      → rank (set_buf (set_mem s v x) t (before ++ after)) < rank s
  commit_lt s reader head x before after e q =
      rw q (omega (arith, length-append before (e ∷ after), length-append before after))
  commit_lt s reader seq x before after e q =
      rw q (omega (arith, length-append before (e ∷ after), length-append before after))
  commit_lt s writer head x before after e q =
      rw q (omega (arith, length-append before (e ∷ after), length-append before after))
  commit_lt s writer seq x before after e q =
      rw q (omega (arith, length-append before (e ∷ after), length-append before after))

  flush_moves-Lower :
      (s : State) (t : Thread) (before after : List Entry)
      → buf s t ≡ before ++ after
      → Lower s (flush_moves order model s t before after)
  unfolding flush_moves
  flush_moves-Lower s t before [] e = tt
  flush_moves-Lower s t before (x ∷ after) e =
      All-append (λ u. rank u < rank s) _ _
        (elim (Bool-cases (flush_enabled order model before x)) [
          | inl go ↦ rw go (commit_lt s t x.var x.val before after x e, tt)
          | inr stop ↦ rw stop tt
        ])
        (flush_moves-Lower s t (before ++ (x ∷ [])) after
          (e ∙ sym (append_assoc before (x ∷ []) after)))

  pub moves-Lower : (s : State) → Lower s (moves order model s)
  unfolding moves
  moves-Lower s = All-append _ _ _ (reader_moves-Lower s s.pc_r refl) (
      All-append _ _ _ (writer_moves-Lower s s.pc_w refl) (
        All-append _ _ _ (flush_moves-Lower s reader [] s.buf_r refl)
          (flush_moves-Lower s writer [] s.buf_w refl)))
