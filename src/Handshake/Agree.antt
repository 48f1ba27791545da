-- ===== src/Handshake/Agree.antt =====
-- Two assignments of orderings that a memory model cannot tell apart.
use comp.Shared.{List, [], ◌∷◌, ◌++◌, ◌≡◌, refl, fun_ext, ℕ, zero, suc}
use comp.Handshake.{
  Site, Order, announce, deref, exit, publish, scan, seq, head, new_version, Model, State, Thread,
  reader, writer, Entry, step_store, load_enabled, reader_moves, writer_moves, flush_moves, moves,
  read_var,
}
use comp.Handshake.Explore.{Counts, explore}

-- The steps at the five sites are the same.
pub record Agree (m : Model) (o o' : Site → Order) : Type 0 where
  pub at_announce :
      (s : State)
      → step_store o m s reader announce seq 1 1 ≡ step_store o' m s reader announce seq 1 1
  pub at_deref : (s : State) → load_enabled o m s reader deref ≡ load_enabled o' m s reader deref
  pub at_exit :
      (s : State) → step_store o m s reader exit seq 2 4 ≡ step_store o' m s reader exit seq 2 4
  pub at_publish :
      (s : State)
      → step_store o m s writer publish head new_version 1
        ≡ step_store o' m s writer publish head new_version 1
  pub at_scan : (s : State) → load_enabled o m s writer scan ≡ load_enabled o' m s writer scan

module _ (m : Model) (o o' : Site → Order) (agree : Agree m o o') where
  reader_moves-Agree : (s : State) (n : ℕ) → reader_moves o m s n ≡ reader_moves o' m s n
  unfolding reader_moves read_var
  reader_moves-Agree s zero = agree.at_announce s
  reader_moves-Agree s (suc zero) = rw (agree.at_deref s) refl
  reader_moves-Agree s (suc (suc zero)) = refl
  reader_moves-Agree s (suc (suc (suc zero))) = agree.at_exit s
  reader_moves-Agree s n = refl

  writer_moves-Agree : (s : State) (n : ℕ) → writer_moves o m s n ≡ writer_moves o' m s n
  unfolding writer_moves read_var
  writer_moves-Agree s zero = agree.at_publish s
  writer_moves-Agree s (suc zero) = rw (agree.at_scan s) refl
  writer_moves-Agree s (suc (suc zero)) = rw (agree.at_scan s) refl
  writer_moves-Agree s (suc (suc (suc zero))) = refl
  writer_moves-Agree s n = refl

  flush_moves-Agree :
      (s : State) (t : Thread) (before after : List Entry)
      → flush_moves o m s t before after ≡ flush_moves o' m s t before after
  unfolding flush_moves
  flush_moves-Agree s t before [] = refl
  flush_moves-Agree s t before (e ∷ after) =
      rw (flush_moves-Agree s t (before ++ (e ∷ [])) after) refl

  moves-Agree : (s : State) → moves o m s ≡ moves o' m s
  unfolding moves
  moves-Agree s =
      rw
        (
          reader_moves-Agree s s.pc_r,
          writer_moves-Agree s s.pc_w,
          flush_moves-Agree s reader [] s.buf_r,
          flush_moves-Agree s writer [] s.buf_w,
        )
        refl

  -- They give the same counts.
  pub explore-Agree : (f : ℕ) (s : State) (k : Counts) → explore o m f s k ≡ explore o' m f s k
  unfolding explore
  explore-Agree zero s k = refl
  explore-Agree (suc f) s k =
      rw (moves-Agree s, fun_ext (λ k'. fun_ext (λ c. explore-Agree f c k'))) refl
