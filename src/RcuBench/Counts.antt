-- ===== src/RcuBench/Counts.antt =====
-- What `run_once` of src/bench.c of 04-rcu-table counts with the RCU table.
use comp.Shared.{
  ℕ, ◌+◌, ◌%◌, ◌≡◌, ◌≤◌, ◌∙◌, ap, refl, Bool, true, false, if◌then◌else◌, arith, Bool-cases, inl,
  inr, [], ◌∷◌,
}
use comp.Table.{table_keys, Version}
use comp.Grace.{
  Pc, gone, outside, entered, holding, loaded, checked, Upd, free_to_update, prepared, published,
  scanning, waiting, spinning, graced, reclaimed, System, join, quit, read_at, update_at, rt_init,
  Reach, here, next, enlist, leave, lookup, renew,
}
use comp.Grace.Safety.{lookup_never_torn}
use comp.RcuBench.Once.{
  Once, torn_by, ends_update, register_reader, reader_access, reader_leaves, writer_access,
  OnceStep, registers, reads_on, leaves, writes, once_start, OnceReach, begins, goes_on,
}

torn_by-ok : (p : Pc) → ((x : ℕ) (ok : Bool) → p ≡ checked x ok → ok ≡ true) → torn_by p ≡ 0
torn_by-ok gone h = refl
torn_by-ok outside h = refl
torn_by-ok (entered k) h = refl
torn_by-ok (holding k p) h = refl
torn_by-ok (loaded k p x) h = refl
torn_by-ok (checked x true) h = refl
torn_by-ok (checked x false) h = let z = h x false refl in absurd (ground arith)

join-freed : (s : System) → (join s).freed ≡ s.freed
unfolding join
join-freed s = ground arith

read_at-freed : (s : System) (i key : ℕ) (p : Pc) → (read_at s i key p).freed ≡ s.freed
unfolding read_at
read_at-freed s i key gone = refl
read_at-freed s i key outside = refl
read_at-freed s i key (entered k) = refl
read_at-freed s i key (holding k p) = ground arith
read_at-freed s i key (loaded k p x) = ground arith
read_at-freed s i key (checked x ok) = refl

update_at-freed :
    (s : System) (a : ℕ) (p : Upd)
    → (update_at s a p).freed ≡ (if ends_update p then s.freed + 1 else s.freed)
unfolding update_at
update_at-freed s a free_to_update = ground arith
update_at-freed s a (prepared old nv) = refl
update_at-freed s a (published old nv) = refl
update_at-freed s a (scanning old i ws) = ground arith
update_at-freed s a (waiting old []) = refl
update_at-freed s a (waiting old (w ∷ ws)) = ground arith
update_at-freed s a (spinning old w ws) = ground arith
update_at-freed s a (graced old) = refl
update_at-freed s a reclaimed = refl

-- What the counters stand for, in a state of `run_once`.
pub record Counting (updates a : ℕ) (v : Version) (s : Once) : Type 0 where
  pub reach : Reach (rt_init a v) s.sys
  pub none_torn : s.torn ≡ 0
  pub all_freed : s.sys.freed ≡ s.u
  pub within : s.u ≤ updates

module _ (updates reads nreaders a : ℕ) (v : Version) where
  start-Counting : Counting updates a v (once_start a v)
  unfolding once_start rt_init
  start-Counting = record { reach = here; none_torn = refl; all_freed = refl; within = omega arith }

  OnceStep-Counting :
      (s t : Once)
      → Counting updates a v s
      → OnceStep updates reads nreaders s t
      → Counting updates a v t
  unfolding register_reader reader_access reader_leaves writer_access quit
  OnceStep-Counting s t c (registers few free) = record {
    reach = next c.reach (enlist free);
    none_torn = c.none_torn;
    all_freed = join-freed s.sys ∙ c.all_freed;
    within = c.within;
  }
  OnceStep-Counting s t c (reads_on i slot more) =
      let z = torn_by-ok (s.sys.pc i) (λ x ok e. lookup_never_torn a v c.reach i x ok e) in
      record {
        reach = next c.reach (lookup i (s.j i % table_keys) slot (omega arith));
        none_torn = omega (arith, c.none_torn, z);
        all_freed = read_at-freed s.sys i (s.j i % table_keys) (s.sys.pc i) ∙ c.all_freed;
        within = c.within;
      }
  OnceStep-Counting s t c (leaves i all out free) = record {
    reach = next c.reach (leave i out free);
    none_torn = c.none_torn;
    all_freed = c.all_freed;
    within = c.within;
  }
  OnceStep-Counting s t c (writes b more unused) =
      let f = update_at-freed s.sys b s.sys.upd in
      let g = c.all_freed in
      let w = c.within in
      record {
        reach = next c.reach (renew b unused);
        none_torn = c.none_torn;
        all_freed = elim (Bool-cases (ends_update s.sys.upd)) [
          | inl y ↦ rw y (rw y at f ∙ ap (λ n. n + 1) g)
          | inr n ↦ rw n (rw n at f ∙ g)
        ];
        within = elim (Bool-cases (ends_update s.sys.upd)) [
          | inl y ↦ rw y (omega arith)
          | inr n ↦ rw n w
        ];
      }

  -- Whatever the readers and the writer of `run_once` do in which order, with the RCU table: the
  -- readers have added up no torn read, the versions that were freed are exactly as many as the
  -- updates that the writer has ended, which are no more than it is asked for, and what was done to
  -- the table is an execution of it.
  pub run_once-Counting :
      {s : Once} → OnceReach updates reads nreaders (once_start a v) s → Counting updates a v s
  run_once-Counting begins = start-Counting
  run_once-Counting (goes_on {s = s} {t = t} r st) = OnceStep-Counting s t (run_once-Counting r) st
