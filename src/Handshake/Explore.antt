-- ===== src/Handshake/Explore.antt =====
-- The search of week4/examples/04-rcu-table/model/handshake.c, and what its `main` runs on each
-- model.
use comp.Shared.{ℕ, zero, suc, ◌+◌, Bool, false, not, ◌&&◌, [], ◌==◌, if◌then◌else◌, foldl}
use comp.Handshake.{Order, Site, Model, State, old_version, is_empty, moves}

pub record Counts : Type 0 where
  pub n_exec : ℕ
  pub n_uaf : ℕ
  pub n_stuck : ℕ

-- Both threads have run to their end and both buffers are empty.
unfoldable pub complete : State → Bool
complete s = (s.pc_r == 4) && (s.pc_w == 4) && is_empty s.buf_r && is_empty s.buf_w

-- What `explore` counts where nothing could move.
unfoldable pub count_end : State → Counts → Counts
unfolding complete
count_end s k =
    if complete s
    then record k { n_exec = k.n_exec + 1; n_uaf = if s.uaf then k.n_uaf + 1 else k.n_uaf }
    else record k { n_stuck = k.n_stuck + 1 }

-- `moved` of `explore`: the counts have grown.
abbrev pub moved : Counts → Counts → Bool
moved before after = not (after.n_exec + after.n_stuck == before.n_exec + before.n_stuck)

-- `explore` on fuel, which bounds the depth of its calls.
unfoldable pub explore : (Site → Order) → Model → ℕ → State → Counts → Counts
unfolding moves count_end
explore order model zero s k = k
explore order model (suc fuel) s k =
    let after = foldl (λ k c. explore order model fuel c k) k (moves order model s) in
    if moved k after then after else count_end s after

-- What `main` starts from.
abbrev pub initial : State
initial = record {
  mem_head = old_version;
  mem_seq = 0;
  buf_r = [];
  buf_w = [];
  pc_r = 0;
  pc_w = 0;
  p = 0;
  snap = 0;
  freed = false;
  uaf = false;
}

abbrev pub no_counts : Counts
no_counts = record { n_exec = 0; n_uaf = 0; n_stuck = 0 }

-- Every step lowers the rank of `initial`, which is 16.
abbrev pub explore_fuel : ℕ
explore_fuel = 17

-- One round of the loop over the models in `main`.
unfoldable pub check_model : (Site → Order) → Model → Counts
unfolding explore
check_model order model = explore order model explore_fuel initial no_counts
