-- ===== src/Workload/Config.antt =====
-- `wl_default_config` of src/workload.c, from the numbers of config/params.h.
use comp.Shared.{ℕ, List, [], ◌∷◌, if◌then◌else◌, ltb}
use comp.Workload.{wl_min_workers}

abbrev pub wl_seed : ℕ
wl_seed = 250717358276124

abbrev pub wl_workers : ℕ
wl_workers = 4

abbrev pub wl_sizes : List ℕ
wl_sizes = 1000 ∷ (2000 ∷ (20000 ∷ (100000 ∷ [])))

abbrev pub wl_repeats : ℕ
wl_repeats = 3

-- `wl_config`
pub record Config : Type 0 where
  pub seed : ℕ
  pub workers : ℕ
  pub sizes : List ℕ
  pub warmup_runs : ℕ

unfoldable pub wl_default_config : Config
wl_default_config = record {
  seed = wl_seed;
  workers = if ltb wl_workers wl_min_workers then wl_min_workers else wl_workers;
  sizes = wl_sizes;
  warmup_runs = wl_repeats;
}
