-- ===== src/Simulator/Config.antt =====
-- include/msim/simulator.hpp: `SimConfig` and the counters of a thread.
use pmr_market_simulator.Prelude.{ℕ, ◌^◌, Bool, false, List, [], ◌∷◌}
use pmr_market_simulator.Prelude.Int.{ℤ, pos}
use pmr_market_simulator.Prelude.Texts.{text}
use pmr_market_simulator.Float.{Float}

pub record SimConfig (Double : Type 0) : Type 0 where
  pub total_events : ℕ
  pub seed : ℕ
  pub symbol_list : List (List ℕ)
  pub arena_bytes : ℕ
  pub sigma : Double
  pub drift_ampl : Double
  pub drift_period : ℕ
  pub log_path : List ℕ
  pub print_arena : Bool
  pub dump_n : ℤ
  pub num_threads : ℤ
  pub grpc_target : List ℕ
  pub realtime_ts : Bool

-- The initializers of the members
abbrev pub default_config : (fp : Float) → SimConfig fp.Double
default_config fp = record {
  total_events = 100000;
  seed = 42;
  symbol_list = [];
  arena_bytes = 2 ^ 20;
  sigma = fp.decimal 1 3;
  drift_ampl = fp.decimal 0 0;
  drift_period = 10000;
  log_path = [];
  print_arena = false;
  dump_n = pos 0;
  num_threads = pos 1;
  grpc_target = [];
  realtime_ts = false;
}

-- `Simulator::default_symbols`
abbrev pub default_symbols : List (List ℕ)
default_symbols = text "AAPL" ∷ text "MSFT" ∷ text "GOOG" ∷ []
