-- ===== src/Main.antt =====
-- src/main.cpp: the command line.
pub mod Flags
pub mod Modes
pub mod Safe
pub mod Reading
mod Tests
use pmr_market_simulator.Prelude.{
  ℕ, ◌+◌, Bool, true, false, Option, none, some, List, [], ◌∷◌, ◌++◌, ltb, ◌==◌, if◌then◌else◌,
}
use pmr_market_simulator.Prelude.Int.{ℤ}
use pmr_market_simulator.Prelude.Run.{Run, ok, abort, ◌>>=◌}
use pmr_market_simulator.Prelude.Texts.{text, eq_bytes, begins_with}
use pmr_market_simulator.Simulator.Config.{SimConfig}

-- One item of the list, which is left out if it is empty
abbrev pub push_item : List ℕ → List (List ℕ) → List (List ℕ)
push_item [] out = out
push_item (c ∷ item) out = (c ∷ item) ∷ out

-- `getline` up to a comma or the end; `item` is what it has read.
unfoldable pub split_from : List ℕ → List ℕ → List (List ℕ)
split_from item [] = push_item item []
split_from item (c ∷ s) = elim (c == 44) [
  | true ↦ push_item item (split_from [] s)
  | false ↦ split_from (item ++ (c ∷ [])) s
]

unfoldable pub split_csv : List ℕ → List (List ℕ)
unfolding split_from
split_csv s = split_from [] s

-- `std::stoull`, `std::stoi` and `std::stod`, which are parameters: `none` is an exception.
pub record Parse (Double : Type 0) : Type 0 where
  pub stoull : List ℕ → Option ℕ
  pub stoi : List ℕ → Option ℤ
  pub stod : List ℕ → Option Double

-- The flags that the loop compares an argument with
pub data Flag : Type 0 where
  events_flag seed_flag symbols_flag arena_bytes_flag sigma_flag drift_ampl_flag : Flag
  drift_period_flag log_flag print_arena_flag dump_flag read_flag threads_flag : Flag
  no_log_flag realtime_ts_flag grpc_flag help_flag : Flag

abbrev pub flags : List (List ℕ × Flag)
flags =
    (text "--events", events_flag)
    ∷ (text "--seed", seed_flag)
    ∷ (text "--symbols", symbols_flag)
    ∷ (text "--arena-bytes", arena_bytes_flag)
    ∷ (text "--sigma", sigma_flag)
    ∷ (text "--drift-ampl", drift_ampl_flag)
    ∷ (text "--drift-period", drift_period_flag)
    ∷ (text "--log", log_flag)
    ∷ (text "--print-arena", print_arena_flag)
    ∷ (text "--dump", dump_flag)
    ∷ (text "--read", read_flag)
    ∷ (text "--threads", threads_flag)
    ∷ (text "--no-log", no_log_flag)
    ∷ (text "--realtime-ts", realtime_ts_flag)
    ∷ (text "--grpc", grpc_flag)
    ∷ (text "--help", help_flag)
    ∷ []

abbrev pub look_up : List ℕ → List (List ℕ × Flag) → Option Flag
look_up a [] = none
look_up a ((name, f) ∷ rest) =
    let found = look_up a rest in if eq_bytes a name then some f else found

-- The local variables of `main` that the loop sets
pub record Options (Double : Type 0) : Type 0 where
  pub cfg : SimConfig Double
  pub no_log : Bool
  pub read_mode : Bool
  pub read_path : List ℕ

-- The end of the loop, or the return that `--help` makes after the usage text
pub data Parsed (Double : Type 0) : Type 0 where
  go : Options Double → Parsed Double
  help : Parsed Double

-- What the loop does with an argument and the one after it: leave `main`, go on with the second, or
-- go on after both
pub data Next (Double : Type 0) : Type 0 where
  usage : Next Double
  one two : Run (Options Double) → Next Double

module _ {Double : Type 0} where
  abbrev configure : Options Double → SimConfig Double → Options Double
  configure o cfg = record o { cfg = cfg }

  -- An exception of a conversion leaves `main`, which ends the process by `std::terminate`.
  abbrev converted : {A : Type 0} → Option A → (A → Options Double) → Run (Options Double)
  converted none set = abort
  converted (some a) set = ok (set a)

  -- A flag whose value is the next argument; for the other flags, `none`
  unfoldable pub with_value :
      Parse Double → Flag → List ℕ → Options Double → Option (Run (Options Double))
  unfolding split_csv
  with_value parse events_flag v o =
      some (converted (parse.stoull v) (λ n. configure o (record o.cfg { total_events = n })))
  with_value parse seed_flag v o =
      some (converted (parse.stoull v) (λ n. configure o (record o.cfg { seed = n })))
  with_value parse symbols_flag v o =
      some (ok (configure o (record o.cfg { symbol_list = split_csv v })))
  with_value parse arena_bytes_flag v o =
      some (converted (parse.stoull v) (λ n. configure o (record o.cfg { arena_bytes = n })))
  with_value parse sigma_flag v o =
      some (converted (parse.stod v) (λ x. configure o (record o.cfg { sigma = x })))
  with_value parse drift_ampl_flag v o =
      some (converted (parse.stod v) (λ x. configure o (record o.cfg { drift_ampl = x })))
  with_value parse drift_period_flag v o =
      some (converted (parse.stoull v) (λ n. configure o (record o.cfg { drift_period = n })))
  with_value parse log_flag v o = some (ok (configure o (record o.cfg { log_path = v })))
  with_value parse dump_flag v o =
      some (converted (parse.stoi v) (λ n. configure o (record o.cfg { dump_n = n })))
  with_value parse threads_flag v o =
      some (converted (parse.stoi v) (λ n. configure o (record o.cfg { num_threads = n })))
  with_value parse grpc_flag v o = some (ok (configure o (record o.cfg { grpc_target = v })))
  with_value parse print_arena_flag v o = none
  with_value parse read_flag v o = none
  with_value parse no_log_flag v o = none
  with_value parse realtime_ts_flag v o = none
  with_value parse help_flag v o = none

  -- A flag without a value, and an argument that is no flag or lacks its value
  unfoldable pub alone : Option Flag → Options Double → Options Double
  alone (some print_arena_flag) o = configure o (record o.cfg { print_arena = true })
  alone (some no_log_flag) o = record (configure o (record o.cfg { log_path = [] })) {
    no_log = true;
  }
  alone (some realtime_ts_flag) o = configure o (record o.cfg { realtime_ts = true })
  alone _ o = o

  abbrev pub take_value : Option (Run (Options Double)) → Options Double → Next Double
  take_value (some r) o = two r
  take_value none o = one (ok o)

  -- A value of `--read` that begins with a minus sign is left where it is.
  abbrev pub read_value : Bool → List ℕ → Options Double → Next Double
  read_value true v o = one (ok (record o { read_mode = true; read_path = text "store.mdb" }))
  read_value false v o = two (ok (record o { read_mode = true; read_path = v }))

  unfoldable pub next_args : Parse Double → Option Flag → List ℕ → Options Double → Next Double
  unfolding with_value alone
  next_args parse none v o = one (ok o)
  next_args parse (some help_flag) v o = usage
  next_args parse (some read_flag) v o = read_value (begins_with v (text "-")) v o
  next_args parse (some f) v o = take_value (with_value parse f v o) (alone (some f) o)

  abbrev pub last_arg : Option Flag → Options Double → Parsed Double
  last_arg (some help_flag) o = help
  last_arg f o = go (alone f o)

  -- The loop over the arguments after the program's name
  unfoldable pub parse_args : Parse Double → List (List ℕ) → Options Double → Run (Parsed Double)
  unfolding next_args alone
  parse_args parse [] o = ok (go o)
  parse_args parse (a ∷ []) o = ok (last_arg (look_up a flags) o)
  parse_args parse (a ∷ v ∷ rest) o = elim (next_args parse (look_up a flags) v o) [
    | usage ↦ ok help
    | one r ↦ r >>= parse_args parse (v ∷ rest)
    | two r ↦ r >>= parse_args parse rest
  ]
