-- ===== src/Main/Tests.antt =====
-- The command line at concrete arguments. Numbers are decimal digits, doubles are natural numbers.
use pmr_market_simulator.Prelude.{
  ℕ, ◌+◌, ◌-◌, ◌*◌, ◌≡◌, ◌≢◌, refl, true, false, Option, none, some, List, [], ◌∷◌, arith, leb,
  ◌&&◌, if◌then◌else◌,
}
use mathlib.Core.Option
use pmr_market_simulator.Prelude.Int.{pos}
use pmr_market_simulator.Prelude.Run.{ok, abort, Returns, EndsWith, returned}
use pmr_market_simulator.Prelude.Texts.{text}
use pmr_market_simulator.Prelude.Output.{literal, bytes}
use pmr_market_simulator.OrderBook.Tests.{whole}
use pmr_market_simulator.Storage.{make_storage, lmdb_kind}
use pmr_market_simulator.Simulator.Config.{SimConfig, default_config}
use pmr_market_simulator.Main.{Parse, Options, go, help, split_csv, parse_args}
use pmr_market_simulator.Event.Text.{Printf}
use pmr_market_simulator.Storage.Reader.{walk}
use pmr_market_simulator.Storage.Tests.{Memory, in_memory, nothing}
use pmr_market_simulator.Main.Reading.{IsExit, read_main-IsExit}
use pmr_market_simulator.Main.Modes.{adjusted, read_main}
use pmr_market_simulator.Main.Flags.{
  split_csv-join, IsWritten, command_line, parse_args-command_line,
}
use pmr_market_simulator.Main.Safe.{make_storage-adjusted}

abbrev digits_from : ℕ → List ℕ → Option ℕ
digits_from n [] = some n
digits_from n (c ∷ s) =
    let rest = digits_from (n * 10 + (c - 48)) s in if leb 48 c && leb c 57 then rest else none

abbrev digits : List ℕ → Option ℕ
digits [] = none
digits (c ∷ s) = digits_from 0 (c ∷ s)

abbrev parse : Parse ℕ
parse = record { stoull = digits; stoi = λ s. Option.map pos (digits s); stod = digits }

abbrev plain : Options ℕ
plain = record { cfg = default_config whole; no_log = false; read_mode = false; read_path = [] }

splits : (split_csv (text "AAPL,,MSFT,") ≡ text "AAPL" ∷ text "MSFT" ∷ []) × (split_csv [] ≡ [])
unfolding split_csv
splits = (refl, refl)

-- A flag without its value is skipped, `--read` takes no flag as its value, a bad number ends the
-- process, and nothing after `--help` is read.
runs :
    (parse_args parse (text "--seed" ∷ []) plain ≡ ok (go plain))
    × (parse_args parse (text "--read" ∷ text "--no-log" ∷ []) plain
        ≡ ok (go (record plain { no_log = true; read_mode = true; read_path = text "store.mdb" })))
    × (parse_args parse (text "--seed" ∷ text "x" ∷ []) plain ≡ abort)
    × (parse_args parse (text "--help" ∷ text "--seed" ∷ text "x" ∷ []) plain ≡ ok help)
unfolding parse_args
runs = (refl, refl, refl, refl)

abbrev items : List (List ℕ)
items = text "A" ∷ text "BC" ∷ []

split_csv-join_example : split_csv (text "A,BC") ≡ items
split_csv-join_example =
    split_csv-join items
      ((λ e. cc, (omega arith, tt)), ((λ e. cc, (omega arith, (omega arith, tt))), tt))

abbrev wanted : SimConfig ℕ
wanted = record (default_config whole) {
  seed = 7;
  symbol_list = items;
  log_path = text "events.bin";
  num_threads = pos 2;
  realtime_ts = true;
}

split_items : split_csv (text "A,BC") ≡ items
unfolding split_csv
split_items = refl

abbrev written : IsWritten parse wanted
written = record {
  total_events = text "100000";
  reads_total_events = refl;
  seed = text "7";
  reads_seed = refl;
  symbol_list = text "A,BC";
  reads_symbol_list = split_items;
  arena_bytes = text "1048576";
  reads_arena_bytes = refl;
  sigma = text "0";
  reads_sigma = refl;
  drift_ampl = text "0";
  reads_drift_ampl = refl;
  drift_period = text "10000";
  reads_drift_period = refl;
  dump_n = text "0";
  reads_dump_n = refl;
  num_threads = text "2";
  reads_num_threads = refl;
}

parse_args-command_line_example :
    parse_args parse (command_line parse wanted written) plain
    ≡ ok (go (record plain { cfg = wanted }))
parse_args-command_line_example = parse_args-command_line parse wanted written plain refl refl

make_storage-adjusted_example :
    make_storage
      (adjusted (record plain { cfg = record wanted { log_path = text "store.mdb" } })).0.log_path
    ≢ lmdb_kind
make_storage-adjusted_example =
    make_storage-adjusted (record plain { cfg = record wanted { log_path = text "store.mdb" } })
      refl

abbrev printf : Printf
printf = record { fixed_2 = λ x. []; decimal_int = λ z. []; decimal_size = λ n. [] }

abbrev reading : Options ℕ
reading = record plain {
  cfg = record wanted { log_path = text "a.mdb" };
  read_mode = true;
  read_path = text "s";
}

walks : (cursor : ℕ) (w : Memory) → EndsWith (λ r. Unit {0}) (walk in_memory 1 cursor w)
unfolding walk
walks cursor w = returned _ tt

read_main-IsExit_example :
    Returns
      (read_main in_memory (λ n. []) printf 1 reading nothing)
      (IsExit in_memory (λ n. []) printf 1 walks reading nothing)
read_main-IsExit_example = read_main-IsExit in_memory (λ n. []) printf 1 walks ℕ reading nothing

-- The warning comes first, also where nothing fails.
warns :
    read_main in_memory (λ n. []) printf 1 reading nothing
    ≡ ok (record {
      out = literal "No symbols found in " ∷ bytes (text "s") ∷ literal "\n" ∷ [];
      err = literal "[WARN] LMDB logging not thread-safe; disabling logging\n" ∷ [];
      exit_code = 0;
    })
unfolding read_main
warns = refl
