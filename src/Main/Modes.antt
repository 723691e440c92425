-- ===== src/Main/Modes.antt =====
-- src/main.cpp: what `main` does after the loop over its arguments.
use Prim.Native.String.{String}
use pmr_market_simulator.Prelude.{
  ℕ, Bool, true, false, Option, none, some, List, [], ◌∷◌, ◌++◌, length, take, ◌%◌, ◌^◌, ◌&&◌,
  if◌then◌else◌,
}
use pmr_market_simulator.Prelude.Int.{ℤ, pos, pos_part, ltbℤ, of_u32}
use pmr_market_simulator.Prelude.Run.{Run, ok, abort, spin, throw, ◌>>=◌}
use pmr_market_simulator.Prelude.Texts.{text, occurs_in}
use pmr_market_simulator.Prelude.Output.{literal, bytes, number, integer, Output}
use pmr_market_simulator.Float.{Float}
use pmr_market_simulator.Event.{Event}
use pmr_market_simulator.Event.Text.{Printf, to_string}
use pmr_market_simulator.Storage.{IStorage}
use pmr_market_simulator.Storage.Library.{Lmdb}
use pmr_market_simulator.Storage.Reader.{
  LmdbReader, open_reader, close_reader, list_symbols, read_all,
}
use pmr_market_simulator.Grpc.{
  Stream, GrpcStorage, connect, open_stream, write_event, close_stream, ack_count,
}
use pmr_market_simulator.Simulator.Config.{SimConfig}
use pmr_market_simulator.Simulator.Run.{Sinks, emit_event, make_simulator, set_grpc_sink}
use pmr_market_simulator.Simulator.Run.Report.{run}
use pmr_market_simulator.Main.{Options}

-- What `main` printed so far, and its result
pub record Ended (Double : Type 0) : Type 0 where
  pub out : Output Double
  pub err : Output Double
  pub exit_code : ℕ

-- The text of `--help`
abbrev pub usage_text : List String
usage_text =
    "Usage: ./market_sim [options]\n" ∷ "  --events N           Total events (default 100000)\n"
    ∷ "  --symbols CSV        Symbol list (default AAPL,MSFT,GOOG)\n"
    ∷ "  --seed S             RNG seed\n"
    ∷ "  --arena-bytes BYTES  Per-symbol arena size (default 1<<20)\n"
    ∷ "  --sigma X            Gaussian sigma as fraction of mid (default 0.001)\n"
    ∷ "  --drift-ampl A       Volatility drift amplitude (default 0.0)\n"
    ∷ "  --drift-period P     Drift period in events (default 10000)\n"
    ∷ "  --log PATH           Append-only event log path\n"
    ∷ "  --print-arena        Print arena upstream usage\n"
    ∷ "  --read PATH          Read and dump LMDB log instead of sim\n"
    ∷ "  --dump N             Number of events to print per-symbol (default 0)\n"
    ∷ "  --realtime-ts        Use realtime steady_clock timestamps (slower)\n" ∷ []

-- No log for LMDB with threads, of which the flag warns
unfoldable pub without_lmdb : {Double : Type 0} → SimConfig Double → SimConfig Double × Bool
without_lmdb cfg =
    if ltbℤ (pos 1) cfg.num_threads && occurs_in (text ".mdb") cfg.log_path
    then (record cfg { log_path = [] }, true)
    else (cfg, false)

-- The configuration after the first two tests
unfoldable pub adjusted : {Double : Type 0} → Options Double → SimConfig Double × Bool
unfolding without_lmdb
adjusted o = without_lmdb (if o.no_log then record o.cfg { log_path = [] } else o.cfg)

-- `read_path.empty() ? "store.mdb" : read_path`
abbrev pub store_path : List ℕ → List ℕ
store_path [] = text "store.mdb"
store_path (c ∷ path) = c ∷ path

-- `std::min<int>`, which casts the size to `int`
abbrev pub min_int : ℤ → ℕ → ℤ
min_int dump_n size = let n = of_u32 (size % 2 ^ 32) in if ltbℤ n dump_n then n else dump_n

module _ {Double : Type 0} where
  -- The handler of an exception. What was printed before is left out.
  unfoldable pub handled : Run (Ended Double) → Run (Ended Double)
  handled (throw what) =
      ok (record {
        out = [];
        err = literal "Error: " ∷ bytes what ∷ literal "\n" ∷ [];
        exit_code = 1;
      })
  handled (ok e) = ok e
  handled abort = abort
  handled spin = spin

  abbrev pub names : List (List ℕ) → Output Double
  names [] = []
  names (s ∷ symbols) = bytes s ∷ literal " " ∷ names symbols

  abbrev pub event_lines : Printf → List Event → Output Double
  event_lines io [] = []
  event_lines io (e ∷ events) =
      literal " " ∷ bytes (to_string io e) ∷ literal "\n" ∷ event_lines io events

  -- The lines for the first events of a symbol
  unfoldable pub dump_lines : Printf → ℤ → List Event → Output Double
  dump_lines io dump_n [] = []
  dump_lines io dump_n (e ∷ events) =
      let n = min_int dump_n (length (e ∷ events)) in
      if ltbℤ (pos 0) dump_n
      then literal "First "
        ∷ integer n
        ∷ literal " events:\n"
        ∷ event_lines io (take (pos_part n) (e ∷ events))
      else []

  -- The warning of the first tests
  abbrev pub warning : Bool → Output Double
  warning true = literal "[WARN] LMDB logging not thread-safe; disabling logging\n" ∷ []
  warning false = []

  -- `main` after the first tests, which put the warning into `std::cerr`
  unfoldable pub warned : Bool → Run (Ended Double) → Run (Ended Double)
  unfolding handled
  warned flag body = handled body >>= λ e. ok (record e { err = warning flag ++ e.err })

  module _ (lmdb : Lmdb) (to_text : ℕ → List ℕ) (io : Printf) (fuel : ℕ) where
    open lmdb use {World}

    -- The loop over the symbols
    unfoldable pub read_symbols :
        ℤ → List (List ℕ) → LmdbReader World → Run (Output Double × LmdbReader World)
    unfolding read_all dump_lines
    read_symbols dump_n [] r = ok ([], r)
    read_symbols dump_n (sym ∷ symbols) r = do
      (events, r') ← read_all lmdb fuel sym r
      (out, r'') ← read_symbols dump_n symbols r'
      ok (
        (bytes sym
              ∷ literal ": "
              ∷ number (length events)
              ∷ literal " events\n"
              ∷ dump_lines io dump_n events)
            ++ out,
        r'',
      )

    -- What is printed for the symbols that were found
    unfoldable pub symbols_report :
        List ℕ → ℤ → List (List ℕ) → LmdbReader World → Run (Output Double × LmdbReader World)
    unfolding read_symbols
    symbols_report read_path dump_n [] r =
        ok (literal "No symbols found in " ∷ bytes read_path ∷ literal "\n" ∷ [], r)
    symbols_report read_path dump_n (s ∷ symbols) r = do
      (out, r') ← read_symbols dump_n (s ∷ symbols) r
      ok (
        (literal "Found "
              ∷ number (length (s ∷ symbols))
              ∷ literal " symbol(s): "
              ∷ names (s ∷ symbols))
            ++ (literal "\n" ∷ out),
        r',
      )

    -- `--read`
    unfoldable pub read_store : List ℕ → ℤ → World → Run (Ended Double × World)
    unfolding open_reader list_symbols symbols_report close_reader
    read_store read_path dump_n w = do
      r ← open_reader lmdb to_text (store_path read_path) w
      (symbols, r') ← list_symbols lmdb fuel r
      (out, r'') ← symbols_report read_path dump_n symbols r'
      ok (record { out = out; err = []; exit_code = 0 }, close_reader lmdb r'')

    -- `main` with `--read` after the loop over the arguments
    unfoldable pub read_main : Options Double → World → Run (Ended Double)
    unfolding adjusted read_store warned
    read_main o w =
        let (cfg, flag) = adjusted o in
        warned flag (read_store o.read_path cfg.dump_n w >>= λ r. ok r.0)

-- The collector of the events, if `--grpc` names one, and whether it could be reached
unfoldable pub open_sink : (io : Stream) → List ℕ → io.State → Bool × Option (GrpcStorage io.State)
unfolding open_stream
open_sink io [] s = (true, none)
open_sink io (c ∷ target) s = let (opened, g) = open_stream io (connect io s) in (opened, some g)

-- `grpc_sink->close()` and the line after it
unfoldable pub close_sink :
    (io : Stream) {Double : Type 0} → Option (GrpcStorage io.State) → Output Double
unfolding close_stream ack_count
close_sink io none = []
close_sink io (some g) =
    literal "Collector ACK count: "
    ∷ number (ack_count io (close_stream io g).1)
    ∷ literal "\n"
    ∷ []

-- The simulation with one thread. `opened` gives the state of the storage for a path, `us` is the
-- time that `run` measures, and `arena_use` what the counter of a symbol's arena says.
module _ (fp : Float) (grpc : Stream) {Store : Type 0} (storage : IStorage Store) (clock : ℕ → ℕ)
    (fuel : ℕ) (arena_use : List ℕ → ℕ) (us : ℕ) where
  open fp use {Double}

  abbrev pub flush_storage :
      Sinks Store (GrpcStorage grpc.State) → Run (Sinks Store (GrpcStorage grpc.State))
  flush_storage k = storage.flush k.storage >>= λ st. ok (record k { storage = st })

  unfoldable pub simulate :
      SimConfig Double → (List ℕ → Run Store) → grpc.State → Run (Ended Double)
  unfolding make_simulator run emit_event open_sink close_sink
  simulate cfg opened s = do
    made ← make_simulator fp {Grpc = GrpcStorage grpc.State} opened cfg
    let (reached, sink) = open_sink grpc cfg.grpc_target s
    let sim = set_grpc_sink fp sink made
    elim reached [
      | true ↦ do
        (out, w) ←
            run fp sim.cfg (emit_event storage (write_event grpc)) flush_storage clock fuel
              arena_use us sim.syms sim.sinks
        ok (record { out = out ++ close_sink grpc w.sink.grpc_sink; err = []; exit_code = 0 })
      | false ↦ ok (record {
        out = [];
        err = literal "Failed to open gRPC stream to " ∷ bytes cfg.grpc_target ∷ literal "\n" ∷ [];
        exit_code = 1;
      })
    ]

  -- `main` without `--read` after the loop over the arguments, with one thread
  unfoldable pub simulate_main :
      Options Double → (List ℕ → Run Store) → grpc.State → Run (Ended Double)
  unfolding adjusted simulate warned
  simulate_main o opened s = let (cfg, flag) = adjusted o in warned flag (simulate cfg opened s)
