-- ===== src/Simulator/Run.antt =====
-- src/simulator.cpp: the constructor, `emit_event` and `run`.
pub mod Report
use pmr_market_simulator.Prelude.{
  ℕ, zero, suc, ◌+◌, Bool, true, false, Option, none, some, List, [], ◌∷◌, ◌++◌, length, ◌||◌,
  if◌then◌else◌,
}
use pmr_market_simulator.Prelude.Run.{Run, ok, ◌>>=◌}
use pmr_market_simulator.Storage.{IStorage}
use pmr_market_simulator.Prelude.Texts.{eq_bytes}
use pmr_market_simulator.Float.{Float}
use pmr_market_simulator.Event.{Event}
use pmr_market_simulator.OrderBook
use pmr_market_simulator.OrderBook.{Book}
use pmr_market_simulator.Rng.{Xoroshiro, seeded}
use pmr_market_simulator.Rng.Sample.{NormalBm}
use pmr_market_simulator.Simulator.{make_ts}
use pmr_market_simulator.Simulator.Config.{SimConfig, default_symbols}
use pmr_market_simulator.Simulator.Worker.{Desk, Worker, Numbering, turns}

-- `storage_`, and `grpc_sink_` if it is set
pub record Sinks (Store Grpc : Type 0) : Type 0 where
  pub storage : Store
  pub grpc_sink : Option Grpc

-- `emit_event`; `write_event` is the method of `GrpcStorage`, whose answer is dropped.
unfoldable pub emit_event :
    {Store Grpc : Type 0}
    → IStorage Store
    → (Event → Grpc → Bool × Grpc)
    → Event
    → Sinks Store Grpc
    → Run (Sinks Store Grpc)
emit_event io write_event e s = do
  store ← io.write e s.storage
  elim s.grpc_sink [
    | none ↦ ok (record s { storage = store })
    | some g ↦ ok (record { storage = store; grpc_sink = some (write_event e g).1 })
  ]

-- `make_ts`; `now` is what `now_ns` reads when it is called.
abbrev pub time_of : Bool → ℕ → ℕ → ℕ → ℕ
time_of realtime now thread_id i = if realtime then now else make_ts i thread_id

module _ (fp : Float) where
  open fp use {Double, decimal}

  abbrev has_symbol : List ℕ → List (Desk Double) → Bool
  has_symbol s [] = false
  has_symbol s (d ∷ desks) = let rest = has_symbol s desks in eq_bytes s d.symbol || rest

  -- A symbol with a new book of the default tick size, and the mid price 100
  unfoldable pub new_desk : List ℕ → Run (Desk Double)
  unfolding OrderBook.create
  new_desk symbol = do
    book ← OrderBook.create fp symbol (decimal 1 2)
    ok (record { symbol = symbol; book = book; mid = decimal 100 0; live = [] })

  -- The loop of the constructor. `emplace` leaves a symbol alone that is there.
  unfoldable pub emplace_symbols : List (List ℕ) → List (Desk Double) → Run (List (Desk Double))
  unfolding new_desk
  emplace_symbols [] syms = ok syms
  emplace_symbols (s ∷ symbols) syms = do
    d ← new_desk s
    emplace_symbols symbols (if has_symbol s syms then syms else syms ++ (d ∷ []))

  -- `cfg_.symbol_list.empty() ? default_symbols() : cfg_.symbol_list`
  abbrev pub chosen_symbols : List (List ℕ) → List (List ℕ)
  chosen_symbols [] = default_symbols
  chosen_symbols (s ∷ symbols) = s ∷ symbols

  unfoldable pub make_syms : SimConfig Double → Run (List (Desk Double))
  unfolding emplace_symbols
  make_syms cfg = emplace_symbols (chosen_symbols cfg.symbol_list) []

  -- `Simulator` without its generators
  pub record Simulator (Store Grpc : Type 0) : Type 0 where
    pub cfg : SimConfig Double
    pub syms : List (Desk Double)
    pub sinks : Sinks Store Grpc
    pub next_order_id : ℕ

  -- The constructor; `opened` is the storage that `make_storage` gives for `log_path`.
  unfoldable pub make_simulator :
      {Store Grpc : Type 0} → (List ℕ → Run Store) → SimConfig Double → Run (Simulator Store Grpc)
  unfolding make_syms
  make_simulator opened cfg = do
    syms ← make_syms cfg
    store ← opened cfg.log_path
    ok (record {
      cfg = cfg;
      syms = syms;
      sinks = record { storage = store; grpc_sink = none };
      next_order_id = 1;
    })

  abbrev pub set_grpc_sink :
      {Store Grpc : Type 0} → Option Grpc → Simulator Store Grpc → Simulator Store Grpc
  set_grpc_sink sink sim = record sim { sinks = record sim.sinks { grpc_sink = sink } }

  module _ (cfg : SimConfig Double) {Sink : Type 0} where
    -- The context of `run`, with the desks in the order in which the hash map lists them
    abbrev pub first_worker : List (Desk Double) → Sink → Worker Double Sink
    first_worker desks sink = record {
      desks = desks;
      rng = seeded cfg.seed;
      normal = record { has_spare = false; spare = decimal 0 0 };
      counter = 1;
      adds = 0;
      cancels = 0;
      trades = 0;
      sink = sink;
    }

    -- `run` up to the report. `clock` gives what `now_ns` reads in an iteration, which calls it once at
    -- most. `fuel` bounds the loop of `NormalBM`.
    unfoldable pub run_events :
        (Event → Sink → Run Sink)
        → (Sink → Run Sink)
        → (ℕ → ℕ)
        → ℕ
        → List (Desk Double)
        → Sink
        → Run (Worker Double Sink)
    unfolding turns
    run_events emit flush clock fuel desks sink = do
      let numbers : Numbering = record {
        id_of = λ n. n;
        ts_of = λ i. time_of cfg.realtime_ts (clock i) 0 i;
      }
      w ← turns fp cfg emit fuel numbers cfg.total_events 0 (first_worker desks sink)
      sink' ← flush w.sink
      ok (record w { sink = sink' })
