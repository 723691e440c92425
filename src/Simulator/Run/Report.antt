-- ===== src/Simulator/Run/Report.antt =====
-- src/simulator.cpp: what `run` prints.
use pmr_market_simulator.Prelude.{ℕ, List, [], ◌∷◌, ◌++◌, length, if◌then◌else◌}
use pmr_market_simulator.Prelude.Output.{literal, bytes, number, real, Output}
use pmr_market_simulator.Prelude.Run.{Run, ok, ◌>>=◌}
use pmr_market_simulator.Float.{Float}
use pmr_market_simulator.Event.{Event}
use pmr_market_simulator.Simulator.Config.{SimConfig}
use pmr_market_simulator.Simulator.Worker.{Desk, Worker}
use pmr_market_simulator.Simulator.Run.{run_events}

module _ (fp : Float) (cfg : SimConfig fp.Double) where
  open fp use {Double, mul, div, of_nat, to_size, decimal}

  -- `arena_use` is `bytes_allocated` of the counter of a symbol's arena.
  abbrev arena_lines : (List ℕ → ℕ) → List (Desk Double) → Output Double
  arena_lines arena_use [] = []
  arena_lines arena_use (d ∷ desks) =
      literal "  "
      ∷ bytes d.symbol
      ∷ literal ": "
      ∷ number (arena_use d.symbol)
      ∷ literal " bytes\n"
      ∷ arena_lines arena_use desks

  -- `us` is the time that the clock measured.
  unfoldable pub run_report :
      {Sink : Type 0} → (List ℕ → ℕ) → ℕ → Worker Double Sink → Output Double
  run_report arena_use us w =
      let evps = div (mul (of_nat cfg.total_events) (decimal 1000000 0)) (of_nat us) in
      (literal "MarketSim (PMR) Report\n"
        ∷ literal "---------------------------\n"
        ∷ literal "Symbols:           "
        ∷ number (length w.desks)
        ∷ literal "\n"
        ∷ literal "Total events:      "
        ∷ number cfg.total_events
        ∷ literal "\n"
        ∷ literal "Adds:              "
        ∷ number w.adds
        ∷ literal "\n"
        ∷ literal "Cancels:           "
        ∷ number w.cancels
        ∷ literal "\n"
        ∷ literal "Trades:            "
        ∷ number w.trades
        ∷ literal "\n"
        ∷ literal "Elapsed:           "
        ∷ real (div (of_nat us) (decimal 1000 0))
        ∷ literal " ms\n"
        ∷ literal "Throughput:        "
        ∷ number (to_size evps)
        ∷ literal " ev/s\n"
        ∷ [])
      ++ (if cfg.print_arena
          then literal "Arena usage (upstream bytes requested):\n" ∷ arena_lines arena_use w.desks
          else [])
      ++ (literal "---------------------------\n" ∷ [])

  -- `run`: what it prints, and what it leaves. `us` is the time that the clock measured, and the desks
  -- are in the order in which the hash map lists them.
  unfoldable pub run :
      {Sink : Type 0}
      → (Event → Sink → Run Sink)
      → (Sink → Run Sink)
      → (ℕ → ℕ)
      → ℕ
      → (List ℕ → ℕ)
      → ℕ
      → List (Desk Double)
      → Sink
      → Run (Output Double × Worker Double Sink)
  unfolding run_events run_report
  run emit flush clock fuel arena_use us desks sink = do
    w ← run_events fp cfg emit flush clock fuel desks sink
    ok (run_report arena_use us w, w)
