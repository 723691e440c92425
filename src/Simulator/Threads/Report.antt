-- ===== src/Simulator/Threads/Report.antt =====
-- src/simulator.cpp: what `run_mt` adds up and prints.
use pmr_market_simulator.Prelude.{ℕ, ◌+◌, List, [], ◌∷◌, ◌++◌, length, if◌then◌else◌}
use pmr_market_simulator.Prelude.Output.{literal, number, real, Output}
use pmr_market_simulator.Float.{Float}
use pmr_market_simulator.Simulator.Config.{SimConfig}
use pmr_market_simulator.Simulator.Threads.{Lane}

-- The sums over the contexts
unfoldable pub sum_adds : {Double : Type 0} → List (Lane Double) → ℕ
sum_adds [] = 0
sum_adds (l ∷ lanes) = l.context.adds + sum_adds lanes

unfoldable pub sum_cancels : {Double : Type 0} → List (Lane Double) → ℕ
sum_cancels [] = 0
sum_cancels (l ∷ lanes) = l.context.cancels + sum_cancels lanes

unfoldable pub sum_trades : {Double : Type 0} → List (Lane Double) → ℕ
sum_trades [] = 0
sum_trades (l ∷ lanes) = l.context.trades + sum_trades lanes

module _ (fp : Float) (cfg : SimConfig fp.Double) where
  open fp use {Double, lt, mul, div, of_nat, to_size, decimal}

  -- `std::max` over the times of the threads, which `elapsed` gives by their numbers
  abbrev max_elapsed : (ℕ → Double) → Double → List (Lane Double) → Double
  max_elapsed elapsed longest [] = longest
  max_elapsed elapsed longest (l ∷ lanes) =
      max_elapsed elapsed (if lt longest (elapsed l.thread) then elapsed l.thread else longest)
        lanes

  abbrev thread_lines : (ℕ → Double) → List (Lane Double) → Output Double
  thread_lines elapsed [] = []
  thread_lines elapsed (l ∷ lanes) =
      literal "[Thread "
      ∷ number l.thread
      ∷ literal "] Symbols="
      ∷ number (length l.context.desks)
      ∷ literal " Adds="
      ∷ number l.context.adds
      ∷ literal " Cancels="
      ∷ number l.context.cancels
      ∷ literal " Trades="
      ∷ number l.context.trades
      ∷ literal " Time="
      ∷ real (elapsed l.thread)
      ∷ literal " ms\n"
      ∷ thread_lines elapsed lanes

  -- `wall` is the time of the whole run.
  unfoldable pub threads_report : (ℕ → Double) → Double → List (Lane Double) → Output Double
  unfolding sum_adds sum_cancels sum_trades
  threads_report elapsed wall lanes =
      let adds = sum_adds lanes in
      let cancels = sum_cancels lanes in
      let trades = sum_trades lanes in
      let max_ms = max_elapsed elapsed (decimal 0 0) lanes in
      let evps = div (mul (of_nat cfg.total_events) (decimal 1000 0)) wall in
      let ops = adds + cancels + trades in
      let steps_per_s = div (mul (of_nat cfg.total_events) (decimal 1000 0)) max_ms in
      let ops_per_s = div (mul (of_nat ops) (decimal 1000 0)) max_ms in
      (literal "\nPer-Thread Summary\n-------------------------------\n"
        ∷ thread_lines elapsed lanes)
      ++ (literal "-------------------------------\n"
          ∷ literal "Threads:       "
          ∷ number (length lanes)
          ∷ literal "\n"
          ∷ literal "Total events:  "
          ∷ number cfg.total_events
          ∷ literal "\n"
          ∷ literal "Adds:          "
          ∷ number adds
          ∷ literal "\n"
          ∷ literal "Cancels:       "
          ∷ number cancels
          ∷ literal "\n"
          ∷ literal "Trades:        "
          ∷ number trades
          ∷ literal "\n"
          ∷ literal "Elapsed (max): "
          ∷ real max_ms
          ∷ literal " ms\n"
          ∷ literal "Throughput:    "
          ∷ number (to_size evps)
          ∷ literal " ev/s\n"
          ∷ literal "-------------------------------\n"
          ∷ literal "Total steps:   "
          ∷ number cfg.total_events
          ∷ literal "\n"
          ∷ literal "Book ops:      "
          ∷ number ops
          ∷ literal " (adds+cancels+trades)\n"
          ∷ literal "Elapsed (max): "
          ∷ real max_ms
          ∷ literal " ms\n"
          ∷ literal "Steps/sec:     "
          ∷ number (to_size steps_per_s)
          ∷ literal "\n"
          ∷ literal "(steps -> generator iterations. book -> matching engine)\n"
          ∷ literal "Book ops/sec:  "
          ∷ number (to_size ops_per_s)
          ∷ literal "\n"
          ∷ [])
