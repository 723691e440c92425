-- ===== src/Simulator.antt =====
-- src/simulator.cpp: how `run_mt` deals symbols, iterations, ids and timestamps to its threads.
pub mod Partition
pub mod Config
pub mod Worker
pub mod Run
pub mod Threads
pub mod Affinity
mod Tests
use Prim.Native.Nat.{bit_or}
use pmr_market_simulator.Prelude.{
  ℕ, zero, suc, ◌+◌, ◌-◌, ◌*◌, ◌/◌, ◌%◌, ◌^◌, Bool, true, false, List, [], ◌∷◌, length, take, drop,
  min, max, ltb, ◌==◌, if◌then◌else◌,
}

-- The number of threads. `configured` is `cfg_.num_threads`, where a negative `int` counts as 0, and
-- `hardware` is the answer of `std::thread::hardware_concurrency`.
unfoldable pub thread_count : ℕ → ℕ → ℕ → ℕ
thread_count configured hardware n_symbols =
    max 1 (min (if ltb 0 configured then configured else min n_symbols hardware) n_symbols)

unfoldable pub per_thread : ℕ → ℕ → ℕ
per_thread n_symbols n_threads = (n_symbols + n_threads - 1) / n_threads

-- The symbols of one thread after the other: the loop, for the threads that are left
unfoldable pub slices {ℓ} : {A : Type ℓ} → ℕ → ℕ → ℕ → List A → List (List A)
slices zero per idx all = []
slices (suc threads) per idx all =
    let end = min (idx + per) (length all) in
    take (end - idx) (drop idx all) ∷ slices threads per end all

unfoldable pub partition {ℓ} : {A : Type ℓ} → ℕ → List A → List (List A)
unfolding slices per_thread
partition n_threads all = slices n_threads (per_thread (length all) n_threads) 0 all

-- `iters` of the thread `t`
unfoldable pub iterations : ℕ → ℕ → ℕ → ℕ
iterations total_events n_threads t =
    let base = total_events / n_threads in
    let rem = total_events % n_threads in base + (if t == n_threads - 1 then rem else 0)

-- The iterations that the threads from `t` on perform; a thread without symbols returns at once.
unfoldable pub performed {ℓ} : {A : Type ℓ} → ℕ → ℕ → ℕ → List (List A) → ℕ
unfolding iterations
performed total_events n_threads t [] = 0
performed total_events n_threads t ([] ∷ threads) = performed total_events n_threads (t + 1) threads
performed total_events n_threads t ((s ∷ symbols) ∷ threads) =
    iterations total_events n_threads t + performed total_events n_threads (t + 1) threads

-- `make_ts` where `cfg_.realtime_ts` is off
unfoldable pub make_ts : ℕ → ℕ → ℕ
make_ts i_event thread_id = bit_or (thread_id * 2 ^ 48 % 2 ^ 64) i_event

-- The id of an order of thread `t`, from its counter `local_id`
unfoldable pub thread_order_id : ℕ → ℕ → ℕ
thread_order_id t local_id = bit_or (t * 2 ^ 56 % 2 ^ 64) local_id
