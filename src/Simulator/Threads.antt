-- ===== src/Simulator/Threads.antt =====
-- src/simulator.cpp: `run_mt`. The threads share the storage alone, whose methods are one step each: the
-- null storage does nothing, and the binary log has a mutex. The sink of `--grpc` has no lock, so it is
-- left out here: `grpc_target` is empty.
pub mod Report
pub mod Alone
pub mod Schedules
pub mod Start
pub mod Progress
use pmr_market_simulator.Prelude.{
  ℕ, zero, suc, ◌+◌, ◌*◌, ◌%◌, ◌^◌, ◌≡◌, Bool, true, false, Option, none, some, List, [], ◌∷◌, ◌++◌,
  length, get_elem?, set, map, if◌then◌else◌,
}
use pmr_market_simulator.Prelude.Run.{Run, ok, ◌>>=◌}
use pmr_market_simulator.Float.{Float}
use pmr_market_simulator.Event.{Event}
use pmr_market_simulator.Storage.{IStorage}
use pmr_market_simulator.Rng.{seeded}
use pmr_market_simulator.Rng.Sample.{NormalBm}
use pmr_market_simulator.Simulator.{thread_count, partition, iterations, thread_order_id}
use pmr_market_simulator.Simulator.Config.{SimConfig}
use pmr_market_simulator.Simulator.Worker.{Desk, Worker, Numbering, turn}
use pmr_market_simulator.Simulator.Run.{new_desk, time_of}

-- The worker with another sink
abbrev pub with_sink : {Double A B : Type 0} → B → Worker Double A → Worker Double B
with_sink sink w = record {
  desks = w.desks;
  rng = w.rng;
  normal = w.normal;
  counter = w.counter;
  adds = w.adds;
  cancels = w.cancels;
  trades = w.trades;
  sink = sink;
}

-- A thread: its number, its context, the index of its next iteration, how many are left, and the
-- events of its last iteration that it has not written yet
pub record Lane (Double : Type 0) : Type 0 where
  pub thread : ℕ
  pub context : Worker Double (Unit {0})
  pub next : ℕ
  pub left : ℕ
  pub pending : List Event

pub record Machine (Double : Type 0) (Store : Type 0) : Type 0 where
  pub lanes : List (Lane Double)
  pub storage : Store

-- An iteration on its own keeps the events that it sends, in their order.
abbrev pub keep_event : Event → List Event → Run (List Event)
keep_event e sent = ok (sent ++ (e ∷ []))

module _ (fp : Float) (cfg : SimConfig fp.Double) where
  open fp use {Double, decimal}

  unfoldable pub thread_desks : List (List ℕ) → Run (List (Desk Double))
  unfolding new_desk
  thread_desks [] = ok []
  thread_desks (s ∷ symbols) = do d ← new_desk fp s; desks ← thread_desks symbols; ok (d ∷ desks)

  -- The context of thread `t`; `all` is the number of threads. A thread without symbols returns at
  -- once.
  unfoldable pub make_lane : ℕ → ℕ → List (List ℕ) → Run (Lane Double)
  unfolding thread_desks iterations
  make_lane all t symbols = do
    desks ← thread_desks symbols
    let n = iterations cfg.total_events all t
    ok (record {
      thread = t;
      context = record {
        desks = desks;
        rng = seeded ((cfg.seed + t) % 2 ^ 64);
        normal = record { has_spare = false; spare = decimal 0 0 };
        counter = 1;
        adds = 0;
        cancels = 0;
        trades = 0;
        sink = tt;
      };
      next = 0;
      left = elim symbols [ [] ↦ 0 | s ∷ rest ↦ n ];
      pending = [];
    })

  unfoldable pub make_lanes : ℕ → ℕ → List (List (List ℕ)) → Run (List (Lane Double))
  unfolding make_lane
  make_lanes all t [] = ok []
  make_lanes all t (symbols ∷ parts) = do
    lane ← make_lane all t symbols
    lanes ← make_lanes all (t + 1) parts
    ok (lane ∷ lanes)

  -- The contexts of `run_mt`. `configured` is `cfg_.num_threads`, with a negative one as 0, and
  -- `names` the keys of `syms_` in the order of the hash map.
  unfoldable pub contexts : ℕ → ℕ → List (List ℕ) → Run (List (Lane Double))
  unfolding make_lanes partition thread_count
  contexts configured hardware names =
      let n_threads = thread_count configured hardware (length names) in
      make_lanes n_threads 0 (partition n_threads names)

  -- `now` is what the clock reads in the iteration, which reads it once at most.
  abbrev pub numbering : ℕ → ℕ → Numbering
  numbering now t = record { id_of = thread_order_id t; ts_of = time_of cfg.realtime_ts now t }

  module _ (fuel : ℕ) where
    abbrev pub lane_turn : ℕ → Lane Double → Run (Worker Double (List Event))
    lane_turn now l =
        turn fp cfg keep_event fuel (numbering now l.thread) l.next (with_sink [] l.context)

    abbrev pub after_turn : Lane Double → ℕ → Worker Double (List Event) → Lane Double
    after_turn l n w = record {
      thread = l.thread;
      context = with_sink tt w;
      next = l.next + 1;
      left = n;
      pending = w.sink;
    }

    -- One step of the thread at `t`. `iterate` is what an iteration does to the context, which no other
    -- thread reads or writes; `send` is its call of `write`, between which and `iterate` the other threads
    -- may take any steps.
    pub data ThreadStep {Store : Type 0} (io : IStorage Store)
        : Machine Double Store → Machine Double Store → Type 0 where
      iterate :
          (m : Machine Double Store) (t n now : ℕ) (l : Lane Double)
          (w : Worker Double (List Event))
          → get_elem? m.lanes t ≡ some l
          → l.pending ≡ []
          → l.left ≡ suc n
          → lane_turn now l ≡ ok w
          → ThreadStep io m (record m { lanes = set m.lanes t (after_turn l n w) })
      send :
          (m : Machine Double Store) (t : ℕ) (l : Lane Double) (e : Event) (es : List Event)
          (storage : Store)
          → get_elem? m.lanes t ≡ some l
          → l.pending ≡ e ∷ es
          → io.write e m.storage ≡ ok storage
          → ThreadStep io m
              (record { lanes = set m.lanes t (record l { pending = es }); storage = storage })

    -- The machines that the steps of the threads lead to, in some order.
    pub data Schedule {Store : Type 0} (io : IStorage Store) (start : Machine Double Store)
        : Machine Double Store → Type 0 where
      not_started : Schedule io start start
      and_then :
          (m m' : Machine Double Store)
          → Schedule io start m
          → ThreadStep io m m'
          → Schedule io start m'
