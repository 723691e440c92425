-- ===== src/Simulator/Worker/Tests.antt =====
-- The theorems on the iterations of a thread at one symbol with a new book. Doubles are fixed-point
-- numbers with 60 bits after the point; the functions of the C library are coarse.
use pmr_market_simulator.Prelude.{
  ℕ, zero, suc, ◌+◌, ◌-◌, ◌*◌, ◌/◌, ◌^◌, ◌<◌, ◌≡◌, refl, sym, ◌∙◌, false, none, some, List, [], ◌∷◌,
  ◌++◌, arith, length, length-append, get_elem?, ltb, if◌then◌else◌,
}
use mathlib.Core.Path.{subst}
use pmr_market_simulator.Prelude.Int.{ℤ, pos, negsuc, pos_part, neg_part, ltbℤ, eqbℤ}
use pmr_market_simulator.Prelude.Run.{Run, ok, ok-injective, Returns}
use pmr_market_simulator.Float.{Float}
use pmr_market_simulator.Event.{Event}
use pmr_market_simulator.Rng.{Xoroshiro, next_u64, seeded}
use pmr_market_simulator.Rng.Sample.{rand_index, rand_bool, find_point, find_point_more}
use pmr_market_simulator.Storage.{IStorage}
use pmr_market_simulator.Simulator.{thread_count, thread_order_id}
use pmr_market_simulator.Simulator.Config.{SimConfig, default_config, default_symbols}
use pmr_market_simulator.Simulator.Run.{new_desk}
use pmr_market_simulator.Simulator.Worker.{Desk, Worker, Numbering, turn, turns}
use pmr_market_simulator.Simulator.Worker.Keeps.{
  HasSpace, IsDesk, AllDesks, Assumed, Finds, price_rng, Turned,
}
use pmr_market_simulator.Simulator.Worker.Turns.{turn-Turned}
use pmr_market_simulator.Simulator.Worker.Counted.{Counted, turns-Counted}
use pmr_market_simulator.Simulator.Threads.Start.{new_desk-IsNew, AreMade, contexts-AreMade}
use pmr_market_simulator.Simulator.Threads.Progress.{Progress, ThreadStep-exists}
use pmr_market_simulator.Simulator.Threads.{
  contexts, with_sink, keep_event, Lane, Machine, numbering, lane_turn, after_turn, Schedule,
  iterate, send, not_started, and_then,
}
use pmr_market_simulator.Simulator.Threads.Schedules.{Alone, Schedule-Alone}

abbrev scale : ℕ
scale = 2 ^ 60

abbrev minus : ℕ → ℤ
minus zero = pos 0
minus (suc n) = negsuc n

abbrev difference : ℕ → ℕ → ℤ
difference a b = if ltb a b then minus (b - a) else pos (a - b)

abbrev add_fixed : ℤ → ℤ → ℤ
add_fixed a b = difference (pos_part a + pos_part b) (neg_part a + neg_part b)

abbrev sub_fixed : ℤ → ℤ → ℤ
sub_fixed a b = difference (pos_part a + neg_part b) (neg_part a + pos_part b)

abbrev mul_fixed : ℤ → ℤ → ℤ
mul_fixed (pos a) (pos b) = pos (a * b / scale)
mul_fixed (pos a) (negsuc b) = minus (a * suc b / scale)
mul_fixed (negsuc a) (pos b) = minus (suc a * b / scale)
mul_fixed (negsuc a) (negsuc b) = pos (suc a * suc b / scale)

abbrev reciprocal_fixed : ℤ → ℤ
reciprocal_fixed (pos a) = pos (scale * scale / a)
reciprocal_fixed (negsuc a) = minus (scale * scale / suc a)

abbrev fixed : Float
fixed = record {
  Double = ℤ;
  add = add_fixed;
  sub = sub_fixed;
  mul = mul_fixed;
  div = λ a b. mul_fixed a (reciprocal_fixed b);
  reciprocal = reciprocal_fixed;
  positive = λ a. ltbℤ (pos 0) a;
  lt = ltbℤ;
  eq = eqbℤ;
  sqrt = λ a. a;
  log = λ a. sub_fixed a (pos scale);
  sin = λ a. a;
  pi = pos (3 * scale);
  of_int = λ z. mul_fixed z (pos (scale * scale));
  of_nat = λ n. pos (n * scale);
  llround = λ a. difference (pos_part a / scale) (neg_part a / scale);
  to_int = λ a. difference (pos_part a / scale) (neg_part a / scale);
  to_size = λ a. pos_part a / scale;
  decimal = λ m e. pos (m * scale / 10 ^ e);
  bits = λ a. pos_part a;
  of_bits = pos;
}

abbrev config : SimConfig ℤ
config = default_config fixed

lt-times : (a n : ℕ) → a < scale → 0 < n → a * n < n * scale
lt-times a zero small h = absurd (omega arith)
lt-times a (suc zero) small h = omega arith
lt-times a (suc (suc n)) small h = omega (arith, lt-times a (suc n) small (omega arith))

cancel : (a n : ℕ) → a * (n * scale) / scale ≡ a * n
cancel a n = omega arith

index-lt :
    (k n : ℕ) → k < 2 ^ 53 → 0 < n → k * scale * 2 ^ 7 / scale * (n * scale) / scale / scale < n
index-lt k n small h =
    let down : k * scale * 2 ^ 7 / scale ≡ k * 2 ^ 7 = omega arith in
    rw (down, cancel (k * 2 ^ 7) n) (omega (arith, lt-times (k * 2 ^ 7) n (omega (arith, small)) h))

in_range : (n : ℕ) (g : Xoroshiro) → 0 < n → n < 2 ^ 53 → (rand_index fixed n g).0 < n
unfolding rand_index next_u64
in_range n g h few = index-lt ((next_u64 g).0 / 2 ^ 11) n (omega arith) h

abbrev trace : Event → List Event → Run (List Event)
trace e sent = ok (sent ++ (e ∷ []))

abbrev counting : Numbering
counting = record { id_of = λ n. n; ts_of = λ i. i }

new_desk_fixed :
    Returns
      (new_desk fixed (65 ∷ []))
      λ d. ((numbers : Numbering) → IsDesk numbers 1 d) × HasSpace d
new_desk_fixed =
    let (d, run, (new, name)) = new_desk-IsNew fixed refl (65 ∷ []) in
    (d, run, (new.desk, new.space))

abbrev desk : Desk ℤ
desk = new_desk_fixed.0

abbrev worker : Worker ℤ (List Event)
worker = record {
  desks = desk ∷ [];
  rng = seeded 42;
  normal = record { has_spare = false; spare = pos 0 };
  counter = 1;
  adds = 0;
  cancels = 0;
  trades = 0;
  sink = [];
}

-- The loop of the normal distribution ends in two rounds at most.
finds : Finds fixed 2 worker.normal (price_rng fixed worker)
unfolding find_point rand_bool rand_index seeded
finds none_spare = (_, refl, tt)

more_fuel : find_point fixed 3 (price_rng fixed worker) ≡ ok (finds refl).0
more_fuel =
    find_point_more fixed 2 3 (price_rng fixed worker) (finds refl).0 (omega arith) (finds refl).1

assumed :
    (limit : ℕ)
    → limit < 2 ^ 64
    → (numbers : Numbering)
    → ((j k : ℕ) → j < limit → k < limit → numbers.id_of j ≡ numbers.id_of k → j ≡ k)
    → Assumed fixed numbers limit
assumed limit small numbers differ = record { in_range = in_range; differ = differ; small = small }

one_desk : (si : ℕ) (d : Desk ℤ) → get_elem? (desk ∷ []) si ≡ some d → desk ≡ d
one_desk zero d e = cc
one_desk (suc si) d e = absurd (let bad : none ≡ some d = e in cc)

desks : (numbers : Numbering) → AllDesks numbers 1 (desk ∷ [])
desks numbers si d e = subst (IsDesk numbers 1) (one_desk si d e) (new_desk_fixed.2.0 numbers)

space : (si : ℕ) (d : Desk ℤ) → get_elem? (desk ∷ []) si ≡ some d → HasSpace d
space si d e = subst HasSpace (one_desk si d e) new_desk_fixed.2.1

first_turn :
    Returns
      (turn fixed config trace 2 counting 0 worker)
      (Turned fixed config trace 2 counting worker)
first_turn =
    turn-Turned fixed config trace 2 counting 100 0 worker
      (assumed 100 (omega arith) counting (λ j k h h' e. e)) (λ e. (_, refl, tt)) finds
      (omega arith) (omega arith) (omega arith) (desks counting) space

turn-Turned_example :
    Returns
      (turn fixed config trace 2 counting 0 worker)
      (Turned fixed config trace 2 counting worker)
turn-Turned_example =
    turn-Turned fixed config trace 2 counting 100 0 worker
      (assumed 100 (omega arith) counting (λ j k h h' e. e)) (λ e. (_, refl, tt)) finds
      (omega arith) (omega arith) (omega arith) (desks counting) space

-- The machine of two threads: the first has one iteration left, the second an event to write.
abbrev first_lane : Lane ℤ
first_lane = record { thread = 0; context = with_sink tt worker; next = 0; left = 1; pending = [] }

abbrev event : Event
event = record { ts_ns = 7; type = 1; symbol = 66 ∷ []; price = 0; qty = pos 3; side = 2 }

abbrev second_lane : List Event → Lane ℤ
second_lane pending = record {
  thread = 1;
  context = with_sink tt (record worker { desks = [] });
  next = 5;
  left = 0;
  pending = pending;
}

abbrev log_store : IStorage (List Event)
log_store = record { write = trace; flush = λ s. ok s }

abbrev machine : Machine ℤ (List Event)
machine = record { lanes = first_lane ∷ second_lane (event ∷ []) ∷ []; storage = [] }

first_id : (j : ℕ) → j < 2 → thread_order_id 0 j ≡ j
unfolding thread_order_id
first_id zero h = refl
first_id (suc zero) h = refl
first_id (suc (suc j)) h = absurd (omega arith)

abbrev numbers_at : ℕ → Numbering
numbers_at now = numbering fixed config now 0

numbers_at-Assumed : (now : ℕ) → Assumed fixed (numbers_at now) 2
numbers_at-Assumed now =
    assumed 2 (omega arith) (numbers_at now) (λ j k h h' e. sym (first_id j h) ∙ e ∙ first_id k h')

lane_run :
    Returns
      (lane_turn fixed config 2 9 first_lane)
      (Turned fixed config keep_event 2 (numbers_at 9) worker)
lane_run =
    turn-Turned fixed config keep_event 2 (numbers_at 9) 2 0 worker (numbers_at-Assumed 9)
      (λ e. (_, refl, tt)) finds (omega arith) (omega arith) (omega arith) (desks (numbers_at 9))
      space

abbrev machine_sent : Machine ℤ (List Event)
machine_sent = record { lanes = first_lane ∷ second_lane [] ∷ []; storage = event ∷ [] }

abbrev machine_after : Machine ℤ (List Event)
machine_after = record {
  lanes = after_turn fixed config 2 first_lane 0 lane_run.0 ∷ second_lane [] ∷ [];
  storage = event ∷ [];
}

schedule : Schedule fixed config 2 log_store machine machine_after
schedule =
    and_then machine_sent machine_after
      (and_then machine machine_sent not_started
        (send machine 1 (second_lane (event ∷ [])) event [] (event ∷ []) refl refl refl))
      (iterate machine_sent 0 0 9 first_lane lane_run.0 refl refl refl lane_run.1)

Schedule-Alone_example :
    (l : Lane ℤ) × (get_elem? machine_after.lanes 0 ≡ some l)
    × Alone fixed config 2 refl first_lane l
Schedule-Alone_example =
    Schedule-Alone fixed config 2 refl log_store machine machine_after 0 first_lane schedule refl

ThreadStep-exists_example :
    (m' : Machine ℤ (List Event)) × Progress fixed config 2 log_store machine 0 first_lane m'
ThreadStep-exists_example =
    ThreadStep-exists fixed config 2 log_store 2 0 9 machine first_lane refl (omega arith)
      (λ e. (_, refl, tt))
      (λ some_left. record {
        assumed = numbers_at-Assumed 0;
        finds = finds;
        counter = omega arith;
        some_desk = omega arith;
        few = omega arith;
        space = space;
      })
      (desks (numbers_at 0))

trace_one : (e : Event) (s s' : List Event) → trace e s ≡ ok s' → length s' ≡ length s + 1
trace_one e s s' h =
    let same : s ++ (e ∷ []) ≡ s' = ok-injective _ s' h in rw (sym same) (length-append s (e ∷ []))

one_turn : turns fixed config trace 2 counting 1 0 worker ≡ ok first_turn.0
unfolding turns
one_turn = rw first_turn.1 refl

turns-Counted_example : Counted fixed config trace 2 counting length trace_one worker first_turn.0
turns-Counted_example =
    turns-Counted fixed config trace 2 counting length trace_one 1 0 worker first_turn.0 one_turn

contexts-AreMade_example :
    Returns
      (contexts fixed config 2 8 default_symbols)
      (AreMade fixed refl config (thread_count 2 8 (length default_symbols)) default_symbols)
contexts-AreMade_example = contexts-AreMade fixed refl config 2 8 default_symbols
