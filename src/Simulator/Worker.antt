-- ===== src/Simulator/Worker.antt =====
-- src/simulator.cpp: the loop body of `run` and of a thread of `run_mt`.
pub mod Keeps
pub mod Turns
pub mod Counted
mod Tests
use mathlib.Core.Option
use pmr_market_simulator.Prelude.{
  ℕ, zero, suc, ◌+◌, ◌-◌, ◌*◌, ◌%◌, ◌^◌, Bool, true, false, Option, none, some, List, [], ◌∷◌, ◌++◌,
  length, get_elem?, set, ltb, ◌==◌, ◌&&◌, ◌||◌, not, if◌then◌else◌,
}
use pmr_market_simulator.Prelude.Int.{ℤ, pos, pos_part}
use pmr_market_simulator.Prelude.Run.{Run, ok, abort, ◌>>=◌}
use pmr_market_simulator.Float.{Float}
use pmr_market_simulator.Event.{
  Event, EventType, order_add, order_cancel, trade, type_code, Side, buy, sell, side_code,
}
use pmr_market_simulator.OrderBook.{Order, Book, add_order, cancel_order, best_bid, best_ask}
use pmr_market_simulator.Rng.{Xoroshiro}
use pmr_market_simulator.Rng.Sample.{NormalBm, rand_bool, rand_int, rand_index, draw_normal}
use pmr_market_simulator.Simulator.Config.{SimConfig}

-- One symbol of a thread: its name, book, mid price and live ids (`ctx.symbols[i]`, `ctx.books[i]`,
-- `ctx.mid[i]` and `ctx.live[i]`; in `run` a `SymState` with its name and its live ids).
pub record Desk (Double : Type 0) : Type 0 where
  pub symbol : List ℕ
  pub book : Book Double
  pub mid : Double
  pub live : List ℕ

-- `ThreadContext` and what `emit_event` writes to. `counter` is `next_order_id_` or `local_id`.
pub record Worker (Double : Type 0) (Sink : Type 0) : Type 0 where
  pub desks : List (Desk Double)
  pub rng : Xoroshiro
  pub normal : NormalBm Double
  pub counter : ℕ
  pub adds : ℕ
  pub cancels : ℕ
  pub trades : ℕ
  pub sink : Sink

-- The id of an order from the counter, and the timestamp of an event from the index of the
-- iteration.
pub record Numbering : Type 0 where
  pub id_of : ℕ → ℕ
  pub ts_of : ℕ → ℕ

-- `live_ids[li] = live_ids.back(); live_ids.pop_back();`
abbrev pub drop_last : List ℕ → List ℕ
drop_last [] = []
drop_last (x ∷ []) = []
drop_last (x ∷ y ∷ xs) = x ∷ drop_last (y ∷ xs)

abbrev pub last_of : ℕ → List ℕ → ℕ
last_of x [] = x
last_of x (y ∷ ys) = last_of y ys

unfoldable pub swap_pop : ℕ → List ℕ → List ℕ
swap_pop li [] = []
swap_pop li (x ∷ xs) = drop_last (set (x ∷ xs) li (last_of x xs))

abbrev pub is_empty : List ℕ → Bool
is_empty [] = true
is_empty (x ∷ xs) = false

abbrev pub next_count : ℕ → ℕ
next_count n = (n + 1) % 2 ^ 64

module _ (fp : Float) where
  open fp use {Double, add, mul, decimal, bits}

  -- The mid price after an order: between the best prices, or the one that there is
  abbrev pub next_mid : Double → Option Double → Option Double → Double
  next_mid mid (some bb) (some ba) = mul (add bb ba) (decimal 5 1)
  next_mid mid (some bb) none = bb
  next_mid mid none (some ba) = ba
  next_mid mid none none = mid

  -- The event of an order of which `matched` was filled at the price
  unfoldable pub order_event : List ℕ → Order Double → ℕ → Double → Event
  order_event symbol o matched trade_px =
      if ltb 0 matched
      then record {
        ts_ns = o.ts_ns;
        type = type_code trade;
        symbol = symbol;
        price = bits trade_px;
        qty = pos matched;
        side = side_code o.side;
      }
      else record {
        ts_ns = o.ts_ns;
        type = type_code order_add;
        symbol = symbol;
        price = bits o.price;
        qty = pos o.qty;
        side = side_code o.side;
      }

  unfoldable pub cancel_event : List ℕ → ℕ → Event
  cancel_event symbol ts = record {
    ts_ns = ts;
    type = type_code order_cancel;
    symbol = symbol;
    price = bits (decimal 0 0);
    qty = pos 0;
    side = side_code buy;
  }

  -- What an order leaves: its book, of which `matched` was filled, and what was drawn
  abbrev pub after_add :
      {Sink : Type 0}
      → ℕ
      → Desk Double
      → Worker Double Sink
      → Order Double
      → ℕ
      → Book Double
      → NormalBm Double
      → Xoroshiro
      → Sink
      → Worker Double Sink
  after_add si d w o matched book normal rng sink = record w {
    desks = set w.desks si (record {
      symbol = d.symbol;
      book = book;
      mid = next_mid d.mid (best_bid fp book) (best_ask fp book);
      live = if ltb matched o.qty then d.live ++ (o.id ∷ []) else d.live;
    });
    rng = rng;
    normal = normal;
    counter = next_count w.counter;
    trades = if ltb 0 matched then w.trades + 1 else w.trades;
    adds = if ltb 0 matched then w.adds else w.adds + 1;
    sink = sink;
  }

  -- The order of an iteration; `side` and `qty` are drawn before and after the price.
  abbrev pub new_order :
      {Sink : Type 0} → Numbering → ℕ → Worker Double Sink → Side → Double → ℤ → Order Double
  new_order numbers i w side p qty = record {
    id = numbers.id_of w.counter;
    price = p;
    qty = pos_part qty;
    side = side;
    ts_ns = numbers.ts_of i;
  }

  abbrev pub after_cancel :
      {Sink : Type 0} → ℕ → ℕ → Desk Double → Book Double → Worker Double Sink → Worker Double Sink
  after_cancel si li d book w = record w {
    desks = set w.desks si (record d { book = book; live = swap_pop li d.live });
  }

module _ (fp : Float) (cfg : SimConfig fp.Double) where
  open fp use {Double, add, mul, div, positive, sin, pi, of_nat, decimal}

  -- `Simulator::draw_price`
  unfoldable pub draw_price :
      ℕ → Double → ℕ → NormalBm Double → Xoroshiro → Run (Double × NormalBm Double × Xoroshiro)
  unfolding draw_normal
  draw_price fuel mid i_event normal rng =
      let phase = div (of_nat (i_event % cfg.drift_period)) (of_nat cfg.drift_period) in
      let drift = add (decimal 1 0) (mul cfg.drift_ampl (sin (mul (mul phase (decimal 2 0)) pi))) in
      let sigma =
        if positive cfg.drift_ampl && ltb 0 cfg.drift_period
        then mul cfg.sigma drift
        else cfg.sigma in
      draw_normal fp fuel normal mid (mul mid sigma) rng

  -- `emit` is `emit_event`, and `fuel` bounds the loop of `NormalBM`.
  module _ {Sink : Type 0} (emit : Event → Sink → Run Sink) (fuel : ℕ) (numbers : Numbering) where
    -- A new order, for the symbol at `si`
    unfoldable pub add_turn : ℕ → ℕ → Desk Double → Worker Double Sink → Run (Worker Double Sink)
    unfolding draw_price rand_bool rand_int order_event add_order best_bid best_ask
    add_turn i si d w = do
      let (is_buy, rng) = rand_bool fp (decimal 5 1) w.rng
      (p, normal, rng') ← draw_price fuel d.mid i w.normal rng
      let (qty, rng'') = rand_int fp 1 100 rng'
      let o = new_order fp numbers i w (if is_buy then buy else sell) p qty
      (matched, trade_px, book) ← add_order fp o (decimal 0 0) d.book
      sink ← emit (order_event fp d.symbol o matched trade_px) w.sink
      ok (after_add fp si d w o matched book normal rng'' sink)

    -- The event of a cancel that found its order
    unfoldable pub count_cancel :
        ℕ → Desk Double → Worker Double Sink → Bool → Run (Worker Double Sink)
    unfolding cancel_event
    count_cancel i d w false = ok w
    count_cancel i d w true = do
      sink ← emit (cancel_event fp d.symbol (numbers.ts_of i)) w.sink
      ok (record w { cancels = w.cancels + 1; sink = sink })

    -- The cancel of the live id at `li`
    unfoldable pub cancel_id :
        ℕ → ℕ → ℕ → Desk Double → Worker Double Sink → ℕ → Run (Worker Double Sink)
    unfolding swap_pop cancel_order count_cancel
    cancel_id i si li d w victim = do
      (found, book) ← cancel_order victim d.book
      count_cancel i d (after_cancel fp si li d book w) found

    -- A cancel of a random live id, for the symbol at `si`
    unfoldable pub cancel_turn : ℕ → ℕ → Desk Double → Worker Double Sink → Run (Worker Double Sink)
    unfolding rand_index cancel_id
    cancel_turn i si d w =
        let (li, rng) = rand_index fp (length d.live) w.rng in
        elim (get_elem? d.live li) [
          | none ↦ abort
          | some victim ↦ cancel_id i si li d (record w { rng = rng }) victim
        ]

    -- One iteration. An index past the end, which would be undefined behaviour, ends the run here.
    unfoldable pub turn : ℕ → Worker Double Sink → Run (Worker Double Sink)
    unfolding rand_index rand_bool add_turn cancel_turn
    turn i w =
        let (si, rng) = rand_index fp (length w.desks) w.rng in
        let (do_add, rng') = rand_bool fp (decimal 5 1) rng in
        elim (get_elem? w.desks si) [
          | none ↦ abort
          | some d ↦
              if do_add || is_empty d.live
              then add_turn i si d (record w { rng = rng' })
              else cancel_turn i si d (record w { rng = rng' })
        ]

    -- The loop: `n` iterations from the index `i` on
    unfoldable pub turns : ℕ → ℕ → Worker Double Sink → Run (Worker Double Sink)
    unfolding turn
    turns zero i w = ok w
    turns (suc n) i w = turn i w >>= turns n (i + 1)
