-- ===== src/Simulator/Worker/Turns.antt =====
-- An iteration of a thread ends, and so does its whole loop while there is room.
use pmr_market_simulator.Prelude.{
  ℕ, ◌+◌, ◌^◌, ◌<◌, ◌≡◌, inl, inr, refl, ap, ◌∙◌, Bool, true, false, Option, none, some, List, [],
  ◌∷◌, arith, length, get_elem?, length-set, ◌==◌, ◌||◌, if◌then◌else◌, Bool-cases, Option-cases,
}
use pmr_market_simulator.Prelude.Run.{Run, Returns}
use pmr_market_simulator.Float.{Float}
use pmr_market_simulator.Event.{Event, buy, sell}
use pmr_market_simulator.FlatHash.Keys.{tick_key, id_key}
use pmr_market_simulator.FlatHash.Laws.{contents}
use pmr_market_simulator.OrderBook.{OrderRef, Book, cancel_order, price_to_tick}
use pmr_market_simulator.OrderBook.Add.{add_order-Added}
use pmr_market_simulator.OrderBook.Cancel.{Cancelled, cancel_order-Cancelled, cancel_order-absent}
use pmr_market_simulator.OrderBook.Spread.{Cancelled-IsUncrossed}
use pmr_market_simulator.Rng.{Xoroshiro}
use pmr_market_simulator.Rng.Sample.{NormalBm, rand_bool, rand_int, rand_index}
use pmr_market_simulator.Simulator.Config.{SimConfig}
use pmr_market_simulator.Simulator.Worker.{
  Desk, Worker, Numbering, swap_pop, is_empty, next_count, draw_price, order_event, cancel_event,
  after_add, new_order, add_turn, after_cancel, count_cancel, cancel_id, cancel_turn, turn,
}
use pmr_market_simulator.Simulator.Worker.Keeps.{
  get_elem?-lt, IsDesk, AllDesks, HasSpace, Assumed, Finds, Accepts, price_rng, draw_normal-Returns,
  Turned, Added-IsDesk, later-IsDesk, set-AllDesks, fresh,
}

module _ (fp : Float) (cfg : SimConfig fp.Double) {Sink : Type 0} (emit : Event → Sink → Run Sink)
    (fuel : ℕ) (numbers : Numbering) where
  open fp use {Double, decimal}

  draw_price-Returns :
      (mid : Double) (i : ℕ) (normal : NormalBm Double) (g : Xoroshiro)
      → Finds fp fuel normal g
      → Returns (draw_price fp cfg fuel mid i normal g) λ r. Unit {0}
  unfolding draw_price
  draw_price-Returns mid i normal g finds = draw_normal-Returns fp fuel normal mid _ g finds

  add_turn-Turned :
      (limit i si : ℕ) (d : Desk Double) (w : Worker Double Sink)
      → Assumed fp numbers limit
      → Accepts emit w.sink
      → Finds fp fuel w.normal (rand_bool fp (decimal 5 1) w.rng).1
      → w.counter < limit
      → AllDesks numbers w.counter w.desks
      → IsDesk numbers w.counter d
      → HasSpace d
      → Returns (add_turn fp cfg emit fuel numbers i si d w) (Turned fp cfg emit fuel numbers w)
  unfolding add_turn
  add_turn-Turned limit i si d w ass accepts finds lt all is space =
      let (is_buy, rng) = rand_bool fp (decimal 5 1) w.rng in
      let ((p, normal, rng'), drawn, done) = draw_price-Returns d.mid i w.normal rng finds in
      let (qty, rng'') = rand_int fp 1 100 rng' in
      let o = new_order fp numbers i w (if is_buy then buy else sell) p qty in
      let tick = price_to_tick fp d.book p in
      let (r, run, a) =
        add_order-Added fp o (decimal 0 0) d.book is.book (space.levels o.side) space.index
          (fresh numbers w.counter limit d ass.differ lt is) in
      let (sink, sent, yes_sent) = accepts (order_event fp d.symbol o r.0 r.1) in
      let step : next_count w.counter ≡ w.counter + 1 = omega (arith, ass.small) in
      (
        after_add fp si d w o r.0 r.2 normal rng'' sink,
        rw (drawn, run, sent) refl,
        record {
          desks = rw step (
              set-AllDesks numbers (w.counter + 1) w.desks si _
                (λ j d' e. later-IsDesk numbers w.counter d' (all j d' e))
                (Added-IsDesk fp cfg emit fuel numbers i w.counter d _ _ o _ tick r refl is a));
          same_number = length-set w.desks si _;
          counter = omega (arith, step);
          counter_step = omega (arith, step);
          counted = ground arith;
        },
      )

  Cancelled-IsDesk :
      (n victim : ℕ) (d : Desk Double) (ref : OrderRef) (live : List ℕ) (r : Bool × Book Double)
      → IsDesk numbers n d
      → Cancelled victim ref d.book r
      → IsDesk numbers n (record d { book = r.1; live = live })
  Cancelled-IsDesk n victim d ref live r is c = record {
    book = c.book;
    uncrossed = Cancelled-IsUncrossed victim ref d.book r c is.uncrossed;
    issued = λ id e. is.issued id (λ absent.
        e (c.indexed id ∙ ap (λ o. if victim == id then none else o) absent ∙ same (victim == id)));
  }
    where
      same : (b : Bool) → if◌then◌else◌ {A = Option OrderRef} b none none ≡ none
      same true = refl
      same false = refl

  -- What a cancel leaves of a desk, whether or not the index knows the id.
  cancel_desk :
      (n victim : ℕ) (d : Desk Double) (live : List ℕ)
      → IsDesk numbers n d
      → Returns
          (cancel_order victim d.book)
          λ r. IsDesk numbers n (record d { book = r.1; live = live })
  cancel_desk n victim d live is = elim (Option-cases (contents d.book.index victim)) [
    | inl absent ↦ (
      (false, d.book),
      cancel_order-absent victim d.book is.book absent,
      record { book = is.book; uncrossed = is.uncrossed; issued = is.issued },
    )
    | inr (ref, at) ↦
        let (r, run, c) = cancel_order-Cancelled victim ref d.book is.book at in
        (r, run, Cancelled-IsDesk n victim d ref live r is c)
  ]

  cancel_turn-Turned :
      (limit i si : ℕ) (d : Desk Double) (w : Worker Double Sink)
      → Assumed fp numbers limit
      → Accepts emit w.sink
      → 0 < length d.live
      → length d.live < 2 ^ 53
      → AllDesks numbers w.counter w.desks
      → IsDesk numbers w.counter d
      → Returns (cancel_turn fp cfg emit fuel numbers i si d w) (Turned fp cfg emit fuel numbers w)
  unfolding cancel_turn cancel_id count_cancel
  cancel_turn-Turned limit i si d w ass accepts some_live live all is =
      let (li, rng) = rand_index fp (length d.live) w.rng in
      let (victim, at) =
        get_elem?-lt d.live li (ass.in_range (length d.live) w.rng some_live live) in
      let ((found, book), run, desk) = cancel_desk w.counter victim d (swap_pop li d.live) is in
      let w' = after_cancel fp si li d book (record w { rng = rng }) in
      let desks = set-AllDesks numbers w.counter w.desks si _ all desk in
      elim (Bool-cases found) [
        | inl yes_found ↦
            let (sink, sent, done) = accepts (cancel_event fp d.symbol (numbers.ts_of i)) in
            (
              record w' { cancels = w.cancels + 1; sink = sink },
              rw (cancel_turn, at, run, yes_found, sent) refl,
              record {
                desks = desks;
                same_number = length-set w.desks si _;
                counter = omega arith;
                counter_step = omega arith;
                counted = omega arith;
              },
            )
        | inr not_found ↦ (
          w',
          rw (cancel_turn, at, run, not_found) refl,
          record {
            desks = desks;
            same_number = length-set w.desks si _;
            counter = omega arith;
            counter_step = omega arith;
            counted = omega arith;
          },
        )
      ]

  -- The two ways of an iteration, for the desk that it picks.
  turn_at :
      (limit i si : ℕ) (add_drawn : Bool) (d : Desk Double) (w : Worker Double Sink)
      → Assumed fp numbers limit
      → Accepts emit w.sink
      → Finds fp fuel w.normal (rand_bool fp (decimal 5 1) w.rng).1
      → w.counter < limit
      → AllDesks numbers w.counter w.desks
      → IsDesk numbers w.counter d
      → HasSpace d
      → Returns
          (if add_drawn || is_empty d.live
            then add_turn fp cfg emit fuel numbers i si d w
            else cancel_turn fp cfg emit fuel numbers i si d w)
          (Turned fp cfg emit fuel numbers w)
  turn_at limit i si add_drawn d w ass accepts finds lt all is space =
      elim (Bool-cases (add_drawn || is_empty d.live)) [
        | inl adds ↦ rw adds (add_turn-Turned limit i si d w ass accepts finds lt all is space)
        | inr cancels ↦ rw cancels (
            cancel_turn-Turned limit i si d w ass accepts (some_live add_drawn d.live cancels)
              space.live all is)
      ]
    where
      some_live : (b : Bool) (live : List ℕ) → (b || is_empty live) ≡ false → 0 < length live
      some_live b [] e = absurd (ground (arith, e))
      some_live b (x ∷ live) e = omega arith

  -- For a thread with at least one symbol and fewer than 2 ^ 53, whose books are sound and uncrossed
  -- and have room for one more order, with fewer than 2 ^ 53 live ids for each symbol, and whose
  -- counter is below the limit of its ids: if random indices below bounds less than 2 ^ 53 are in
  -- range, ids from counters below the limit differ, the sink as it is accepts every event, and, unless
  -- there is a spare value, the sampling loop ends on its fuel from the state of the generator in which
  -- this iteration draws a price, then the iteration ends. It leaves sound and uncrossed books that
  -- hold issued ids only, the counter has gone up by one at most, and at most one event more is
  -- counted.
  pub turn-Turned :
      (limit i : ℕ) (w : Worker Double Sink)
      → Assumed fp numbers limit
      → Accepts emit w.sink
      → Finds fp fuel w.normal (price_rng fp w)
      → w.counter < limit
      → 0 < length w.desks
      → length w.desks < 2 ^ 53
      → AllDesks numbers w.counter w.desks
      → ((si : ℕ) (d : Desk Double) → get_elem? w.desks si ≡ some d → HasSpace d)
      → Returns (turn fp cfg emit fuel numbers i w) (Turned fp cfg emit fuel numbers w)
  unfolding turn
  turn-Turned limit i w ass accepts finds lt some_desk few all space =
      let (si, rng) = rand_index fp (length w.desks) w.rng in
      let (do_add, rng') = rand_bool fp (decimal 5 1) rng in
      let (d, at) = get_elem?-lt w.desks si (ass.in_range (length w.desks) w.rng some_desk few) in
      let (w', run, t) =
        turn_at limit i si do_add d (record w { rng = rng' }) ass accepts finds lt all (all si d at)
          (space si d at) in
      (
        w',
        rw (turn, at) run,
        record {
          desks = t.desks;
          same_number = t.same_number;
          counter = t.counter;
          counter_step = t.counter_step;
          counted = t.counted;
        },
      )
