-- ===== src/OrderBook/Examples.antt =====
-- The theorems on the order book at the books of a short session: a sell order of 10 at 101 rests,
-- and a buy order of 6 at 102 hits it.
use pmr_market_simulator.Prelude.{
  ℕ, ◌+◌, ◌≡◌, refl, sym, ap, ◌∙◌, false, none, some, [], ◌∷◌, arith, inr,
}
use pmr_market_simulator.Prelude.Int.{pos}
use pmr_market_simulator.Prelude.Run.{Run, ok, Returns}
use pmr_market_simulator.Event.{Side, buy, sell}
use pmr_market_simulator.FlatHash.{FlatHashMap, hash32, hash64, next_pow2}
use pmr_market_simulator.FlatHash
use pmr_market_simulator.FlatHash.Keys.{tick_key, id_key}
use pmr_market_simulator.FlatHash.Laws.{contents, find_ptr-contents}
use pmr_market_simulator.FlatHash.Insert.{HasRoom}
use pmr_market_simulator.OrderBook.{
  Order, Half, Book, Matched, half, create_with, add_order, match_loop, cancel_order, best_tick,
  drop_tick, get_or_create_level, price_to_tick, tick_to_price, match_level,
}
use pmr_market_simulator.OrderBook.Create.{Created, get_or_create_level-Created}
use pmr_market_simulator.OrderBook.Start.{Started, create_with-Started, Started-IsBook}
use pmr_market_simulator.OrderBook.Round.{IsBook}
use pmr_market_simulator.OrderBook.Sound.{pointer, queue, queue_at}
use pmr_market_simulator.OrderBook.Sweep.{Swept}
use pmr_market_simulator.OrderBook.Fill.{Fills, match_level-Fills}
use pmr_market_simulator.OrderBook.Loop.{match_loop-Swept}
use pmr_market_simulator.OrderBook.Add.{Added, add_order-Added}
use pmr_market_simulator.OrderBook.Cancel.{Cancelled, cancel_order-Cancelled, cancel_order-absent}
use pmr_market_simulator.OrderBook.Spread.{
  IsUncrossed, add_order-IsUncrossed, cancel_order-IsUncrossed,
}
use pmr_market_simulator.OrderBook.Ticks.{IsBest, drop_tick-IsBest, best_tick-IsBest}
use pmr_market_simulator.OrderBook.Tests.{whole, order}

create_with-Started_example : Returns (create_with whole 8 8 [] 1) Started
create_with-Started_example =
    create_with-Started whole 8 8 3 3 [] 1 (unfold next_pow2 in refl) (omega arith)
      (unfold next_pow2 in refl) (omega arith) refl

abbrev no_levels : Half
no_levels = record { levels = FlatHash.create 8 false; ticks = []; best = none }

abbrev made : Run (Book ℕ) → Book ℕ
made (ok b) = b
made _ = record {
  bids = no_levels;
  asks = no_levels;
  index = FlatHash.create 8 false;
  free_levels = [];
  symbol = [];
  tick_size = 1;
  inv_tick = 1;
  heap = [];
}

abbrev pub start : Book ℕ
start = made (create_with whole 8 8 [] 1)

pub start-Started : Started start
start-Started = let (b, run, s) = create_with-Started_example in rw (run, made) s

pub start-IsBook : IsBook start
start-IsBook = Started-IsBook start start-Started

pub start_room : (s : Side) → HasRoom (half s start).levels
unfolding create_with FlatHash.create next_pow2
start_room buy = omega arith
start_room sell = omega arith

pub start_index_room : HasRoom start.index
unfolding create_with FlatHash.create next_pow2
start_index_room = omega arith

get_or_create_level-Created_example :
    Returns (get_or_create_level sell (pos 101) start) (Created sell (pos 101) start)
get_or_create_level-Created_example =
    get_or_create_level-Created sell (pos 101) start start-IsBook.sound (start_room sell)

-- The book after an order that rests.
abbrev book_of : Run (ℕ × ℕ × Book ℕ) → Book ℕ
book_of (ok r) = r.2
book_of _ = start

abbrev offer : Order ℕ
offer = order 1 101 10 sell 0

abbrev bid : Order ℕ
bid = order 2 102 6 buy 0

abbrev offered : Book ℕ
offered = book_of (add_order whole offer 0 start)

offered-IsBook : IsBook offered
offered-IsBook =
    let (r, run, a) =
      add_order-Added whole offer 0 start start-IsBook (start_room sell) start_index_room
        (start-Started.no_orders 1) in
    rw (run, book_of) a.book

offered_room : HasRoom (half buy offered).levels × HasRoom offered.index
unfolding add_order create_with FlatHash.create next_pow2 hash32 hash64
offered_room = (omega arith, omega arith)

offered_absent : contents offered.index 2 ≡ none
offered_absent =
    let found : ok (contents offered.index 2) ≡ ok none =
      sym (find_ptr-contents 2 offered-IsBook.index.valid)
      ∙ (unfold add_order create_with FlatHash.create next_pow2 hash32 hash64 FlatHash.find_ptr in
          refl) in
    cc

match_level-Fills_example :
    Returns (match_level 6 (offer ∷ []) offered.index 0) (Fills 6 (offer ∷ []) offered.index)
match_level-Fills_example = match_level-Fills 6 (offer ∷ []) offered.index 0 offered-IsBook.index

abbrev bid_arrives : Matched ℕ
bid_arrives = record { remaining = 6; trade_price = 0; book = offered }

match_loop-Swept_example :
    Returns
      (match_loop ((half sell offered).levels.size + 2) buy (pos 102) bid_arrives)
      (Swept buy (pos 102) bid_arrives)
match_loop-Swept_example =
    match_loop-Swept ((half sell offered).levels.size + 2) buy (pos 102) bid_arrives offered-IsBook
      (omega arith, inr (omega arith))

add_order-Added_example : Returns (add_order whole bid 0 offered) (
    Added bid
      (record bid { price = tick_to_price whole offered (price_to_tick whole offered 102) })
      (price_to_tick whole offered 102)
      offered)
add_order-Added_example =
    add_order-Added whole bid 0 offered offered-IsBook offered_room.0 offered_room.1 offered_absent

offer_ref : contents offered.index 1 ≡ some (record { side = sell; tick = pos 101 })
offer_ref =
    let found : ok (contents offered.index 1) ≡ ok (some (record { side = sell; tick = pos 101 })) =
      sym (find_ptr-contents 1 offered-IsBook.index.valid)
      ∙ (unfold add_order create_with FlatHash.create next_pow2 hash32 hash64 FlatHash.find_ptr in
          refl) in
    cc

cancel_order-Cancelled_example :
    Returns (cancel_order 1 offered) (Cancelled 1 (record { side = sell; tick = pos 101 }) offered)
cancel_order-Cancelled_example =
    cancel_order-Cancelled 1 (record { side = sell; tick = pos 101 }) offered offered-IsBook
      offer_ref

cancel_order-absent_example : cancel_order 2 offered ≡ ok (false, offered)
cancel_order-absent_example = cancel_order-absent 2 offered offered-IsBook offered_absent

pub start-IsUncrossed : IsUncrossed start
start-IsUncrossed t t' bid ask = absurd (bid (no_orders (start-Started.no_levels buy t)))
  where
    no_orders : pointer buy t start ≡ none → queue buy t start ≡ []
    no_orders e = unfold queue in ap (queue_at start) e

offered-IsUncrossed : IsUncrossed offered
offered-IsUncrossed =
    let (r, run, h) =
      add_order-IsUncrossed whole offer 0 start start-IsBook (start_room sell) start_index_room
        (start-Started.no_orders 1) start-IsUncrossed in
    rw (run, book_of) h

add_order-IsUncrossed_example : Returns (add_order whole bid 0 offered) λ r. IsUncrossed r.2
add_order-IsUncrossed_example =
    add_order-IsUncrossed whole bid 0 offered offered-IsBook offered_room.0 offered_room.1
      offered_absent offered-IsUncrossed

abbrev two_bids : Half
two_bids = record {
  levels = FlatHash.create 8 false;
  ticks = pos 100 ∷ pos 101 ∷ [];
  best = best_tick buy (pos 100 ∷ pos 101 ∷ []);
}

drop_tick-IsBest_example :
    IsBest buy (drop_tick buy (pos 101) two_bids).ticks (drop_tick buy (pos 101) two_bids).best
drop_tick-IsBest_example =
    drop_tick-IsBest buy (pos 101) two_bids (best_tick-IsBest buy (pos 100 ∷ pos 101 ∷ []))

cancel_order-IsUncrossed_example : Returns (cancel_order 1 offered) λ r. IsUncrossed r.1
cancel_order-IsUncrossed_example =
    cancel_order-IsUncrossed 1 offered offered-IsBook offered-IsUncrossed
