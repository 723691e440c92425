-- ===== src/OrderBook.antt =====
-- include/msim/order_book.hpp and src/order_book.cpp: the limit order book of one symbol.
pub mod Ticks
pub mod Sound
pub mod Levels
pub mod Create
pub mod Start
pub mod Fill
pub mod Round
pub mod Matching
pub mod Sweep
pub mod Loop
pub mod Rest
pub mod Add
pub mod Cancel
pub mod Spread
pub mod Tests
pub mod Examples
use mathlib.Core.Option
use pmr_market_simulator.Prelude.{
  ℕ, zero, suc, ◌+◌, ◌-◌, ◌*◌, Bool, true, false, Option, none, some, List, [], ◌∷◌, ◌++◌, length,
  get_or, set, min, ltb, ◌==◌, if◌then◌else◌, ◌&&◌,
}
use pmr_market_simulator.Prelude.Int.{ℤ, pos, ltbℤ, eqbℤ, lebℤ, to_u32, of_u32}
use pmr_market_simulator.Prelude.Run.{Run, ok, abort, spin, ◌>>=◌}
use pmr_market_simulator.Event.{Side, buy, sell}
use pmr_market_simulator.FlatHash
use pmr_market_simulator.FlatHash.{FlatHashMap}
use pmr_market_simulator.FlatHash.Keys.{tick_key, id_key}
use pmr_market_simulator.Float.{Float}

-- `Order`. An order of negative quantity takes the same path as one of quantity 0: no loop runs,
-- nothing rests and 0 is returned; so a quantity is a natural number.
pub record Order (Double : Type 0) : Type 0 where
  pub id : ℕ
  pub price : Double
  pub qty : ℕ
  pub side : Side
  pub ts_ns : ℕ

pub record OrderRef : Type 0 where
  pub side : Side
  pub tick : ℤ

pub record Level (Double : Type 0) : Type 0 where
  pub tick : ℤ
  pub q : List (Order Double)

-- The members of one side: `bid_levels_`, `bid_ticks_` and `best_bid_tick_`, or those of the asks.
-- A `Level*` is an index into the book's `heap`.
pub record Half : Type 0 where
  pub levels : FlatHashMap ℤ ℕ
  pub ticks : List ℤ
  pub best : Option ℤ

-- The members of the class. `heap` is the levels allocated from the memory resource, which are never
-- given back; the head of `free_levels` is the back of the vector.
pub record Book (Double : Type 0) : Type 0 where
  pub bids : Half
  pub asks : Half
  pub index : FlatHashMap ℕ OrderRef
  pub free_levels : List ℕ
  pub symbol : List ℕ
  pub tick_size : Double
  pub inv_tick : Double
  pub heap : List (Level Double)

abbrev pub level_cap : ℕ
level_cap = 2048

abbrev pub index_cap : ℕ
index_cap = 16384

abbrev pub opposite : Side → Side
opposite buy = sell
opposite sell = buy

-- `a` is a strictly better price than `b` for resting orders of the side.
abbrev pub better : Side → ℤ → ℤ → Bool
better buy a b = ltbℤ b a
better sell a b = ltbℤ a b

-- The update of the best tick in `add_active_tick`
abbrev pub improve : Side → ℤ → Option ℤ → Option ℤ
improve side tick none = some tick
improve side tick (some best) = if better side tick best then some tick else some best

unfoldable pub add_active_tick : Side → ℤ → Half → Half
add_active_tick side tick h = record h {
  ticks = h.ticks ++ (tick ∷ []);
  best = improve side tick h.best;
}

-- `v[i] = v.back(); v.pop_back()` at the first element of the list
abbrev pub last_first : List ℤ → List ℤ
last_first [] = []
last_first (x ∷ xs) = elim (last_first xs) [ [] ↦ x ∷ [] | y ∷ ys ↦ y ∷ x ∷ ys ]

unfoldable pub remove_active_tick : ℤ → List ℤ → List ℤ
remove_active_tick tick [] = []
remove_active_tick tick (x ∷ xs) =
    if eqbℤ x tick then last_first xs else x ∷ remove_active_tick tick xs

-- `std::max(best, v[i])` for bids, `std::min(best, v[i])` for asks
abbrev pub pick : Side → ℤ → ℤ → ℤ
pick side best v = if better side v best then v else best

unfoldable pub best_of : Side → ℤ → List ℤ → ℤ
best_of side best [] = best
best_of side best (v ∷ vs) = best_of side (pick side best v) vs

abbrev pub best_tick : Side → List ℤ → Option ℤ
best_tick side [] = none
best_tick side (v ∷ vs) = some (best_of side v vs)

unfoldable pub recompute_best : Side → Half → Half
unfolding best_of
recompute_best side h = record h { best = best_tick side h.ticks }

-- the test `best_ && *best_ == tick`
abbrev pub is_best : ℤ → Option ℤ → Bool
is_best tick none = false
is_best tick (some best) = eqbℤ best tick

-- `remove_active_tick`, then `recompute_best` where the best tick is gone
unfoldable pub drop_tick : Side → ℤ → Half → Half
unfolding remove_active_tick recompute_best
drop_tick side tick h =
    let h' = record h { ticks = remove_active_tick tick h.ticks } in
    if is_best tick h.best then recompute_best side h' else h'

-- `*best_ask_tick_ <= tick` for an incoming buy, `*best_bid_tick_ >= tick` for a sell
abbrev pub crosses : Side → ℤ → Option ℤ → Bool
crosses side tick none = false
crosses buy tick (some best) = lebℤ best tick
crosses sell tick (some best) = lebℤ tick best

-- The tick of the level that the matching loop turns to next, if its test passes
abbrev pub next_level : Side → ℤ → ℕ → Option ℤ → Option ℤ
next_level side tick remaining best =
    if ltb 0 remaining && crosses side tick best then best else none

-- The result of matching in one level: what remains of the incoming order, the level's queue, the
-- index and the last trade price.
pub record Filled (Double : Type 0) : Type 0 where
  pub remaining : ℕ
  pub q : List (Order Double)
  pub index : FlatHashMap ℕ OrderRef
  pub trade_price : Double

-- What the matching loop leaves: the unfilled quantity, the last trade price, and the book.
pub record Matched (Double : Type 0) : Type 0 where
  pub remaining : ℕ
  pub trade_price : Double
  pub book : Book Double

module _ {Double : Type 0} where
  abbrev pub half : Side → Book Double → Half
  half buy b = b.bids
  half sell b = b.asks

  abbrev pub with_half : Side → Half → Book Double → Book Double
  with_half buy h b = record b { bids = h }
  with_half sell h b = record b { asks = h }

  -- `get_level`; the number is the pointer
  unfoldable pub get_level : Side → ℤ → Book Double → Run (Option ℕ)
  unfolding FlatHash.find_ptr
  get_level side tick b = FlatHash.find_ptr (half side b).levels tick

  -- `*lvl`. Every pointer in use is an index into the heap.
  abbrev pub deref : Book Double → ℕ → Level Double
  deref b p = get_or b.heap p (record { tick = pos 0; q = [] })

  abbrev pub store : Book Double → ℕ → List (Order Double) → Book Double
  store b p q = record b { heap = set b.heap p (record { tick = (deref b p).tick; q = q }) }

  -- The pointer at the back of `free_levels_`, whose level is reset to the tick, or a new level.
  unfoldable pub take_level : List ℕ → ℤ → Book Double → ℕ × Book Double
  take_level [] tick b =
      (length b.heap, record b { heap = b.heap ++ (record { tick = tick; q = [] } ∷ []) })
  take_level (p ∷ free) tick b =
      (p, record b { free_levels = free; heap = set b.heap p (record { tick = tick; q = [] }) })

  unfoldable pub allocate_level : ℤ → Book Double → ℕ × Book Double
  unfolding take_level
  allocate_level tick b = take_level b.free_levels tick b

  unfoldable pub get_or_create_level : Side → ℤ → Book Double → Run (ℕ × Book Double)
  unfolding get_level allocate_level FlatHash.insert add_active_tick
  get_or_create_level side tick b = do
    lvl ← get_level side tick b
    elim lvl [
      | some p ↦ ok (p, b)
      | none ↦ do
        let (p, b') = allocate_level tick b
        (inserted, levels) ← FlatHash.insert (half side b').levels tick p
        if inserted
            then ok (
              p,
              with_half side (add_active_tick side tick (record (half side b') { levels = levels }))
                  b',
            )
            else abort
    ]

  unfoldable pub remove_level_if_empty : Side → ℤ → ℕ → Book Double → Run (Book Double)
  unfolding FlatHash.erase drop_tick
  remove_level_if_empty side tick p b = elim (deref b p).q [
    | o ∷ q ↦ ok b
    | [] ↦ do
      (gone, levels) ← FlatHash.erase (half side b).levels tick
      let b' = with_half side (drop_tick side tick (record (half side b) { levels = levels })) b
      ok (record b' { free_levels = p ∷ b.free_levels })
  ]

  -- The loop over the orders of one level, first come first served. An order that is not filled ends
  -- the loop, since the incoming order then is.
  unfoldable pub match_level :
      ℕ → List (Order Double) → FlatHashMap ℕ OrderRef → Double → Run (Filled Double)
  unfolding FlatHash.erase
  match_level remaining [] index trade_price =
      ok (record { remaining = remaining; q = []; index = index; trade_price = trade_price })
  match_level remaining (top ∷ q) index trade_price =
      let traded = min remaining top.qty in
      let rest =
        λ (index' : FlatHashMap ℕ OrderRef). match_level (remaining - traded) q index' top.price in
      if remaining == 0
      then ok
          (record { remaining = remaining; q = top ∷ q; index = index; trade_price = trade_price })
      else if top.qty - traded == 0
      then (FlatHash.erase index top.id >>= λ r. rest r.1)
      else ok (record {
        remaining = remaining - traded;
        q = record top { qty = top.qty - traded } ∷ q;
        index = index;
        trade_price = top.price;
      })

  -- One round of the matching loop, at the best tick of the side that is hit.
  unfoldable pub match_round : Side → ℤ → Matched Double → Run (Matched Double)
  unfolding get_level match_level remove_level_if_empty recompute_best
  match_round side best m = do
    let maker = opposite side
    lvl ← get_level maker best m.book
    elim lvl [
      | none ↦
          ok (record m { book = with_half maker (recompute_best maker (half maker m.book)) m.book })
      | some p ↦ do
        f ← match_level m.remaining (deref m.book p).q m.book.index m.trade_price
        b ← remove_level_if_empty maker best p (record (store m.book p f.q) { index = f.index })
        ok (record { remaining = f.remaining; trade_price = f.trade_price; book = b })
    ]

  -- The matching loop of `add_order`, on fuel. A round in which the incoming order is not filled
  -- empties a level, so the number of levels bounds the rounds.
  unfoldable pub match_loop : ℕ → Side → ℤ → Matched Double → Run (Matched Double)
  unfolding match_round
  match_loop zero side tick m = spin
  match_loop (suc fuel) side tick m =
      elim (next_level side tick m.remaining (half (opposite side) m.book).best) [
        | none ↦ ok m
        | some best ↦ match_round side best m >>= match_loop fuel side tick
      ]

  -- The rest of the incoming order goes to the back of its level and into the index.
  unfoldable pub rest_order : Side → ℤ → Order Double → Book Double → Run (Book Double)
  unfolding get_or_create_level FlatHash.insert
  rest_order side tick rest b = do
    (p, b') ← get_or_create_level side tick b
    let b'' = store b' p ((deref b' p).q ++ (rest ∷ []))
    (inserted, index) ← FlatHash.insert b''.index rest.id (record { side = side; tick = tick })
    if inserted then ok (record b'' { index = index }) else abort

  -- `q.erase(it)` at the first order with the id; `none` if there is none
  unfoldable pub erase_order : ℕ → List (Order Double) → Option (List (Order Double))
  erase_order id [] = none
  erase_order id (o ∷ q) =
      if o.id == id then some q else elim (erase_order id q) [ none ↦ none | some r ↦ some (o ∷ r) ]

  -- `index_.erase(order_id)`
  unfoldable pub unindex : ℕ → Book Double → Run (Book Double)
  unfolding FlatHash.erase
  unindex id b = do (gone, index) ← FlatHash.erase b.index id; ok (record b { index = index })

  unfoldable pub cancel_order : ℕ → Book Double → Run (Bool × Book Double)
  unfolding FlatHash.find_ptr get_level erase_order unindex remove_level_if_empty
  cancel_order id b = do
    ref ← FlatHash.find_ptr b.index id
    elim ref [
      | none ↦ ok (false, b)
      | some ref ↦ do
        lvl ← get_level ref.side ref.tick b
        elim lvl [
          | none ↦ do b' ← unindex id b; ok (false, b')
          | some p ↦ elim (erase_order id (deref b p).q) [
            | none ↦ do b' ← unindex id b; ok (false, b')
            | some q ↦ do
              b' ← unindex id (store b p q)
              b'' ← remove_level_if_empty ref.side ref.tick p b'
              ok (true, b'')
          ]
        ]
    ]

  unfoldable pub index_size : Book Double → ℕ
  index_size b = b.index.size

module _ (fp : Float) where
  open fp use {Double, mul, reciprocal, positive, of_int, llround}

  -- `static_cast<int32_t>(std::llround(px * inv_tick_))`
  unfoldable pub price_to_tick : Book Double → Double → ℤ
  price_to_tick b px = of_u32 (to_u32 (llround (mul px b.inv_tick)))

  unfoldable pub tick_to_price : Book Double → ℤ → Double
  tick_to_price b t = mul (of_int t) b.tick_size

  -- The constructor, with the capacities of the level maps and of the index
  unfoldable pub create_with : ℕ → ℕ → List ℕ → Double → Run (Book Double)
  unfolding FlatHash.create
  create_with level_capacity index_capacity symbol tick_size =
      let empty_half : Half = record {
        levels = FlatHash.create level_capacity false;
        ticks = [];
        best = none;
      } in
      if positive tick_size
      then ok (record {
        bids = empty_half;
        asks = empty_half;
        index = FlatHash.create index_capacity false;
        free_levels = [];
        symbol = symbol;
        tick_size = tick_size;
        inv_tick = reciprocal tick_size;
        heap = [];
      })
      else abort

  unfoldable pub create : List ℕ → Double → Run (Book Double)
  unfolding create_with
  create = create_with level_cap index_cap

  -- `add_order`: the quantity matched, the trade price (as it was, if nothing traded), the book.
  unfoldable pub add_order : Order Double → Double → Book Double → Run (ℕ × Double × Book Double)
  unfolding price_to_tick tick_to_price match_loop rest_order
  add_order o trade_price b =
      let tick = price_to_tick b o.price in
      let snapped_px = tick_to_price b tick in
      do
        m ←
            match_loop (2 * ((half (opposite o.side) b).levels.size + 1)) o.side tick
              (record { remaining = o.qty; trade_price = trade_price; book = b })
        b' ←
            if ltb 0 m.remaining
            then rest_order o.side tick (record o { qty = m.remaining; price = snapped_px }) m.book
            else ok m.book
        ok (o.qty - m.remaining, m.trade_price, b')

  unfoldable pub best_bid : Book Double → Option Double
  unfolding tick_to_price
  best_bid b = Option.map (tick_to_price b) b.bids.best

  unfoldable pub best_ask : Book Double → Option Double
  unfolding tick_to_price
  best_ask b = Option.map (tick_to_price b) b.asks.best
