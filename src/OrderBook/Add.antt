-- ===== src/OrderBook/Add.antt =====
-- `add_order`: the incoming order is matched, and what remains of it rests in the book.
use pmr_market_simulator.Prelude.{
  ℕ, ◌+◌, ◌-◌, ◌*◌, ◌≡◌, inl, inr, refl, sym, ap, ◌∙◌, Bool, true, false, Option, none, some, List,
  [], ◌∷◌, ◌++◌, arith, if◌then◌else◌, Bool-cases, ◌==◌, ltb, ◌&&◌,
}
use mathlib.Core.Path.{subst, fun_ext}
use pmr_market_simulator.Prelude.Int.{ℤ, eqbℤ}
use pmr_market_simulator.Prelude.Run.{Run, ok, Returns, ◌>>=◌}
use pmr_market_simulator.Event.{Side, buy, sell}
use pmr_market_simulator.Float.{Float}
use pmr_market_simulator.FlatHash.Keys.{tick_key, id_key}
use pmr_market_simulator.FlatHash.Laws.{contents}
use pmr_market_simulator.FlatHash.Insert.{HasRoom}
use pmr_market_simulator.OrderBook.{
  Order, OrderRef, Book, Matched, half, opposite, rest_order, add_order, price_to_tick,
  tick_to_price,
}
use pmr_market_simulator.OrderBook.Sound.{same_level, queue}
use pmr_market_simulator.OrderBook.Fill.{among}
use pmr_market_simulator.OrderBook.Round.{IsBook}
use pmr_market_simulator.OrderBook.Sweep.{Sweeps, Swept, same_ticks}
use pmr_market_simulator.OrderBook.Loop.{match_loop-Swept}
use pmr_market_simulator.OrderBook.Rest.{Rested, rest_order-Rested}

-- The order in the index, if something of it rests.
abbrev pub refers : Bool → ℕ → OrderRef → ℕ → Option OrderRef → Option OrderRef
refers rests id ref x old = if rests && id == x then some ref else old

other_way : (s : Side) (t t' : ℤ) → same_level s t (opposite s) t' ≡ false
other_way buy t t' = refl
other_way sell t t' = refl

module _ {Double : Type 0} where
  -- What `add_order` promises of an order `o` at a tick, where `snapped` is the order at the price
  -- of the tick.
  pub record Added (o snapped : Order Double) (tick : ℤ) (b : Book Double)
      (r : ℕ × Double × Book Double) : Type 0 where
    pub book : IsBook r.2
    pub left : ℕ
    pub matched : r.0 + left ≡ o.qty
    pub ids : List ℕ
    pub sweeps :
        Sweeps o.side tick o.qty
          (λ t. queue (opposite o.side) t b)
          left
          (λ t. queue (opposite o.side) t r.2)
          ids
    pub rests :
        (t : ℤ)
        → queue o.side t r.2 ≡ (
            if ltb 0 left && eqbℤ tick t
            then queue o.side tick b ++ (record snapped { qty = left } ∷ [])
            else queue o.side t b)
    pub indexed :
        (id : ℕ)
        → contents r.2.index id
          ≡ refers
              (ltb 0 left)
              o.id
              (record { side = o.side; tick = tick })
              id
              (if among id ids then none else contents b.index id)

  -- The second half of `add_order`.
  abbrev finish : Order Double → Order Double → ℤ → Matched Double → Run (ℕ × Double × Book Double)
  finish o snapped tick m = do
    b' ←
        if ltb 0 m.remaining
        then rest_order o.side tick (record snapped { qty = m.remaining }) m.book
        else ok m.book
    ok (o.qty - m.remaining, m.trade_price, b')

  Added-filled :
      (o snapped : Order Double) (tick : ℤ) (m m' : Matched Double)
      → m.remaining ≡ o.qty
      → ltb 0 m'.remaining ≡ false
      → Swept o.side tick m m'
      → Added o snapped tick m.book (o.qty - m'.remaining, m'.trade_price, m'.book)
  Added-filled o snapped tick m m' all none_left w = record {
    book = w.book;
    left = m'.remaining;
    matched = omega (arith, w.no_more);
    ids = w.ids;
    sweeps = rw (← all) w.sweeps;
    rests = λ t. rw none_left (w.own_queues t);
    indexed = λ id. rw none_left (w.unindexed.reads id);
  }

  Added-rests :
      (o snapped : Order Double) (tick : ℤ) (m m' : Matched Double) (b' : Book Double)
      → m.remaining ≡ o.qty
      → snapped.id ≡ o.id
      → ltb 0 m'.remaining ≡ true
      → Swept o.side tick m m'
      → Rested o.side tick (record snapped { qty = m'.remaining }) m'.book b'
      → Added o snapped tick m.book (o.qty - m'.remaining, m'.trade_price, b')
  Added-rests o snapped tick m m' b' all same_id left w r =
      let s = o.side in
      let rest : List (Order Double) = record snapped { qty = m'.remaining } ∷ [] in
      let others : (t : ℤ) → queue (opposite s) t b' ≡ queue (opposite s) t m'.book = λ t.
        r.queues (opposite s) t
        ∙ ap
            (λ (c : Bool). if c then queue s tick m'.book ++ rest else queue (opposite s) t m'.book)
            (other_way s tick t) in
      record {
        book = r.book;
        left = m'.remaining;
        matched = omega (arith, w.no_more);
        ids = w.ids;
        sweeps =
            subst
              (λ (queues : ℤ → List (Order Double)).
                Sweeps s tick o.qty (λ t. queue (opposite s) t m.book) m'.remaining queues w.ids)
              (fun_ext (λ t. sym (others t))) (rw (← all) w.sweeps);
        rests = λ t. rw left (
            r.queues s t
            ∙ ap (λ (c : Bool). if c then queue s tick m'.book ++ rest else queue s t m'.book)
                (same_ticks s tick t)
            ∙ ap (λ x. if eqbℤ tick t then x ++ rest else queue s t m'.book) (w.own_queues tick)
            ∙ ap (λ x. if eqbℤ tick t then queue s tick m.book ++ rest else x) (w.own_queues t));
        indexed = λ id. rw left (
            r.indexed id
            ∙ ap
                (λ x.
                  if x == id
                  then some (record { side = s; tick = tick })
                  else contents m'.book.index id)
                same_id
            ∙ ap (λ x. if o.id == id then some (record { side = s; tick = tick }) else x)
                (w.unindexed.reads id));
      }

  finish-Added :
      (o snapped : Order Double) (tick : ℤ) (m m' : Matched Double)
      → m.remaining ≡ o.qty
      → snapped.id ≡ o.id
      → HasRoom (half o.side m.book).levels
      → HasRoom m.book.index
      → contents m.book.index o.id ≡ none
      → Swept o.side tick m m'
      → Returns (finish o snapped tick m') (Added o snapped tick m.book)
  finish-Added o snapped tick m m' all same_id room index_room absent w =
      elim (Bool-cases (ltb 0 m'.remaining)) [
        | inr none_left ↦ (
          (o.qty - m'.remaining, m'.trade_price, m'.book),
          rw none_left refl,
          Added-filled o snapped tick m m' all none_left w,
        )
        | inl left ↦
            let (b', run, r) =
              rest_order-Rested o.side tick (record snapped { qty = m'.remaining }) m'.book w.book
                (rw w.own_half room) (omega (arith, w.unindexed.size, w.unindexed.mask))
                (ap (contents m'.book.index) same_id
                  ∙ w.unindexed.reads o.id
                  ∙ ap (λ x. if among o.id w.ids then none else x) absent
                  ∙ ground arith) in
            (
              (o.qty - m'.remaining, m'.trade_price, b'),
              rw (left, run) refl,
              Added-rests o snapped tick m m' b' all same_id left w r,
            )
      ]

-- In a book between two operations, with room in the level map of the side and in the index, and for
-- an order whose id is not in the index, `add_order` ends and leaves a book between two operations.
-- The order sweeps the other side as the specification of matching says, the quantity returned is
-- what it is filled by, the rest of it is the newest order at its tick at the snapped price, no other
-- order of its side changes, and the index loses the filled orders and refers to the rest.
pub add_order-Added :
    (fp : Float) (o : Order fp.Double) (price : fp.Double) (b : Book fp.Double)
    → IsBook b
    → HasRoom (half o.side b).levels
    → HasRoom b.index
    → contents b.index o.id ≡ none
    → Returns (add_order fp o price b) (
        Added o
          (record o { price = tick_to_price fp b (price_to_tick fp b o.price) })
          (price_to_tick fp b o.price)
          b)
unfolding add_order
add_order-Added fp o price b is room index_room absent =
    let tick = price_to_tick fp b o.price in
    let snapped : Order fp.Double = record o { price = tick_to_price fp b tick } in
    let m : Matched fp.Double = record { remaining = o.qty; trade_price = price; book = b } in
    let (m', run, w) =
      match_loop-Swept (2 * ((half (opposite o.side) b).levels.size + 1)) o.side tick m is
        (omega arith, inr (omega arith)) in
    let (r, finished, a) = finish-Added o snapped tick m m' refl refl room index_room absent w in
    (r, rw run finished, a)
