-- ===== src/OrderBook/Spread.antt =====
-- The book is never crossed: every resting bid is below every resting ask.
use pmr_market_simulator.Prelude.{
  ℕ, ◌≡◌, ◌≢◌, ◌⊎◌, inl, inr, ap, ◌∙◌, Bool, false, some, none, List, [], ◌∷◌, ◌++◌, arith,
  if◌then◌else◌, Bool-cases, Option-cases, ltb, ◌&&◌,
}
use mathlib.Core.Path.{subst, ap₂}
use pmr_market_simulator.Prelude.Int.{ℤ, eqbℤ, eqbℤ_iff, ◌<ℤ◌}
use pmr_market_simulator.Prelude.Run.{Returns}
use pmr_market_simulator.Event.{Side, buy, sell}
use pmr_market_simulator.Float.{Float}
use pmr_market_simulator.FlatHash.Keys.{tick_key, id_key}
use pmr_market_simulator.FlatHash.Laws.{contents}
use pmr_market_simulator.FlatHash.Insert.{HasRoom}
use pmr_market_simulator.OrderBook.{
  Order, OrderRef, Book, half, opposite, crosses, add_order, cancel_order, price_to_tick,
  tick_to_price,
}
use pmr_market_simulator.OrderBook.Sound.{queue, same_level, same_level_iff}
use pmr_market_simulator.OrderBook.Cancel.{
  Cancelled, drop_order, cancel_order-Cancelled, cancel_order-absent,
}
use pmr_market_simulator.OrderBook.Round.{IsBook}
use pmr_market_simulator.OrderBook.Sweep.{Sweeps, sweep_done, sweep_level}
use pmr_market_simulator.OrderBook.Add.{Added, add_order-Added}

module _ {Double : Type 0} where
  -- Every tick with bids is below every tick with asks.
  abbrev pub IsUncrossed : Book Double → Type 0
  IsUncrossed b = (t t' : ℤ) → queue buy t b ≢ [] → queue sell t' b ≢ [] → t <ℤ t'

  -- The same, seen from one side.
  abbrev NoneCross : Side → Book Double → Type 0
  NoneCross s b =
      (t t' : ℤ) → queue s t b ≢ [] → queue (opposite s) t' b ≢ [] → crosses s t (some t') ≡ false

  IsUncrossed-to : (s : Side) (b : Book Double) → IsUncrossed b → NoneCross s b
  IsUncrossed-to buy b h t t' bid ask = ground (arith, h t t' bid ask)
  IsUncrossed-to sell b h t t' ask bid = ground (arith, h t' t bid ask)

  IsUncrossed-from : (s : Side) (b : Book Double) → NoneCross s b → IsUncrossed b
  IsUncrossed-from buy b h t t' bid ask = ground (arith, h t t' bid ask)
  IsUncrossed-from sell b h t t' bid ask = ground (arith, h t' t ask bid)

  -- A sweep adds no orders to a queue that has none.
  Sweeps-kept :
      {side : Side} {tick : ℤ} {r r' : ℕ} {queues queues' : ℤ → List (Order Double)} {ids : List ℕ}
      → Sweeps side tick r queues r' queues' ids
      → (t : ℤ) → queues' t ≢ []
      → queues t ≢ []
  Sweeps-kept (sweep_done r queues stop) t h = h
  Sweeps-kept
        (sweep_level r r' r'' queues queues' queues'' ids ids' t₀ left here crossed best cut others
          conserved complete rest)
        t h =
      elim (Bool-cases (eqbℤ t₀ t)) [
        | inl same ↦ subst (λ x. queues x ≢ []) ((eqbℤ_iff t₀ t).0 same) here
        | inr other ↦ λ empty. Sweeps-kept rest t h (others t other ∙ empty)
      ]

  Sweeps-stop :
      {side : Side} {tick : ℤ} {r r' : ℕ} {queues queues' : ℤ → List (Order Double)} {ids : List ℕ}
      → Sweeps side tick r queues r' queues' ids
      → (r' ≡ 0) ⊎ ((t : ℤ) → queues' t ≢ [] → crosses side tick (some t) ≡ false)
  Sweeps-stop (sweep_done r queues stop) = stop
  Sweeps-stop
        (sweep_level r r' r'' queues queues' queues'' ids ids' t₀ left here crossed best cut others
          conserved complete rest) =
      Sweeps-stop rest

  Added-crosses :
      (o snapped : Order Double) (tick : ℤ) (b : Book Double) (r : ℕ × Double × Book Double)
      → Added o snapped tick b r
      → NoneCross o.side b
      → NoneCross o.side r.2
  Added-crosses o snapped tick b r a h t t' mine other =
      let before = Sweeps-kept a.sweeps t' other in
      elim (Bool-cases (ltb 0 a.left && eqbℤ tick t)) [
        | inr old ↦
            h t t'
              (λ empty. mine (
                a.rests t
                ∙ ap
                    (λ (c : Bool).
                      if c
                      then queue o.side tick b ++ (record snapped { qty = a.left } ∷ [])
                      else queue o.side t b)
                    old
                ∙ empty))
              before
        | inl rests ↦ elim (Sweeps-stop a.sweeps) [
          | inl filled ↦ absurd (ground (arith, rests, filled))
          | inr past ↦
              subst (λ x. crosses o.side x (some t') ≡ false)
                ((eqbℤ_iff tick t).0 (ground (arith, rests))) (past t' other)
        ]
      ]

  pub Added-IsUncrossed :
      (o snapped : Order Double) (tick : ℤ) (b : Book Double) (r : ℕ × Double × Book Double)
      → Added o snapped tick b r
      → IsUncrossed b
      → IsUncrossed r.2
  Added-IsUncrossed o snapped tick b r a h =
      IsUncrossed-from o.side r.2 (Added-crosses o snapped tick b r a (IsUncrossed-to o.side b h))

-- In a book between two operations, with room in the level map of the side and in the index, and for
-- an order whose id is not in the index: if every bid in the book is below every ask, then
-- `add_order` ends, and every bid in the book that it leaves is below every ask.
pub add_order-IsUncrossed :
    (fp : Float) (o : Order fp.Double) (price : fp.Double) (b : Book fp.Double)
    → IsBook b
    → HasRoom (half o.side b).levels
    → HasRoom b.index
    → contents b.index o.id ≡ none
    → IsUncrossed b
    → Returns (add_order fp o price b) λ r. IsUncrossed r.2
add_order-IsUncrossed fp o price b is room index_room absent h =
    let (r, run, a) = add_order-Added fp o price b is room index_room absent in
    (
      r,
      run,
      Added-IsUncrossed o (record o { price = tick_to_price fp b (price_to_tick fp b o.price) })
          (price_to_tick fp b o.price) b r a h,
    )

module _ {Double : Type 0} where
  pub Cancelled-IsUncrossed :
      (id : ℕ) (ref : OrderRef) (b : Book Double) (r : Bool × Book Double)
      → Cancelled id ref b r
      → IsUncrossed b
      → IsUncrossed r.1
  unfolding drop_order
  Cancelled-IsUncrossed id ref b r c h t t' bid ask = h t t' (kept buy t bid) (kept sell t' ask)
    where
      kept : (s : Side) (t : ℤ) → queue s t r.1 ≢ [] → queue s t b ≢ []
      kept s t some_left empty = elim (Bool-cases (same_level ref.side ref.tick s t)) [
        | inl same ↦
            let (a, e) = (same_level_iff ref.side s ref.tick t).0 same in
            let there : queue ref.side ref.tick b ≡ [] = ap₂ (λ x y. queue x y b) a e ∙ empty in
            some_left (c.queues s t ∙ rw same (ap (drop_order id) there))
        | inr other ↦ some_left (c.queues s t ∙ rw other empty)
      ]

  -- In a book between two operations, if every bid in the book is below every ask, then
  -- `cancel_order` ends, and every bid in the book that it leaves is below every ask.
  pub cancel_order-IsUncrossed :
      (id : ℕ) (b : Book Double)
      → IsBook b
      → IsUncrossed b
      → Returns (cancel_order id b) λ r. IsUncrossed r.1
  cancel_order-IsUncrossed id b is h = elim (Option-cases (contents b.index id)) [
    | inl absent ↦ ((false, b), cancel_order-absent id b is absent, h)
    | inr (ref, at) ↦
        let (r, run, c) = cancel_order-Cancelled id ref b is at in
        (r, run, Cancelled-IsUncrossed id ref b r c h)
  ]
