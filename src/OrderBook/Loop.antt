-- ===== src/OrderBook/Loop.antt =====
-- The matching loop ends on the fuel it is given, and it is the sweep of the specification.
use pmr_market_simulator.Prelude.{
  ℕ, zero, suc, ◌+◌, ◌<◌, ◌≤◌, ◌≡◌, ◌≢◌, ◌⊎◌, inl, inr, refl, sym, ◌∙◌, true, none, some, List, [],
  ◌++◌, arith, Option-cases,
}
use mathlib.Core.Path.{subst}
use pmr_market_simulator.Prelude.Int.{ℤ}
use pmr_market_simulator.Prelude.Run.{Returns}
use pmr_market_simulator.Event.{Side}
use pmr_market_simulator.OrderBook.{
  Order, Book, Matched, half, opposite, crosses, next_level, match_loop,
}
use pmr_market_simulator.OrderBook.Ticks.{IsBest}
use pmr_market_simulator.OrderBook.Sound.{queue}
use pmr_market_simulator.OrderBook.Fill.{Unindexed-none}
use pmr_market_simulator.OrderBook.Round.{IsBook, Rounded, best_level}
use pmr_market_simulator.OrderBook.Matching.{match_round-Rounded}
use pmr_market_simulator.OrderBook.Sweep.{
  Unindexed-trans, next_level-some, next_level-none, opposite_side, opposite_level, same_ticks,
  sweep_done, sweep_level, Swept, queue_is_active, nothing_crosses,
}

module _ {Double : Type 0} where
  -- Fuel for the rounds that remain.
  abbrev pub Enough : ℕ → Side → Matched Double → Type 0
  Enough fuel side m =
      (0 < fuel) × ((m.remaining ≡ 0) ⊎ ((half (opposite side) m.book).levels.size + 2 ≤ fuel))

  best_has_orders :
      (s : Side) (t : ℤ) (b : Book Double) → IsBook b → (half s b).best ≡ some t → queue s t b ≢ []
  best_has_orders s t b is best empty =
      let (p, at) = best_level s b t is.sound best in
      let bad : some p ≡ none = sym at ∙ is.filled s t empty in cc

  Swept-done :
      (side : Side) (tick : ℤ) (m : Matched Double)
      → IsBook m.book
      → next_level side tick m.remaining (half (opposite side) m.book).best ≡ none
      → Swept side tick m m
  Swept-done side tick m is e =
      let s = opposite side in
      let queues : ℤ → List (Order Double) = λ t. queue s t m.book in
      record {
        book = is;
        ids = [];
        sweeps =
            sweep_done m.remaining queues
              (elim (next_level-none side tick m.remaining (half s m.book).best e) [
                | inl filled ↦ inl filled
                | inr past ↦ inr (
                    nothing_crosses side tick m.book (half s m.book).best is.sound
                      (is.sound.sides s).best past)
              ]);
        unindexed = Unindexed-none m.book.index is.index;
        own_half = refl;
        own_queues = λ t. refl;
        no_more = omega arith;
        same_tick_size = refl;
      }

  Swept-round :
      (side : Side) (tick t : ℤ) (m m' m'' : Matched Double)
      → IsBook m.book
      → (half (opposite side) m.book).best ≡ some t
      → 0 < m.remaining
      → crosses side tick (some t) ≡ true
      → Rounded (opposite side) t m m'
      → Swept side tick m' m''
      → Swept side tick m m''
  Swept-round side tick t m m' m'' is best left crossed r w =
      let s = opposite side in
      let is_best : IsBest s (half s m.book).ticks (some t) =
        subst (λ o. IsBest s (half s m.book).ticks o) best (is.sound.sides s).best in
      record {
        book = w.book;
        ids = r.ids ++ w.ids;
        sweeps =
            sweep_level m.remaining m'.remaining m''.remaining (λ x. queue s x m.book)
              (λ x. queue s x m'.book) (λ x. queue s x m''.book) r.ids w.ids t left
              (best_has_orders s t m.book is best) crossed
              (λ x h. is_best.1 x (queue_is_active s x m.book is.sound h)) r.oldest_first
              (λ x other. r.others s x (same_ticks s t x ∙ other)) r.conserved r.complete w.sweeps;
        unindexed =
            Unindexed-trans r.ids w.ids m.book.index m'.book.index m''.book.index r.unindexed
              w.unindexed;
        own_half = w.own_half ∙ r.other_half side (opposite_side side);
        own_queues = λ x. w.own_queues x ∙ r.others side x (opposite_level side t x);
        no_more = omega (arith, w.no_more, r.no_more);
        same_tick_size = w.same_tick_size ∙ r.same_tick_size;
      }

  Enough-after :
      (fuel : ℕ) (side : Side) (t : ℤ) (m m' : Matched Double)
      → Enough (suc fuel) side m
      → 0 < m.remaining
      → Rounded (opposite side) t m m'
      → Enough fuel side m'
  Enough-after fuel side t m m' (some_fuel, enough) left r = elim enough [
    | inl filled ↦ absurd (omega arith)
    | inr fits ↦
        (omega arith, elim r.progress [ inl filled ↦ inl filled | inr fewer ↦ inr (omega arith) ])
  ]

  -- On a book between two operations, with fuel for two rounds more than the side that is hit has
  -- levels, the matching loop ends. It takes the resting orders in the order of price, then time, as
  -- the specification of matching says, exactly the orders that it fills leave the index, and the
  -- side of the incoming order does not change.
  pub match_loop-Swept :
      (fuel : ℕ) (side : Side) (tick : ℤ) (m : Matched Double)
      → IsBook m.book
      → Enough fuel side m
      → Returns (match_loop fuel side tick m) (Swept side tick m)
  unfolding match_loop
  match_loop-Swept zero side tick m is (some_fuel, enough) = absurd (omega arith)
  match_loop-Swept (suc fuel) side tick m is enough =
      elim (Option-cases (next_level side tick m.remaining (half (opposite side) m.book).best)) [
        | inl e ↦ (m, rw (e, match_loop) refl, Swept-done side tick m is e)
        | inr (t, e) ↦
            let (best, left, crossed) =
              next_level-some side tick t m.remaining (half (opposite side) m.book).best e in
            let (m', run, r) = match_round-Rounded side t m is best in
            let (m'', rest, w) =
              match_loop-Swept fuel side tick m' r.book
                (Enough-after fuel side t m m' enough left r) in
            (
              m'',
              rw (e, match_loop, run) rest,
              Swept-round side tick t m m' m'' is best left crossed r w,
            )
      ]
