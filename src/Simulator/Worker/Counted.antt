-- ===== src/Simulator/Worker/Counted.antt =====
-- src/simulator.cpp: the counters that the report prints, against the events that were sent.
use pmr_market_simulator.Prelude.{
  ℕ, zero, suc, ◌+◌, ◌≡◌, refl, sym, ap, Bool, true, false, arith, length, get_elem?, ◌||◌,
  if◌then◌else◌, Option-cases, inl, inr,
}
use pmr_market_simulator.Prelude.Run.{Run, ok, abort, ok-bind, ok-injective}
use pmr_market_simulator.Float.{Float}
use pmr_market_simulator.Event.{Event, buy, sell}
use pmr_market_simulator.OrderBook.{add_order, cancel_order}
use pmr_market_simulator.Rng.Sample.{rand_bool, rand_int, rand_index}
use pmr_market_simulator.Simulator.Config.{SimConfig}
use pmr_market_simulator.Simulator.Worker.{
  Desk, Worker, Numbering, is_empty, draw_price, order_event, cancel_event, new_order, add_turn,
  after_cancel, count_cancel, cancel_id, cancel_turn, turn, turns,
}

module _ (fp : Float) (cfg : SimConfig fp.Double) {Sink : Type 0} (emit : Event → Sink → Run Sink)
    (fuel : ℕ) (numbers : Numbering) (sent : Sink → ℕ)
    (counts_one : (e : Event) (s s' : Sink) → emit e s ≡ ok s' → sent s' ≡ sent s + 1) where
  open fp use {Double, decimal}

  abbrev tally : Worker Double Sink → ℕ
  tally w = w.adds + w.cancels + w.trades

  -- As many events were sent between the two as were counted.
  abbrev pub Counted : Worker Double Sink → Worker Double Sink → Type 0
  Counted w w' = sent w'.sink + tally w ≡ sent w.sink + tally w'

  add_turn-Counted :
      (i si : ℕ) (d : Desk Double) (w w' : Worker Double Sink)
      → add_turn fp cfg emit fuel numbers i si d w ≡ ok w'
      → Counted w w'
  unfolding add_turn
  add_turn-Counted i si d w w' e =
      let (is_buy, rng) = rand_bool fp (decimal 5 1) w.rng in
      let (drawn, run₁, e₁) = ok-bind (draw_price fp cfg fuel d.mid i w.normal rng) _ w' e in
      let (qty, rng') = rand_int fp 1 100 drawn.2 in
      let o = new_order fp numbers i w (if is_buy then buy else sell) drawn.0 qty in
      let (added, run₂, e₂) = ok-bind (add_order fp o (decimal 0 0) d.book) _ w' e₁ in
      let (sink, run₃, e₃) =
        ok-bind (emit (order_event fp d.symbol o added.0 added.1) w.sink) _ w' e₂ in
      let end = ok-injective _ w' e₃ in rw (sym end) (ground (arith, counts_one _ w.sink sink run₃))

  cancel_turn-Counted :
      (i si : ℕ) (d : Desk Double) (w w' : Worker Double Sink)
      → cancel_turn fp cfg emit fuel numbers i si d w ≡ ok w'
      → Counted w w'
  unfolding cancel_turn cancel_id count_cancel
  cancel_turn-Counted i si d w w' e =
      let (li, rng) = rand_index fp (length d.live) w.rng in
      elim (Option-cases (get_elem? d.live li)) [
        | inl absent ↦ absurd (let bad : abort ≡ ok w' = rw (cancel_turn, absent) at e in cc)
        | inr (victim, at) ↦
            let ((found, book), run, e₁) =
              ok-bind (cancel_order victim d.book) _ w' (rw (cancel_turn, at) at e) in
            counted (after_cancel fp si li d book (record w { rng = rng })) found refl refl e₁
      ]
    where
      counted :
          (w₁ : Worker Double Sink) (found : Bool)
          → tally w₁ ≡ tally w
          → w₁.sink ≡ w.sink
          → count_cancel fp cfg emit fuel numbers i d w₁ found ≡ ok w'
          → Counted w w'
      counted w₁ false same same_sink e₁ =
          let end : w₁ ≡ w' = ok-injective w₁ w' e₁ in
          rw (sym end) (omega (arith, ap sent same_sink, same))
      counted w₁ true same same_sink e₁ =
          let (sink, run, e₂) =
            ok-bind (emit (cancel_event fp d.symbol (numbers.ts_of i)) w₁.sink) _ w' e₁ in
          let end = ok-injective _ w' e₂ in
          rw (sym end) (omega (arith, ap sent same_sink, same, counts_one _ w₁.sink sink run))

  pub turn-Counted :
      (i : ℕ) (w w' : Worker Double Sink) → turn fp cfg emit fuel numbers i w ≡ ok w' → Counted w w'
  unfolding turn
  turn-Counted i w w' e =
      let (si, rng) = rand_index fp (length w.desks) w.rng in
      let (do_add, rng') = rand_bool fp (decimal 5 1) rng in
      elim (Option-cases (get_elem? w.desks si)) [
        | inl absent ↦ absurd (let bad : abort ≡ ok w' = rw (turn, absent) at e in cc)
        | inr (d, at) ↦
            either si d (record w { rng = rng' }) (do_add || is_empty d.live) (rw (turn, at) at e)
      ]
    where
      either :
          (si : ℕ) (d : Desk Double) (w₁ : Worker Double Sink) (adds : Bool)
          → (if adds
              then add_turn fp cfg emit fuel numbers i si d w₁
              else cancel_turn fp cfg emit fuel numbers i si d w₁)
            ≡ ok w'
          → Counted w₁ w'
      either si d w₁ true e = add_turn-Counted i si d w₁ w' e
      either si d w₁ false e = cancel_turn-Counted i si d w₁ w' e

  -- Where the sink counts one event more for each event that it accepts: when a loop of iterations
  -- has ended, as many events were sent as the counters of adds, cancels and trades went up together.
  pub turns-Counted :
      (n i : ℕ) (w w' : Worker Double Sink)
      → turns fp cfg emit fuel numbers n i w ≡ ok w'
      → Counted w w'
  unfolding turns
  turns-Counted zero i w w' e = rw (sym (ok-injective w w' e)) refl
  turns-Counted (suc n) i w w' e =
      let (w₁, first, rest) =
        ok-bind (turn fp cfg emit fuel numbers i w) (turns fp cfg emit fuel numbers n (i + 1)) w'
          e in
      omega (arith, turn-Counted i w w₁ first, turns-Counted n (i + 1) w₁ w' rest)
