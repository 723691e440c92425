-- ===== src/Simulator/Threads/Alone.antt =====
-- Whatever the schedule, each thread of `run_mt` does what it does alone.
use pmr_market_simulator.Prelude.{
  ℕ, ◌≡◌, inl, inr, ap, Bool, true, false, length, get_elem?, ◌||◌, if◌then◌else◌, Option-cases,
}
use pmr_market_simulator.Prelude.Run.{Run, ok, abort, ok-injective, ok-bind, bind_both}
use pmr_market_simulator.Float.{Float}
use pmr_market_simulator.Event.{Event, buy, sell}
use pmr_market_simulator.OrderBook.{add_order, cancel_order}
use pmr_market_simulator.Rng.Sample.{rand_bool, rand_int, rand_index}
use pmr_market_simulator.Simulator.Config.{SimConfig}
use pmr_market_simulator.Simulator.Worker.{
  Desk, Worker, Numbering, is_empty, draw_price, order_event, cancel_event, new_order, add_turn,
  after_cancel, count_cancel, cancel_id, cancel_turn, turn,
}
use pmr_market_simulator.Simulator.Threads.{with_sink}

-- The sink that drops every event.
abbrev pub drop_event : Event → Unit {0} → Run (Unit {0})
drop_event e s = ok tt

module _ (fp : Float) (cfg : SimConfig fp.Double) {Sink : Type 0} (emit : Event → Sink → Run Sink)
    (fuel : ℕ) (numbers : Numbering) where
  open fp use {Double, decimal}

  -- The state of a thread does not depend on the sink.
  add_turn-alone :
      (i si : ℕ) (d : Desk Double) (w w' : Worker Double Sink)
      → add_turn fp cfg emit fuel numbers i si d w ≡ ok w'
      → add_turn fp cfg drop_event fuel numbers i si d (with_sink tt w) ≡ ok (with_sink tt w')
  unfolding add_turn
  add_turn-alone i si d w w' e =
      let (is_buy, rng) = rand_bool fp (decimal 5 1) w.rng in
      bind_both (with_sink tt) (draw_price fp cfg fuel d.mid i w.normal rng)
        (λ drawn w₁ e₁.
          let (qty, rng') = rand_int fp 1 100 drawn.2 in
          let o = new_order fp numbers i w (if is_buy then buy else sell) drawn.0 qty in
          bind_both (with_sink tt) (add_order fp o (decimal 0 0) d.book)
            (λ added w₂ e₂.
              let (sink, sent, end) =
                ok-bind (emit (order_event fp d.symbol o added.0 added.1) w.sink) _ w₂ e₂ in
              ap (λ x. ok (with_sink tt x)) (ok-injective _ w₂ end))
            w₁ e₁)
        w' e

  count_cancel-alone :
      (i : ℕ) (d : Desk Double) (w : Worker Double Sink) (found : Bool) (w' : Worker Double Sink)
      → count_cancel fp cfg emit fuel numbers i d w found ≡ ok w'
      → count_cancel fp cfg drop_event fuel numbers i d (with_sink tt w) found
        ≡ ok (with_sink tt w')
  unfolding count_cancel
  count_cancel-alone i d w true w' e =
      let (sink, sent, end) =
        ok-bind (emit (cancel_event fp d.symbol (numbers.ts_of i)) w.sink) _ w' e in
      ap (λ x. ok (with_sink tt x)) (ok-injective _ w' end)
  count_cancel-alone i d w false w' e = ap (λ x. ok (with_sink tt x)) (ok-injective _ w' e)

  cancel_turn-alone :
      (i si : ℕ) (d : Desk Double) (w w' : Worker Double Sink)
      → cancel_turn fp cfg emit fuel numbers i si d w ≡ ok w'
      → cancel_turn fp cfg drop_event fuel numbers i si d (with_sink tt w) ≡ ok (with_sink tt w')
  unfolding cancel_turn cancel_id
  cancel_turn-alone i si d w w' e =
      let (li, rng) = rand_index fp (length d.live) w.rng in
      elim (Option-cases (get_elem? d.live li)) [
        | inl absent ↦ absurd (let bad : abort ≡ ok w' = rw (cancel_turn, absent) at e in cc)
        | inr (victim, at) ↦
            rw (cancel_turn, at)
              (bind_both (with_sink tt) (cancel_order victim d.book)
                (λ r w₁ e₁.
                  count_cancel-alone i d (after_cancel fp si li d r.1 (record w { rng = rng })) r.0
                    w₁ e₁)
                w' (rw (cancel_turn, at) at e))
      ]

  pub turn-alone :
      (i : ℕ) (w w' : Worker Double Sink)
      → turn fp cfg emit fuel numbers i w ≡ ok w'
      → turn fp cfg drop_event fuel numbers i (with_sink tt w) ≡ ok (with_sink tt w')
  unfolding turn
  turn-alone i w w' e =
      let (si, rng) = rand_index fp (length w.desks) w.rng in
      let (do_add, rng') = rand_bool fp (decimal 5 1) rng in
      elim (Option-cases (get_elem? w.desks si)) [
        | inl absent ↦ absurd (let bad : abort ≡ ok w' = rw (turn, absent) at e in cc)
        | inr (d, at) ↦
            rw (turn, at)
              (either si d (record w { rng = rng' }) (do_add || is_empty d.live)
                (rw (turn, at) at e))
      ]
    where
      either :
          (si : ℕ) (d : Desk Double) (w₁ : Worker Double Sink) (adds : Bool)
          → (if adds
              then add_turn fp cfg emit fuel numbers i si d w₁
              else cancel_turn fp cfg emit fuel numbers i si d w₁)
            ≡ ok w'
          → (if adds
              then add_turn fp cfg drop_event fuel numbers i si d (with_sink tt w₁)
              else cancel_turn fp cfg drop_event fuel numbers i si d (with_sink tt w₁))
            ≡ ok (with_sink tt w')
      either si d w₁ true e = add_turn-alone i si d w₁ w' e
      either si d w₁ false e = cancel_turn-alone i si d w₁ w' e
