-- ===== src/Simulator/Threads/Schedules.antt =====
-- What a schedule of the threads leaves.
use pmr_market_simulator.Prelude.{
  ℕ, zero, suc, ◌+◌, ◌≡◌, ◌≢◌, refl, sym, ap, ◌∙◌, some, none, List, [], ◌∷◌, arith, get_elem?, set,
  ◌==◌, Bool, false, Bool-cases, inl, inr,
}
use mathlib.Core.Path.{subst}
use pmr_market_simulator.Prelude.Run.{Run, ok, ok-bind}
use pmr_market_simulator.Float.{Float}
use pmr_market_simulator.Event.{Event}
use pmr_market_simulator.Simulator.Config.{SimConfig}
use pmr_market_simulator.Storage.{IStorage}
use pmr_market_simulator.Simulator.{thread_order_id}
use pmr_market_simulator.Simulator.Run.{time_of}
use pmr_market_simulator.Simulator.Worker.{Worker, Numbering, turn, turns}
use pmr_market_simulator.Simulator.Threads.{
  with_sink, Lane, Machine, numbering, lane_turn, iterate, Schedule, not_started, and_then,
  keep_event, after_turn, send,
}
use pmr_market_simulator.Simulator.Threads.Alone.{drop_event, turn-alone}

pub get_elem?-set_self {ℓ} :
    {A : Type ℓ} (xs : List A) (i : ℕ) (v x : A)
    → get_elem? xs i ≡ some x
    → get_elem? (set xs i v) i ≡ some v
get_elem?-set_self [] i v x e = absurd (let bad : none ≡ some x = e in cc)
get_elem?-set_self (y ∷ xs) zero v x e = refl
get_elem?-set_self (y ∷ xs) (suc i) v x e = get_elem?-set_self xs i v x e

get_elem?-set_ne {ℓ} :
    {A : Type ℓ} (xs : List A) (i j : ℕ) (v : A) → i ≢ j → get_elem? (set xs i v) j ≡ get_elem? xs j
get_elem?-set_ne [] i j v h = refl
get_elem?-set_ne (y ∷ xs) zero zero v h = absurd (h refl)
get_elem?-set_ne (y ∷ xs) zero (suc j) v h = refl
get_elem?-set_ne (y ∷ xs) (suc i) zero v h = refl
get_elem?-set_ne (y ∷ xs) (suc i) (suc j) v h = get_elem?-set_ne xs i j v (λ e. h (omega arith))

module _ (fp : Float) (cfg : SimConfig fp.Double) {Sink : Type 0} (emit : Event → Sink → Run Sink)
    (fuel : ℕ) where
  open fp use {Double}

  -- One more iteration at the end of the loop.
  pub turns-suc :
      (numbers : Numbering) (n i : ℕ) (w w' w'' : Worker Double Sink)
      → turns fp cfg emit fuel numbers n i w ≡ ok w'
      → turn fp cfg emit fuel numbers (i + n) w' ≡ ok w''
      → turns fp cfg emit fuel numbers (suc n) i w ≡ ok w''
  unfolding turns
  turns-suc numbers zero i w w' w'' before last =
      let same : i ≡ i + 0 = omega arith in
      let step : turn fp cfg emit fuel numbers i w ≡ ok w'' =
        ap (λ (k : ℕ). turn fp cfg emit fuel numbers k w) same
        ∙ ap (turn fp cfg emit fuel numbers (i + 0)) (cc)
        ∙ last in
      rw step refl
  turns-suc numbers (suc n) i w w' w'' before last =
      let (w₁, first, rest) =
        ok-bind (turn fp cfg emit fuel numbers i w) (turns fp cfg emit fuel numbers n (i + 1)) w'
          before in
      let later : turn fp cfg emit fuel numbers (i + 1 + n) w' ≡ ok w'' =
        ap (λ (k : ℕ). turn fp cfg emit fuel numbers k w') (omega arith) ∙ last in
      rw first (turns-suc numbers n (i + 1) w₁ w' w'' rest later)

-- Without `realtime_ts` the clock does not matter.
numbering_off :
    (fp : Float) (cfg : SimConfig fp.Double) (now now' t : ℕ)
    → cfg.realtime_ts ≡ false
    → numbering fp cfg now t ≡ numbering fp cfg now' t
numbering_off fp cfg now now' t off =
    let stamps : (b : Bool) → b ≡ false → time_of b now t ≡ time_of b now' t =
      λ b e. ap (λ x. time_of x now t) e ∙ sym (ap (λ x. time_of x now' t) e) in
    ap (λ f. record { id_of = thread_order_id t; ts_of = f }) (stamps cfg.realtime_ts off)

module _ (fp : Float) (cfg : SimConfig fp.Double) (fuel : ℕ) (off : cfg.realtime_ts ≡ false) where
  open fp use {Double}

  -- The lane is what the first one becomes when its thread runs alone, with a sink that drops every
  -- event, for as many iterations as it has done.
  pub record Alone (l₀ l : Lane Double) : Type 0 where
    pub thread : l.thread ≡ l₀.thread
    pub done : ℕ
    pub next : l.next ≡ l₀.next + done
    pub left : done + l.left ≡ l₀.left
    pub alone :
        turns fp cfg drop_event fuel (numbering fp cfg 0 l₀.thread) done l₀.next l₀.context
        ≡ ok l.context

  Alone-start : (l : Lane Double) → Alone l l
  unfolding turns
  Alone-start l = record {
    thread = refl;
    done = 0;
    next = omega arith;
    left = omega arith;
    alone = refl;
  }

  Alone-step :
      (l₀ l : Lane Double) (n now : ℕ) (w : Worker Double (List Event))
      → l.left ≡ suc n
      → lane_turn fp cfg fuel now l ≡ ok w
      → Alone l₀ l
      → Alone l₀ (after_turn fp cfg fuel l n w)
  Alone-step l₀ l n now w some_left run a =
      let numbers = numbering fp cfg 0 l₀.thread in
      let same : numbering fp cfg now l.thread ≡ numbers =
        numbering_off fp cfg now 0 l.thread off ∙ ap (numbering fp cfg 0) a.thread in
      let quiet : turn fp cfg drop_event fuel numbers (l₀.next + a.done) l.context
          ≡ ok (with_sink tt w) =
        subst
          (λ k. turn fp cfg drop_event fuel k (l₀.next + a.done) l.context ≡ ok (with_sink tt w))
          same
          (subst
            (λ (k : ℕ).
              turn fp cfg drop_event fuel (numbering fp cfg now l.thread) k l.context
              ≡ ok (with_sink tt w))
            a.next
            (turn-alone fp cfg keep_event fuel (numbering fp cfg now l.thread) l.next
              (with_sink [] l.context) w run)) in
      record {
        thread = a.thread;
        done = suc a.done;
        next = omega (arith, a.next);
        left = omega (arith, a.left);
        alone =
            turns-suc fp cfg drop_event fuel numbers a.done l₀.next l₀.context l.context
              (with_sink tt w) a.alone quiet;
      }

  -- A step changes the lane of one thread.
  Alone-set :
      (l₀ l l' l'' : Lane Double) (lanes : List (Lane Double)) (t t' : ℕ)
      → get_elem? lanes t ≡ some l
      → get_elem? lanes t' ≡ some l'
      → Alone l₀ l
      → (Alone l₀ l' → Alone l₀ l'')
      → (k : Lane Double) × (get_elem? (set lanes t' l'') t ≡ some k) × Alone l₀ k
  Alone-set l₀ l l' l'' lanes t t' here at a next = elim (Bool-cases (t' == t)) [
    | inl same ↦
        let e : t' ≡ t = ground (arith, same) in
        let both : some l ≡ some l' = sym here ∙ ap (get_elem? lanes) (sym e) ∙ at in
        let equal : l ≡ l' = cc in
        (
          l'',
          subst (λ (k : ℕ). get_elem? (set lanes t' l'') k ≡ some l'') e
              (get_elem?-set_self lanes t' l'' l' at),
          next (subst (Alone l₀) equal a),
        )
    | inr other ↦ (l, get_elem?-set_ne lanes t' t l'' (λ e. ground (arith, other, e)) ∙ here, a)
  ]

  -- Without `--realtime-ts` and `--grpc`: in every machine that the steps of the threads lead to, each
  -- thread is where it is after as many iterations alone, with a sink that drops every event. Its books,
  -- its counters and what it draws next do not depend on the order of the steps, on the other threads, on
  -- the storage or on the clock.
  pub Schedule-Alone :
      {Store : Type 0} (io : IStorage Store) (start m : Machine Double Store) (t : ℕ)
      (l₀ : Lane Double)
      → Schedule fp cfg fuel io start m
      → get_elem? start.lanes t ≡ some l₀
      → (l : Lane Double) × (get_elem? m.lanes t ≡ some l) × Alone l₀ l
  Schedule-Alone io start m t l₀ not_started at = (l₀, at, Alone-start l₀)
  Schedule-Alone io start m t l₀
        (and_then before _ earlier (iterate _ t' n now l' w at' nothing some_left run)) at =
      let (l, here, a) = Schedule-Alone io start before t l₀ earlier at in
      Alone-set l₀ l l' (after_turn fp cfg fuel l' n w) before.lanes t t' here at' a
        (Alone-step l₀ l' n now w some_left run)
  Schedule-Alone io start m t l₀
        (and_then before _ earlier (send _ t' l' e es storage at' some_event written)) at =
      let (l, here, a) = Schedule-Alone io start before t l₀ earlier at in
      Alone-set l₀ l l' (record l' { pending = es }) before.lanes t t' here at' a
        (λ a'. record {
          thread = a'.thread;
          done = a'.done;
          next = a'.next;
          left = a'.left;
          alone = a'.alone;
        })
