-- ===== src/Simulator/Threads/Progress.antt =====
-- src/simulator.cpp: a thread of `run_mt` is never stuck.
use pmr_market_simulator.Prelude.{
  ℕ, zero, suc, ◌+◌, ◌^◌, ◌<◌, ◌≡◌, refl, sym, ap, some, List, [], ◌∷◌, ◌++◌, arith, length,
  length-append, get_elem?, set,
}
use pmr_market_simulator.Prelude.Run.{ok, ok-injective}
use pmr_market_simulator.Float.{Float}
use pmr_market_simulator.Event.{Event}
use pmr_market_simulator.Simulator.Config.{SimConfig}
use pmr_market_simulator.Simulator.Worker.{Desk}
use pmr_market_simulator.Simulator.Worker.Keeps.{
  HasSpace, AllDesks, Assumed, Finds, Accepts, price_rng,
}
use pmr_market_simulator.Simulator.Worker.Turns.{turn-Turned}
use pmr_market_simulator.Simulator.Worker.Counted.{turn-Counted}
use pmr_market_simulator.Storage.{IStorage}
use pmr_market_simulator.Simulator.Threads.{
  with_sink, Lane, Machine, keep_event, numbering, after_turn, ThreadStep, iterate, send,
}
use pmr_market_simulator.Simulator.Threads.Schedules.{get_elem?-set_self}

-- What is left of a lane: two for each iteration, which sends one event at most, and the events that
-- were not written.
abbrev pub work_left : {Double : Type 0} → Lane Double → ℕ
work_left l = l.left + l.left + length l.pending

keep_event-length :
    (e : Event) (s s' : List Event) → keep_event e s ≡ ok s' → length s' ≡ length s + 1
keep_event-length e s s' h =
    let same : s ++ (e ∷ []) ≡ s' = ok-injective _ s' h in rw (sym same) (length-append s (e ∷ []))

module _ (fp : Float) (cfg : SimConfig fp.Double) (fuel : ℕ) {Store : Type 0}
    (io : IStorage Store) where
  open fp use {Double}

  -- The machine after a step of the thread at `t`, which had the lane `l`: there is less work left, and
  -- the books are sound and uncrossed.
  pub record Progress (m : Machine Double Store) (t : ℕ) (l : Lane Double)
      (m' : Machine Double Store) : Type 0 where
    pub step : ThreadStep fp cfg fuel io m m'
    pub lane : Lane Double
    pub here : get_elem? m'.lanes t ≡ some lane
    pub same_thread : lane.thread ≡ l.thread
    pub less : work_left lane < work_left l
    pub desks :
        (now : ℕ) → AllDesks (numbering fp cfg now l.thread) lane.context.counter lane.context.desks

  -- A lane between two steps. Ids from counters below the limit differ, random indices below bounds less
  -- than 2 ^ 53 are in range, and the sampling loop ends on its fuel from the state of the generator in
  -- which the next iteration draws a price, unless there is a spare value.
  pub record CanRun (limit : ℕ) (l : Lane Double) : Type 0 where
    pub assumed : Assumed fp (numbering fp cfg 0 l.thread) limit
    pub finds : Finds fp fuel l.context.normal (price_rng fp l.context)
    pub counter : l.context.counter < limit
    pub some_desk : 0 < length l.context.desks
    pub few : length l.context.desks < 2 ^ 53
    pub space : (si : ℕ) (d : Desk Double) → get_elem? l.context.desks si ≡ some d → HasSpace d

  -- The clock has no part in what is asked of a lane.
  at_time :
      (limit now t : ℕ)
      → Assumed fp (numbering fp cfg 0 t) limit
      → Assumed fp (numbering fp cfg now t) limit
  at_time limit now t h = record { in_range = h.in_range; differ = h.differ; small = h.small }

  desks_at_time :
      (now now' t n : ℕ) (desks : List (Desk Double))
      → AllDesks (numbering fp cfg now t) n desks
      → AllDesks (numbering fp cfg now' t) n desks
  desks_at_time now now' t n desks all si d e =
      let h = all si d e in record { book = h.book; uncrossed = h.uncrossed; issued = h.issued }

  iterate_step :
      (limit t n now : ℕ) (m : Machine Double Store) (l : Lane Double)
      → get_elem? m.lanes t ≡ some l
      → l.pending ≡ []
      → l.left ≡ suc n
      → CanRun limit l
      → AllDesks (numbering fp cfg 0 l.thread) l.context.counter l.context.desks
      → (m' : Machine Double Store) × Progress m t l m'
  iterate_step limit t n now m l at nothing some_left can all =
      let numbers = numbering fp cfg now l.thread in
      let (w, run, turned) =
        turn-Turned fp cfg keep_event fuel numbers limit l.next (with_sink [] l.context)
          (at_time limit now l.thread can.assumed) (λ e. (_, refl, tt)) can.finds can.counter
          can.some_desk can.few (desks_at_time 0 now l.thread l.context.counter l.context.desks all)
          can.space in
      let counted =
        turn-Counted fp cfg keep_event fuel numbers length keep_event-length l.next
          (with_sink [] l.context) w run in
      let l' = after_turn fp cfg fuel l n w in
      (
        record m { lanes = set m.lanes t l' },
        record {
          step = iterate m t n now l w at nothing some_left run;
          lane = l';
          here = get_elem?-set_self m.lanes t l' l at;
          same_thread = refl;
          less = omega (arith, counted, turned.counted, some_left);
          desks = λ now'. desks_at_time now now' l.thread w.counter w.desks turned.desks;
        },
      )

  send_step :
      (t : ℕ) (m : Machine Double Store) (l : Lane Double) (e : Event) (es : List Event)
      → get_elem? m.lanes t ≡ some l
      → l.pending ≡ e ∷ es
      → Accepts io.write m.storage
      → AllDesks (numbering fp cfg 0 l.thread) l.context.counter l.context.desks
      → (m' : Machine Double Store) × Progress m t l m'
  send_step t m l e es at some_event accepts all =
      let (storage, run, done) = accepts e in
      let l' : Lane Double = record l { pending = es } in
      let one_less : length l.pending ≡ suc (length es) = ap length some_event in
      (
        record { lanes = set m.lanes t l'; storage = storage },
        record {
          step = send m t l e es storage at some_event run;
          lane = l';
          here = get_elem?-set_self m.lanes t l' l at;
          same_thread = refl;
          less = omega (arith, one_less);
          desks = λ now'. desks_at_time 0 now' l.thread l.context.counter l.context.desks all;
        },
      )

  -- Without `--grpc`, where the storage as it is accepts every event: a thread that has an event to
  -- write or an iteration left can take a step, whatever the other threads did, if its books are sound
  -- and uncrossed and, where an iteration is left: it has a symbol, and fewer than 2 ^ 53; there is room
  -- for one more order and for one more live id below 2 ^ 53; its counter is below the limit of its ids,
  -- and the ids from counters below the limit differ; random indices below bounds less than 2 ^ 53 are
  -- in range; and the sampling loop ends on its fuel from the state of the generator in which the next
  -- iteration draws a price, unless there is a spare value. The step leaves less work and sound,
  -- uncrossed books.
  pub ThreadStep-exists :
      (limit t now : ℕ) (m : Machine Double Store) (l : Lane Double)
      → get_elem? m.lanes t ≡ some l
      → 0 < work_left l
      → Accepts io.write m.storage
      → (0 < l.left → CanRun limit l)
      → AllDesks (numbering fp cfg 0 l.thread) l.context.counter l.context.desks
      → (m' : Machine Double Store) × Progress m t l m'
  ThreadStep-exists limit t now m l at some_work accepts can all = go l.pending l.left refl refl
    where
      go :
          (pending : List Event) (left : ℕ)
          → l.pending ≡ pending
          → l.left ≡ left
          → (m' : Machine Double Store) × Progress m t l m'
      go (e ∷ es) left some_event h = send_step t m l e es at some_event accepts all
      go [] (suc n) nothing h =
          iterate_step limit t n now m l at nothing h (can (omega (arith, h))) all
      go [] zero nothing h =
          let no_event : length l.pending ≡ 0 = ap length nothing in
          absurd (omega (arith, h, no_event, some_work))
