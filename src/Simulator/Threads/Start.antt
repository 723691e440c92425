-- ===== src/Simulator/Threads/Start.antt =====
-- src/simulator.cpp: the contexts that `run_mt` makes.
use pmr_market_simulator.Prelude.{
  ℕ, zero, suc, ◌+◌, ◌^◌, ◌≡◌, refl, ap, ◌∙◌, ◌%◌, true, false, none, some, List, [], ◌∷◌, arith,
  length, get_elem?, map, concat, ◌≢◌,
}
use mathlib.Core.Path.{subst}
use pmr_market_simulator.Prelude.Run.{Returns}
use pmr_market_simulator.Float.{Float}
use pmr_market_simulator.Event.{buy}
use pmr_market_simulator.FlatHash.{next_pow2}
use pmr_market_simulator.Rng.{seeded}
use pmr_market_simulator.OrderBook
use pmr_market_simulator.OrderBook.{Book, level_cap, index_cap}
use pmr_market_simulator.OrderBook.Sound.{pointer, queue, queue_at}
use pmr_market_simulator.OrderBook.Spread.{IsUncrossed}
use pmr_market_simulator.OrderBook.Start.{Started, create_with-Started, Started-IsBook}
use pmr_market_simulator.Simulator.{thread_count, slices, partition, iterations}
use pmr_market_simulator.Simulator.Partition.{concat-partition}
use pmr_market_simulator.Simulator.Config.{SimConfig}
use pmr_market_simulator.Simulator.Worker.{Desk, Numbering}
use pmr_market_simulator.Simulator.Worker.Keeps.{HasSpace, IsDesk, AllDesks}
use pmr_market_simulator.Simulator.Run.{new_desk}
use pmr_market_simulator.Simulator.Threads.{
  Lane, thread_desks, make_lane, make_lanes, contexts, numbering,
}

Started-IsUncrossed : {Double : Type 0} (b : Book Double) → Started b → IsUncrossed b
Started-IsUncrossed b s t t' bid ask = absurd (bid (no_orders (s.no_levels buy t)))
  where
    no_orders : pointer buy t b ≡ none → queue buy t b ≡ []
    no_orders e = unfold queue in ap (queue_at b) e

module _ (fp : Float) (positive : fp.positive (fp.decimal 1 2) ≡ true) where
  open fp use {Double}

  -- A desk as the constructor makes it, for any numbering.
  pub record IsNew (d : Desk Double) : Type 0 where
    pub desk : (numbers : Numbering) → IsDesk numbers 1 d
    pub space : HasSpace d

  pub new_desk-IsNew :
      (symbol : List ℕ) → Returns (new_desk fp symbol) λ d. IsNew d × (d.symbol ≡ symbol)
  unfolding new_desk OrderBook.create
  new_desk-IsNew symbol =
      let (b, run, s) =
        create_with-Started fp level_cap index_cap 11 14 symbol (fp.decimal 1 2)
          (unfold next_pow2 in refl) (omega arith) (unfold next_pow2 in refl) (omega arith)
          positive in
      (
        record { symbol = symbol; book = b; mid = fp.decimal 100 0; live = [] },
        rw run refl,
        (
          record {
            desk = λ numbers. record {
              book = Started-IsBook b s;
              uncrossed = Started-IsUncrossed b s;
              issued = λ id e. absurd (e (s.no_orders id));
            };
            space = record { levels = s.level_room; index = s.index_room; live = omega arith };
          },
          refl,
        ),
      )

  -- New desks, of the symbols in their order.
  record AreNew (symbols : List (List ℕ)) (desks : List (Desk Double)) : Type 0 where
    named : map (λ d. d.symbol) desks ≡ symbols
    each : (si : ℕ) (d : Desk Double) → get_elem? desks si ≡ some d → IsNew d

  AreNew-cons :
      (s : List ℕ) (symbols : List (List ℕ)) (d : Desk Double) (desks : List (Desk Double))
      → IsNew d
      → d.symbol ≡ s
      → AreNew symbols desks
      → AreNew (s ∷ symbols) (d ∷ desks)
  AreNew-cons s symbols d desks new name a = record {
    named = ap (λ x. x ∷ map (λ d. d.symbol) desks) name ∙ ap (λ l. s ∷ l) a.named;
    each = each;
  }
    where
      each : (si : ℕ) (d' : Desk Double) → get_elem? (d ∷ desks) si ≡ some d' → IsNew d'
      each zero d' e = let same : d ≡ d' = cc in subst IsNew same new
      each (suc si) d' e = a.each si d' e

  thread_desks-AreNew :
      (cfg : SimConfig Double) (symbols : List (List ℕ))
      → Returns (thread_desks fp cfg symbols) (AreNew symbols)
  unfolding thread_desks
  thread_desks-AreNew cfg [] = (
    [],
    refl,
    record { named = refl; each = λ si d e. absurd (let bad : none ≡ some d = e in cc) },
  )
  thread_desks-AreNew cfg (s ∷ symbols) =
      let (d, run, (new, name)) = new_desk-IsNew s in
      let (desks, run', a) = thread_desks-AreNew cfg symbols in
      (d ∷ desks, rw (run, run') refl, AreNew-cons s symbols d desks new name a)

  module _ (cfg : SimConfig Double) where
    -- The context of thread `t` of `all` before its first iteration: its symbols, its own seed, its share
    -- of the iterations if it has a symbol, and books that are sound and uncrossed, hold no order that
    -- was not issued, and have room.
    pub record IsReady (all t : ℕ) (symbols : List (List ℕ)) (l : Lane Double) : Type 0 where
      pub thread : l.thread ≡ t
      pub named : map (λ d. d.symbol) l.context.desks ≡ symbols
      pub rng : l.context.rng ≡ seeded ((cfg.seed + t) % 2 ^ 64)
      pub first : l.next ≡ 0
      pub counter : l.context.counter ≡ 1
      pub nothing : l.pending ≡ []
      pub share : symbols ≢ [] → l.left ≡ iterations cfg.total_events all t
      pub none_left : symbols ≡ [] → l.left ≡ 0
      pub desks : (now : ℕ) → AllDesks (numbering fp cfg now t) l.context.counter l.context.desks
      pub space : (si : ℕ) (d : Desk Double) → get_elem? l.context.desks si ≡ some d → HasSpace d

    -- A context for each part of the symbols, in their order, from thread `t` on.
    pub data AreReady (all : ℕ) : ℕ → List (List (List ℕ)) → List (Lane Double) → Type 0 where
      no_more : (t : ℕ) → AreReady all t [] []
      one_more :
          (t : ℕ) (symbols : List (List ℕ)) (parts : List (List (List ℕ))) (l : Lane Double)
          (lanes : List (Lane Double))
          → IsReady all t symbols l
          → AreReady all (t + 1) parts lanes
          → AreReady all t (symbols ∷ parts) (l ∷ lanes)

    -- The context of a thread over its desks.
    abbrev new_lane : ℕ → ℕ → List (List ℕ) → List (Desk Double) → Lane Double
    new_lane all t symbols desks = record {
      thread = t;
      context = record {
        desks = desks;
        rng = seeded ((cfg.seed + t) % 2 ^ 64);
        normal = record { has_spare = false; spare = fp.decimal 0 0 };
        counter = 1;
        adds = 0;
        cancels = 0;
        trades = 0;
        sink = tt;
      };
      next = 0;
      left = elim symbols [ [] ↦ 0 | s ∷ rest ↦ iterations cfg.total_events all t ];
      pending = [];
    }

    share_of :
        (symbols : List (List ℕ)) (n : ℕ)
        → symbols ≢ []
        → (elim symbols [ [] ↦ 0 | s ∷ rest ↦ n ]) ≡ n
    share_of [] n some_symbol = absurd (some_symbol refl)
    share_of (s ∷ symbols) n some_symbol = refl

    make_lane-IsReady :
        (all t : ℕ) (symbols : List (List ℕ))
        → Returns (make_lane fp cfg all t symbols) (IsReady all t symbols)
    unfolding make_lane
    make_lane-IsReady all t symbols =
        let (desks, run, a) = thread_desks-AreNew cfg symbols in
        (
          new_lane all t symbols desks,
          rw run refl,
          record {
            thread = refl;
            named = a.named;
            rng = refl;
            first = refl;
            counter = refl;
            nothing = refl;
            share = share_of symbols (iterations cfg.total_events all t);
            none_left =
                λ e. ap (λ l. elim l [ [] ↦ 0 | s ∷ rest ↦ iterations cfg.total_events all t ]) e;
            desks = λ now si d e. (a.each si d e).desk (numbering fp cfg now t);
            space = λ si d e. (a.each si d e).space;
          },
        )

    make_lanes-AreReady :
        (all t : ℕ) (parts : List (List (List ℕ)))
        → Returns (make_lanes fp cfg all t parts) (AreReady all t parts)
    unfolding make_lanes
    make_lanes-AreReady all t [] = ([], refl, no_more t)
    make_lanes-AreReady all t (symbols ∷ parts) =
        let (l, run, ready) = make_lane-IsReady all t symbols in
        let (lanes, run', rest) = make_lanes-AreReady all (t + 1) parts in
        (l ∷ lanes, rw (run, run') refl, one_more t symbols parts l lanes ready rest)

    abbrev pub lane_symbols : Lane Double → List (List ℕ)
    lane_symbols l = map (λ d. d.symbol) l.context.desks

    symbols_of :
        (all t : ℕ) (parts : List (List (List ℕ))) (lanes : List (Lane Double))
        → AreReady all t parts lanes
        → map lane_symbols lanes ≡ parts
    symbols_of all t _ _ (no_more _) = refl
    symbols_of all t _ _ (one_more _ symbols parts l lanes ready rest) =
        ap (λ x. x ∷ map lane_symbols lanes) ready.named
        ∙ ap (λ x. symbols ∷ x) (symbols_of all (t + 1) parts lanes rest)

    length-slices : (n per idx : ℕ) (names : List (List ℕ)) → length (slices n per idx names) ≡ n
    unfolding slices
    length-slices zero per idx names = refl
    length-slices (suc n) per idx names = ap suc (length-slices n per _ names)

    length_lanes :
        (all t : ℕ) (parts : List (List (List ℕ))) (lanes : List (Lane Double))
        → AreReady all t parts lanes
        → length lanes ≡ length parts
    length_lanes all t _ _ (no_more _) = refl
    length_lanes all t _ _ (one_more _ symbols parts l lanes ready rest) =
        ap suc (length_lanes all (t + 1) parts lanes rest)

    -- What `run_mt` makes for `n` threads.
    pub record AreMade (n : ℕ) (names : List (List ℕ)) (lanes : List (Lane Double)) : Type 0 where
      pub number : length lanes ≡ n
      pub ready : AreReady n 0 (partition n names) lanes
      pub dealt : concat (map lane_symbols lanes) ≡ names

    -- If the default tick size is positive, `run_mt` makes its contexts without an exception or a
    -- call of `abort`, whatever the symbols and the numbers of threads are: as many as `thread_count`
    -- says, for the threads and the parts of `partition` in their order, each of them ready for its
    -- first iteration; the symbols of the contexts, one after the other, are all the symbols.
    pub contexts-AreMade :
        (configured hardware : ℕ) (names : List (List ℕ))
        → Returns
            (contexts fp cfg configured hardware names)
            (AreMade (thread_count configured hardware (length names)) names)
    unfolding contexts partition thread_count
    contexts-AreMade configured hardware names =
        let n = thread_count configured hardware (length names) in
        let (lanes, run, ready) = make_lanes-AreReady n 0 (partition n names) in
        (
          lanes,
          run,
          record {
            number = length_lanes n 0 (partition n names) lanes ready ∙ length-slices n _ 0 names;
            ready = ready;
            dealt =
                ap concat (symbols_of n 0 (partition n names) lanes ready)
                ∙ concat-partition n names (omega arith);
          },
        )
