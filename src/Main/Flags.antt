-- ===== src/Main/Flags.antt =====
-- src/main.cpp: a command line that is written for a configuration gives this configuration.
use mathlib.Core.List.{append-nil, append_assoc}
use pmr_market_simulator.Prelude.{
  ℕ, ◌≡◌, ◌≢◌, refl, sym, ap, ◌∙◌, Bool, true, false, Option, some, List, [], ◌∷◌, ◌++◌, arith,
  ◌==◌, All,
}
use pmr_market_simulator.Prelude.Run.{ok}
use pmr_market_simulator.Prelude.Texts.{text}
use pmr_market_simulator.Simulator.Config.{SimConfig}
use pmr_market_simulator.Main.{
  Parse, Options, Flag, events_flag, seed_flag, symbols_flag, arena_bytes_flag, sigma_flag,
  drift_ampl_flag, drift_period_flag, log_flag, dump_flag, threads_flag, grpc_flag, two, converted,
  go, push_item, split_from, split_csv, flags, look_up, with_value, alone, next_args, parse_args,
}

-- A name that a list of symbols can hold: it is not empty and has no comma.
abbrev pub IsItem : List ℕ → Type 0
IsItem item = (item ≢ []) × All (λ c. c ≢ 44) item

-- The items, with commas between them.
abbrev pub join : List (List ℕ) → List ℕ
join [] = []
join (item ∷ []) = item
join (item ∷ next ∷ items) = item ++ (44 ∷ join (next ∷ items))

split_from-append :
    (item word rest : List ℕ)
    → All (λ c. c ≢ 44) word
    → split_from item (word ++ rest) ≡ split_from (item ++ word) rest
unfolding split_from
split_from-append item [] rest h = ap (λ l. split_from l rest) (sym (append-nil item))
split_from-append item (c ∷ word) rest (other, h) =
    let is_other : (c == 44) ≡ false = ground (arith, other) in
    rw (split_from, is_other)
      (split_from-append (item ++ (c ∷ [])) word rest h
        ∙ ap (λ l. split_from l rest) (append_assoc item (c ∷ []) word))

push_item-cons : (item : List ℕ) (out : List (List ℕ)) → item ≢ [] → push_item item out ≡ item ∷ out
push_item-cons [] out h = absurd (h refl)
push_item-cons (c ∷ item) out h = refl

split_from-end : (item : List ℕ) → item ≢ [] → split_from item [] ≡ item ∷ []
unfolding split_from
split_from-end item h = push_item-cons item [] h

split_from-comma :
    (item rest : List ℕ) → item ≢ [] → split_from item (44 ∷ rest) ≡ item ∷ split_from [] rest
unfolding split_from
split_from-comma item rest h = push_item-cons item (split_from [] rest) h

-- Names that are not empty and have no comma, joined by commas, are split into the same names.
pub split_csv-join : (items : List (List ℕ)) → All IsItem items → split_csv (join items) ≡ items
unfolding split_csv split_from
split_csv-join [] h = refl
split_csv-join (item ∷ []) ((some_item, word), h) =
    ap (split_from []) (sym (append-nil item))
    ∙ split_from-append [] item [] word
    ∙ split_from-end item some_item
split_csv-join (item ∷ next ∷ items) ((some_item, word), h) =
    split_from-append [] item (44 ∷ join (next ∷ items)) word
    ∙ split_from-comma item (join (next ∷ items)) some_item
    ∙ ap (λ l. item ∷ l) (split_csv-join (next ∷ items) h)

-- Texts that the conversions read as the values of a configuration.
pub record IsWritten {Double : Type 0} (parse : Parse Double) (cfg : SimConfig Double)
    : Type 0 where
  pub total_events : List ℕ
  pub reads_total_events : parse.stoull total_events ≡ some cfg.total_events
  pub seed : List ℕ
  pub reads_seed : parse.stoull seed ≡ some cfg.seed
  pub symbol_list : List ℕ
  pub reads_symbol_list : split_csv symbol_list ≡ cfg.symbol_list
  pub arena_bytes : List ℕ
  pub reads_arena_bytes : parse.stoull arena_bytes ≡ some cfg.arena_bytes
  pub sigma : List ℕ
  pub reads_sigma : parse.stod sigma ≡ some cfg.sigma
  pub drift_ampl : List ℕ
  pub reads_drift_ampl : parse.stod drift_ampl ≡ some cfg.drift_ampl
  pub drift_period : List ℕ
  pub reads_drift_period : parse.stoull drift_period ≡ some cfg.drift_period
  pub dump_n : List ℕ
  pub reads_dump_n : parse.stoi dump_n ≡ some cfg.dump_n
  pub num_threads : List ℕ
  pub reads_num_threads : parse.stoi num_threads ≡ some cfg.num_threads

abbrev switch : Bool → List ℕ → List (List ℕ)
switch true name = name ∷ []
switch false name = []

module _ {Double : Type 0} (parse : Parse Double) (cfg : SimConfig Double)
    (t : IsWritten parse cfg) where
  -- The command line for the configuration.
  abbrev pub command_line : List (List ℕ)
  command_line =
      text "--events"
      ∷ t.total_events
      ∷ text "--seed"
      ∷ t.seed
      ∷ text "--symbols"
      ∷ t.symbol_list
      ∷ text "--arena-bytes"
      ∷ t.arena_bytes
      ∷ text "--sigma"
      ∷ t.sigma
      ∷ text "--drift-ampl"
      ∷ t.drift_ampl
      ∷ text "--drift-period"
      ∷ t.drift_period
      ∷ text "--log"
      ∷ cfg.log_path
      ∷ text "--dump"
      ∷ t.dump_n
      ∷ text "--threads"
      ∷ t.num_threads
      ∷ text "--grpc"
      ∷ cfg.grpc_target
      ∷ (switch cfg.print_arena (text "--print-arena")
          ++ switch cfg.realtime_ts (text "--realtime-ts"))

  -- The flags at the end.
  switches :
      (arena realtime : Bool) (o : Options Double)
      → o.cfg.print_arena ≡ false
      → o.cfg.realtime_ts ≡ false
      → parse_args parse
          (switch arena (text "--print-arena") ++ switch realtime (text "--realtime-ts"))
          o
        ≡ ok (go (record o { cfg = record o.cfg { print_arena = arena; realtime_ts = realtime } }))
  unfolding parse_args next_args with_value alone
  switches true true o off off' i =
      ok (go (record o { cfg = record o.cfg { print_arena = true; realtime_ts = true } }))
  switches true false o off off' i =
      ok (go (record o { cfg = record o.cfg { print_arena = true; realtime_ts = off' i } }))
  switches false true o off off' i =
      ok (go (record o { cfg = record o.cfg { print_arena = off i; realtime_ts = true } }))
  switches false false o off off' i =
      ok (go (record o { cfg = record o.cfg { print_arena = off i; realtime_ts = off' i } }))

  -- A flag and its value, which is read.
  value_step :
      (a v : List ℕ) (rest : List (List ℕ)) (f : Flag) (o o' : Options Double)
      → look_up a flags ≡ some f
      → next_args parse (some f) v o ≡ two (ok o')
      → parse_args parse (a ∷ v ∷ rest) o ≡ parse_args parse rest o'
  unfolding parse_args
  value_step a v rest f o o' is reads = rw (parse_args, is, reads) refl

  converts :
      {A : Type 0} (x : Option A) (a : A) (set : A → Options Double)
      → x ≡ some a
      → two (converted x set) ≡ two (ok (set a))
  converts x a set e = ap (λ r. two (converted r set)) e

  symbols_step :
      (rest : List (List ℕ)) (o : Options Double)
      → parse_args parse (text "--symbols" ∷ t.symbol_list ∷ rest) o
        ≡ parse_args parse rest (record o { cfg = record o.cfg { symbol_list = cfg.symbol_list } })
  unfolding next_args with_value
  symbols_step rest o =
      value_step (text "--symbols") t.symbol_list rest symbols_flag o _ refl (
        ap (λ l. two (ok (record o { cfg = record o.cfg { symbol_list = l } })))
          t.reads_symbol_list)

  -- The command line for a configuration is parsed as this configuration, whatever the numbers in
  -- the options before are, if both switches were off.
  pub parse_args-command_line :
      (o : Options Double)
      → o.cfg.print_arena ≡ false
      → o.cfg.realtime_ts ≡ false
      → parse_args parse command_line o ≡ ok (go (record o { cfg = cfg }))
  unfolding next_args with_value alone
  parse_args-command_line o off off' =
      value_step (text "--events") t.total_events _ events_flag o _ refl
        (converts _ _ _ t.reads_total_events)
      ∙ value_step (text "--seed") t.seed _ seed_flag _ _ refl (converts _ _ _ t.reads_seed)
      ∙ symbols_step _ _
      ∙ value_step (text "--arena-bytes") t.arena_bytes _ arena_bytes_flag _ _ refl
          (converts _ _ _ t.reads_arena_bytes)
      ∙ value_step (text "--sigma") t.sigma _ sigma_flag _ _ refl (converts _ _ _ t.reads_sigma)
      ∙ value_step (text "--drift-ampl") t.drift_ampl _ drift_ampl_flag _ _ refl
          (converts _ _ _ t.reads_drift_ampl)
      ∙ value_step (text "--drift-period") t.drift_period _ drift_period_flag _ _ refl
          (converts _ _ _ t.reads_drift_period)
      ∙ value_step (text "--log") cfg.log_path _ log_flag _ _ refl refl
      ∙ value_step (text "--dump") t.dump_n _ dump_flag _ _ refl (converts _ _ _ t.reads_dump_n)
      ∙ value_step (text "--threads") t.num_threads _ threads_flag _ _ refl
          (converts _ _ _ t.reads_num_threads)
      ∙ value_step (text "--grpc") cfg.grpc_target _ grpc_flag _ _ refl refl
      ∙ switches cfg.print_arena cfg.realtime_ts
          (record o {
            cfg = record cfg { print_arena = o.cfg.print_arena; realtime_ts = o.cfg.realtime_ts };
          })
          off off'
