-- ===== src/Storage/Tests.antt =====
-- The storages at concrete events: the binary log, and LMDB storage over a library in memory.
use pmr_market_simulator.Prelude.{
  ℕ, zero, suc, ◌^◌, ◌<◌, ◌≡◌, refl, ap, ◌∙◌, Option, none, some, List, [], ◌∷◌, ◌++◌, arith,
  length, get_elem?, ◌&&◌, ◌⊎◌, if◌then◌else◌,
}
use pmr_market_simulator.Prelude.Int.{pos}
use pmr_market_simulator.Prelude.Run.{ok, Returns, Tries}
use pmr_market_simulator.Prelude.Texts.{text, eq_bytes}
use pmr_market_simulator.Event.{Event}
use pmr_market_simulator.Storage.{make_storage, null_kind, lmdb_kind, binary_kind}
use pmr_market_simulator.Storage.Log.{IsWritable, read_log, write_all, read_log-write_all}
use pmr_market_simulator.Storage.Library.{Lmdb}
use pmr_market_simulator.Storage.Lmdb.{LmdbStorage, open_storage, write_event, flush_batch}
use pmr_market_simulator.Storage.Lmdb.Laws.{CanFail, IsLmdb, replay, record_all}
use pmr_market_simulator.Storage.Lmdb.Holds.{Blamed, Holds}
use pmr_market_simulator.Storage.Lmdb.Recovery.{
  record_all-Durable, flush_batch-Durable, flush_batch-value_event, Recovers,
}

kinds :
    (make_storage (text "") ≡ null_kind)
    × (make_storage (text "store.mdb") ≡ lmdb_kind)
    × (make_storage (text "a.mdb/b") ≡ lmdb_kind)
    × (make_storage (text "a.mdb2") ≡ binary_kind)
    × (make_storage (text "mdb") ≡ binary_kind)
unfolding make_storage
kinds = (refl, refl, refl, refl, refl)

abbrev event : ℕ → ℕ → Event
event ts qty = record { ts_ns = ts; type = 1; symbol = 65 ∷ []; price = 0; qty = pos qty; side = 2 }

event-IsWritable : (qty : ℕ) → qty < 2 ^ 31 → IsWritable (event 7 qty)
event-IsWritable qty h = (
  record {
    ts_ns = omega arith;
    type = omega arith;
    symbol = (omega arith, tt);
    price = omega arith;
    qty = (h, omega arith);
    side = omega arith;
  },
  omega arith,
)

read_log-write_all_example :
    read_log 3
      (write_all (event 7 3 ∷ event 7 4 ∷ []) (record { written = []; flushed = 0 })).written
    ≡ some (event 7 3 ∷ event 7 4 ∷ [])
read_log-write_all_example =
    read_log-write_all (event 7 3 ∷ event 7 4 ∷ [])
      (event-IsWritable 3 (omega arith), (event-IsWritable 4 (omega arith), tt))

-- A library in memory: the names of the handles, what is stored, and what the one transaction sees.
pub record Memory : Type 0 where
  pub names : List (List ℕ)
  pub stored : List ℕ → List ℕ → Option (List ℕ)
  pub seen : List ℕ → List ℕ → Option (List ℕ)

abbrev put_in : Option (List ℕ) → List ℕ → List ℕ → Memory → Memory
put_in none key value m = m
put_in (some name) key value m = record m {
  seen = λ n k. if eq_bytes name n && eq_bytes key k then some value else m.seen n k;
}

abbrev pub in_memory : Lmdb
in_memory = record {
  World = Memory;
  env_create = λ m. (0, 0, m);
  set_mapsize = λ env size m. m;
  set_maxdbs = λ env n m. m;
  env_open = λ env path read_only m. (0, m);
  env_close = λ env m. m;
  txn_begin = λ env read_only m. (0, 0, record m { seen = m.stored });
  txn_commit = λ t m. (0, record m { stored = m.seen });
  txn_abort = λ t m. m;
  dbi_open = λ t name create m. elim name [
    | none ↦ (0, length m.names, m)
    | some n ↦ (0, length m.names, record m { names = m.names ++ (n ∷ []) })
  ];
  dbi_close = λ env d m. m;
  put = λ t d key value m. (0, put_in (get_elem? m.names d) key value m);
  cursor_open = λ t d m. (0, m);
  cursor_next = λ c m. (none, m);
  cursor_close = λ c m. m;
  strerror = λ rc. [];
  create_directories = λ path m. (none, m);
}

get_elem?-snoc : (xs : List (List ℕ)) (x : List ℕ) → get_elem? (xs ++ (x ∷ [])) (length xs) ≡ some x
get_elem?-snoc [] x = refl
get_elem?-snoc (y ∷ xs) x = get_elem?-snoc xs x

get_elem?-append :
    (xs ys : List (List ℕ)) (i : ℕ) (x : List ℕ)
    → get_elem? xs i ≡ some x
    → get_elem? (xs ++ ys) i ≡ some x
get_elem?-append [] ys i x e = absurd (let bad : none ≡ some x = e in cc)
get_elem?-append (y ∷ xs) ys zero x e = e
get_elem?-append (y ∷ xs) ys (suc i) x e = get_elem?-append xs ys i x e

put_in-names :
    (o : Option (List ℕ)) (key value : List ℕ) (m : Memory) → (put_in o key value m).names ≡ m.names
put_in-names none key value m = refl
put_in-names (some name) key value m = refl

put_in-stored :
    (o : Option (List ℕ)) (key value : List ℕ) (m : Memory)
    → (put_in o key value m).stored ≡ m.stored
put_in-stored none key value m = refl
put_in-stored (some name) key value m = refl

abbrev in_memory-IsLmdb : IsLmdb in_memory
in_memory-IsLmdb = record {
  stored = λ m. m.stored;
  seen = λ m t. m.seen;
  name_of = λ m d. get_elem? m.names d;
  put-seen = λ t d key value name w n k code e. ap (λ o. (put_in o key value w).seen n k) e;
  put-stored =
      λ t d key value w n k code. ap (λ f. f n k) (put_in-stored (get_elem? w.names d) key value w);
  put-name = λ t d d' key value name w code e.
      ap (λ l. get_elem? l d') (put_in-names (get_elem? w.names d) key value w) ∙ e;
  commit-stored = λ t w n k code. refl;
  commit-name = λ t d name w code e. e;
  begin-seen = λ env w n k code. refl;
  begin-stored = λ env w n k code. refl;
  begin-name = λ env d name w code e. e;
  open-named = λ t name w code. get_elem?-snoc w.names name;
  open-name = λ t d name name' w code e. get_elem?-append w.names (name ∷ []) d name' e;
  open-seen = λ t name w n k code. refl;
  open-stored = λ t name w n k code. refl;
}

abbrev pub nothing : Memory
nothing = record { names = []; stored = λ n k. none; seen = λ n k. none }

abbrev opened : LmdbStorage Memory
opened = record {
  env = 0;
  txn = some 0;
  dbis = [];
  path = text "store.mdb";
  batch_count = 0;
  world = nothing;
  err = [];
}

opened_run : open_storage in_memory (text "store.mdb") (2 ^ 30) nothing ≡ ok opened
unfolding open_storage
opened_run = refl

abbrev two : List Event
two = event 7 3 ∷ event 7 4 ∷ []

-- No failure is reported over this library.
quiet : Returns (record_all in_memory two opened) λ s'. (flush_batch in_memory s').err ≡ []
unfolding record_all write_event flush_batch
quiet = (_, refl, refl)

record_all-Durable_example :
    Tries
      (CanFail in_memory)
      (λ s'. Blamed in_memory s' ⊎ Holds in_memory in_memory-IsLmdb (λ n k. none) two s')
      (record_all in_memory two opened)
record_all-Durable_example =
    record_all-Durable in_memory in_memory-IsLmdb (text "store.mdb") (2 ^ 30) nothing opened two
      opened_run

flush_batch-Durable_example :
    Tries
      (CanFail in_memory)
      (λ s'.
        Blamed in_memory (flush_batch in_memory s')
        ⊎ ((n k : List ℕ) → (flush_batch in_memory s').world.stored n k ≡ replay n k none two))
      (record_all in_memory two opened)
flush_batch-Durable_example =
    flush_batch-Durable in_memory in_memory-IsLmdb (text "store.mdb") (2 ^ 30) nothing opened two
      opened_run

flush_batch-value_event_example :
    Tries
      (CanFail in_memory)
      (λ s'.
        Blamed in_memory (flush_batch in_memory s')
        ⊎ Recovers in_memory in_memory-IsLmdb (event 7 4) (flush_batch in_memory s'))
      (record_all in_memory two opened)
flush_batch-value_event_example =
    flush_batch-value_event in_memory in_memory-IsLmdb (text "store.mdb") (2 ^ 30) nothing opened
      (event 7 3 ∷ []) [] (event 7 4) opened_run (event-IsWritable 4 (omega arith)) tt
