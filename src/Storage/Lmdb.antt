-- ===== src/Storage/Lmdb.antt =====
-- src/lmdb_storage.cpp and include/msim/lmdb_storage.hpp: events in one database for each symbol.
pub mod Laws
pub mod Reports
pub mod Holds
pub mod Durable
pub mod Recovery
use pmr_market_simulator.Prelude.{
  ℕ, ◌+◌, ◌^◌, Bool, true, false, Option, none, some, List, [], ◌∷◌, ◌++◌, leb, ltb, ◌==◌, ◌&&◌,
  if◌then◌else◌,
}
use pmr_market_simulator.Prelude.Run.{Run, ok, throw, ◌>>=◌}
use pmr_market_simulator.Prelude.Texts.{text, eq_bytes, until_nul}
use pmr_market_simulator.Event.{Event, serialize, bytes_le}
use pmr_market_simulator.Storage.{IStorage}
use pmr_market_simulator.Storage.Library.{Lmdb}

abbrev pub batch_limit : ℕ
batch_limit = 10000

-- `LMDBStorage`, the library's state, and what was written to `std::cerr`
pub record LmdbStorage (World : Type 0) : Type 0 where
  pub env : ℕ
  pub txn : Option ℕ
  pub dbis : List (List ℕ × ℕ)
  pub path : List ℕ
  pub batch_count : ℕ
  pub world : World
  pub err : List ℕ

-- `dbis_.find(sym)`
unfoldable pub find_dbi : List ℕ → List (List ℕ × ℕ) → Option ℕ
find_dbi sym [] = none
find_dbi sym ((s, dbi) ∷ dbis) =
    let rest = find_dbi sym dbis in if eq_bytes s sym then some dbi else rest

module _ (lmdb : Lmdb) where
  open lmdb use {
    World, env_create, set_mapsize, set_maxdbs, env_open, env_close, txn_begin, txn_commit,
    txn_abort, dbi_open, put, strerror, create_directories,
  }

  -- The constructor. An error ends it with an exception, and the destructor does not run; the line
  -- that a failing `mdb_env_open` puts into `std::cerr` before is left out.
  unfoldable pub open_storage : List ℕ → ℕ → World → Run (LmdbStorage World)
  open_storage path map_size_bytes w =
      let (failure, w₀) = create_directories path w in
      let (rc, env, w₁) = env_create w₀ in
      let w₂ = set_maxdbs env 64 (set_mapsize env map_size_bytes w₁) in
      let (rc₂, w₃) = env_open env (until_nul path) false w₂ in
      let (rc₃, txn, w₄) = txn_begin env false w₃ in
      let opened =
        if ltb 0 rc
        then throw (text "mdb_env_create failed")
        else if ltb 0 rc₂
        then throw (text "mdb_env_open failed")
        else if ltb 0 rc₃
        then throw (text "mdb_txn_begin failed")
        else ok (record {
          env = env;
          txn = some txn;
          dbis = [];
          path = path;
          batch_count = 0;
          world = w₄;
          err = [];
        }) in
      elim failure [ some what ↦ throw what | none ↦ opened ]

  -- The default size of the map is 2 ^ 30 bytes.
  unfoldable pub make_lmdb_storage : List ℕ → World → Run (LmdbStorage World)
  unfolding open_storage
  make_lmdb_storage path w = open_storage path (2 ^ 30) w

  unfoldable pub dbi_for_symbol : List ℕ → LmdbStorage World → Run (ℕ × LmdbStorage World)
  unfolding find_dbi
  dbi_for_symbol sym s = elim (find_dbi sym s.dbis) [
    | some dbi ↦ ok (dbi, s)
    | none ↦
        let (rc, dbi, w) = dbi_open s.txn (some (until_nul sym)) true s.world in
        if ltb 0 rc
        then throw (text "mdb_dbi_open failed: " ++ strerror rc)
        else ok (dbi, record s { dbis = (sym, dbi) ∷ s.dbis; world = w })
  ]

  -- The second half of `commit_txn`: a new transaction
  unfoldable pub restart_txn : LmdbStorage World → LmdbStorage World
  restart_txn s =
      let (rc, txn, w) = txn_begin s.env false s.world in
      if rc == 0 then record s { txn = some txn; batch_count = 0; world = w } else record s {
        txn = none;
        batch_count = 0;
        world = w;
        err = s.err ++ (text "[LMDBStorage] txn restart failed: " ++ (strerror rc ++ text "\n"));
      }

  unfoldable pub commit_txn : LmdbStorage World → LmdbStorage World
  unfolding restart_txn
  commit_txn s = elim s.txn [
    | none ↦ s
    | some txn ↦
        let (rc, w) = txn_commit txn s.world in
        if rc == 0
        then restart_txn (record s { world = w })
        else restart_txn (record s {
          world = txn_abort txn w;
          err = s.err ++ (text "LMDB commit failed: " ++ (strerror rc ++ text "\n"));
        })
  ]

  -- `mdb_put` of the event, which is counted also if it fails
  unfoldable pub put_pair : Event → ℕ → LmdbStorage World → LmdbStorage World
  unfolding serialize bytes_le
  put_pair e dbi s =
      let (rc, w) = put s.txn dbi (bytes_le 8 e.ts_ns) (serialize e) s.world in
      record s {
        world = w;
        err =
            if ltb 0 rc
            then s.err ++ (text "mdb_put failed: " ++ (strerror rc ++ text "\n"))
            else s.err;
        batch_count = s.batch_count + 1;
      }

  -- `write` after the database was found
  unfoldable pub put_event : Event → ℕ → LmdbStorage World → LmdbStorage World
  unfolding put_pair commit_txn
  put_event e dbi s =
      let s' = put_pair e dbi s in if leb batch_limit s'.batch_count then commit_txn s' else s'

  unfoldable pub write_event : Event → LmdbStorage World → Run (LmdbStorage World)
  unfolding dbi_for_symbol put_event
  write_event e s = do (dbi, s') ← dbi_for_symbol e.symbol s; ok (put_event e dbi s')

  unfoldable pub flush_batch : LmdbStorage World → LmdbStorage World
  unfolding commit_txn
  flush_batch s = elim s.txn [
    | none ↦ s
    | some txn ↦ if ltb 0 s.batch_count then commit_txn s else s
  ]

  -- The destructor: what it leaves of the library's state
  unfoldable pub close_storage : LmdbStorage World → World
  unfolding flush_batch
  close_storage s =
      let s' = flush_batch s in
      elim s'.txn [
        | none ↦ env_close s'.env s'.world
        | some txn ↦ env_close s'.env (txn_abort txn s'.world)
      ]

  abbrev pub lmdb_storage : IStorage (LmdbStorage World)
  lmdb_storage = record { write = write_event; flush = λ s. ok (flush_batch s) }
