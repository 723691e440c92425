-- ===== src/Storage/Lmdb/Laws.antt =====
-- src/lmdb_storage.cpp: what the library documents of the calls that return `MDB_SUCCESS`.
use pmr_market_simulator.Prelude.{
  ℕ, ◌≡◌, ◌≢◌, ltb, refl, true, false, Option, some, List, [], ◌∷◌, ◌++◌, ◌&&◌, if◌then◌else◌,
}
use pmr_market_simulator.Prelude.Run.{Run, ok, ◌>>=◌}
use pmr_market_simulator.Prelude.Texts.{eq_bytes, until_nul}
use pmr_market_simulator.Event.{Event, serialize, bytes_le}
use pmr_market_simulator.Storage.Library.{Lmdb}
use pmr_market_simulator.Storage.Lmdb.{LmdbStorage, write_event}

-- The pairs of a named database that are committed, the pairs that a transaction sees, and the name of
-- a handle. Nothing is asked of a call that fails.
pub record IsLmdb (lmdb : Lmdb) : Type 0 where
  pub stored : lmdb.World → List ℕ → List ℕ → Option (List ℕ)
  pub seen : lmdb.World → ℕ → List ℕ → List ℕ → Option (List ℕ)
  pub name_of : lmdb.World → ℕ → Option (List ℕ)
  -- `mdb_put` replaces the value of the key in the database, for the transaction alone.
  pub put-seen :
      (t d : ℕ) (key value name : List ℕ) (w : lmdb.World) (n k : List ℕ)
      → (lmdb.put (some t) d key value w).0 ≡ 0
      → name_of w d ≡ some name
      → seen (lmdb.put (some t) d key value w).1 t n k
        ≡ (if eq_bytes name n && eq_bytes key k then some value else seen w t n k)
  pub put-stored :
      (t d : ℕ) (key value : List ℕ) (w : lmdb.World) (n k : List ℕ)
      → (lmdb.put (some t) d key value w).0 ≡ 0
      → stored (lmdb.put (some t) d key value w).1 n k ≡ stored w n k
  pub put-name :
      (t d d' : ℕ) (key value name : List ℕ) (w : lmdb.World)
      → (lmdb.put (some t) d key value w).0 ≡ 0
      → name_of w d' ≡ some name
      → name_of (lmdb.put (some t) d key value w).1 d' ≡ some name
  -- `mdb_txn_commit` stores what the transaction sees, and its handles stay open.
  pub commit-stored :
      (t : ℕ) (w : lmdb.World) (n k : List ℕ)
      → (lmdb.txn_commit t w).0 ≡ 0
      → stored (lmdb.txn_commit t w).1 n k ≡ seen w t n k
  pub commit-name :
      (t d : ℕ) (name : List ℕ) (w : lmdb.World)
      → (lmdb.txn_commit t w).0 ≡ 0
      → name_of w d ≡ some name
      → name_of (lmdb.txn_commit t w).1 d ≡ some name
  -- A new transaction sees what is stored.
  pub begin-seen :
      (env : ℕ) (w : lmdb.World) (n k : List ℕ)
      → (lmdb.txn_begin env false w).0 ≡ 0
      → seen (lmdb.txn_begin env false w).2 (lmdb.txn_begin env false w).1 n k ≡ stored w n k
  pub begin-stored :
      (env : ℕ) (w : lmdb.World) (n k : List ℕ)
      → (lmdb.txn_begin env false w).0 ≡ 0
      → stored (lmdb.txn_begin env false w).2 n k ≡ stored w n k
  pub begin-name :
      (env d : ℕ) (name : List ℕ) (w : lmdb.World)
      → (lmdb.txn_begin env false w).0 ≡ 0
      → name_of w d ≡ some name
      → name_of (lmdb.txn_begin env false w).2 d ≡ some name
  -- `mdb_dbi_open` gives a handle for the name; the handles given before keep theirs.
  pub open-named :
      (t : ℕ) (name : List ℕ) (w : lmdb.World)
      → (lmdb.dbi_open (some t) (some name) true w).0 ≡ 0
      → name_of
          (lmdb.dbi_open (some t) (some name) true w).2
          (lmdb.dbi_open (some t) (some name) true w).1
        ≡ some name
  pub open-name :
      (t d : ℕ) (name name' : List ℕ) (w : lmdb.World)
      → (lmdb.dbi_open (some t) (some name) true w).0 ≡ 0
      → name_of w d ≡ some name'
      → name_of (lmdb.dbi_open (some t) (some name) true w).2 d ≡ some name'
  pub open-seen :
      (t : ℕ) (name : List ℕ) (w : lmdb.World) (n k : List ℕ)
      → (lmdb.dbi_open (some t) (some name) true w).0 ≡ 0
      → seen (lmdb.dbi_open (some t) (some name) true w).2 t n k ≡ seen w t n k
  pub open-stored :
      (t : ℕ) (name : List ℕ) (w : lmdb.World) (n k : List ℕ)
      → (lmdb.dbi_open (some t) (some name) true w).0 ≡ 0
      → stored (lmdb.dbi_open (some t) (some name) true w).2 n k ≡ stored w n k

-- The value at a key of a database after events, one after the other: the bytes of the last event with
-- the name and the timestamp, or the value from before.
unfoldable pub replay : List ℕ → List ℕ → Option (List ℕ) → List Event → Option (List ℕ)
unfolding serialize bytes_le
replay n k old [] = old
replay n k old (e ∷ es) =
    replay n k
      (if eq_bytes (until_nul e.symbol) n && eq_bytes (bytes_le 8 e.ts_ns) k
        then some (serialize e)
        else old)
      es

pub replay-append :
    (n k : List ℕ) (xs ys : List Event) (old : Option (List ℕ))
    → replay n k old (xs ++ ys) ≡ replay n k (replay n k old xs) ys
unfolding replay
replay-append n k [] ys old = refl
replay-append n k (x ∷ xs) ys old = replay-append n k xs ys (
    if eq_bytes (until_nul x.symbol) n && eq_bytes (bytes_le 8 x.ts_ns) k
    then some (serialize x)
    else old)

-- `write` of the events, one after the other.
unfoldable pub record_all :
    (lmdb : Lmdb) → List Event → LmdbStorage lmdb.World → Run (LmdbStorage lmdb.World)
record_all lmdb [] s = ok s
record_all lmdb (e ∷ es) s = write_event lmdb e s >>= record_all lmdb es

-- A call of the library fails at some arguments, in some state.
pub data CanFail (lmdb : Lmdb) : Type 0 where
  put_fails :
      (t : Option ℕ) (d : ℕ) (key value : List ℕ) (w : lmdb.World)
      → ltb 0 (lmdb.put t d key value w).0 ≡ true
      → CanFail lmdb
  commit_fails : (t : ℕ) (w : lmdb.World) → (lmdb.txn_commit t w).0 ≢ 0 → CanFail lmdb
  begin_fails : (env : ℕ) (w : lmdb.World) → (lmdb.txn_begin env false w).0 ≢ 0 → CanFail lmdb
  open_fails :
      (t : Option ℕ) (name : List ℕ) (w : lmdb.World)
      → ltb 0 (lmdb.dbi_open t (some name) true w).0 ≡ true
      → CanFail lmdb
