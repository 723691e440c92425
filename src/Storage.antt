-- ===== src/Storage.antt =====
-- include/msim/storage.hpp and src/storage.cpp: where the events go.
pub mod Log
pub mod Library
pub mod Lmdb
pub mod Reader
pub mod Tests
use pmr_market_simulator.Prelude.{
  ℕ, ◌+◌, ◌-◌, ◌%◌, ◌^◌, Bool, true, false, List, [], ◌∷◌, ◌++◌, length, take, drop, leb, ◌&&◌,
  ◌||◌, if◌then◌else◌,
}
use pmr_market_simulator.Prelude.Run.{Run, ok, throw, ◌>>=◌}
use pmr_market_simulator.Prelude.Texts.{text, eq_bytes, occurs_in}
use pmr_market_simulator.Event.{Event, serialize, bytes_le}

-- `IStorage`, over the state of the storage
pub record IStorage (Store : Type 0) : Type 0 where
  pub write : Event → Store → Run Store
  pub flush : Store → Run Store

abbrev pub null_storage : IStorage (Unit {0})
null_storage = record { write = λ e s. ok tt; flush = λ s. ok tt }

-- `BinaryLogStorage`: what was given to `fwrite`, and how much of it was given to the system by the
-- last `fflush`. The calls of the C library are taken to succeed, as the code does; the mutex makes
-- each method one step.
pub record BinaryLog : Type 0 where
  pub written : List ℕ
  pub flushed : ℕ

-- The constructor; the flag says whether `fopen` succeeds.
unfoldable pub open_log : Bool → Run BinaryLog
open_log opens =
    if opens then ok (record { written = []; flushed = 0 }) else throw (text "open log failed")

unfoldable pub write_log : Event → BinaryLog → BinaryLog
unfolding serialize bytes_le
write_log e log =
    let b = serialize e in
    record log { written = log.written ++ (bytes_le 4 (length b % 2 ^ 32) ++ b) }

unfoldable pub flush_log : BinaryLog → BinaryLog
flush_log log = record log { flushed = length log.written }

-- The destructor: what the file has in the end
unfoldable pub close_log : BinaryLog → List ℕ
unfolding flush_log
close_log log = take (flush_log log).flushed log.written

abbrev pub binary_log : IStorage BinaryLog
binary_log = record { write = λ e log. ok (write_log e log); flush = λ log. ok (flush_log log) }

pub data StorageKind : Type 0 where
  null_kind lmdb_kind binary_kind : StorageKind

-- `make_storage`: the class of the storage for a path
unfoldable pub make_storage : List ℕ → StorageKind
make_storage [] = null_kind
make_storage (c ∷ rest) =
    let path = c ∷ rest in
    let has_mdb_ext = leb 4 (length path) && eq_bytes (drop (length path - 4) path) (text ".mdb") in
    if has_mdb_ext || occurs_in (text ".mdb/") path then lmdb_kind else binary_kind
