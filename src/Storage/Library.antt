-- ===== src/Storage/Library.antt =====
-- LMDB, which the storage and the reader call: a parameter of the model.
use pmr_market_simulator.Prelude.{ℕ, Bool, Option, List}

-- The calls of the program, over the state of the library and of the files. The first number of a
-- result is the return code, where 0 is `MDB_SUCCESS` and any other number stands for the code of an
-- error, which the program prints only; handles are numbers, and `none` is the null
-- pointer.
pub record Lmdb : Type 1 where
  pub World : Type 0
  pub env_create : World → ℕ × ℕ × World
  pub set_mapsize : ℕ → ℕ → World → World
  pub set_maxdbs : ℕ → ℕ → World → World
  -- path and flags; the last two flags of the code are `MDB_RDONLY` and none
  pub env_open : ℕ → List ℕ → Bool → World → ℕ × World
  pub env_close : ℕ → World → World
  -- the flag is `MDB_RDONLY`
  pub txn_begin : ℕ → Bool → World → ℕ × ℕ × World
  pub txn_commit : ℕ → World → ℕ × World
  pub txn_abort : ℕ → World → World
  -- a named database, by a C string, or the unnamed one; the flag is `MDB_CREATE`
  pub dbi_open : Option ℕ → Option (List ℕ) → Bool → World → ℕ × ℕ × World
  pub dbi_close : ℕ → ℕ → World → World
  -- `mdb_put` without flags: database, key and value
  pub put : Option ℕ → ℕ → List ℕ → List ℕ → World → ℕ × World
  -- `mdb_cursor_open`, and `mdb_cursor_get` with `MDB_NEXT`: the next pair, if the code is 0
  pub cursor_open : Option ℕ → ℕ → World → ℕ × World
  pub cursor_next : ℕ → World → Option (List ℕ × List ℕ) × World
  pub cursor_close : ℕ → World → World
  pub strerror : ℕ → List ℕ
  -- `std::filesystem::create_directories`, with the text of the exception if it throws one
  pub create_directories : List ℕ → World → Option (List ℕ) × World
