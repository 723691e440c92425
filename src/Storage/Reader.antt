-- ===== src/Storage/Reader.antt =====
-- src/lmdb_reader.cpp and include/msim/lmdb_reader.hpp: the events of a symbol, from the files.
use pmr_market_simulator.Prelude.{
  ℕ, zero, suc, true, false, Option, none, some, List, [], ◌∷◌, ◌++◌, ltb, ◌==◌, if◌then◌else◌,
}
use pmr_market_simulator.Prelude.Run.{Run, ok, throw, spin, ◌>>=◌}
use pmr_market_simulator.Prelude.Texts.{text, until_nul}
use pmr_market_simulator.Event.{Event, deserialize}
use pmr_market_simulator.Storage.Library.{Lmdb}

-- `LMDBReader`, with the library's state
pub record LmdbReader (World : Type 0) : Type 0 where
  pub env : ℕ
  pub txn : ℕ
  pub world : World

-- The value of a pair as an event, where it is one
abbrev pub value_event : List ℕ × List ℕ → Option Event
value_event (key, value) = elim (deserialize value) [ none ↦ none | some (e, consumed) ↦ some e ]

module _ (lmdb : Lmdb) where
  open lmdb use {
    World, env_create, set_maxdbs, env_open, env_close, txn_begin, txn_abort, dbi_open, dbi_close,
    cursor_open, cursor_next, cursor_close,
  }

  -- `std::to_string` of a return code is a parameter.
  unfoldable pub open_reader : (ℕ → List ℕ) → List ℕ → World → Run (LmdbReader World)
  open_reader to_string path w =
      let (rc, env, w₁) = env_create w in
      let (rc₂, w₂) = env_open env (until_nul path) true (set_maxdbs env 64 w₁) in
      let (rc₃, txn, w₃) = txn_begin env true w₂ in
      let (rc₄, main_dbi, w₄) = dbi_open (some txn) none false w₃ in
      if ltb 0 rc
      then throw (text "mdb_env_create failed: " ++ to_string rc)
      else if ltb 0 rc₂
      then throw (text "mdb_env_open failed: " ++ to_string rc₂)
      else if ltb 0 rc₃
      then throw (text "mdb_txn_begin failed: " ++ to_string rc₃)
      else if ltb 0 rc₄
      then throw (text "mdb_dbi_open meta failed: " ++ to_string rc₄)
      else ok (record { env = env; txn = txn; world = dbi_close env main_dbi w₄ })

  unfoldable pub close_reader : LmdbReader World → World
  close_reader r = env_close r.env (txn_abort r.txn r.world)

  -- The pairs that the cursor gives until a code other than 0, on fuel
  unfoldable pub walk : ℕ → ℕ → World → Run (List (List ℕ × List ℕ) × World)
  walk zero cursor w = spin
  walk (suc fuel) cursor w =
      let (pair, w') = cursor_next cursor w in
      let rest = walk fuel cursor w' in
      elim pair [ none ↦ ok ([], w') | some kv ↦ rest >>= λ r. ok (kv ∷ r.0, r.1) ]

  -- `if (evt) out.push_back(std::move(*evt))` for each pair
  unfoldable pub events_of : List (List ℕ × List ℕ) → List Event
  events_of [] = []
  events_of (kv ∷ pairs) = elim (value_event kv) [
    | none ↦ events_of pairs
    | some e ↦ e ∷ events_of pairs
  ]

  -- The keys of the pairs, as names
  abbrev pub names_of : List (List ℕ × List ℕ) → List (List ℕ)
  names_of [] = []
  names_of ((key, value) ∷ pairs) = key ∷ names_of pairs

  unfoldable pub read_all : ℕ → List ℕ → LmdbReader World → Run (List Event × LmdbReader World)
  unfolding walk events_of
  read_all fuel symbol r =
      let (rc, dbi, w₁) = dbi_open (some r.txn) (some (until_nul symbol)) false r.world in
      let (cursor, w₂) = cursor_open (some r.txn) dbi w₁ in
      if rc == 0
      then (walk fuel cursor w₂ >>= λ p.
          ok (events_of p.0, record r { world = dbi_close r.env dbi (cursor_close cursor p.1) }))
      else throw (text "dbi open failed: " ++ symbol)

  unfoldable pub list_symbols : ℕ → LmdbReader World → Run (List (List ℕ) × LmdbReader World)
  unfolding walk
  list_symbols fuel r =
      let (rc, dbi, w₁) = dbi_open (some r.txn) none false r.world in
      let (cursor, w₂) = cursor_open (some r.txn) dbi w₁ in
      if rc == 0
      then (walk fuel cursor w₂ >>= λ p.
          ok (names_of p.0, record r { world = dbi_close r.env dbi (cursor_close cursor p.1) }))
      else throw (text "dbi_open failed for unnamed DB")
