-- ===== src/Storage/Lmdb/Recovery.antt =====
-- src/lmdb_storage.cpp: what a session leaves in the files.
use mathlib.Core.List.{append-nil}
use mathlib.Core.Path.{subst}
use pmr_market_simulator.Prelude.{
  ℕ, ◌≡◌, refl, sym, ap, ◌∙◌, true, false, Option, none, some, List, [], ◌∷◌, ◌++◌, arith, ltb,
  ◌&&◌, Bool-cases, Option-cases, ◌⊎◌, All, inl, inr,
}
use pmr_market_simulator.Prelude.Run.{ok, throw, Tries, weaken-Tries, ok-injective}
use pmr_market_simulator.Prelude.Texts.{text, eq_bytes, eq_bytes_iff, until_nul}
use pmr_market_simulator.Event.{Event, serialize, deserialize, serialized_size, bytes_le}
use pmr_market_simulator.Event.RoundTrip.{deserialize-serialize}
use pmr_market_simulator.Storage.Log.{IsWritable}
use pmr_market_simulator.Storage.Library.{Lmdb}
use pmr_market_simulator.Storage.Reader.{value_event}
use pmr_market_simulator.Storage.Lmdb.{LmdbStorage, find_dbi, open_storage, flush_batch}
use pmr_market_simulator.Storage.Lmdb.Laws.{CanFail, IsLmdb, replay, replay-append, record_all}
use pmr_market_simulator.Storage.Lmdb.Holds.{Blamed, Holds}
use pmr_market_simulator.Storage.Lmdb.Durable.{record_all-Kept, flush_batch-Stored}

-- A later event does not replace the value of `e`: another name of the database, which is the symbol
-- up to its first NUL, or another timestamp.
abbrev pub Leaves : Event → Event → Type 0
Leaves e e' =
    (eq_bytes (until_nul e'.symbol) (until_nul e.symbol)
      && eq_bytes (bytes_le 8 e'.ts_ns) (bytes_le 8 e.ts_ns))
    ≡ false

replay-Leaves :
    (e : Event) (old : Option (List ℕ)) (es : List Event)
    → All (Leaves e) es
    → replay (until_nul e.symbol) (bytes_le 8 e.ts_ns) old es ≡ old
unfolding replay
replay-Leaves e old [] h = refl
replay-Leaves e old (e' ∷ es) (other, h) = rw other (replay-Leaves e old es h)

eq_bytes_refl : (s : List ℕ) → eq_bytes s s ≡ true
eq_bytes_refl s = (eq_bytes_iff s s).1 refl

replay_last :
    (e : Event) (old : Option (List ℕ)) (es more : List Event)
    → All (Leaves e) more
    → replay (until_nul e.symbol) (bytes_le 8 e.ts_ns) old (es ++ (e ∷ more)) ≡ some (serialize e)
unfolding replay
replay_last e old es more h =
    let k = bytes_le 8 e.ts_ns in
    replay-append (until_nul e.symbol) k es (e ∷ more) old
    ∙ rw (eq_bytes_refl (until_nul e.symbol), eq_bytes_refl k)
        (replay-Leaves e (some (serialize e)) more h)

module _ (lmdb : Lmdb) (laws : IsLmdb lmdb) where
  open lmdb use {World}

  -- A storage that was just opened.
  open_storage-Holds :
      (path : List ℕ) (size : ℕ) (w : World) (s : LmdbStorage World)
      → open_storage lmdb path size w ≡ ok s
      → Holds lmdb laws (laws.stored s.world) [] s
  unfolding open_storage find_dbi replay
  open_storage-Holds path size w s run =
      let (rc, env, w₁) = lmdb.env_create (lmdb.create_directories path w).1 in
      let w₂ = lmdb.set_maxdbs env 64 (lmdb.set_mapsize env size w₁) in
      let (rc₂, w₃) = lmdb.env_open env (until_nul path) false w₂ in
      let (rc₃, txn, w₄) = lmdb.txn_begin env false w₃ in
      elim (Option-cases (lmdb.create_directories path w).0) [
        | inr (what, fails) ↦ absurd (never what s (rw (open_storage, fails) at run))
        | inl made ↦ elim (Bool-cases (ltb 0 rc)) [
          | inl fails ↦
              absurd
                (never (text "mdb_env_create failed") s (rw (open_storage, made, fails) at run))
          | inr created ↦ elim (Bool-cases (ltb 0 rc₂)) [
            | inl fails ↦ absurd (
                never (text "mdb_env_open failed") s
                  (rw (open_storage, made, created, fails) at run))
            | inr opened ↦ elim (Bool-cases (ltb 0 rc₃)) [
              | inl fails ↦ absurd (
                  never (text "mdb_txn_begin failed") s
                    (rw (open_storage, made, created, opened, fails) at run))
              | inr begun ↦
                  let zero : rc₃ ≡ 0 = ground (arith, begun) in
                  subst (λ s. Holds lmdb laws (laws.stored s.world) [] s)
                    (ok-injective _ s (rw (open_storage, made, created, opened, begun) at run))
                    (record {
                      kept = [];
                      recent = [];
                      split = refl;
                      number = refl;
                      small = omega arith;
                      stored = λ n k. refl;
                      txn = txn;
                      has_txn = refl;
                      seen = λ n k.
                          laws.begin-seen env w₃ n k zero ∙ sym (laws.begin-stored env w₃ n k zero);
                      named = λ symbol d e. absurd (let bad : none ≡ some d = e in cc);
                    })
            ]
          ]
        ]
      ]
    where
      never : (what : List ℕ) (s : LmdbStorage World) → throw what ≡ ok s → ⊥
      never what s e = cc

  -- Whatever events are written to a storage that was opened: the writes end, or they throw and
  -- some call of LMDB can fail. If they end, some call can fail and a failure was reported on
  -- `std::cerr`, or fewer than 10000 events are not in the files, these are the last ones, and
  -- everything before them is, under the symbols up to their first NUL.
  pub record_all-Durable :
      (path : List ℕ) (size : ℕ) (w : World) (s : LmdbStorage World) (es : List Event)
      → open_storage lmdb path size w ≡ ok s
      → Tries
          (CanFail lmdb)
          (λ s'. Blamed lmdb s' ⊎ Holds lmdb laws (laws.stored s.world) es s')
          (record_all lmdb es s)
  record_all-Durable path size w s es run =
      record_all-Kept lmdb laws (laws.stored s.world) [] es s
        (inr (open_storage-Holds path size w s run))

  -- Whatever events are written to a storage that was opened: the writes end, or they throw and
  -- some call of LMDB can fail. If they end, some call can fail and a failure was reported on
  -- `std::cerr` by the end of `flush`, or the files hold after it, at each key of each database,
  -- the last event written there (a symbol's database is named by the symbol up to its first NUL),
  -- and what was there before where no event was written.
  pub flush_batch-Durable :
      (path : List ℕ) (size : ℕ) (w : World) (s : LmdbStorage World) (es : List Event)
      → open_storage lmdb path size w ≡ ok s
      → Tries
          (CanFail lmdb)
          (λ s'.
            Blamed lmdb (flush_batch lmdb s')
            ⊎ ((n k : List ℕ)
                → laws.stored (flush_batch lmdb s').world n k
                  ≡ replay n k (laws.stored s.world n k) es))
          (record_all lmdb es s)
  flush_batch-Durable path size w s es run =
      weaken-Tries (λ s' h. flush_batch-Stored lmdb laws (laws.stored s.world) es s' h)
        (record_all-Durable path size w s es run)

  -- The value of an event is in the files, and the reader gets the event back from it.
  abbrev pub Recovers : Event → LmdbStorage World → Type 0
  Recovers e s =
      (v : List ℕ) × (laws.stored s.world (until_nul e.symbol) (bytes_le 8 e.ts_ns) ≡ some v)
      × (value_event (bytes_le 8 e.ts_ns, v) ≡ some e)

  -- Writes of events to a storage that was opened end, or they throw and some call of LMDB can
  -- fail. If they end, some call can fail and a failure was reported on `std::cerr` by the end of
  -- `flush`, or an event among them that the format can hold is in the files after it, and the
  -- reader gets it back from its value: if no later event has the same timestamp and a symbol of
  -- the same database, which is the same up to the first NUL.
  pub flush_batch-value_event :
      (path : List ℕ) (size : ℕ) (w : World) (s : LmdbStorage World) (es more : List Event)
      (e : Event)
      → open_storage lmdb path size w ≡ ok s
      → IsWritable e
      → All (Leaves e) more
      → Tries
          (CanFail lmdb)
          (λ s'. Blamed lmdb (flush_batch lmdb s') ⊎ Recovers e (flush_batch lmdb s'))
          (record_all lmdb (es ++ (e ∷ more)) s)
  flush_batch-value_event path size w s es more e run (valid, short) others =
      let whole : deserialize (serialize e) ≡ some (e, serialized_size e) =
        ap deserialize (sym (append-nil (serialize e))) ∙ deserialize-serialize e [] valid short in
      let name = until_nul e.symbol in
      let key = bytes_le 8 e.ts_ns in
      weaken-Tries
        (λ s' h. elim h [
          | inl reported ↦ inl reported
          | inr stored ↦ inr (
            serialize e,
            stored name key ∙ replay_last e (laws.stored s.world name key) es more others,
            rw (value_event, whole) refl,
          )
        ])
        (flush_batch-Durable path size w s (es ++ (e ∷ more)) run)
