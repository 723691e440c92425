-- ===== src/Storage/Lmdb/Holds.antt =====
-- src/lmdb_storage.cpp: what a storage holds between two calls, after a commit and after the database of
-- a symbol is found.
use mathlib.Core.List.{append-nil}
use pmr_market_simulator.Prelude.{
  ℕ, ◌<◌, ◌≡◌, refl, sym, ap, ◌∙◌, true, false, Option, some, List, [], ◌∷◌, ◌++◌, arith, length,
  ltb, ◌==◌, ◌⊎◌, Bool-cases, Option-cases, inl, inr,
}
use pmr_market_simulator.Prelude.Run.{Tries, came_back, gave_up}
use pmr_market_simulator.Prelude.Texts.{text, eq_bytes, eq_bytes_iff, until_nul}
use pmr_market_simulator.Event.{Event}
use pmr_market_simulator.Storage.Library.{Lmdb}
use pmr_market_simulator.Storage.Lmdb.{
  LmdbStorage, batch_limit, find_dbi, dbi_for_symbol, restart_txn, commit_txn,
}
use pmr_market_simulator.Storage.Lmdb.Laws.{
  IsLmdb, replay, CanFail, commit_fails, begin_fails, open_fails,
}
use pmr_market_simulator.Storage.Lmdb.Reports.{Reported, append-cons, restart_txn-Reported}

-- A failure was reported, and a call of the library can fail.
abbrev pub Blamed : (lmdb : Lmdb) → LmdbStorage lmdb.World → Type 0
Blamed lmdb s = Reported s × CanFail lmdb

module _ (lmdb : Lmdb) (laws : IsLmdb lmdb) (before : List ℕ → List ℕ → Option (List ℕ)) where
  open lmdb use {World}

  -- A storage to which the events were written, over what was stored before: all but the last
  -- `batch_count` events are stored, which are fewer than a batch, and its transaction sees all.
  pub record Holds (es : List Event) (s : LmdbStorage World) : Type 0 where
    pub kept : List Event
    pub recent : List Event
    pub split : es ≡ kept ++ recent
    pub number : length recent ≡ s.batch_count
    pub small : s.batch_count < batch_limit
    pub stored : (n k : List ℕ) → laws.stored s.world n k ≡ replay n k (before n k) kept
    pub txn : ℕ
    pub has_txn : s.txn ≡ some txn
    pub seen : (n k : List ℕ) → laws.seen s.world txn n k ≡ replay n k (before n k) es
    pub named :
        (symbol : List ℕ) (d : ℕ)
        → find_dbi symbol s.dbis ≡ some d
        → laws.name_of s.world d ≡ some (until_nul symbol)

  -- A commit that reports nothing stores everything that the transaction sees.
  pub commit_txn-Holds :
      (es : List Event) (s : LmdbStorage World) (t : ℕ)
      → s.txn ≡ some t
      → ((n k : List ℕ) → laws.seen s.world t n k ≡ replay n k (before n k) es)
      → ((symbol : List ℕ) (d : ℕ)
          → find_dbi symbol s.dbis ≡ some d
          → laws.name_of s.world d ≡ some (until_nul symbol))
      → Blamed lmdb (commit_txn lmdb s)
        ⊎ (Holds es (commit_txn lmdb s) × ((commit_txn lmdb s).batch_count ≡ 0))
  unfolding commit_txn restart_txn
  commit_txn-Holds es s t has seen named =
      let (rc, w) = lmdb.txn_commit t s.world in
      let (rc₂, t₂, w₂) = lmdb.txn_begin s.env false w in
      elim (Bool-cases (rc == 0)) [
        | inr fails ↦ inl (
          rw (commit_txn, has, fails)
              (restart_txn-Reported lmdb
                (record s {
                  world = lmdb.txn_abort t w;
                  err = s.err ++ (text "LMDB commit failed: " ++ (lmdb.strerror rc ++ text "\n"));
                })
                (append-cons s.err _ _)),
          commit_fails t s.world (λ e. ground (arith, fails, e)),
        )
        | inl committed ↦ elim (Bool-cases (rc₂ == 0)) [
          | inr fails ↦ inl (
            rw (commit_txn, has, committed, fails) (append-cons s.err _ _),
            begin_fails s.env w (λ e. ground (arith, fails, e)),
          )
          | inl begun ↦
              let rc-zero : rc ≡ 0 = ground (arith, committed) in
              let rc₂-zero : rc₂ ≡ 0 = ground (arith, begun) in
              inr (
                rw (commit_txn, has, committed, begun)
                  ((
                    record {
                      kept = es;
                      recent = [];
                      split = sym (append-nil es);
                      number = refl;
                      small = omega arith;
                      stored = λ n k.
                          laws.begin-stored s.env w n k rc₂-zero
                          ∙ laws.commit-stored t s.world n k rc-zero
                          ∙ seen n k;
                      txn = t₂;
                      has_txn = refl;
                      seen = λ n k.
                          laws.begin-seen s.env w n k rc₂-zero
                          ∙ laws.commit-stored t s.world n k rc-zero
                          ∙ seen n k;
                      named = λ symbol d e. laws.begin-name s.env d (until_nul symbol) w rc₂-zero (
                          laws.commit-name t d (until_nul symbol) s.world rc-zero
                            (named symbol d e));
                    },
                    refl,
                  )))
        ]
      ]

  find_dbi-cons :
      (name symbol : List ℕ) (new d : ℕ) (dbis : List (List ℕ × ℕ)) (w : World)
      → laws.name_of w new ≡ some (until_nul name)
      → ((symbol : List ℕ) (d : ℕ)
          → find_dbi symbol dbis ≡ some d
          → laws.name_of w d ≡ some (until_nul symbol))
      → find_dbi symbol ((name, new) ∷ dbis) ≡ some d
      → laws.name_of w d ≡ some (until_nul symbol)
  unfolding find_dbi
  find_dbi-cons name symbol new d dbis w is all e = elim (Bool-cases (eq_bytes name symbol)) [
    | inl same ↦
        let both : some new ≡ some d = rw same at e in
        let here : new ≡ d = cc in
        let equal : name ≡ symbol = (eq_bytes_iff name symbol).0 same in
        ap (laws.name_of w) (sym here) ∙ is ∙ ap (λ n. some (until_nul n)) equal
    | inr other ↦ all symbol d (rw other at e)
  ]

  -- The handle is one of the symbol's database.
  abbrev pub Found : List Event → List ℕ → ℕ × LmdbStorage World → Type 0
  Found es name r = (laws.name_of r.1.world r.0 ≡ some (until_nul name)) × Holds es r.1

  pub dbi_for_symbol-Holds :
      (es : List Event) (s : LmdbStorage World) (name : List ℕ)
      → Holds es s
      → Tries (CanFail lmdb) (Found es name) (dbi_for_symbol lmdb name s)
  unfolding dbi_for_symbol
  dbi_for_symbol-Holds es s name h = elim (Option-cases (find_dbi name s.dbis)) [
    | inr (d, found) ↦ rw (dbi_for_symbol, found) (came_back (d, s) (h.named name d found, h))
    | inl absent ↦
        let cut = until_nul name in
        let (rc, d, w) = lmdb.dbi_open (some h.txn) (some cut) true s.world in
        elim (Bool-cases (ltb 0 rc)) [
          | inl fails ↦
              rw (dbi_for_symbol, absent, h.has_txn, fails)
                (gave_up _ (open_fails (some h.txn) cut s.world fails))
          | inr fine ↦
              let zero : rc ≡ 0 = ground (arith, fine) in
              let named = laws.open-named h.txn cut s.world zero in
              rw (dbi_for_symbol, absent, h.has_txn, fine)
                (came_back (d, record s { txn = some h.txn; dbis = (name, d) ∷ s.dbis; world = w })
                  (
                    named,
                    record {
                      kept = h.kept;
                      recent = h.recent;
                      split = h.split;
                      number = h.number;
                      small = h.small;
                      stored = λ n k. laws.open-stored h.txn cut s.world n k zero ∙ h.stored n k;
                      txn = h.txn;
                      has_txn = refl;
                      seen = λ n k. laws.open-seen h.txn cut s.world n k zero ∙ h.seen n k;
                      named = λ symbol d' e.
                          find_dbi-cons name symbol d d' s.dbis w named
                            (λ symbol' d'' e'.
                              laws.open-name h.txn d'' cut (until_nul symbol') s.world zero
                                (h.named symbol' d'' e'))
                            e;
                    },
                  ))
        ]
  ]
