-- ===== src/Storage/Lmdb/Reports.antt =====
-- src/lmdb_storage.cpp: what was put into `std::cerr` stays there.
use pmr_market_simulator.Prelude.{
  ℕ, ◌≢◌, Bool, true, false, some, List, [], ◌∷◌, ◌++◌, leb, ltb, ◌==◌, if◌then◌else◌, Bool-cases,
  Option-cases, inl, inr,
}
use pmr_market_simulator.Prelude.Run.{EndsWith, returned, bind-EndsWith, guard-EndsWith}
use pmr_market_simulator.Prelude.Texts.{text, until_nul}
use pmr_market_simulator.Event.{Event}
use pmr_market_simulator.Storage.Library.{Lmdb}
use pmr_market_simulator.Storage.Lmdb.{
  LmdbStorage, batch_limit, find_dbi, dbi_for_symbol, restart_txn, commit_txn, put_pair, put_event,
  write_event, flush_batch,
}

-- A failure was reported.
abbrev pub Reported : {World : Type 0} → LmdbStorage World → Type 0
Reported s = s.err ≢ []

pub append-cons : (xs : List ℕ) (c : ℕ) (ys : List ℕ) → xs ++ (c ∷ ys) ≢ []
append-cons [] c ys e = cc
append-cons (x ∷ xs) c ys e = cc

-- The text that a failure adds, if there is one.
err-Reported :
    (fails : Bool) (err : List ℕ) (c : ℕ) (ys : List ℕ)
    → err ≢ []
    → (if fails then err ++ (c ∷ ys) else err) ≢ []
err-Reported true err c ys h = append-cons err c ys
err-Reported false err c ys h = h

module _ (lmdb : Lmdb) where
  open lmdb use {World}

  pub restart_txn-Reported : (s : LmdbStorage World) → Reported s → Reported (restart_txn lmdb s)
  unfolding restart_txn
  restart_txn-Reported s h = elim (Bool-cases ((lmdb.txn_begin s.env false s.world).0 == 0)) [
    | inl fine ↦ rw (restart_txn, fine) h
    | inr fails ↦ rw (restart_txn, fails) (append-cons s.err _ _)
  ]

  pub commit_txn-Reported : (s : LmdbStorage World) → Reported s → Reported (commit_txn lmdb s)
  unfolding commit_txn
  commit_txn-Reported s h = elim (Option-cases s.txn) [
    | inl null ↦ rw (commit_txn, null) h
    | inr (t, has) ↦
        let (rc, w) = lmdb.txn_commit t s.world in
        elim (Bool-cases (rc == 0)) [
          | inl fine ↦ rw (commit_txn, has, fine) (restart_txn-Reported (record s { world = w }) h)
          | inr fails ↦
              rw (commit_txn, has, fails)
                (restart_txn-Reported
                  (record s {
                    world = lmdb.txn_abort t w;
                    err = s.err ++ (text "LMDB commit failed: " ++ (lmdb.strerror rc ++ text "\n"));
                  })
                  (append-cons s.err _ _))
        ]
  ]

  put_pair-Reported :
      (e : Event) (d : ℕ) (s : LmdbStorage World) → Reported s → Reported (put_pair lmdb e d s)
  unfolding put_pair
  put_pair-Reported e d s h = err-Reported _ s.err _ _ h

  pub commit_at_limit :
      (s : LmdbStorage World)
      → Reported s
      → Reported (if leb batch_limit s.batch_count then commit_txn lmdb s else s)
  commit_at_limit s h = elim (Bool-cases (leb batch_limit s.batch_count)) [
    | inl full ↦ rw full (commit_txn-Reported s h)
    | inr room ↦ rw room h
  ]

  put_event-Reported :
      (e : Event) (d : ℕ) (s : LmdbStorage World) → Reported s → Reported (put_event lmdb e d s)
  unfolding put_event
  put_event-Reported e d s h = commit_at_limit (put_pair lmdb e d s) (put_pair-Reported e d s h)

  dbi_for_symbol-Reported :
      (name : List ℕ) (s : LmdbStorage World)
      → Reported s
      → EndsWith (λ r. Reported r.1) (dbi_for_symbol lmdb name s)
  unfolding dbi_for_symbol
  dbi_for_symbol-Reported name s h = elim (Option-cases (find_dbi name s.dbis)) [
    | inr (d, found) ↦ rw (dbi_for_symbol, found) (returned (d, s) h)
    | inl absent ↦
        let (rc, d, w) = lmdb.dbi_open s.txn (some (until_nul name)) true s.world in
        rw (dbi_for_symbol, absent)
          (guard-EndsWith (λ r. Reported r.1) (ltb 0 rc) _ _ (returned _ h))
  ]

  pub write_event-Reported :
      (e : Event) (s : LmdbStorage World) → Reported s → EndsWith Reported (write_event lmdb e s)
  unfolding write_event
  write_event-Reported e s h =
      bind-EndsWith (λ r. Reported r.1) Reported _ _ (dbi_for_symbol-Reported e.symbol s h)
        (λ r h'. returned _ (put_event-Reported e r.0 r.1 h'))

  pub flush_batch-Reported : (s : LmdbStorage World) → Reported s → Reported (flush_batch lmdb s)
  unfolding flush_batch
  flush_batch-Reported s h = elim (Option-cases s.txn) [
    | inl null ↦ rw (flush_batch, null) h
    | inr (t, has) ↦ elim (Bool-cases (ltb 0 s.batch_count)) [
      | inl some_new ↦ rw (flush_batch, has, some_new) (commit_txn-Reported s h)
      | inr none_new ↦ rw (flush_batch, has, none_new) h
    ]
  ]
