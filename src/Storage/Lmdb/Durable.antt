-- ===== src/Storage/Lmdb/Durable.antt =====
-- src/lmdb_storage.cpp: which events are in the files, as long as no failure was reported.
use mathlib.Core.List.{append-nil, append_assoc}
use pmr_market_simulator.Prelude.{
  ℕ, ◌+◌, ◌≡◌, refl, sym, ap, ◌∙◌, true, Option, some, List, [], ◌∷◌, ◌++◌, arith, length,
  length-append, leb, ltb, ◌&&◌, ◌⊎◌, if◌then◌else◌, Bool-cases, inl, inr,
}
use pmr_market_simulator.Prelude.Run.{Tries, came_back, bind-Tries, EndsWith-Tries}
use pmr_market_simulator.Prelude.Texts.{eq_bytes, until_nul}
use pmr_market_simulator.Event.{Event, serialize, bytes_le}
use pmr_market_simulator.Storage.Library.{Lmdb}
use pmr_market_simulator.Storage.Lmdb.{
  LmdbStorage, batch_limit, find_dbi, commit_txn, put_pair, put_event, write_event, flush_batch,
}
use pmr_market_simulator.Storage.Lmdb.Laws.{
  IsLmdb, replay, replay-append, record_all, CanFail, put_fails,
}
use pmr_market_simulator.Storage.Lmdb.Reports.{
  Reported, append-cons, commit_at_limit, write_event-Reported, flush_batch-Reported,
}
use pmr_market_simulator.Storage.Lmdb.Holds.{
  Blamed, Holds, Found, commit_txn-Holds, dbi_for_symbol-Holds,
}

module _ (lmdb : Lmdb) (laws : IsLmdb lmdb) (before : List ℕ → List ℕ → Option (List ℕ)) where
  open lmdb use {World}

  put_pair-done :
      (e : Event) (d t : ℕ) (s : LmdbStorage World)
      → s.txn ≡ some t
      → (lmdb.put (some t) d (bytes_le 8 e.ts_ns) (serialize e) s.world).0 ≡ 0
      → put_pair lmdb e d s ≡ record s {
        world = (lmdb.put (some t) d (bytes_le 8 e.ts_ns) (serialize e) s.world).1;
        batch_count = s.batch_count + 1;
      }
  unfolding put_pair
  put_pair-done e d t s has zero = rw (put_pair, has, zero) refl

  put_event-failed :
      (e : Event) (d t : ℕ) (s : LmdbStorage World)
      → s.txn ≡ some t
      → ltb 0 (lmdb.put (some t) d (bytes_le 8 e.ts_ns) (serialize e) s.world).0 ≡ true
      → Reported (put_event lmdb e d s)
  unfolding put_event put_pair
  put_event-failed e d t s has fails =
      commit_at_limit lmdb (put_pair lmdb e d s) (rw (put_pair, has, fails) (append-cons s.err _ _))

  put_event-Holds :
      (es : List Event) (e : Event) (d : ℕ) (s : LmdbStorage World)
      → laws.name_of s.world d ≡ some (until_nul e.symbol)
      → Holds lmdb laws before es s
      → Blamed lmdb (put_event lmdb e d s)
        ⊎ Holds lmdb laws before (es ++ (e ∷ [])) (put_event lmdb e d s)
  unfolding put_event replay
  put_event-Holds es e d s is h =
      let key = bytes_le 8 e.ts_ns in
      let value = serialize e in
      let name = until_nul e.symbol in
      let (rc, w) = lmdb.put (some h.txn) d key value s.world in
      let s₁ : LmdbStorage World = record s { world = w; batch_count = s.batch_count + 1 } in
      elim (Bool-cases (ltb 0 rc)) [
        | inl fails ↦ inl (
          put_event-failed e d h.txn s h.has_txn fails,
          put_fails (some h.txn) d key value s.world fails,
        )
        | inr fine ↦
            let zero : rc ≡ 0 = ground (arith, fine) in
            let seen : (n k : List ℕ)
                → laws.seen w h.txn n k ≡ replay n k (before n k) (es ++ (e ∷ [])) =
              λ n k.
                laws.put-seen h.txn d key value name s.world n k zero is
                ∙ ap (λ o. if eq_bytes name n && eq_bytes key k then some value else o) (h.seen n k)
                ∙ sym (replay-append n k es (e ∷ []) (before n k)) in
            let named : (symbol : List ℕ) (d' : ℕ)
                → find_dbi symbol s.dbis ≡ some d'
                → laws.name_of w d' ≡ some (until_nul symbol) =
              λ symbol d' at.
                laws.put-name h.txn d d' key value (until_nul symbol) s.world zero
                  (h.named symbol d' at) in
            rw (put_event, put_pair-done e d h.txn s h.has_txn zero)
              (elim (Bool-cases (leb batch_limit (s.batch_count + 1))) [
                | inl full ↦ rw full (
                    forget (
                      commit_txn-Holds lmdb laws before (es ++ (e ∷ [])) s₁ h.txn h.has_txn seen
                        named))
                | inr room ↦ rw room (
                    inr (record {
                      kept = h.kept;
                      recent = h.recent ++ (e ∷ []);
                      split =
                          ap (λ l. l ++ (e ∷ [])) h.split ∙ append_assoc h.kept h.recent (e ∷ []);
                      number = omega (arith, length-append h.recent (e ∷ []), h.number);
                      small = ground (arith, room);
                      stored =
                          λ n k. laws.put-stored h.txn d key value s.world n k zero ∙ h.stored n k;
                      txn = h.txn;
                      has_txn = h.has_txn;
                      seen = seen;
                      named = named;
                    }))
              ])
      ]
    where
      forget : {A B : Type 0} {C : Type 0} → A ⊎ (B × C) → A ⊎ B
      forget (inl a) = inl a
      forget (inr (b, c)) = inr b

  -- A failure was reported where a call can fail, or the storage holds the events.
  abbrev pub Kept : List Event → LmdbStorage World → Type 0
  Kept es s = Blamed lmdb s ⊎ Holds lmdb laws before es s

  write_event-Kept :
      (es : List Event) (e : Event) (s : LmdbStorage World)
      → Kept es s
      → Tries (CanFail lmdb) (Kept (es ++ (e ∷ []))) (write_event lmdb e s)
  unfolding write_event
  write_event-Kept es e s (inl (reported, why)) =
      EndsWith-Tries why (λ s' r. inl (r, why)) (write_event-Reported lmdb e s reported)
  write_event-Kept es e s (inr h) =
      bind-Tries (Found lmdb laws before es e.symbol) (Kept (es ++ (e ∷ []))) _ _
        (dbi_for_symbol-Holds lmdb laws before es s e.symbol h)
        (λ r (is, h'). came_back _ (put_event-Holds es e r.0 r.1 is h'))

  pub record_all-Kept :
      (es more : List Event) (s : LmdbStorage World)
      → Kept es s
      → Tries (CanFail lmdb) (Kept (es ++ more)) (record_all lmdb more s)
  unfolding record_all
  record_all-Kept es [] s h = came_back s (rw (append-nil es) h)
  record_all-Kept es (e ∷ more) s h =
      bind-Tries (Kept (es ++ (e ∷ []))) (Kept (es ++ (e ∷ more))) _ _ (write_event-Kept es e s h)
        (λ s' h'.
          rw (sym (append_assoc es (e ∷ []) more)) (record_all-Kept (es ++ (e ∷ [])) more s' h'))

  nothing_recent :
      (es : List Event) (s : LmdbStorage World)
      → Holds lmdb laws before es s
      → s.batch_count ≡ 0
      → (n k : List ℕ) → laws.stored s.world n k ≡ replay n k (before n k) es
  nothing_recent es s h none_new n k =
      let whole : h.kept ≡ es =
        sym (append-nil h.kept)
        ∙ ap (λ l. h.kept ++ l) (sym (empty h.recent (h.number ∙ none_new)))
        ∙ sym h.split in
      h.stored n k ∙ ap (replay n k (before n k)) whole
    where
      empty : (xs : List Event) → length xs ≡ 0 → xs ≡ []
      empty [] e = refl
      empty (x ∷ xs) e = absurd (omega arith)

  -- Every event is stored.
  abbrev pub Stored : List Event → LmdbStorage World → Type 0
  Stored es s = (n k : List ℕ) → laws.stored s.world n k ≡ replay n k (before n k) es

  pub flush_batch-Stored :
      (es : List Event) (s : LmdbStorage World)
      → Kept es s
      → Blamed lmdb (flush_batch lmdb s) ⊎ Stored es (flush_batch lmdb s)
  unfolding flush_batch
  flush_batch-Stored es s (inl (reported, why)) = inl (flush_batch-Reported lmdb s reported, why)
  flush_batch-Stored es s (inr h) = elim (Bool-cases (ltb 0 s.batch_count)) [
    | inl some_new ↦
        rw (flush_batch, h.has_txn, some_new)
          (elim (commit_txn-Holds lmdb laws before es s h.txn h.has_txn h.seen h.named) [
            | inl reported ↦ inl reported
            | inr (committed, none_new) ↦
                inr (nothing_recent es (commit_txn lmdb s) committed none_new)
          ])
    | inr none_new ↦
        rw (flush_batch, h.has_txn, none_new)
          (inr (nothing_recent es s h (ground (arith, none_new))))
  ]
