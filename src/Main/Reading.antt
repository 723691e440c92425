-- ===== src/Main/Reading.antt =====
-- src/main.cpp with src/lmdb_reader.cpp: `--read`, whatever LMDB answers.
use pmr_market_simulator.Prelude.{
  ℕ, ◌≡◌, refl, ap, ◌∙◌, ◌++◌, inl, inr, true, false, none, some, List, [], ◌∷◌, ltb,
}
use mathlib.Core.List.{append-nil}
use pmr_market_simulator.Prelude.Int.{ℤ}
use pmr_market_simulator.Prelude.Output.{literal, bytes}
use pmr_market_simulator.Prelude.Texts.{until_nul}
use pmr_market_simulator.Prelude.Run.{
  Run, ok, throw, Returns, EndsWith, EndsWith-cases, returned, bind-EndsWith, guard-EndsWith,
  require-EndsWith,
}
use pmr_market_simulator.Event.Text.{Printf}
use pmr_market_simulator.Storage.Library.{Lmdb}
use pmr_market_simulator.Storage.Reader.{LmdbReader, open_reader, walk, read_all, list_symbols}
use pmr_market_simulator.Main.{Options}
use pmr_market_simulator.Main.Modes.{
  Ended, handled, warned, warning, adjusted, read_symbols, symbols_report, read_store, read_main,
  store_path,
}

-- No condition on the result.
abbrev Any {ℓ} : {A : Type ℓ} → A → Type 0
Any a = Unit

module _ (lmdb : Lmdb) (to_text : ℕ → List ℕ) (io : Printf) (fuel : ℕ)
    (ends : (cursor : ℕ) (w : lmdb.World) → EndsWith Any (walk lmdb fuel cursor w)) where
  open lmdb use {World}

  open_reader-Ends : (path : List ℕ) (w : World) → EndsWith Any (open_reader lmdb to_text path w)
  unfolding open_reader
  open_reader-Ends path w =
      let (rc, env, w₁) = lmdb.env_create w in
      let (rc₂, w₂) = lmdb.env_open env (until_nul path) true (lmdb.set_maxdbs env 64 w₁) in
      let (rc₃, txn, w₃) = lmdb.txn_begin env true w₂ in
      let (rc₄, main_dbi, w₄) = lmdb.dbi_open (some txn) none false w₃ in
      guard-EndsWith Any (ltb 0 rc) _ _ (
        guard-EndsWith Any (ltb 0 rc₂) _ _
          (guard-EndsWith Any (ltb 0 rc₃) _ _ (guard-EndsWith Any (ltb 0 rc₄) _ _ (returned _ tt))))

  read_all-Ends :
      (symbol : List ℕ) (r : LmdbReader World) → EndsWith Any (read_all lmdb fuel symbol r)
  unfolding read_all
  read_all-Ends symbol r =
      require-EndsWith Any _ _ _ (bind-EndsWith Any Any _ _ (ends _ _) (λ p h. returned _ tt))

  list_symbols-Ends : (r : LmdbReader World) → EndsWith Any (list_symbols lmdb fuel r)
  unfolding list_symbols
  list_symbols-Ends r =
      require-EndsWith Any _ _ _ (bind-EndsWith Any Any _ _ (ends _ _) (λ p h. returned _ tt))

  read_symbols-Ends :
      (Double : Type 0) (dump_n : ℤ) (symbols : List (List ℕ)) (r : LmdbReader World)
      → EndsWith Any (read_symbols {Double = Double} lmdb to_text io fuel dump_n symbols r)
  unfolding read_symbols
  read_symbols-Ends Double dump_n [] r = returned _ tt
  read_symbols-Ends Double dump_n (s ∷ symbols) r =
      bind-EndsWith Any Any _ _ (read_all-Ends s r) (λ p h.
        bind-EndsWith Any Any _ _ (read_symbols-Ends Double dump_n symbols p.1)
          (λ q h. returned _ tt))

  symbols_report-Ends :
      (Double : Type 0) (path : List ℕ) (dump_n : ℤ) (symbols : List (List ℕ))
      (r : LmdbReader World)
      → EndsWith Any (symbols_report {Double = Double} lmdb to_text io fuel path dump_n symbols r)
  unfolding symbols_report
  symbols_report-Ends Double path dump_n [] r = returned _ tt
  symbols_report-Ends Double path dump_n (s ∷ symbols) r =
      bind-EndsWith Any Any _ _ (read_symbols-Ends Double dump_n (s ∷ symbols) r)
        (λ q h. returned _ tt)

  read_store-Ends :
      (Double : Type 0) (path : List ℕ) (dump_n : ℤ) (w : World)
      → EndsWith
          (λ r. (r.0.exit_code ≡ 0) × (r.0.err ≡ []))
          (read_store {Double = Double} lmdb to_text io fuel path dump_n w)
  unfolding read_store
  read_store-Ends Double path dump_n w =
      bind-EndsWith Any (λ r. (r.0.exit_code ≡ 0) × (r.0.err ≡ [])) _ _
        (open_reader-Ends (store_path path) w)
        (λ r h.
          bind-EndsWith Any (λ r. (r.0.exit_code ≡ 0) × (r.0.err ≡ [])) _ _ (list_symbols-Ends r)
            (λ p h.
              bind-EndsWith Any (λ r. (r.0.exit_code ≡ 0) × (r.0.err ≡ [])) _ _
                (symbols_report-Ends Double path dump_n p.0 p.1) (λ q h. returned _ (refl, refl))))

  -- The reading of the store by `main`.
  abbrev reading : {Double : Type 0} → Options Double → World → Run (Ended Double × World)
  reading o w = read_store lmdb to_text io fuel o.read_path (adjusted o).0.dump_n w

  -- How `main` with `--read` ends: with the exit code 0, where the reading returns, and nothing more than
  -- the warning on `std::cerr`; or with 1, where the reading throws, and after the warning the text of
  -- the exception.
  pub data IsExit {Double : Type 0} (o : Options Double) (w : World) : Ended Double → Type 0 where
    read :
        (e : Ended Double) (r : Ended Double × World)
        → reading o w ≡ ok r
        → e.out ≡ r.0.out
        → e.err ≡ warning (adjusted o).1
        → e.exit_code ≡ 0
        → IsExit o w e
    failed :
        (e : Ended Double) (what : List ℕ)
        → reading o w ≡ throw what
        → e.err ≡ warning (adjusted o).1 ++ (literal "Error: " ∷ bytes what ∷ literal "\n" ∷ [])
        → e.exit_code ≡ 1
        → IsExit o w e

  -- Whatever the calls of LMDB return, if each walk of a cursor ends on the fuel: `main` with `--read`
  -- returns. If the reading returns, the exit code is 0, its output is printed, and `std::cerr` has at
  -- most the warning of LMDB with threads; if it throws, the exit code is 1, and `std::cerr` has after
  -- this warning "Error: ", the text of the exception and a line end.
  pub read_main-IsExit :
      (Double : Type 0) (o : Options Double) (w : World)
      → Returns (read_main lmdb to_text io fuel o w) (IsExit o w)
  unfolding read_main warned handled
  read_main-IsExit Double o w =
      elim (EndsWith-cases _ _ (read_store-Ends Double o.read_path (adjusted o).0.dump_n w)) [
        | inl (r, run, (code, quiet)) ↦ (
          record r.0 { err = warning (adjusted o).1 ++ r.0.err },
          rw run refl,
          read _ r run refl (ap (λ l. warning (adjusted o).1 ++ l) quiet ∙ append-nil _) code,
        )
        | inr (what, run) ↦
            let e : Ended Double = record {
              out = [];
              err = warning (adjusted o).1 ++ (literal "Error: " ∷ bytes what ∷ literal "\n" ∷ []);
              exit_code = 1;
            } in
            (e, rw run refl, failed e what run refl refl)
      ]
