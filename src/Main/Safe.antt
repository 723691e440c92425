-- ===== src/Main/Safe.antt =====
-- src/main.cpp with src/storage.cpp: several threads are never given the LMDB storage.
use pmr_market_simulator.Prelude.{
  ℕ, zero, suc, ◌-◌, ◌≡◌, ◌≢◌, refl, sym, ap, ◌∙◌, Bool, true, false, List, [], ◌∷◌, ◌++◌, arith,
  length, drop, leb, ◌&&◌, ◌||◌, if◌then◌else◌, Bool-cases, inl, inr,
}
use pmr_market_simulator.Prelude.Int.{pos, ltbℤ}
use pmr_market_simulator.Prelude.Texts.{text, eq_bytes, eq_bytes_iff, begins_with, occurs_in}
use pmr_market_simulator.Simulator.Config.{SimConfig}
use pmr_market_simulator.Storage.{null_kind, lmdb_kind, binary_kind, make_storage}
use pmr_market_simulator.Main.{Options}
use pmr_market_simulator.Main.Modes.{without_lmdb, adjusted}

begins_with-append : (s p q : List ℕ) → begins_with s (p ++ q) ≡ true → begins_with s p ≡ true
begins_with-append s [] q h = refl
begins_with-append [] (c ∷ p) q h = h
begins_with-append (d ∷ s) (c ∷ p) q h = ground (arith, begins_with-append s p q, h)

occurs_in-append : (s p q : List ℕ) → occurs_in (p ++ q) s ≡ true → occurs_in p s ≡ true
occurs_in-append [] p q h = begins_with-append [] p q h
occurs_in-append (c ∷ s) p q h =
    ground (arith, begins_with-append (c ∷ s) p q, occurs_in-append s p q, h)

begins_with_refl : (s : List ℕ) → begins_with s s ≡ true
begins_with_refl [] = refl
begins_with_refl (c ∷ s) = ground (arith, begins_with_refl s)

-- A text that begins a string occurs in it.
occurs_in-begin : (s p : List ℕ) → begins_with s p ≡ true → occurs_in p s ≡ true
occurs_in-begin [] p h = h
occurs_in-begin (c ∷ s) p h = ground (arith, h)

-- A text that ends a string occurs in it.
occurs_in-drop : (n : ℕ) (s p : List ℕ) → eq_bytes (drop n s) p ≡ true → occurs_in p s ≡ true
occurs_in-drop zero s p h =
    let same : s ≡ p = (eq_bytes_iff s p).0 h in
    occurs_in-begin s p (ap (begins_with s) (sym same) ∙ begins_with_refl s)
occurs_in-drop (suc n) [] p h =
    let same : [] ≡ p = (eq_bytes_iff [] p).0 h in ap (begins_with []) (sym same)
occurs_in-drop (suc n) (c ∷ s) p h = ground (arith, occurs_in-drop n s p h)

-- The two tests of `make_storage`.
tests-occurs :
    (path : List ℕ) (ext long : Bool)
    → (ext ≡ true → eq_bytes (drop (length path - 4) path) (text ".mdb") ≡ true)
    → (long ≡ true → occurs_in (text ".mdb/") path ≡ true)
    → (ext || long) ≡ true
    → occurs_in (text ".mdb") path ≡ true
tests-occurs path true long at_end within h =
    occurs_in-drop (length path - 4) path (text ".mdb") (at_end refl)
tests-occurs path false true at_end within h =
    occurs_in-append path (text ".mdb") (text "/") (within refl)
tests-occurs path false false at_end within h = absurd (let bad : false ≡ true = h in cc)

chosen : (b : Bool) → (if b then lmdb_kind else binary_kind) ≡ lmdb_kind → b ≡ true
chosen true h = refl
chosen false h = absurd (let bad : binary_kind ≡ lmdb_kind = h in cc)

second : (a b : Bool) → (a && b) ≡ true → b ≡ true
second true b h = h
second false b h = absurd (let bad : false ≡ true = h in cc)

-- A path for which `make_storage` takes LMDB has the text for which `main` looks.
make_storage-occurs :
    (path : List ℕ) → make_storage path ≡ lmdb_kind → occurs_in (text ".mdb") path ≡ true
unfolding make_storage
make_storage-occurs [] h = absurd (let bad : null_kind ≡ lmdb_kind = h in cc)
make_storage-occurs (c ∷ rest) h =
    let path = c ∷ rest in
    tests-occurs path _ _ (second (leb 4 (length path)) _) (λ e. e) (chosen _ h)

without_lmdb-safe :
    {Double : Type 0} (cfg : SimConfig Double)
    → ltbℤ (pos 1) cfg.num_threads ≡ true
    → make_storage (without_lmdb cfg).0.log_path ≢ lmdb_kind
unfolding without_lmdb make_storage
without_lmdb-safe cfg several = elim (Bool-cases (occurs_in (text ".mdb") cfg.log_path)) [
  | inl found ↦ rw (without_lmdb, several, found) (λ h. (let bad : null_kind ≡ lmdb_kind = h in cc))
  | inr absent ↦
      rw (without_lmdb, several, absent)
        (λ h. (let bad : false ≡ true = sym absent ∙ make_storage-occurs cfg.log_path h in cc))
]

-- With more than one thread the log path that `main` leaves never makes `make_storage` take LMDB.
pub make_storage-adjusted :
    {Double : Type 0} (o : Options Double)
    → ltbℤ (pos 1) o.cfg.num_threads ≡ true
    → make_storage (adjusted o).0.log_path ≢ lmdb_kind
unfolding adjusted
make_storage-adjusted o several = elim (Bool-cases o.no_log) [
  | inl off ↦ rw (adjusted, off) (without_lmdb-safe (record o.cfg { log_path = [] }) several)
  | inr on ↦ rw (adjusted, on) (without_lmdb-safe o.cfg several)
]
