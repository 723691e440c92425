-- ===== src/FlatHash/Keys.antt =====
-- The two key types of the order book: `int32_t` ticks and `uint64_t` order ids.
use pmr_market_simulator.Prelude.{ℕ, ◌==◌, ==_iff}
use pmr_market_simulator.Prelude.Int.{ℤ, eqbℤ, eqbℤ_iff, to_u32}
use pmr_market_simulator.FlatHash.{Key, hash32, hash64}

instance abbrev pub tick_key : Key ℤ
tick_key = record { beq = eqbℤ; beq_iff = eqbℤ_iff; hash = λ t. hash32 (to_u32 t) }

instance abbrev pub id_key : Key ℕ
id_key = record { beq = ◌==◌; beq_iff = ==_iff; hash = hash64 }
