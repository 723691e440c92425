-- ===== src/Rng.antt =====
-- include/msim/rng.hpp: the generators, on 64-bit words.
pub mod Sample
mod Tests
use Prim.Native.Nat.{bit_or, bit_xor}
use pmr_market_simulator.Prelude.{ℕ, ◌+◌, ◌-◌, ◌*◌, ◌/◌, ◌%◌, ◌^◌}

abbrev pub word : ℕ → ℕ
word x = x % 2 ^ 64

-- `SplitMix64::next`: the result and the new state
unfoldable pub splitmix_next : ℕ → ℕ × ℕ
splitmix_next x =
    let x' = word (x + 0x9E3779B97F4A7C15) in
    let z = word (bit_xor x' (x' / 2 ^ 30) * 0xBF58476D1CE4E5B9) in
    let z' = word (bit_xor z (z / 2 ^ 27) * 0x94D049BB133111EB) in (bit_xor z' (z' / 2 ^ 31), x')

-- `Xoroshiro128Plus`
pub record Xoroshiro : Type 0 where
  pub s0 : ℕ
  pub s1 : ℕ

-- The constructor
unfoldable pub seeded : ℕ → Xoroshiro
unfolding splitmix_next
seeded seed =
    let (a, x) = splitmix_next seed in let (b, x') = splitmix_next x in record { s0 = a; s1 = b }

abbrev pub rotl : ℕ → ℕ → ℕ
rotl x k = bit_or (word (x * 2 ^ k)) (x / 2 ^ (64 - k))

unfoldable pub next_u64 : Xoroshiro → ℕ × Xoroshiro
next_u64 g =
    let r = word (g.s0 + g.s1) in
    let s1 = bit_xor g.s1 g.s0 in
    let s0 = bit_xor (bit_xor (rotl g.s0 55) s1) (word (s1 * 2 ^ 14)) in
    (r, record { s0 = s0; s1 = rotl s1 36 })
