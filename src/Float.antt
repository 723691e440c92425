-- ===== src/Float.antt =====
-- The floating-point operations that the program uses: IEEE doubles and the C mathematics library
-- are parameters of the model.
use pmr_market_simulator.Prelude.{ℕ, Bool}
use pmr_market_simulator.Prelude.Int.{ℤ}

pub record Float : Type 1 where
  pub Double : Type 0
  pub add : Double → Double → Double
  pub sub : Double → Double → Double
  pub mul : Double → Double → Double
  pub div : Double → Double → Double
  -- `1.0 / x`
  pub reciprocal : Double → Double
  -- `x > 0.0`
  pub positive : Double → Bool
  -- `x < y`, `x == y`
  pub lt : Double → Double → Bool
  pub eq : Double → Double → Bool
  pub sqrt : Double → Double
  pub log : Double → Double
  pub sin : Double → Double
  -- `M_PI`
  pub pi : Double
  -- `double(t)` of an `int32_t`, and of a `uint64_t`
  pub of_int : ℤ → Double
  pub of_nat : ℕ → Double
  -- `std::llround`
  pub llround : Double → ℤ
  -- `static_cast<int>`, `static_cast<size_t>`
  pub to_int : Double → ℤ
  pub to_size : Double → ℕ
  -- the literal `m` times 10 to the power `-e`
  pub decimal : ℕ → ℕ → Double
  -- the bit pattern, and the double that has it
  pub bits : Double → ℕ
  pub of_bits : ℕ → Double
