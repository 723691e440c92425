-- ===== src/Prelude/Output.antt =====
-- What is put into `std::cout` and `std::cerr`, piece by piece.
use Prim.Native.String.{String}
use pmr_market_simulator.Prelude.{ℕ, List}
use pmr_market_simulator.Prelude.Int.{ℤ}

pub data Piece (Double : Type 0) : Type 0 where
  literal : String → Piece Double
  bytes : List ℕ → Piece Double
  number : ℕ → Piece Double
  integer : ℤ → Piece Double
  real : Double → Piece Double

abbrev pub Output : Type 0 → Type 0
Output Double = List (Piece Double)
