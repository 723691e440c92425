-- ===== src/Prelude/Texts.antt =====
-- `std::string` as its bytes.
use Prim.Native.Nat.{ℕ}
use Prim.Native.Char.{code}
use Prim.Native.String.{String}
use mathlib.Core.Path.{◌≡◌, refl}
use mathlib.Core.Logic.{◌↔◌}
use mathlib.Core.Bool.{Bool, true, false, ◌&&◌, ◌||◌}
use mathlib.Core.List.{List, [], ◌∷◌}
use native.Mathlib.Omega.{arith}
use pmr_market_simulator.Prelude.Tests.{◌==◌, if◌then◌else◌}

-- The bytes of a literal; every literal of the program is ASCII where it is compared.
abbrev pub text : String → List ℕ
text String.[] = []
text (String.◌∷◌ c s) = code c ∷ text s

-- The C string that `c_str` gives a function of C: it ends before the first NUL.
abbrev pub until_nul : List ℕ → List ℕ
until_nul [] = []
until_nul (c ∷ s) = let rest = until_nul s in if c == 0 then [] else c ∷ rest

-- `a == b`
abbrev pub eq_bytes : List ℕ → List ℕ → Bool
eq_bytes [] [] = true
eq_bytes [] (b ∷ t) = false
eq_bytes (a ∷ s) [] = false
eq_bytes (a ∷ s) (b ∷ t) = a == b && eq_bytes s t

-- `s` begins with `prefix`
abbrev pub begins_with : List ℕ → List ℕ → Bool
begins_with s [] = true
begins_with [] (p ∷ prefix) = false
begins_with (c ∷ s) (p ∷ prefix) = c == p && begins_with s prefix

-- `s.find(part) != std::string::npos`
abbrev pub occurs_in : List ℕ → List ℕ → Bool
occurs_in part [] = begins_with [] part
occurs_in part (c ∷ s) = let rest = occurs_in part s in begins_with (c ∷ s) part || rest

pub eq_bytes_iff : (s t : List ℕ) → (eq_bytes s t ≡ true) ↔ (s ≡ t)
eq_bytes_iff [] [] = ((λ e. refl), (λ e. refl))
eq_bytes_iff [] (b ∷ t) = ground arith
eq_bytes_iff (a ∷ s) [] = ground arith
eq_bytes_iff (a ∷ s) (b ∷ t) = ground (arith, eq_bytes_iff s t)
