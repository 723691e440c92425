-- ===== src/Prelude/Mask.antt =====
-- `x & (2^k - 1)` is `x % 2^k`, for every k.
use Prim.Native.Nat.{
  ℕ, zero, suc, ◌+◌, ◌*◌, ◌/◌, ◌%◌, ◌^◌, ◌≤◌, ◌<◌, min, bit_and, digits, bit_and-bitwise,
}
use mathlib.Core.Path.{◌≡◌, sym, ap, ◌∙◌}
use native.Mathlib.Nat.{pow-suc}
use native.Mathlib.Omega.{arith}

pub pow_pos : (k : ℕ) → 0 < 2 ^ k
pow_pos zero = omega arith
pow_pos (suc k) = omega (arith, pow-suc 2 k, pow_pos k)

-- One more digit below.
mod-double : (y b p : ℕ) → 0 < p → b < 2 → (y * 2 + b) % (p * 2) ≡ y % p * 2 + b
mod-double y b p hp hb = grind arith

mod-pow-suc : (k x : ℕ) → x % 2 ^ suc k ≡ x / 2 % 2 ^ k * 2 + x % 2
mod-pow-suc k x =
    let whole : x / 2 * 2 + x % 2 ≡ x = omega arith in
    ap (λ (t : ℕ). x % t) (pow-suc 2 k)
    ∙ ap (λ (t : ℕ). t % (2 ^ k * 2)) (sym whole)
    ∙ mod-double (x / 2) (x % 2) (2 ^ k) (pow_pos k) (omega arith)

-- The digits of a number against those of a mask, on any fuel that the number does not exceed.
masked_digits :
    (fuel k x m : ℕ) → x ≤ fuel → m + 1 ≡ 2 ^ k → digits (λ b. zero) min fuel x m ≡ x % 2 ^ k
masked_digits zero k zero m h e = omega (arith, pow_pos k)
masked_digits (suc fuel) k zero m h e = omega (arith, pow_pos k)
masked_digits zero k (suc x) m h e = absurd (omega arith)
masked_digits (suc fuel) zero (suc x) m h e =
    omega (arith, masked_digits fuel 0 (suc x / 2) (m / 2) (omega arith) (omega arith))
masked_digits (suc fuel) (suc k) (suc x) m h e = omega (
  arith,
  pow-suc 2 k,
  mod-pow-suc k (suc x),
  masked_digits fuel k (suc x / 2) (m / 2) (omega arith) (omega (arith, pow-suc 2 k)),
)

pub mask-eq-mod : (k x m : ℕ) → m + 1 ≡ 2 ^ k → bit_and x m ≡ x % 2 ^ k
mask-eq-mod k x m h = bit_and-bitwise x m ∙ masked_digits x k x m (omega arith) h
