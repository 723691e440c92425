-- ===== src/Event/Bytes.antt =====
-- Words as little-endian bytes.
use native.Mathlib.Nat.{pow-suc}
use pmr_market_simulator.Prelude.{
  ℕ, zero, suc, ◌+◌, ◌*◌, ◌/◌, ◌%◌, ◌^◌, ◌<◌, ◌≡◌, refl, ap, List, [], ◌∷◌, arith, length, All,
}
use pmr_market_simulator.Event.{bytes_le, word_le}

abbrev pub IsByte : ℕ → Type 0
IsByte b = b < 256

pub length-bytes_le : (n x : ℕ) → length (bytes_le n x) ≡ n
unfolding bytes_le
length-bytes_le zero x = refl
length-bytes_le (suc n) x = ap suc (length-bytes_le n (x / 256))

pub bytes_le-IsByte : (n x : ℕ) → All IsByte (bytes_le n x)
unfolding bytes_le
bytes_le-IsByte zero x = tt
bytes_le-IsByte (suc n) x = (omega arith, bytes_le-IsByte n (x / 256))

-- Every word of n bytes is read back.
pub word_le-bytes_le : (n x : ℕ) → x < 256 ^ n → word_le (bytes_le n x) ≡ x
unfolding bytes_le word_le
word_le-bytes_le zero x h = omega arith
word_le-bytes_le (suc n) x h =
    omega (arith, word_le-bytes_le n (x / 256) (omega (arith, pow-suc 256 n)))

-- Every list of bytes is the list of its word.
pub bytes_le-word_le : (bs : List ℕ) → All IsByte bs → bytes_le (length bs) (word_le bs) ≡ bs
unfolding bytes_le word_le
bytes_le-word_le [] h = refl
bytes_le-word_le (b ∷ bs) h =
    let low : (b + 256 * word_le bs) % 256 ≡ b = omega arith in
    let high : (b + 256 * word_le bs) / 256 ≡ word_le bs = omega arith in
    rw (low, high, bytes_le-word_le bs h.1)

pub word_le-lt : (bs : List ℕ) → All IsByte bs → word_le bs < 256 ^ length bs
unfolding word_le
word_le-lt [] h = omega arith
word_le-lt (b ∷ bs) h = omega (arith, word_le-lt bs h.1, pow-suc 256 (length bs))
