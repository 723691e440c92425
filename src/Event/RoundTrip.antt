-- ===== src/Event/RoundTrip.antt =====
-- Reading back what was written, and writing back what was read.
use mathlib.Core.List.{append_assoc}
use pmr_market_simulator.Prelude.{
  ℕ, suc, ◌+◌, ◌*◌, ◌/◌, ◌%◌, ◌^◌, ◌<◌, ◌≤◌, ◌≡◌, ◌≢◌, refl, sym, ap, ◌∙◌, some, List, [], ◌∷◌,
  ◌++◌, arith, length, All, take, drop, get_or, length-append, take-append, drop-append, ltb, false,
  length-take, length-take-le, length-drop, take-add, take-one, All-take, All-drop,
}
use pmr_market_simulator.Prelude.Int.{
  IsInt32, to_u32, of_u32, to_u32-lt, of_u32-to_u32, to_u32-of_u32,
}
use pmr_market_simulator.Event.{
  Event, bytes_le, word_le, serialized_size, serialize, read_fields, deserialize,
}
use pmr_market_simulator.Event.Bytes.{IsByte, word_le-bytes_le, bytes_le-word_le, word_le-lt}

-- The fields hold values of their C++ types.
pub record IsEvent (e : Event) : Type 0 where
  pub ts_ns : e.ts_ns < 2 ^ 64
  pub type : IsByte e.type
  pub symbol : All IsByte e.symbol
  pub price : e.price < 2 ^ 64
  pub qty : IsInt32 e.qty
  pub side : IsByte e.side

-- The bytes behind the symbol.
abbrev tail_bytes : Event → List ℕ
tail_bytes e =
    bytes_le 8 e.ts_ns
    ++ (e.type ∷ (bytes_le 8 e.price ++ (bytes_le 4 (to_u32 e.qty) ++ (e.side ∷ []))))

length-tail_bytes : (e : Event) → length (tail_bytes e) ≡ 22
unfolding bytes_le
length-tail_bytes e = refl

-- `serialized_size` is the number of bytes that `serialize` writes.
pub length-serialize : (e : Event) → length (serialize e) ≡ serialized_size e
unfolding serialize serialized_size
length-serialize e = omega (arith, length-append e.symbol (tail_bytes e), length-tail_bytes e)

read_fields-tail :
    (e : Event) (rest : List ℕ)
    → IsEvent e
    → read_fields (length e.symbol) (e.symbol ++ (tail_bytes e ++ rest)) ≡ e
unfolding bytes_le
read_fields-tail e rest h =
    rw (take-append e.symbol (tail_bytes e ++ rest), drop-append e.symbol (tail_bytes e ++ rest))
      (λ i. record {
        ts_ns = word_le-bytes_le 8 e.ts_ns h.ts_ns i;
        type = e.type;
        symbol = e.symbol;
        price = word_le-bytes_le 8 e.price h.price i;
        qty =
            (ap of_u32 (word_le-bytes_le 4 (to_u32 e.qty) (to_u32-lt e.qty))
                ∙ of_u32-to_u32 e.qty h.qty)
              i;
        side = e.side;
      })

-- An event whose symbol has fewer than 65536 bytes is read back from its bytes, whatever follows
-- them, and exactly its bytes are consumed.
pub deserialize-serialize :
    (e : Event) (rest : List ℕ)
    → IsEvent e
    → length e.symbol < 2 ^ 16
    → deserialize (serialize e ++ rest) ≡ some (e, serialized_size e)
unfolding deserialize serialize serialized_size
deserialize-serialize e rest h short =
    let n = length e.symbol in
    let fields : read_fields n ((e.symbol ++ tail_bytes e) ++ rest) ≡ e =
      ap (read_fields n) (append_assoc e.symbol (tail_bytes e) rest) ∙ read_fields-tail e rest h in
    let sl : n % 2 ^ 16 % 256 + n % 2 ^ 16 / 256 % 256 * 256 ≡ n = omega arith in
    let total : length ((e.symbol ++ tail_bytes e) ++ rest) ≡ n + 22 + length rest = omega (
      arith,
      length-append (e.symbol ++ tail_bytes e) rest,
      length-append e.symbol (tail_bytes e),
      length-tail_bytes e,
    ) in
    let long : ltb (suc (suc (length ((e.symbol ++ tail_bytes e) ++ rest))))
          (2 + n + 8 + 1 + 8 + 4 + 1)
        ≡ false =
      ground arith in
    let least : ltb (suc (suc (length ((e.symbol ++ tail_bytes e) ++ rest)))) 2 ≡ false =
      ground arith in
    rw (sl, least, long, fields)

-- What is read consumes no more bytes than there are, and as many as the event read serializes to.
pub deserialize-consumed :
    (bytes : List ℕ) {e : Event} {n : ℕ}
    → deserialize bytes ≡ some (e, n)
    → (n ≤ length bytes) × (n ≡ serialized_size e)
unfolding deserialize serialized_size
deserialize-consumed bytes {e} {n} h =
    let sl = get_or bytes 0 0 + get_or bytes 1 0 * 256 in
    ground (arith, length-take sl (drop 2 bytes), length-drop 2 bytes)

-- The bytes of an event whose symbol has 65536 bytes or more are never read back as that event.
pub deserialize-serialize_long :
    (e : Event) (rest : List ℕ) (n : ℕ)
    → 2 ^ 16 ≤ length e.symbol
    → deserialize (serialize e ++ rest) ≢ some (e, n)
unfolding deserialize serialize
deserialize-serialize_long e rest n long h =
    let sl = length e.symbol % 2 ^ 16 % 256 + length e.symbol % 2 ^ 16 / 256 % 256 * 256 in
    let at_symbol = (e.symbol ++ tail_bytes e) ++ rest in
    let same : take sl at_symbol ≡ e.symbol = ground arith in
    omega (arith, length-take-le sl at_symbol, ap length same)

-- The bytes of a word read are the bytes it was read from.
reread :
    (n : ℕ) (xs : List ℕ)
    → All IsByte xs
    → n ≤ length xs
    → bytes_le n (word_le (take n xs)) ≡ take n xs
reread n xs h le =
    let e : length (take n xs) ≡ n = length-take n xs le in
    ap (λ k. bytes_le k (word_le (take n xs))) (sym e)
    ∙ bytes_le-word_le (take n xs) (All-take IsByte n xs h)

tail_bytes-read_fields :
    (sl : ℕ) (xs : List ℕ)
    → All IsByte xs
    → sl + 22 ≤ length xs
    → tail_bytes (read_fields sl xs) ≡ take 22 (drop sl xs)
tail_bytes-read_fields sl xs h le =
    let at_ts = drop sl xs in
    let at_type = drop 8 at_ts in
    let at_price = drop 1 at_type in
    let at_qty = drop 8 at_price in
    let at_side = drop 4 at_qty in
    let h1 = All-drop IsByte sl xs h in
    let h2 = All-drop IsByte 8 at_ts h1 in
    let h3 = All-drop IsByte 1 at_type h2 in
    let h4 = All-drop IsByte 8 at_price h3 in
    let l1 = length-drop sl xs in
    let l2 = length-drop 8 at_ts in
    let l3 = length-drop 1 at_type in
    let l4 = length-drop 8 at_price in
    let l5 = length-drop 4 at_qty in
    let qty : bytes_le 4 (to_u32 (of_u32 (word_le (take 4 at_qty)))) ≡ take 4 at_qty =
      ap (bytes_le 4) (
        to_u32-of_u32 _ (
          omega (
            arith,
            word_le-lt (take 4 at_qty) (All-take IsByte 4 at_qty h4),
            ap (λ (t : ℕ). 256 ^ t) (length-take 4 at_qty (omega arith)),
          )))
      ∙ reread 4 at_qty h4 (omega arith) in
    rw (
      reread 8 at_ts h1 (omega arith),
      reread 8 at_price h3 (omega arith),
      qty,
      take-add 8 14 at_ts,
      take-add 1 13 at_type,
      take-add 8 5 at_price,
      take-add 4 1 at_qty,
      take-one at_type 0 (omega arith),
      take-one at_side 0 (omega arith),
    )

-- Whatever bytes an event is read from, it serializes back to exactly the bytes consumed.
pub serialize-deserialize :
    (bytes : List ℕ) {e : Event} {n : ℕ}
    → All IsByte bytes
    → deserialize bytes ≡ some (e, n)
    → serialize e ≡ take n bytes
unfolding deserialize serialize
serialize-deserialize [] h eq = cc
serialize-deserialize (a ∷ []) h eq = cc
serialize-deserialize (a ∷ b ∷ xs) {e} {n} h eq =
    let sl = a + b * 256 in
    let le : sl + 22 ≤ length xs = ground arith in
    let same : read_fields sl xs ≡ e = ground arith in
    let total : n ≡ suc (suc (sl + 22)) = ground arith in
    let size : length (take sl xs) ≡ sl = length-take sl xs (omega arith) in
    let low : sl % 2 ^ 16 % 256 ≡ a = omega arith in
    let high : sl % 2 ^ 16 / 256 % 256 ≡ b = omega arith in
    rw (← same, total, size, low, high, tail_bytes-read_fields sl xs h.1.1 le, take-add sl 22 xs)
