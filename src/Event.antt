-- ===== src/Event.antt =====
-- include/msim/event.hpp: the event record and its byte format.
pub mod Bytes
pub mod RoundTrip
pub mod Text
mod Tests
use pmr_market_simulator.Prelude.{
  ℕ, zero, suc, ◌+◌, ◌*◌, ◌/◌, ◌%◌, ◌^◌, Option, none, some, List, [], ◌∷◌, ◌++◌, length, take,
  drop, get_or, ltb, if◌then◌else◌,
}
use pmr_market_simulator.Prelude.Int.{ℤ, to_u32, of_u32}

pub data EventType : Type 0 where
  order_add order_cancel trade : EventType

pub data Side : Type 0 where
  buy sell : Side

-- The values of the enumerations, whose underlying type is `uint8_t`.
abbrev pub type_code : EventType → ℕ
type_code order_add = 1
type_code order_cancel = 2
type_code trade = 3

abbrev pub side_code : Side → ℕ
side_code buy = 1
side_code sell = 2

-- `Event`. A symbol is its bytes, a price the bit pattern of the double. Any byte can be cast to an
-- enumeration whose underlying type is `uint8_t`, so `type` and `side` are bytes.
pub record Event : Type 0 where
  pub ts_ns : ℕ
  pub type : ℕ
  pub symbol : List ℕ
  pub price : ℕ
  pub qty : ℤ
  pub side : ℕ

-- The `n` bytes of a word in memory, lowest first, as on the supported (little-endian) machines.
unfoldable pub bytes_le : ℕ → ℕ → List ℕ
bytes_le zero x = []
bytes_le (suc n) x = (x % 256) ∷ bytes_le n (x / 256)

unfoldable pub word_le : List ℕ → ℕ
word_le [] = 0
word_le (b ∷ bs) = b + 256 * word_le bs

-- symbol length, symbol, ts_ns, type, price, qty, side
unfoldable pub serialized_size : Event → ℕ
serialized_size e = 2 + length e.symbol + 8 + 1 + 8 + 4 + 1

-- `sl` is a `uint16_t`; all the bytes of the symbol are written whatever it is.
unfoldable pub serialize : Event → List ℕ
unfolding bytes_le
serialize e =
    let sl = length e.symbol % 2 ^ 16 in
    (sl % 256)
    ∷ (sl / 256 % 256)
    ∷ (e.symbol
        ++ (bytes_le 8 e.ts_ns
            ++ (e.type ∷ (bytes_le 8 e.price ++ (bytes_le 4 (to_u32 e.qty) ++ (e.side ∷ []))))))

-- What stands behind the two length bytes; `data + off` is the rest of the list.
abbrev pub read_fields : ℕ → List ℕ → Event
read_fields sl at_symbol =
    let at_ts = drop sl at_symbol in
    let at_type = drop 8 at_ts in
    let at_price = drop 1 at_type in
    let at_qty = drop 8 at_price in
    let at_side = drop 4 at_qty in
    record {
      ts_ns = word_le (take 8 at_ts);
      type = get_or at_type 0 0;
      symbol = take sl at_symbol;
      price = word_le (take 8 at_price);
      qty = of_u32 (word_le (take 4 at_qty));
      side = get_or at_side 0 0;
    }

-- The list is `data[0..len)`; the number is `consumed`.
unfoldable pub deserialize : List ℕ → Option (Event × ℕ)
unfolding word_le
deserialize bytes =
    let sl = get_or bytes 0 0 + get_or bytes 1 0 * 256 in
    if ltb (length bytes) 2
    then none
    else if ltb (length bytes) (2 + sl + 8 + 1 + 8 + 4 + 1)
    then none
    else some (read_fields sl (drop 2 bytes), 2 + sl + 8 + 1 + 8 + 4 + 1)
