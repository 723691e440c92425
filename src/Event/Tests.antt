-- ===== src/Event/Tests.antt =====
-- The byte format at concrete events.
use pmr_market_simulator.Prelude.{
  ℕ, ◌+◌, ◌^◌, ◌≤◌, ◌≡◌, ◌≢◌, refl, none, some, List, [], ◌∷◌, ◌++◌, arith, length, take, replicate,
  length-replicate,
}
use pmr_market_simulator.Prelude.Int.{negsuc}
use pmr_market_simulator.Event.{
  Event, serialize, deserialize, serialized_size, type_code, side_code, trade, sell,
}
use pmr_market_simulator.Event.RoundTrip.{
  IsEvent, deserialize-serialize, deserialize-serialize_long, deserialize-consumed,
  serialize-deserialize, length-serialize,
}

abbrev sample : Event
sample = record {
  ts_ns = 2 ^ 48 + 5;
  type = type_code trade;
  symbol = b'A' ∷ b'B' ∷ [];
  price = 0x4059_0000_0000_0000;
  qty = negsuc 2;
  side = side_code sell;
}

sample-IsEvent : IsEvent sample
sample-IsEvent = omega arith

abbrev sample_bytes : List ℕ
sample_bytes =
    2 ∷ 0 ∷ b'A' ∷ b'B' ∷ 5 ∷ 0 ∷ 0 ∷ 0 ∷ 0 ∷ 0 ∷ 1 ∷ 0 ∷ 3 ∷ 0 ∷ 0 ∷ 0 ∷ 0 ∷ 0 ∷ 0 ∷ 0x59 ∷ 0x40
    ∷ 253 ∷ 255 ∷ 255 ∷ 255 ∷ 2 ∷ []

sample_serialized : serialize sample ≡ sample_bytes
unfolding serialize
sample_serialized = refl

sample_deserialized : deserialize sample_bytes ≡ some (sample, 26)
unfolding deserialize
sample_deserialized = refl

sample_truncated : deserialize (take 25 sample_bytes) ≡ none
unfolding deserialize
sample_truncated = refl

deserialize-serialize_example :
    deserialize (serialize sample ++ (1 ∷ [])) ≡ some (sample, serialized_size sample)
deserialize-serialize_example = deserialize-serialize sample (1 ∷ []) sample-IsEvent (omega arith)

serialize-deserialize_example : serialize sample ≡ take 26 sample_bytes
serialize-deserialize_example = serialize-deserialize sample_bytes (omega arith) sample_deserialized

deserialize-consumed_example : (26 ≤ length sample_bytes) × (26 ≡ serialized_size sample)
deserialize-consumed_example = deserialize-consumed sample_bytes sample_deserialized

abbrev long_event : Event
long_event = record sample { symbol = replicate (2 ^ 16) b'A' }

deserialize-serialize_long_example :
    deserialize (serialize long_event ++ []) ≢ some (long_event, 26)
deserialize-serialize_long_example =
    deserialize-serialize_long long_event [] 26
      (omega (arith, length-replicate {A = ℕ} (2 ^ 16) b'A'))

length-serialize_example : length (serialize sample) ≡ serialized_size sample
length-serialize_example = length-serialize sample
