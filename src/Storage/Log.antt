-- ===== src/Storage/Log.antt =====
-- The binary log can be read back: a frame for each event, in the order in which they were written.
use pmr_market_simulator.Prelude.{
  ℕ, zero, suc, ◌+◌, ◌%◌, ◌^◌, ◌<◌, ◌≡◌, refl, sym, ap, ◌∙◌, Option, none, some, List, [], ◌∷◌,
  ◌++◌, arith, length, take, drop, take-append, drop-append, All, ◌/◌,
}
use mathlib.Core.List.{append-nil, append_assoc}
use mathlib.Core.Option
use pmr_market_simulator.Event.{Event, serialize, deserialize, serialized_size, bytes_le, word_le}
use pmr_market_simulator.Event.Bytes.{word_le-bytes_le}
use pmr_market_simulator.Event.RoundTrip.{IsEvent, deserialize-serialize, length-serialize}
use pmr_market_simulator.Storage.{BinaryLog, write_log}

-- The reference reader of a log: frames of four bytes of length and as many bytes of an event. The
-- fuel bounds the number of frames.
unfoldable pub read_log : ℕ → List ℕ → Option (List Event)
read_log zero bytes = none
read_log (suc fuel) [] = some []
read_log (suc fuel) (b ∷ bs) =
    let n = word_le (take 4 (b ∷ bs)) in
    let rest = read_log fuel (drop n (drop 4 (b ∷ bs))) in
    elim (deserialize (take n (drop 4 (b ∷ bs)))) [
      | none ↦ none
      | some (e, consumed) ↦ Option.map (λ es. e ∷ es) rest
    ]

-- The log after writes of the events, in order.
unfoldable pub write_all : List Event → BinaryLog → BinaryLog
write_all [] log = log
write_all (e ∷ es) log = write_all es (write_log e log)

-- One write.
abbrev frame : Event → List ℕ
frame e = bytes_le 4 (length (serialize e) % 2 ^ 32) ++ serialize e

frames : List Event → List ℕ
frames [] = []
frames (e ∷ es) = frame e ++ frames es

written-frames :
    (es : List Event) (log : BinaryLog) → (write_all es log).written ≡ log.written ++ frames es
unfolding write_all write_log frames
written-frames [] log = sym (append-nil log.written)
written-frames (e ∷ es) log =
    written-frames es (write_log e log) ∙ append_assoc log.written (frame e) (frames es)

-- Events that the format can hold.
abbrev pub IsWritable : Event → Type 0
IsWritable e = IsEvent e × (length e.symbol < 2 ^ 16)

read_event : Option (Event × ℕ) → Option (List Event) → Option (List Event)
read_event none rest = none
read_event (some (e, consumed)) rest = Option.map (λ es. e ∷ es) rest

read_bytes :
    (fuel b : ℕ) (bs : List ℕ)
    → read_log (suc fuel) (b ∷ bs)
      ≡ read_event
          (deserialize (take (word_le (take 4 (b ∷ bs))) (drop 4 (b ∷ bs))))
          (read_log fuel (drop (word_le (take 4 (b ∷ bs))) (drop 4 (b ∷ bs))))
unfolding read_log read_event
read_bytes fuel b bs = go (deserialize (take (word_le (take 4 (b ∷ bs))) (drop 4 (b ∷ bs))))
  where
    go :
        (o : Option (Event × ℕ))
        → elim o [
          | none ↦ none
          | some (e, consumed) ↦
              Option.map
                (λ es. e ∷ es)
                (read_log fuel (drop (word_le (take 4 (b ∷ bs))) (drop 4 (b ∷ bs))))
        ]
          ≡ read_event o (read_log fuel (drop (word_le (take 4 (b ∷ bs))) (drop 4 (b ∷ bs))))
    go none = refl
    go (some (e, consumed)) = refl

read_frame :
    (fuel : ℕ) (e : Event) (rest : List ℕ)
    → IsWritable e
    → read_log (suc fuel) (frame e ++ rest) ≡ Option.map (λ es. e ∷ es) (read_log fuel rest)
unfolding bytes_le read_event
read_frame fuel e rest (valid, short) =
    let s = serialize e in
    let n = length s % 2 ^ 32 in
    let size : n ≡ length s = unfold serialized_size in omega (arith, length-serialize e, short) in
    let whole : deserialize s ≡ some (e, serialized_size e) =
      ap deserialize (sym (append-nil s)) ∙ deserialize-serialize e [] valid short in
    let prefix : word_le (bytes_le 4 n) ≡ length s = word_le-bytes_le 4 n (omega arith) ∙ size in
    read_bytes fuel (n % 256)
      ((n / 256 % 256) ∷ (n / 256 / 256 % 256) ∷ (n / 256 / 256 / 256 % 256) ∷ (s ++ rest))
    ∙ rw (prefix, take-append s rest, drop-append s rest, whole) refl

read_frames :
    (es : List Event) → All IsWritable es → read_log (suc (length es)) (frames es) ≡ some es
unfolding read_log frames
read_frames [] h = refl
read_frames (e ∷ es) (h, hs) =
    read_frame (suc (length es)) e (frames es) h ∙ rw (read_frames es hs) refl

-- A log to which writable events were written is read back as these events, in their order.
pub read_log-write_all :
    (es : List Event)
    → All IsWritable es
    → read_log (length es + 1) (write_all es (record { written = []; flushed = 0 })).written
      ≡ some es
read_log-write_all es h =
    ap (read_log (length es + 1)) (written-frames es (record { written = []; flushed = 0 }))
    ∙ ap (λ (k : ℕ). read_log k (frames es)) (omega arith)
    ∙ read_frames es h
