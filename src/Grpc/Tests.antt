-- ===== src/Grpc/Tests.antt =====
-- The export of events over a stream that keeps the batches.
use pmr_market_simulator.Prelude.{◌≡◌, refl, true, List, [], ◌∷◌, ◌++◌, arith, All}
use pmr_market_simulator.Prelude.Int.{pos}
use pmr_market_simulator.Event.{Event}
use pmr_market_simulator.Grpc.{ProtoEvent, Stream, connect, open_stream, close_stream}
use pmr_market_simulator.Grpc.Convert.{HasBytes}
use pmr_market_simulator.Grpc.Batches.{send_all, write_batches, Batched, close_stream-Batched}

abbrev kept_stream : Stream
kept_stream = record {
  State = List (List ProtoEvent);
  publish = λ s. (true, s);
  write = λ b s. (true, s ++ (b ∷ []));
  writes_done = λ s. s;
  try_cancel = λ s. s;
  finish = λ s. (true, s);
  ack = λ s. 0;
}

abbrev event : Event
event = record { ts_ns = 7; type = 1; symbol = 65 ∷ []; price = 0; qty = pos 3; side = 2 }

events-HasBytes : All HasBytes (event ∷ event ∷ [])
events-HasBytes = (
  record { type = omega arith; side = omega arith },
  (record { type = omega arith; side = omega arith }, tt),
)

close_stream-Batched_example :
    (bs : List (List ProtoEvent)) × Batched (event ∷ event ∷ []) bs
    × ((close_stream kept_stream (
          send_all kept_stream
            (event ∷ event ∷ [])
            (open_stream kept_stream (connect kept_stream [])).1)).0
        ≡ true)
    × ((close_stream kept_stream (
          send_all kept_stream
            (event ∷ event ∷ [])
            (open_stream kept_stream (connect kept_stream [])).1)).1.stream
        ≡ write_batches kept_stream bs [])
close_stream-Batched_example =
    close_stream-Batched kept_stream (event ∷ event ∷ []) [] (unfold open_stream in refl)
      events-HasBytes
