-- ===== src/Grpc.antt =====
-- include/msim/grpc_storage.hpp, include/msim/event_convert.hpp and src/collector_server.cpp: events
-- sent in batches to a collector.
pub mod Batches
pub mod Convert
mod Tests
use pmr_market_simulator.Prelude.{
  ℕ, zero, suc, ◌+◌, ◌%◌, ◌^◌, Bool, true, false, Option, none, some, List, [], ◌∷◌, ◌++◌, length,
  leb, if◌then◌else◌,
}
use pmr_market_simulator.Prelude.Int.{ℤ}
use pmr_market_simulator.Prelude.Texts.{text}
use pmr_market_simulator.Prelude.Output.{literal, number, real, Output}
use pmr_market_simulator.Float.{Float}
use pmr_market_simulator.Event.{Event}

-- The message `msim.rpc.Event` of proto/market.proto. Its enumerations are open, so they are numbers.
pub record ProtoEvent : Type 0 where
  pub ts_ns : ℕ
  pub type : ℕ
  pub symbol : List ℕ
  pub price : ℕ
  pub qty : ℤ
  pub side : ℕ

unfoldable pub to_proto : Event → ProtoEvent
to_proto src = record {
  ts_ns = src.ts_ns;
  type = src.type;
  symbol = src.symbol;
  price = src.price;
  qty = src.qty;
  side = src.side;
}

-- The casts of the enumerations are to one byte.
unfoldable pub from_proto : ProtoEvent → Event
from_proto p = record {
  ts_ns = p.ts_ns;
  type = p.type % 256;
  symbol = p.symbol;
  price = p.price;
  qty = p.qty;
  side = p.side % 256;
}

abbrev pub batch_size : ℕ
batch_size = 512

-- The calls of a `ClientWriter`, a parameter, over the state of the stream: `Publish`, of which the
-- flag says whether it gives a writer; `Write`, whose flag is its answer; `WritesDone`, `TryCancel`
-- and `Finish`, whose flag is `ok()` of the status; and the count that the server acknowledged.
pub record Stream : Type 1 where
  pub State : Type 0
  pub publish : State → Bool × State
  pub write : List ProtoEvent → State → Bool × State
  pub writes_done : State → State
  pub try_cancel : State → State
  pub finish : State → Bool × State
  pub ack : State → ℕ

-- `GrpcStorage`: whether `writer_` is set, `batch_`, and the stream
pub record GrpcStorage (State : Type 0) : Type 0 where
  pub has_writer : Bool
  pub batch : List ProtoEvent
  pub stream : State

module _ (io : Stream) where
  open io use {State, publish, write, writes_done, try_cancel, finish, ack}

  abbrev pub connect : State → GrpcStorage State
  connect s = record { has_writer = false; batch = []; stream = s }

  unfoldable pub open_stream : GrpcStorage State → Bool × GrpcStorage State
  open_stream g =
      let (opened, s) = publish g.stream in (opened, record g { has_writer = opened; stream = s })

  unfoldable pub flush_batch : GrpcStorage State → Bool × GrpcStorage State
  flush_batch g = elim g.has_writer [
    | false ↦ (false, g)
    | true ↦ elim g.batch [
      | [] ↦ (false, g)
      | e ∷ batch ↦
          let (done, s) = write (e ∷ batch) g.stream in (done, record g { batch = []; stream = s })
    ]
  ]

  unfoldable pub write_event : Event → GrpcStorage State → Bool × GrpcStorage State
  unfolding to_proto flush_batch
  write_event ev g = elim g.has_writer [
    | false ↦ (false, g)
    | true ↦
        let g' = record g { batch = g.batch ++ (to_proto ev ∷ []) } in
        if leb batch_size (length g'.batch) then flush_batch g' else (true, g')
  ]

  -- `close`; the pause before the last batch has no effect here.
  unfoldable pub close_stream : GrpcStorage State → Bool × GrpcStorage State
  unfolding flush_batch
  close_stream g = elim g.has_writer [
    | false ↦ (false, g)
    | true ↦
        let g' = (flush_batch g).1 in
        let (done, s) = finish (try_cancel (writes_done g'.stream)) in
        (done, record g' { stream = s })
  ]

  unfoldable pub ack_count : GrpcStorage State → ℕ
  ack_count g = ack g.stream

-- The loop of `CollectorService::Publish` over the batches that `Read` gives, and the count that the
-- acknowledgement gets
unfoldable pub publish_count : ℕ → List (List ProtoEvent) → ℕ
publish_count count [] = count
publish_count count (batch ∷ batches) = publish_count ((count + length batch) % 2 ^ 64) batches

-- `Publish`: the line that is printed, and the count of the acknowledgement. `secs` is the time that
-- the clock measured.
unfoldable pub publish : (fp : Float) → fp.Double → List (List ProtoEvent) → Output fp.Double × ℕ
unfolding publish_count
publish fp secs batches =
    let count = publish_count 0 batches in
    (
      literal "Received "
          ∷ number count
          ∷ literal " events at "
          ∷ real (if fp.positive secs then fp.div (fp.of_nat count) secs else fp.decimal 0 0)
          ∷ literal " ev/s\n"
          ∷ [],
      count,
    )

-- The address of the collector's `main`, from the arguments after the program's name
abbrev pub listen_address : List (List ℕ) → List ℕ
listen_address [] = text "0.0.0.0:50051"
listen_address (addr ∷ rest) = addr
