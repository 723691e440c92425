-- ===== src/Grpc/Batches.antt =====
-- include/msim/grpc_storage.hpp: the batches that are written to the stream of the collector.
use mathlib.Core.List.{append-nil, append_assoc}
use pmr_market_simulator.Prelude.{
  ℕ, suc, ◌+◌, ◌%◌, ◌^◌, ◌<◌, ◌≡◌, refl, sym, ap, ◌∙◌, true, List, [], ◌∷◌, ◌++◌, arith, map,
  length, length-append, Bool, concat, concat-append, All, All-append, snoc-cons, leb, Bool-cases,
  inl, inr,
}
use pmr_market_simulator.Event.{Event}
use pmr_market_simulator.Grpc.{
  ProtoEvent, to_proto, from_proto, batch_size, Stream, GrpcStorage, connect, open_stream,
  flush_batch, write_event, close_stream, publish_count,
}
use pmr_market_simulator.Grpc.Convert.{HasBytes, map-from_proto}

-- `write_event` of the events, one after the other.
unfoldable pub send_all : (io : Stream) → List Event → GrpcStorage io.State → GrpcStorage io.State
send_all io [] g = g
send_all io (e ∷ es) g = send_all io es (write_event io e g).1

-- `Write` of the batches, one after the other.
unfoldable pub write_batches : (io : Stream) → List (List ProtoEvent) → io.State → io.State
write_batches io [] s = s
write_batches io (b ∷ bs) s = write_batches io bs (io.write b s).1

write_batches-snoc :
    (io : Stream) (bs : List (List ProtoEvent)) (b : List ProtoEvent) (s : io.State)
    → write_batches io (bs ++ (b ∷ [])) s ≡ (io.write b (write_batches io bs s)).1
unfolding write_batches
write_batches-snoc io [] b s = refl
write_batches-snoc io (x ∷ bs) b s = write_batches-snoc io bs b (io.write x s).1

abbrev pub IsFull : List ProtoEvent → Type 0
IsFull b = length b ≡ batch_size

-- Full batches, and perhaps a shorter one at the end, which is not empty.
pub data AreBatches : List (List ProtoEvent) → Type 0 where
  whole : (bs : List (List ProtoEvent)) → All IsFull bs → AreBatches bs
  and_rest :
      (bs : List (List ProtoEvent)) (b : List ProtoEvent)
      → All IsFull bs
      → 0 < length b
      → length b < batch_size
      → AreBatches (bs ++ (b ∷ []))

concat-snoc :
    (bs : List (List ProtoEvent)) (b : List ProtoEvent) → concat (bs ++ (b ∷ [])) ≡ concat bs ++ b
concat-snoc bs b = concat-append bs (b ∷ []) ∙ ap (λ l. concat bs ++ l) (append-nil b)

module _ (io : Stream) (start : io.State) where
  -- After writes of the events: the batches written and the one that is kept are these events.
  record Sent (ps : List ProtoEvent) (g : GrpcStorage io.State) : Type 0 where
    pub has_writer : g.has_writer ≡ true
    pub kept : length g.batch < batch_size
    pub written : List (List ProtoEvent)
    pub stream : g.stream ≡ write_batches io written start
    pub sent : concat written ++ g.batch ≡ ps
    pub full : All IsFull written

  flush_batch-cons :
      (g : GrpcStorage io.State) (p : ProtoEvent) (ps : List ProtoEvent)
      → g.has_writer ≡ true
      → g.batch ≡ p ∷ ps
      → (flush_batch io g).1
        ≡ record { has_writer = true; batch = []; stream = (io.write g.batch g.stream).1 }
  unfolding flush_batch
  flush_batch-cons g p ps has full =
      rw (flush_batch, has, full)
        (ap (λ b. record { has_writer = b; batch = []; stream = (io.write (p ∷ ps) g.stream).1 })
          has)

  -- The stream after one more batch.
  write-stream :
      (bs : List (List ProtoEvent)) (b : List ProtoEvent) (s : io.State)
      → s ≡ write_batches io bs start
      → (io.write b s).1 ≡ write_batches io (bs ++ (b ∷ [])) start
  write-stream bs b s e = ap (λ s. (io.write b s).1) e ∙ sym (write_batches-snoc io bs b start)

  write_event-Sent :
      (e : Event) (ps : List ProtoEvent) (g : GrpcStorage io.State)
      → Sent ps g
      → Sent (ps ++ (to_proto e ∷ [])) (write_event io e g).1
  unfolding write_event
  write_event-Sent e ps g h =
      let batch = g.batch ++ (to_proto e ∷ []) in
      let (p, rest, full) = snoc-cons g.batch (to_proto e) in
      let size : length batch ≡ length g.batch + 1 = length-append g.batch (to_proto e ∷ []) in
      let sent : concat h.written ++ batch ≡ ps ++ (to_proto e ∷ []) =
        sym (append_assoc (concat h.written) g.batch (to_proto e ∷ []))
        ∙ ap (λ l. l ++ (to_proto e ∷ [])) h.sent in
      elim (Bool-cases (leb batch_size (length batch))) [
        | inl flushes ↦
            let exact : length batch ≡ batch_size = ground (arith, flushes, size, h.kept) in
            rw
              (
                write_event,
                h.has_writer,
                flushes,
                flush_batch-cons (record g { batch = batch }) p rest h.has_writer full,
              )
              (record {
                has_writer = refl;
                kept = omega arith;
                written = h.written ++ (batch ∷ []);
                stream = write-stream h.written batch g.stream h.stream;
                sent = append-nil _ ∙ concat-snoc h.written batch ∙ sent;
                full = All-append IsFull h.written (batch ∷ []) h.full (exact, tt);
              })
        | inr keeps ↦
            rw (write_event, h.has_writer, keeps)
              (record {
                has_writer = h.has_writer;
                kept = ground (arith, keeps);
                written = h.written;
                stream = h.stream;
                sent = sent;
                full = h.full;
              })
      ]

  send_all-Sent :
      (es : List Event) (ps : List ProtoEvent) (g : GrpcStorage io.State)
      → Sent ps g
      → Sent (ps ++ map to_proto es) (send_all io es g)
  unfolding send_all
  send_all-Sent [] ps g h = rw (append-nil ps) h
  send_all-Sent (e ∷ es) ps g h = rw (sym (append_assoc ps (to_proto e ∷ []) (map to_proto es))) (
      send_all-Sent es (ps ++ (to_proto e ∷ [])) (write_event io e g).1 (write_event-Sent e ps g h))

  -- The stream after writes of batches that make up the messages.
  record Written (ps : List ProtoEvent) (s : io.State) : Type 0 where
    pub batches : List (List ProtoEvent)
    pub stream : s ≡ write_batches io batches start
    pub in_order : concat batches ≡ ps
    pub sizes : AreBatches batches

  flush_batch-Written :
      (ps : List ProtoEvent) (g : GrpcStorage io.State)
      → Sent ps g
      → Written ps (flush_batch io g).1.stream
  unfolding flush_batch
  flush_batch-Written ps g h = go g.batch refl
    where
      go : (batch : List ProtoEvent) → g.batch ≡ batch → Written ps (flush_batch io g).1.stream
      go [] none_kept =
          rw (flush_batch, h.has_writer, none_kept)
            (record {
              batches = h.written;
              stream = h.stream;
              in_order =
                  sym (append-nil (concat h.written))
                  ∙ ap (λ l. concat h.written ++ l) (sym none_kept)
                  ∙ h.sent;
              sizes = whole h.written h.full;
            })
      go (p ∷ rest) full =
          let positive : 0 < length g.batch = rw full (omega arith) in
          rw (flush_batch-cons g p rest h.has_writer full) (record {
            batches = h.written ++ (g.batch ∷ []);
            stream = write-stream h.written g.batch g.stream h.stream;
            in_order = concat-snoc h.written g.batch ∙ h.sent;
            sizes = and_rest h.written g.batch h.full positive h.kept;
          })

  -- `WritesDone`, `TryCancel` and `Finish` after the batches.
  abbrev pub ended : List (List ProtoEvent) → Bool × io.State
  ended bs = io.finish (io.try_cancel (io.writes_done (write_batches io bs start)))

  close_stream-ended :
      (ps : List ProtoEvent) (g : GrpcStorage io.State) (bs : List (List ProtoEvent))
      → g.has_writer ≡ true
      → (flush_batch io g).1.stream ≡ write_batches io bs start
      → ((close_stream io g).0 ≡ (ended bs).0) × ((close_stream io g).1.stream ≡ (ended bs).1)
  unfolding close_stream
  close_stream-ended ps g bs has same = rw (close_stream, has, same) (refl, refl)

publish_count-concat :
    (count : ℕ) (bs : List (List ProtoEvent))
    → count < 2 ^ 64
    → publish_count count bs ≡ (count + length (concat bs)) % 2 ^ 64
unfolding publish_count
publish_count-concat count [] small = omega (arith, small)
publish_count-concat count (b ∷ bs) small =
    publish_count-concat ((count + length b) % 2 ^ 64) bs (omega arith)
    ∙ omega (arith, length-append b (concat bs))

length-map : (es : List Event) → length (map to_proto es) ≡ length es
length-map [] = refl
length-map (e ∷ es) = ap suc (length-map es)

-- The batches are the events, and a collector that reads them all counts them.
pub record Batched (es : List Event) (bs : List (List ProtoEvent)) : Type 0 where
  pub in_order : map from_proto (concat bs) ≡ es
  pub sizes : AreBatches bs
  pub counted : publish_count 0 bs ≡ length es % 2 ^ 64

-- A session whose `open` succeeds, whatever the calls of the stream do: whatever events are written,
-- the calls on the stream up to the end of `close` are `Publish`, one `Write` for each of some
-- batches, then `WritesDone`, `TryCancel` and `Finish`, and `close` returns the flag of `Finish`. The
-- batches have 512 messages each but for the last, which may have fewer and is not empty; one after
-- the other and converted back they are the events in their order, and a collector that reads them all
-- counts the number of events modulo 2 ^ 64. The fields of the events that are enumerations are bytes.
pub close_stream-Batched :
    (io : Stream) (es : List Event) (s : io.State)
    → (open_stream io (connect io s)).0 ≡ true
    → All HasBytes es
    → (bs : List (List ProtoEvent)) × Batched es bs
      × ((close_stream io (send_all io es (open_stream io (connect io s)).1)).0
          ≡ (ended io (io.publish s).1 bs).0)
      × ((close_stream io (send_all io es (open_stream io (connect io s)).1)).1.stream
          ≡ (ended io (io.publish s).1 bs).1)
unfolding open_stream write_batches
close_stream-Batched io es s opened bytes =
    let start = (io.publish s).1 in
    let g = (open_stream io (connect io s)).1 in
    let fresh : Sent io start [] g = record {
      has_writer = opened;
      kept = omega arith;
      written = [];
      stream = refl;
      sent = refl;
      full = tt;
    } in
    let after = send_all-Sent io start es [] g fresh in
    let w = flush_batch-Written io start (map to_proto es) (send_all io es g) after in
    let (flag, stream) =
      close_stream-ended io start (map to_proto es) (send_all io es g) w.batches after.has_writer
        w.stream in
    (
      w.batches,
      record {
        in_order = ap (map from_proto) w.in_order ∙ map-from_proto es bytes;
        sizes = w.sizes;
        counted =
            publish_count-concat 0 _ (omega arith)
            ∙ ap (λ l. (0 + length l) % 2 ^ 64) w.in_order
            ∙ omega (arith, length-map es);
      },
      flag,
      stream,
    )
