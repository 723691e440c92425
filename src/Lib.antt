-- ===== src/Lib.antt =====
-- Verification library of the PMR market simulator.
--
-- The program simulates order flow for a set of symbols. A simulator draws random orders, applies
-- them to a limit order book per symbol, and sends events to a sink.
--
-- Which file models which part (paths from the repository's root):
--   FlatHash     include/msim/flat_hash.hpp: the flat hash map, one function for each method. The
--                array is a list of entries; the loops that probe it run on fuel of one lap.
--                A loop that is still running after a lap goes round for ever, which is `spin`;
--                `std::abort` is `abort`.
--   Event        include/msim/event.hpp: the event record, `serialize`, `deserialize` and, in Text,
--                `to_string` over a parameter for the conversions of printf. Bytes are
--                numbers, a price is the bit pattern of its double, words are little-endian.
--   OrderBook    include/msim/order_book.hpp and src/order_book.cpp: the order book, over the flat
--                hash maps. A `Level*` is an index into an explicit heap. The two mirrored branches
--                of `add_order` are one function of the side. The matching loop runs on fuel of
--                twice the number of levels and two, where one round for a level and two more are enough.
--   SpscRing     include/msim/spsc_ring.hpp: the ring buffer, on counters that wrap at 2 ^ 64. Session has
--                calls one after the other, Threads the steps of a producer and a consumer in any order.
--                `clear` runs on fuel of the capacity, one round for an object.
--   Rng          include/msim/rng.hpp: SplitMix64 and Xoroshiro128Plus on 64-bit words; Sample has the
--                samplers and include/msim/box_muller.hpp, whose loop runs on fuel, since how often
--                it rejects a point depends on the generator.
--   Simulator    src/simulator.cpp and include/msim/simulator.hpp. Config: SimConfig. Worker: one iteration of
--                `run` and of a thread of `run_mt`, one function for each branch, and the loop. Run:
--                the constructor, `emit_event`, `run` and its report. Partition and the parent: how `run_mt`
--                deals symbols, iterations, timestamps and order ids to its threads. Threads: the
--                contexts, the steps of the threads in any order as a relation, the report. A step is
--                what an iteration does to the thread's own context, or one write to the storage.
--                Affinity: `bind_to_core`.
--   Storage      include/msim/storage.hpp and src/storage.cpp: IStorage, the null storage, the binary log
--                and `make_storage`. Lmdb: src/lmdb_storage.cpp, with Laws (what LMDB documents of calls that
--                succeed), Reports (a failure that was reported stays so), Holds, Durable and
--                Recovery. Reader: src/lmdb_reader.cpp, whose loops
--                over a cursor run on fuel. Library: the calls of LMDB, a parameter.
--   Grpc         include/msim/grpc_storage.hpp, include/msim/event_convert.hpp and the loop of
--                src/collector_server.cpp, over a parameter for the stream.
--   Memory       include/msim/pmr_utils.hpp: the counting resource.
--   Main         src/main.cpp: the list of symbols and the loop over the arguments; Modes: what `main` does
--                after it.
--   Float        the operations on doubles that the program uses, as a parameter.
--   Prelude      shared names: tests on numbers, lists as vectors, signed integers, masks, runs, byte
--                strings, printed output.
--
-- How the parts interact: Main reads a configuration and makes the storage and the sink of Grpc. The
-- Simulator draws with Rng, changes a book of OrderBook, and sends an Event to both with `emit_event`. An
-- OrderBook keeps its levels and its index in maps of FlatHash. No part uses SpscRing.
--
-- The proofs on the order book, from the bottom up: Ticks (the active ticks and the best of them),
-- Sound (no two levels share a place), Levels and Create (levels leave and enter), Fill (matching in a
-- level), Round and Matching (one round), Sweep and Loop (the matching loop and its specification),
-- Rest and Add (`add_order`), Cancel (`cancel_order`), Spread (bids stay below asks), Start (the
-- constructor).
--
-- Not modelled: the formatting of numbers by the C++ library (the output is a list of its pieces), the
-- clocks (parameters; in Threads each iteration may read any time), the sink of `--grpc` with several
-- threads, which write to it without a lock, `safe_log` and `safe_err` (unused), `bind_to_core` on Windows, the main function of
-- the collector. The calls of `run_mt` by `main` are the relation of Simulator/Threads, not a function.
-- LMDB (lmdb/) is a copy of another project's library. Quantities are natural numbers, since a
-- non-positive `int` is treated like 0. Memory is never exhausted, so the arenas have no effect on
-- results. Exceptions leave out the destructors that run on the way.
pub mod Prelude
pub mod FlatHash
pub mod Event
pub mod Float
pub mod OrderBook
pub mod SpscRing
pub mod Rng
pub mod Simulator
pub mod Storage
pub mod Grpc
pub mod Memory
pub mod Main
