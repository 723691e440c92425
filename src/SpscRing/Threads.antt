-- ===== src/SpscRing/Threads.antt =====
-- The producer and the consumer of the ring as two threads: every load and store of a counter, and
-- every access of a slot, is a step, and the steps of the two come in any order. The order is total,
-- as the release stores and acquire loads of the counters let the threads see it; each thread alone
-- writes its own counter, so the two loads of a call are one step, at the load of the other's counter.
use pmr_market_simulator.Prelude.{ℕ, ◌≡◌, ◌≢◌, Option, none, some, List, [], ◌∷◌, ◌++◌, get_or, set}
use pmr_market_simulator.SpscRing.{SpscRing, sub_size, next_size, slot_at}
use pmr_market_simulator.SpscRing.Session.{blank}

-- Where the producer stands in `emplace_impl`: outside, past the test, with the object constructed.
pub data Producer {ℓ} (T : Type ℓ) : Type ℓ where
  idle : Producer T
  granted : T → Producer T
  placed : T → Producer T

-- Where the consumer stands in `try_pop`: outside, past the test, with the object moved out and
-- destroyed. What it moved is `none` if the slot had no object.
pub data Consumer {ℓ} (T : Type ℓ) : Type ℓ where
  waiting : Consumer T
  sees : Consumer T
  took : Option T → Consumer T

-- The ring and the threads, with what was published and what was received.
pub record Threads {ℓ} (T : Type ℓ) : Type ℓ where
  pub ring : SpscRing T
  pub producer : Producer T
  pub consumer : Consumer T
  pub sent : List T
  pub received : List (Option T)

module _ {ℓ} {T : Type ℓ} (cap : ℕ) where
  pub data Step : Threads T → Threads T → Type ℓ where
    push_refused :
        (s : Threads T) → s.producer ≡ idle → sub_size s.ring.head s.ring.tail ≡ cap → Step s s
    push_granted :
        (s : Threads T) (v : T)
        → s.producer ≡ idle
        → sub_size s.ring.head s.ring.tail ≢ cap
        → Step s (record s { producer = granted v })
    push_placed :
        (s : Threads T) (v : T)
        → s.producer ≡ granted v
        → Step s (record s {
          ring = record s.ring { buf = set s.ring.buf (slot_at cap s.ring.head) (some v) };
          producer = placed v;
        })
    push_published :
        (s : Threads T) (v : T)
        → s.producer ≡ placed v
        → Step s (record s {
          ring = record s.ring { head = next_size s.ring.head };
          producer = idle;
          sent = s.sent ++ (v ∷ []);
        })
    pop_refused : (s : Threads T) → s.consumer ≡ waiting → s.ring.tail ≡ s.ring.head → Step s s
    pop_granted :
        (s : Threads T)
        → s.consumer ≡ waiting
        → s.ring.tail ≢ s.ring.head
        → Step s (record s { consumer = sees })
    pop_taken :
        (s : Threads T)
        → s.consumer ≡ sees
        → Step s (record s {
          ring = record s.ring { buf = set s.ring.buf (slot_at cap s.ring.tail) none };
          consumer = took (get_or s.ring.buf (slot_at cap s.ring.tail) none);
        })
    pop_released :
        (s : Threads T) (o : Option T)
        → s.consumer ≡ took o
        → Step s (record s {
          ring = record s.ring { tail = next_size s.ring.tail };
          consumer = waiting;
          received = s.received ++ (o ∷ []);
        })

  abbrev pub start : Threads T
  start = record { ring = blank cap; producer = idle; consumer = waiting; sent = []; received = [] }

  -- The states that some sequence of steps leads to.
  pub data Reachable : Threads T → Type ℓ where
    at_start : Reachable start
    after : (s s' : Threads T) → Reachable s → Step s s' → Reachable s'
