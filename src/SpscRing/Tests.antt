-- ===== src/SpscRing/Tests.antt =====
-- tests/spsc_ring_test.cpp in small, and the theorems on a ring of four slots.
use native.Mathlib.Nat.{dvd-mul_right}
use pmr_market_simulator.Prelude.{
  ℕ, ◌+◌, ◌-◌, ◌%◌, ◌^◌, ◌≡◌, refl, true, false, none, some, List, [], ◌∷◌, arith, replicate,
  get_or-replicate,
}
use pmr_market_simulator.SpscRing.{SpscRing, clear}
use pmr_market_simulator.SpscRing.Queue.{IsCapacity, Holds}
use pmr_market_simulator.SpscRing.Threads.{
  Threads, push_granted, push_placed, push_published, pop_granted, granted, placed, idle, sees,
  start, Reachable, at_start, after,
}
use pmr_market_simulator.SpscRing.Fifo.{IsFifo, reachable-IsFifo}
use pmr_market_simulator.SpscRing.Session.{
  Call, push, pop, is_empty, is_full, answer, object, calls_ring, calls_queue,
  calls_ring-eq-calls_queue, clear-Holds,
}

four-IsCapacity : IsCapacity 4
four-IsCapacity = record {
  exponent = (2, refl);
  divides = dvd-mul_right 4 (2 ^ 62);
  at_least = omega arith;
  fits = omega arith;
}

-- A ring whose counters are about to wrap.
abbrev late : SpscRing ℕ
late = record { head = 2 ^ 64 - 2; tail = 2 ^ 64 - 2; buf = replicate 4 none }

late-Holds : Holds 4 late []
late-Holds = record {
  slots = refl;
  bounded = omega arith;
  tail = omega arith;
  head = omega arith;
  reads = λ j lt. get_or-replicate 4 ((2 ^ 64 - 2 + j) % 4) none;
}

abbrev calls : List (Call ℕ)
calls =
    push 1
    ∷ push 2
    ∷ push 3
    ∷ push 4
    ∷ is_full
    ∷ push 5
    ∷ pop
    ∷ push 6
    ∷ pop
    ∷ pop
    ∷ pop
    ∷ pop
    ∷ pop
    ∷ is_empty
    ∷ []

calls_answers :
    calls_ring 4 calls late
    ≡ answer true
      ∷ answer true
      ∷ answer true
      ∷ answer true
      ∷ answer true
      ∷ answer false
      ∷ object (some 1)
      ∷ answer true
      ∷ object (some 2)
      ∷ object (some 3)
      ∷ object (some 4)
      ∷ object (some 6)
      ∷ object none
      ∷ answer true
      ∷ []
unfolding calls_ring
calls_answers = refl

calls_ring-eq-calls_queue_example : calls_ring 4 calls late ≡ calls_queue 4 calls []
calls_ring-eq-calls_queue_example =
    calls_ring-eq-calls_queue 4 calls late [] four-IsCapacity late-Holds

clear-Holds_example : (r' : SpscRing ℕ) × (clear 4 late ≡ some r') × Holds 4 r' []
clear-Holds_example = clear-Holds 4 late [] four-IsCapacity late-Holds

-- One object is published, and the consumer is past its test.
abbrev asked : Threads ℕ
asked = record (start 4) { producer = granted 7 }

abbrev written : Threads ℕ
written = record asked {
  ring = record asked.ring { buf = some 7 ∷ replicate 3 none };
  producer = placed 7;
}

abbrev published : Threads ℕ
published = record written {
  ring = record written.ring { head = 1 };
  producer = idle;
  sent = 7 ∷ [];
}

abbrev seen : Threads ℕ
seen = record published { consumer = sees }

seen-Reachable : Reachable 4 seen
seen-Reachable =
    after published seen
      (after written published
        (after asked written
          (after (start 4) asked at_start (push_granted (start 4) 7 refl (λ e. omega arith)))
          (push_placed asked 7 refl))
        (push_published written 7 refl))
      (pop_granted published refl (λ e. omega arith))

reachable-IsFifo_example : IsFifo 4 seen
reachable-IsFifo_example = reachable-IsFifo 4 seen four-IsCapacity seen-Reachable
