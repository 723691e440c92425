-- ===== src/SpscRing/Session.antt =====
-- Calls of the ring, one after the other, against a bounded queue.
use pmr_market_simulator.Prelude.{
  ℕ, zero, suc, ◌+◌, ◌%◌, ◌≤◌, ◌≡◌, refl, ap, ◌∙◌, Bool, true, false, Option, none, some, List, [],
  ◌∷◌, ◌++◌, arith, length, set, replicate, length-replicate, get_or-replicate, ◌==◌, if◌then◌else◌,
  Bool-cases, inl, inr,
}
use mathlib.Core.Path.{subst}
use pmr_market_simulator.SpscRing.{
  SpscRing, next_size, slot_at, try_push, try_pop, clear_loop, clear, empty, full,
}
use pmr_market_simulator.SpscRing.Queue.{
  IsCapacity, Holds, sub_size-Holds, empty-Holds, Holds-push, Holds-pop,
}

-- A call, and what it returns.
pub data Call {ℓ} (T : Type ℓ) : Type ℓ where
  push : T → Call T
  pop : Call T
  is_empty : Call T
  is_full : Call T

pub data Answer {ℓ} (T : Type ℓ) : Type ℓ where
  answer : Bool → Answer T
  object : Option T → Answer T

module _ {ℓ} {T : Type ℓ} (cap : ℕ) where
  -- The methods of the ring
  unfoldable pub call_ring : Call T → SpscRing T → Answer T × SpscRing T
  unfolding try_push try_pop empty full
  call_ring (push v) r = (let (b, r') = try_push cap v r in (answer b, r'))
  call_ring pop r = (let (o, r') = try_pop cap r in (object o, r'))
  call_ring is_empty r = (answer (empty cap r), r)
  call_ring is_full r = (answer (full cap r), r)

  -- The specification: a queue of at most `cap` objects
  unfoldable pub call_queue : Call T → List T → Answer T × List T
  call_queue (push v) xs =
      if length xs == cap then (answer false, xs) else (answer true, xs ++ (v ∷ []))
  call_queue pop [] = (object none, [])
  call_queue pop (x ∷ xs) = (object (some x), xs)
  call_queue is_empty xs = (answer (length xs == 0), xs)
  call_queue is_full xs = (answer (length xs == cap), xs)

  unfoldable pub calls_ring : List (Call T) → SpscRing T → List (Answer T)
  unfolding call_ring
  calls_ring [] r = []
  calls_ring (c ∷ cs) r = (let (a, r') = call_ring c r in a ∷ calls_ring cs r')

  unfoldable pub calls_queue : List (Call T) → List T → List (Answer T)
  unfolding call_queue
  calls_queue [] xs = []
  calls_queue (c ∷ cs) xs = (let (a, xs') = call_queue c xs in a ∷ calls_queue cs xs')

  -- A call on a ring that holds a queue answers as the call on the queue, and leaves a ring that
  -- holds the queue that is left.
  pub call_ring-Holds :
      (c : Call T) (r : SpscRing T) (xs : List T)
      → IsCapacity cap
      → Holds cap r xs
      → ((call_ring c r).0 ≡ (call_queue c xs).0) × Holds cap (call_ring c r).1 (call_queue c xs).1
  unfolding call_ring call_queue try_push try_pop empty full
  call_ring-Holds (push v) r xs is h = elim (Bool-cases (length xs == cap)) [
    | inl no_room ↦ rw (sub_size-Holds cap r xs is h, no_room) (refl, h)
    | inr room ↦
        rw (sub_size-Holds cap r xs is h, room)
          (refl, Holds-push cap v r xs is h (ground (arith, h.bounded, room)))
  ]
  call_ring-Holds pop r [] is h = rw (empty-Holds cap r [] is h) (refl, h)
  call_ring-Holds pop r (x ∷ xs) is h =
      let (reads, left) = Holds-pop cap r x xs is h in
      let some_object : (r.tail == r.head) ≡ false =
        empty-Holds cap r (x ∷ xs) is h ∙ ground arith in
      rw (some_object, reads) (refl, left)
  call_ring-Holds is_empty r xs is h = (ap answer (empty-Holds cap r xs is h), h)
  call_ring-Holds is_full r xs is h =
      (ap (λ (n : ℕ). answer (n == cap)) (sub_size-Holds cap r xs is h), h)

  -- For a capacity as the assertions want it: any sequence of calls on a ring that holds a queue gets
  -- the answers that a queue of at most `cap` objects gives, also when the counters wrap.
  pub calls_ring-eq-calls_queue :
      (cs : List (Call T)) (r : SpscRing T) (xs : List T)
      → IsCapacity cap
      → Holds cap r xs
      → calls_ring cs r ≡ calls_queue cs xs
  unfolding calls_ring calls_queue
  calls_ring-eq-calls_queue [] r xs is h = refl
  calls_ring-eq-calls_queue (c ∷ cs) r xs is h =
      let (same, h') = call_ring-Holds c r xs is h in
      rw (same, calls_ring-eq-calls_queue cs (call_ring c r).1 (call_queue c xs).1 is h') refl

  -- The constructed ring: counters at 0, no objects.
  abbrev pub blank : SpscRing T
  blank = record { head = 0; tail = 0; buf = replicate cap none }

  pub blank-Holds : IsCapacity cap → Holds cap blank []
  blank-Holds is = record {
    slots = length-replicate cap none;
    bounded = omega arith;
    tail = omega arith;
    head = omega arith;
    reads = λ j lt. get_or-replicate cap ((0 + j) % cap) none;
  }

  clear_loop-Holds :
      (fuel h t : ℕ) (buf : List (Option T)) (xs : List T)
      → IsCapacity cap
      → Holds cap (record { head = h; tail = t; buf = buf }) xs
      → length xs ≤ fuel
      → (buf' : List (Option T)) × (clear_loop cap fuel h t buf ≡ some buf')
        × Holds cap (record { head = h; tail = h; buf = buf' }) []
  unfolding clear_loop
  clear_loop-Holds fuel h t buf [] is holds le = stop fuel
    where
      same : t ≡ h
      same = omega (arith, holds.head, holds.tail)

      holds' : Holds cap (record { head = h; tail = h; buf = buf }) []
      holds' = subst (λ (y : ℕ). Holds cap (record { head = h; tail = y; buf = buf }) []) same holds

      stop :
          (fuel : ℕ)
          → (buf' : List (Option T)) × (clear_loop cap fuel h t buf ≡ some buf')
            × Holds cap (record { head = h; tail = h; buf = buf' }) []
      stop zero = (buf, ground (arith, same), holds')
      stop (suc fuel) = (buf, ground (arith, same), holds')
  clear_loop-Holds zero h t buf (x ∷ xs) is holds le = absurd (omega arith)
  clear_loop-Holds (suc fuel) h t buf (x ∷ xs) is holds le =
      let r : SpscRing T = record { head = h; tail = t; buf = buf } in
      let (reads, left) = Holds-pop cap r x xs is holds in
      let some_object : (t == h) ≡ false = empty-Holds cap r (x ∷ xs) is holds ∙ ground arith in
      let (buf', run, rest) =
        clear_loop-Holds fuel h (next_size t) (set buf (slot_at cap t) none) xs is left
          (omega arith) in
      (buf', rw some_object run, rest)

  -- For a capacity as the assertions want it: `clear` of a ring that holds a queue ends, and leaves a
  -- ring that holds no objects, with every slot free.
  pub clear-Holds :
      (r : SpscRing T) (xs : List T)
      → IsCapacity cap
      → Holds cap r xs
      → (r' : SpscRing T) × (clear cap r ≡ some r') × Holds cap r' []
  unfolding clear
  clear-Holds r xs is h =
      let (buf', run, rest) = clear_loop-Holds cap r.head r.tail r.buf xs is h h.bounded in
      (record r { tail = r.head; buf = buf' }, rw run refl, rest)
