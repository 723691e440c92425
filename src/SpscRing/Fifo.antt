-- ===== src/SpscRing/Fifo.antt =====
-- Whatever the order of the threads' steps: first in, first out, and no slot is written or read at
-- the wrong time.
use pmr_market_simulator.Prelude.{
  ℕ, ◌+◌, ◌%◌, ◌≤◌, ◌≡◌, ◌≢◌, refl, sym, ap, ◌∙◌, Bool, true, false, Option, none, some, List, [],
  ◌∷◌, ◌++◌, arith, length, get_or, length-replicate, get_or-replicate, if◌then◌else◌, ◌==◌, ◌&&◌,
}
use mathlib.Core.Path.{subst}
use pmr_market_simulator.SpscRing.{SpscRing, sub_size, slot_at}
use pmr_market_simulator.SpscRing.Queue.{IsCapacity, get_elem?-none}
use pmr_market_simulator.SpscRing.Threads.{
  Producer, idle, granted, Consumer, waiting, sees, Threads, Step, push_refused, push_granted,
  push_placed, push_published, pop_refused, pop_granted, pop_taken, pop_released, start, Reachable,
  at_start, after,
}
use pmr_market_simulator.SpscRing.Slots.{
  Slots, Slots-placed, Slots-published, Slots-taken, Slots-released, head_slot, tail_slot,
  not_placed_first, has_taken,
}

append_assoc {ℓ} : {A : Type ℓ} (xs ys zs : List A) → (xs ++ ys) ++ zs ≡ xs ++ (ys ++ zs)
append_assoc [] ys zs = refl
append_assoc (x ∷ xs) ys zs = ap (λ l. x ∷ l) (append_assoc xs ys zs)

module _ {ℓ} {T : Type ℓ} where
  unfoldable pub somes : List T → List (Option T)
  somes [] = []
  somes (x ∷ xs) = some x ∷ somes xs

  somes-append : (xs ys : List T) → somes (xs ++ ys) ≡ somes xs ++ somes ys
  unfolding somes
  somes-append [] ys = refl
  somes-append (x ∷ xs) ys = ap (λ l. some x ∷ l) (somes-append xs ys)

  -- The threads are safe: the objects `xs` are published and not released.
  record Safe (cap : ℕ) (s : Threads T) : Type ℓ where
    xs : List T
    slots : Slots cap s.ring.head s.ring.tail s.ring.buf s.producer s.consumer xs
    history : somes s.sent ≡ s.received ++ somes xs

  granted-Slots :
      (cap head tail : ℕ) (buf : List (Option T)) (v : T) (c : Consumer T) (xs : List T)
      → IsCapacity cap
      → sub_size head tail ≢ cap
      → Slots cap head tail buf idle c xs
      → Slots cap head tail buf (granted v) c xs
  granted-Slots cap head tail buf v c xs is room h =
      let many : sub_size head tail ≡ length xs =
        omega (arith, h.bounded, h.tail_word, h.head_word, is.fits) in
      record {
        slots = h.slots;
        bounded = h.bounded;
        tail_word = h.tail_word;
        head_word = h.head_word;
        reads = h.reads;
        space = ground (arith, h.bounded, room, many);
        object = h.object;
      }

  sees-Slots :
      (cap head tail : ℕ) (buf : List (Option T)) (p : Producer T) (xs : List T)
      → tail ≢ head
      → Slots cap head tail buf p waiting xs
      → Slots cap head tail buf p sees xs
  sees-Slots cap head tail buf p [] some_there h =
      absurd (some_there (omega (arith, h.tail_word, h.head_word)))
  sees-Slots cap head tail buf p (x ∷ xs) some_there h = record {
    slots = h.slots;
    bounded = h.bounded;
    tail_word = h.tail_word;
    head_word = h.head_word;
    reads = h.reads;
    space = h.space;
    object = (x, refl);
  }

  with_producer :
      {cap : ℕ} {r : SpscRing T} {p p' : Producer T} {c : Consumer T} {xs : List T}
      → p ≡ p'
      → Slots cap r.head r.tail r.buf p c xs
      → Slots cap r.head r.tail r.buf p' c xs
  with_producer {cap} {r} {p} {p'} {c} {xs} e h =
      subst (λ q. Slots cap r.head r.tail r.buf q c xs) e h

  with_consumer :
      {cap : ℕ} {r : SpscRing T} {p : Producer T} {c c' : Consumer T} {xs : List T}
      → c ≡ c'
      → Slots cap r.head r.tail r.buf p c xs
      → Slots cap r.head r.tail r.buf p c' xs
  with_consumer {cap} {r} {p} {c} {c'} {xs} e h =
      subst (λ q. Slots cap r.head r.tail r.buf p q xs) e h

  -- Every step keeps the threads safe.
  Step-Safe :
      (cap : ℕ) (s s' : Threads T) → IsCapacity cap → Step cap s s' → Safe cap s → Safe cap s'
  unfolding somes
  Step-Safe cap s s' is (push_refused _ e full) h = h
  Step-Safe cap s s' is (pop_refused _ e none_there) h = h
  Step-Safe cap s s' is (push_granted _ v e room) h = record {
    xs = h.xs;
    slots =
        granted-Slots cap s.ring.head s.ring.tail s.ring.buf v s.consumer h.xs is room
          (with_producer {r = s.ring} e h.slots);
    history = h.history;
  }
  Step-Safe cap s s' is (push_placed _ v e) h = record {
    xs = h.xs;
    slots =
        Slots-placed cap s.ring.head s.ring.tail s.ring.buf v s.consumer h.xs is
          (with_producer {r = s.ring} e h.slots);
    history = h.history;
  }
  Step-Safe cap s s' is (push_published _ v e) h = record {
    xs = h.xs ++ (v ∷ []);
    slots =
        Slots-published cap s.ring.head s.ring.tail s.ring.buf v s.consumer h.xs is
          (with_producer {r = s.ring} e h.slots);
    history =
        somes-append s.sent (v ∷ [])
        ∙ ap (λ l. l ++ (some v ∷ [])) h.history
        ∙ append_assoc s.received (somes h.xs) (some v ∷ [])
        ∙ ap (λ l. s.received ++ l) (sym (somes-append h.xs (v ∷ [])));
  }
  Step-Safe cap s s' is (pop_granted _ e some_there) h = record {
    xs = h.xs;
    slots =
        sees-Slots cap s.ring.head s.ring.tail s.ring.buf s.producer h.xs some_there
          (with_consumer {r = s.ring} e h.slots);
    history = h.history;
  }
  Step-Safe cap s s' is (pop_taken _ e) h = record {
    xs = h.xs;
    slots =
        Slots-taken cap s.ring.head s.ring.tail s.ring.buf s.producer h.xs is
          (with_consumer {r = s.ring} e h.slots);
    history = h.history;
  }
  Step-Safe cap s s' is (pop_released _ o e) h =
      let (x, rest, whole, object, slots) =
        Slots-released cap s.ring.head s.ring.tail s.ring.buf s.producer o h.xs is
          (with_consumer {r = s.ring} e h.slots) in
      record {
        xs = rest;
        slots = slots;
        history =
            h.history
            ∙ ap (λ l. s.received ++ somes l) whole
            ∙ ap (λ y. s.received ++ (y ∷ somes rest)) (sym object)
            ∙ sym (append_assoc s.received (o ∷ []) (somes rest));
      }

  start-Safe : (cap : ℕ) → IsCapacity cap → Safe cap (start cap)
  unfolding somes
  start-Safe cap is = record {
    xs = [];
    slots = record {
      slots = length-replicate cap none;
      bounded = omega arith;
      tail_word = omega arith;
      head_word = omega arith;
      reads = λ j lt. get_or-replicate cap ((0 + j) % cap) none;
      space = omega arith;
      object = tt;
    };
    history = refl;
  }

  reachable-Safe : (cap : ℕ) (s : Threads T) → IsCapacity cap → Reachable cap s → Safe cap s
  reachable-Safe cap s is at_start = start-Safe cap is
  reachable-Safe cap s is (after s₀ _ before step) =
      Step-Safe cap s₀ s is step (reachable-Safe cap s₀ is before)

  -- What the ring promises its two threads in a state. The objects received are the first ones sent,
  -- in their order, and the rest, at most as many as the capacity, waits; the producer is about to
  -- construct only in a free slot; the consumer is about to move only from a slot with an object.
  pub record IsFifo (cap : ℕ) (s : Threads T) : Type ℓ where
    pub waits : List T
    pub in_order : somes s.sent ≡ s.received ++ somes waits
    pub bounded : length waits ≤ cap
    pub writes_free :
        (v : T) → s.producer ≡ granted v → get_or s.ring.buf (slot_at cap s.ring.head) none ≡ none
    pub reads_object :
        s.consumer ≡ sees → (x : T) × (get_or s.ring.buf (slot_at cap s.ring.tail) none ≡ some x)

  free_slot :
      (cap head tail : ℕ) (buf : List (Option T)) (v : T) (c : Consumer T) (xs : List T)
      → IsCapacity cap
      → Slots cap head tail buf (granted v) c xs
      → get_or buf (slot_at cap head) none ≡ none
  free_slot cap head tail buf v c xs is h =
      let at = head_slot cap head tail buf (granted v) c xs is h in
      let beyond = get_elem?-none xs (length xs) (omega arith) in
      rw at (h.reads (length xs) h.space ∙ rw beyond (same (has_taken c && length xs == 0)))
    where
      same : (b : Bool) → if◌then◌else◌ {A = Option T} b none none ≡ none
      same true = refl
      same false = refl

  object_there :
      (cap head tail : ℕ) (buf : List (Option T)) (p : Producer T) (xs : List T)
      → IsCapacity cap
      → Slots cap head tail buf p sees xs
      → (x : T) × (get_or buf (slot_at cap tail) none ≡ some x)
  object_there cap head tail buf p [] is h =
      absurd (let (x, e) = h.object in let bad : none ≡ some x = e in cc)
  object_there cap head tail buf p (x ∷ xs) is h = (
    x,
    rw (tail_slot cap tail is)
        (h.reads 0 (omega (arith, is.at_least)) ∙ not_placed_first cap p x xs),
  )

  -- For a capacity as the assertions want it, in every state that the steps of the two threads reach,
  -- in whatever order they come: the objects received are the first ones sent, in their order, and
  -- the rest, at most as many as the capacity, waits in the ring; a producer about to construct an
  -- object has a free slot; a consumer about to move an object has a slot with one.
  pub reachable-IsFifo : (cap : ℕ) (s : Threads T) → IsCapacity cap → Reachable cap s → IsFifo cap s
  reachable-IsFifo cap s is reach =
      let h = reachable-Safe cap s is reach in
      record {
        waits = h.xs;
        in_order = h.history;
        bounded = h.slots.bounded;
        writes_free = λ v e.
            free_slot cap s.ring.head s.ring.tail s.ring.buf v s.consumer h.xs is
              (with_producer {r = s.ring} e h.slots);
        reads_object = λ e.
            object_there cap s.ring.head s.ring.tail s.ring.buf s.producer h.xs is
              (with_consumer {r = s.ring} e h.slots);
      }
