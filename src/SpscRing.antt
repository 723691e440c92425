-- ===== src/SpscRing.antt =====
-- include/msim/spsc_ring.hpp: the ring buffer of one producer and one consumer.
pub mod Queue
pub mod Session
pub mod Threads
pub mod Slots
pub mod Fifo
mod Tests
use pmr_market_simulator.Prelude.{
  ℕ, zero, suc, ◌+◌, ◌-◌, ◌%◌, ◌^◌, Bool, true, false, Option, none, some, List, get_or, set, ◌==◌,
  if◌then◌else◌,
}
use mathlib.Core.Option
use Prim.Native.Nat.{bit_and}

-- The members: the counters, which wrap at 2 ^ 64, and the slots; a slot without an object is `none`.
pub record SpscRing {ℓ} (T : Type ℓ) : Type ℓ where
  pub head : ℕ
  pub tail : ℕ
  pub buf : List (Option T)

-- `a - b` and `a + 1` on `std::size_t`
abbrev pub sub_size : ℕ → ℕ → ℕ
sub_size a b = (a + (2 ^ 64 - b)) % 2 ^ 64

abbrev pub next_size : ℕ → ℕ
next_size a = (a + 1) % 2 ^ 64

-- The index of `ptr_at`, where `cap` is the template argument `Capacity`
abbrev pub slot_at : ℕ → ℕ → ℕ
slot_at cap idx = bit_and idx (cap - 1)

module _ {ℓ} {T : Type ℓ} (cap : ℕ) where
  -- `emplace_impl`, which `try_push` calls
  unfoldable pub try_push : T → SpscRing T → Bool × SpscRing T
  try_push v r = if sub_size r.head r.tail == cap then (false, r) else (
    true,
    record r { buf = set r.buf (slot_at cap r.head) (some v); head = next_size r.head },
  )

  -- The result is what `out` receives; an empty ring leaves it alone.
  unfoldable pub try_pop : SpscRing T → Option T × SpscRing T
  try_pop r = if r.tail == r.head then (none, r) else (
    get_or r.buf (slot_at cap r.tail) none,
    record r { buf = set r.buf (slot_at cap r.tail) none; tail = next_size r.tail },
  )

  -- The loop of `clear`, on fuel: one round for each object
  unfoldable pub clear_loop : ℕ → ℕ → ℕ → List (Option T) → Option (List (Option T))
  clear_loop zero head tail buf = if tail == head then some buf else none
  clear_loop (suc fuel) head tail buf =
      let rest = clear_loop fuel head (next_size tail) (set buf (slot_at cap tail) none) in
      if tail == head then some buf else rest

  unfoldable pub clear : SpscRing T → Option (SpscRing T)
  unfolding clear_loop
  clear r =
      Option.map (λ (buf : List (Option T)). record r { tail = r.head; buf = buf })
        (clear_loop cap r.head r.tail r.buf)

  unfoldable pub empty : SpscRing T → Bool
  empty r = r.tail == r.head

  unfoldable pub full : SpscRing T → Bool
  full r = sub_size r.head r.tail == cap
