-- ===== src/OrderBook/Start.antt =====
-- The book that the constructor makes.
use pmr_market_simulator.Prelude.{
  ℕ, ◌+◌, ◌*◌, ◌<◌, ◌≤◌, ◌^◌, ◌≡◌, refl, sym, ap, ◌∙◌, true, false, none, some, List, [], arith,
}
use pmr_market_simulator.Prelude.Int.{ℤ}
use pmr_market_simulator.Prelude.Run.{Returns}
use pmr_market_simulator.Event.{Side, buy, sell}
use pmr_market_simulator.FlatHash
use pmr_market_simulator.FlatHash.{FlatHashMap, next_pow2}
use pmr_market_simulator.FlatHash.Keys.{tick_key, id_key}
use pmr_market_simulator.FlatHash.Laws
use pmr_market_simulator.FlatHash.Laws.{contents}
use pmr_market_simulator.FlatHash.Insert.{HasRoom, create-IsValid}
use pmr_market_simulator.Float.{Float}
use pmr_market_simulator.OrderBook.{OrderRef, Half, Book, half, create_with}
use pmr_market_simulator.OrderBook.Ticks.{count}
use pmr_market_simulator.OrderBook.Round.{IsBook}
use pmr_market_simulator.OrderBook.Sound.{occurs, present, IsHalf, IsSound, pointer}

abbrev empty_half : ℕ → Half
empty_half n = record { levels = FlatHash.create n false; ticks = []; best = none }

empty_half-IsHalf :
    (side : Side) (n k : ℕ) → next_pow2 n ≡ 2 ^ k → 8 ≤ 2 ^ k → IsHalf side (empty_half n)
unfolding count
empty_half-IsHalf side n k e least =
    let (valid, blank) = create-IsValid n k false e least in
    record {
      levels = valid;
      fixed = unfold FlatHash.create in refl;
      listed = λ t. sym (ap present (blank t));
      best = λ t. refl;
    }

empty_halves :
    (halves : Side → Half) (n : ℕ)
    → ((s : Side) → halves s ≡ empty_half n)
    → (s : Side) (t : ℤ) → ((t' : ℤ) → contents (empty_half n).levels t' ≡ none)
    → contents (halves s).levels t ≡ none
empty_halves halves n e s t blank = ap (λ (h : Half). contents h.levels t) (e s) ∙ blank t

-- What the constructor promises: a sound book with no level on either side and a valid empty index,
-- and room in all three maps.
pub record Started {Double : Type 0} (b : Book Double) : Type 0 where
  pub sound : IsSound b
  pub no_levels : (s : Side) (t : ℤ) → pointer s t b ≡ none
  pub index : Laws.IsValid b.index
  pub fixed : b.index.allow_grow ≡ false
  pub no_orders : (id : ℕ) → contents b.index id ≡ none
  pub level_room : (s : Side) → HasRoom (half s b).levels
  pub index_room : HasRoom b.index

create-HasRoom :
    (K V : Type 0) (n k : ℕ)
    → next_pow2 n ≡ 2 ^ k
    → 8 ≤ 2 ^ k
    → (FlatHash.create {K = K} {V = V} n false).size * 10
      < ((FlatHash.create {K = K} {V = V} n false).mask + 1) * 8
unfolding FlatHash.create
create-HasRoom K V n k e least = omega (arith, e, least)

-- Where both capacities round up to powers of two that are at least 8 and the tick size is positive,
-- the constructor ends with a sound book: no level on either side, a valid index without orders, and
-- room in all three maps.
pub create_with-Started :
    (fp : Float) (n i k j : ℕ) (symbol : List ℕ) (tick_size : fp.Double)
    → next_pow2 n ≡ 2 ^ k
    → 8 ≤ 2 ^ k
    → next_pow2 i ≡ 2 ^ j
    → 8 ≤ 2 ^ j
    → fp.positive tick_size ≡ true
    → Returns (create_with fp n i symbol tick_size) Started
unfolding create_with occurs
create_with-Started fp n i k j symbol tick_size e least e' least' up =
    let (valid, blank) = create-IsValid n k false e least in
    let (index_valid, index_blank) = create-IsValid i j false e' least' in
    let b : Book fp.Double = record {
      bids = empty_half n;
      asks = empty_half n;
      index = FlatHash.create i false;
      free_levels = [];
      symbol = symbol;
      tick_size = tick_size;
      inv_tick = fp.reciprocal tick_size;
      heap = [];
    } in
    let both : (s : Side) → half s b ≡ empty_half n =
      λ s. elim s as (λ k. half k b ≡ empty_half n) [ buy ↦ refl | sell ↦ refl ] in
    let nothing : (s : Side) (t : ℤ) → pointer s t b ≡ none =
      λ s t. empty_halves (λ x. half x b) n both s t blank in
    (
      b,
      rw up refl,
      record {
        sound = record {
          sides = λ s. rw (both s) (empty_half-IsHalf s n k e least);
          allocated = λ s t p h. absurd (let bad : none ≡ some p = sym (nothing s t) ∙ h in cc);
          apart =
              λ s s' t t' p h h'. absurd (let bad : none ≡ some p = sym (nothing s t) ∙ h in cc);
          in_use = λ s t p h. refl;
          free_once = λ p. omega arith;
          free_allocated = λ p h. absurd (omega arith);
        };
        no_levels = nothing;
        index = index_valid;
        fixed = unfold FlatHash.create in refl;
        no_orders = index_blank;
        level_room = λ s. rw (both s) (create-HasRoom ℤ ℕ n k e least);
        index_room = create-HasRoom ℕ OrderRef i j e' least';
      },
    )

-- The constructor leaves a book between two operations.
pub Started-IsBook : {Double : Type 0} (b : Book Double) → Started b → IsBook b
Started-IsBook b s = record {
  sound = s.sound;
  index = record { valid = s.index; fixed = s.fixed };
  filled = λ side t e. s.no_levels side t;
}
