-- ===== src/OrderBook/Sweep.antt =====
-- The matching loop: it ends, and it takes the resting orders in the order of price, then time.
use pmr_market_simulator.Prelude.{
  ℕ, ◌+◌, ◌<◌, ◌≤◌, ◌≡◌, ◌≢◌, ◌⊎◌, inl, inr, refl, sym, ap, ◌∙◌, Bool, true, false, Option, none,
  some, List, [], ◌∷◌, ◌++◌, ◌&&◌, arith, if◌then◌else◌, Bool-cases, ltb,
}
use mathlib.Core.Path.{subst}
use pmr_market_simulator.Prelude.Int.{ℤ, eqbℤ}
use pmr_market_simulator.Event.{Side, buy, sell}
use pmr_market_simulator.FlatHash.{FlatHashMap}
use pmr_market_simulator.OrderBook.{
  Order, OrderRef, Book, Matched, half, opposite, better, crosses, next_level,
}
use pmr_market_simulator.OrderBook.Ticks.{count, IsBest}
use pmr_market_simulator.OrderBook.Sound.{
  same_side, same_level, present, IsSound, pointer, queue, queue_at,
}
use pmr_market_simulator.OrderBook.Fill.{among, Unindexed, total, Cut}
use pmr_market_simulator.OrderBook.Round.{IsBook}

among-append :
    (id : ℕ) (xs ys : List ℕ) → among id (xs ++ ys) ≡ (if among id xs then true else among id ys)
unfolding among
among-append id [] ys = refl
among-append id (x ∷ xs) ys = ground (arith, among-append id xs ys)

pub Unindexed-trans :
    (xs ys : List ℕ) (i j k : FlatHashMap ℕ OrderRef)
    → Unindexed xs i j
    → Unindexed ys j k
    → Unindexed (xs ++ ys) i k
Unindexed-trans xs ys i j k u v = record {
  index = v.index;
  reads = λ id. ground (arith, u.reads id, v.reads id, among-append id xs ys);
  size = omega (arith, u.size, v.size);
  mask = v.mask ∙ u.mask;
}

-- A tick that is no better than one that is not crossed is not crossed.
crosses_worse :
    (side : Side) (tick best t : ℤ)
    → better (opposite side) t best ≡ false
    → crosses side tick (some best) ≡ false
    → crosses side tick (some t) ≡ false
crosses_worse buy tick best t h c = ground arith
crosses_worse sell tick best t h c = ground arith

pub next_level-some :
    (side : Side) (tick t : ℤ) (remaining : ℕ) (best : Option ℤ)
    → next_level side tick remaining best ≡ some t
    → (best ≡ some t) × (0 < remaining) × (crosses side tick (some t) ≡ true)
next_level-some side tick t remaining none e = absurd (ground arith)
next_level-some side tick t remaining (some b) e =
    elim (Bool-cases (ltb 0 remaining && crosses side tick (some b))) [
      | inl hit ↦
          let at : some b ≡ some t = ap (λ (c : Bool). if c then some b else none) (sym hit) ∙ e in
          let same : b ≡ t = cc in
          (
            at,
            ground (arith, hit),
            subst (λ x. crosses side tick (some x) ≡ true) same (ground (arith, hit)),
          )
      | inr miss ↦ absurd (
          let bad : none ≡ some t = ap (λ (c : Bool). if c then some b else none) (sym miss) ∙ e in
          cc)
    ]

pub next_level-none :
    (side : Side) (tick : ℤ) (remaining : ℕ) (best : Option ℤ)
    → next_level side tick remaining best ≡ none
    → (remaining ≡ 0) ⊎ (crosses side tick best ≡ false)
next_level-none side tick remaining none e = inr refl
next_level-none side tick remaining (some b) e =
    elim (Bool-cases (ltb 0 remaining && crosses side tick (some b))) [
      | inl hit ↦ absurd (
          let bad : some b ≡ none = ap (λ (c : Bool). if c then some b else none) (sym hit) ∙ e in
          cc)
      | inr miss ↦ ground (arith, miss)
    ]

pub opposite_side : (s : Side) → same_side (opposite s) s ≡ false
opposite_side buy = refl
opposite_side sell = refl

pub opposite_level : (s : Side) (t t' : ℤ) → same_level (opposite s) t s t' ≡ false
opposite_level buy t t' = refl
opposite_level sell t t' = refl

pub same_ticks : (s : Side) (t t' : ℤ) → same_level s t s t' ≡ eqbℤ t t'
same_ticks buy t t' = refl
same_ticks sell t t' = refl

module _ {Double : Type 0} where
  -- The specification of matching. An incoming order of a side with a limit tick and a quantity
  -- that remains meets the queues of the other side. It is done if it is filled or no tick with
  -- orders crosses the limit. Otherwise it takes, from the best tick with orders, the oldest ones,
  -- until it is filled or they are; the list is the ids of the orders that it fills.
  pub data Sweeps (side : Side) (tick : ℤ)
      : ℕ → (ℤ → List (Order Double)) → ℕ → (ℤ → List (Order Double)) → List ℕ → Type 0 where
    sweep_done :
        (r : ℕ) (queues : ℤ → List (Order Double))
        → (r ≡ 0) ⊎ ((t : ℤ) → queues t ≢ [] → crosses side tick (some t) ≡ false)
        → Sweeps side tick r queues r queues []
    sweep_level :
        (r r' r'' : ℕ) (queues queues' queues'' : ℤ → List (Order Double)) (ids ids' : List ℕ)
        (t : ℤ)
        → 0 < r
        → queues t ≢ []
        → crosses side tick (some t) ≡ true
        → ((t' : ℤ) → queues t' ≢ [] → better (opposite side) t' t ≡ false)
        → Cut (queues t) (queues' t) ids
        → ((t' : ℤ) → eqbℤ t t' ≡ false → queues' t' ≡ queues t')
        → r + total (queues' t) ≡ r' + total (queues t)
        → (r' ≡ 0) ⊎ (queues' t ≡ [])
        → Sweeps side tick r' queues' r'' queues'' ids'
        → Sweeps side tick r queues r'' queues'' (ids ++ ids')

  -- What the matching loop leaves.
  pub record Swept (side : Side) (tick : ℤ) (m m' : Matched Double) : Type 0 where
    pub book : IsBook m'.book
    pub ids : List ℕ
    pub sweeps :
        Sweeps side tick m.remaining
          (λ t. queue (opposite side) t m.book)
          m'.remaining
          (λ t. queue (opposite side) t m'.book)
          ids
    pub unindexed : Unindexed ids m.book.index m'.book.index
    pub own_half : half side m'.book ≡ half side m.book
    pub own_queues : (t : ℤ) → queue side t m'.book ≡ queue side t m.book
    pub no_more : m'.remaining ≤ m.remaining
    pub same_tick_size : m'.book.tick_size ≡ m.book.tick_size

  pub queue_has_level :
      (s : Side) (t : ℤ) (b : Book Double) → queue s t b ≢ [] → present (pointer s t b) ≡ 1
  unfolding queue
  queue_has_level s t b h = go (pointer s t b) h
    where
      go : (o : Option ℕ) → queue_at b o ≢ [] → present o ≡ 1
      go none h = absurd (h refl)
      go (some p) h = refl

  -- A tick with orders is one of the active ticks.
  pub queue_is_active :
      (s : Side) (t : ℤ) (b : Book Double)
      → IsSound b
      → queue s t b ≢ []
      → 0 < count t (half s b).ticks
  queue_is_active s t b sound h = omega (arith, (sound.sides s).listed t, queue_has_level s t b h)

  pub nothing_crosses :
      (side : Side) (tick : ℤ) (b : Book Double) (best : Option ℤ)
      → IsSound b
      → IsBest (opposite side) (half (opposite side) b).ticks best
      → crosses side tick best ≡ false
      → (t : ℤ) → queue (opposite side) t b ≢ []
      → crosses side tick (some t) ≡ false
  nothing_crosses side tick b none sound is c t h =
      absurd (omega (arith, is t, queue_is_active (opposite side) t b sound h))
  nothing_crosses side tick b (some best) sound is c t h =
      crosses_worse side tick best t (is.1 t (queue_is_active (opposite side) t b sound h)) c
