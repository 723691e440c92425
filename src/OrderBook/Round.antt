-- ===== src/OrderBook/Round.antt =====
-- One round of the matching loop: the best level of the side that is hit is matched, and leaves the
-- book if it is empty then.
use pmr_market_simulator.Prelude.{
  ℕ, ◌+◌, ◌<◌, ◌≤◌, ◌≡◌, ◌⊎◌, inl, inr, refl, sym, ap, ◌∙◌, Bool, false, Option, none, some, List,
  [], arith, if◌then◌else◌, Bool-cases,
}
use mathlib.Core.Path.{subst}
use pmr_market_simulator.Prelude.Int.{ℤ}
use pmr_market_simulator.Event.{Side, buy, sell}
use pmr_market_simulator.FlatHash.{FlatHashMap}
use pmr_market_simulator.FlatHash.Laws.{contents}
use pmr_market_simulator.FlatHash.Keys.{tick_key, id_key}
use pmr_market_simulator.OrderBook.{Order, OrderRef, Half, Book, Matched, half, deref, store}
use pmr_market_simulator.OrderBook.Ticks.{count, IsBest}
use pmr_market_simulator.OrderBook.Sound.{
  same_side, same_level, same_level_refl, present, IsSound, pointer, queue, queue_at, deref_heap,
  queue-pointer, queue-store, store-IsSound, pointer-store,
}
use pmr_market_simulator.OrderBook.Levels.{Removed, relayout}
use pmr_market_simulator.OrderBook.Fill.{IsIndex, Unindexed, total, Cut}

present_cases : (o : Option ℕ) (n : ℕ) → n ≡ present o → 0 < n → (p : ℕ) × (o ≡ some p)
present_cases none n e h = absurd (omega arith)
present_cases (some p) n e h = (p, refl)

module _ {Double : Type 0} where
  -- A book between two operations: sound, with a valid index, and no level without orders.
  pub record IsBook (b : Book Double) : Type 0 where
    pub sound : IsSound b
    pub index : IsIndex b.index
    pub filled : (s : Side) (t : ℤ) → queue s t b ≡ [] → pointer s t b ≡ none

  -- The best tick of a side has a level.
  pub best_level :
      (s : Side) (b : Book Double) (t : ℤ)
      → IsSound b
      → (half s b).best ≡ some t
      → (p : ℕ) × (pointer s t b ≡ some p)
  best_level s b t sound e =
      let side = sound.sides s in
      let (here, least) = subst (λ o. IsBest s (half s b).ticks o) e side.best in
      present_cases (pointer s t b) (count t (half s b).ticks) (side.listed t) here

  pub half-index :
      (s : Side) (b : Book Double) (i : FlatHashMap ℕ OrderRef)
      → half s (record b { index = i }) ≡ half s b
  half-index buy b i = refl
  half-index sell b i = refl

  -- A new queue in a level, and a new index.
  abbrev pub rewrite : Book Double → ℕ → List (Order Double) → FlatHashMap ℕ OrderRef → Book Double
  rewrite b p q i = record (store b p q) { index = i }

  pub rewrite-IsSound :
      (b : Book Double) (p : ℕ) (q : List (Order Double)) (i : FlatHashMap ℕ OrderRef)
      → IsSound b
      → IsSound (rewrite b p q i)
  rewrite-IsSound b p q i h =
      relayout (λ x. sym (half-index x (store b p q) i)) (store-IsSound p q h)

  pub pointer-index :
      (s : Side) (t : ℤ) (b : Book Double) (i : FlatHashMap ℕ OrderRef)
      → pointer s t (record b { index = i }) ≡ pointer s t b
  pointer-index s t b i = ap (λ (h : Half). contents h.levels t) (half-index s b i)

  pub queue-index :
      (s : Side) (t : ℤ) (b : Book Double) (i : FlatHashMap ℕ OrderRef)
      → queue s t (record b { index = i }) ≡ queue s t b
  unfolding queue
  queue-index s t b i = go (pointer s t b) (pointer-index s t b i)
    where
      go :
          (o : Option ℕ)
          → pointer s t (record b { index = i }) ≡ o
          → queue_at (record b { index = i }) (pointer s t (record b { index = i })) ≡ queue_at b o
      go none e = ap (queue_at (record b { index = i })) e
      go (some p) e = ap (queue_at (record b { index = i })) e

  pub Removed-queue :
      (s s' : Side) (t t' : ℤ) (b b' : Book Double)
      → Removed s t b b'
      → queue s' t' b' ≡ (if same_level s t s' t' then [] else queue s' t' b)
  unfolding queue
  Removed-queue s s' t t' b b' r = elim (Bool-cases (same_level s t s' t')) [
    | inl same ↦ rw same (
        ap (queue_at b')
          (r.pointers s' t' ∙ ap (λ (d : Bool). if d then none else pointer s' t' b) same))
    | inr other ↦ rw other (
        ap (queue_at b')
          (r.pointers s' t' ∙ ap (λ (d : Bool). if d then none else pointer s' t' b) other)
        ∙ elsewhere (pointer s' t' b))
  ]
    where
      elsewhere : (o : Option ℕ) → queue_at b' o ≡ queue_at b o
      elsewhere none = refl
      elsewhere (some p) = deref_heap b b' r.heap p

  -- What a round leaves, for the side whose level at `t` is hit.
  pub record Rounded (s : Side) (t : ℤ) (m m' : Matched Double) : Type 0 where
    pub book : IsBook m'.book
    pub ids : List ℕ
    pub oldest_first : Cut (queue s t m.book) (queue s t m'.book) ids
    pub unindexed : Unindexed ids m.book.index m'.book.index
    pub others :
        (s' : Side) (t' : ℤ)
        → same_level s t s' t' ≡ false
        → queue s' t' m'.book ≡ queue s' t' m.book
    pub conserved :
        m.remaining + total (queue s t m'.book) ≡ m'.remaining + total (queue s t m.book)
    pub no_more : m'.remaining ≤ m.remaining
    pub complete : (m'.remaining ≡ 0) ⊎ (queue s t m'.book ≡ [])
    pub progress : (m'.remaining ≡ 0) ⊎ ((half s m'.book).levels.size < (half s m.book).levels.size)
    pub other_half : (s' : Side) → same_side s s' ≡ false → half s' m'.book ≡ half s' m.book
    pub same_tick_size : m'.book.tick_size ≡ m.book.tick_size

  pub queue-rewrite :
      (s s' : Side) (t t' : ℤ) (b : Book Double) (p : ℕ) (q : List (Order Double))
      (i : FlatHashMap ℕ OrderRef)
      → IsSound b
      → pointer s t b ≡ some p
      → queue s' t' (rewrite b p q i) ≡ (if same_level s t s' t' then q else queue s' t' b)
  queue-rewrite s s' t t' b p q i h at =
      queue-index s' t' (store b p q) i ∙ queue-store s s' t t' b p q h at

  pub pointer-rewrite :
      (s : Side) (t : ℤ) (b : Book Double) (p : ℕ) (q : List (Order Double))
      (i : FlatHashMap ℕ OrderRef)
      → pointer s t (rewrite b p q i) ≡ pointer s t b
  pointer-rewrite s t b p q i = pointer-index s t (store b p q) i ∙ pointer-store s t b p q

  pub half-rewrite :
      (s : Side) (b : Book Double) (p : ℕ) (q : List (Order Double)) (i : FlatHashMap ℕ OrderRef)
      → half s (rewrite b p q i) ≡ half s b
  half-rewrite buy b p q i = refl
  half-rewrite sell b p q i = refl

  pub deref-rewrite :
      (s : Side) (t : ℤ) (b : Book Double) (p : ℕ) (q : List (Order Double))
      (i : FlatHashMap ℕ OrderRef)
      → IsSound b
      → pointer s t b ≡ some p
      → (deref (rewrite b p q i) p).q ≡ q
  deref-rewrite s t b p q i h at =
      sym (queue-pointer s t (rewrite b p q i) p (pointer-rewrite s t b p q i ∙ at))
      ∙ queue-rewrite s s t t b p q i h at
      ∙ ap (λ (c : Bool). if c then q else queue s t b) (same_level_refl s t)
