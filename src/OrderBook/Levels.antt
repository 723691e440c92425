-- ===== src/OrderBook/Levels.antt =====
-- Levels that are emptied leave a book, and new ones enter it.
use pmr_market_simulator.Prelude.{
  ℕ, ◌+◌, ◌≡◌, ◌≢◌, inl, inr, refl, sym, ap, ◌∙◌, Bool, true, false, Option, none, some, List, [],
  ◌∷◌, arith, length, if◌then◌else◌, Bool-cases,
}
use mathlib.Core.Path.{fun_ext, subst}
use pmr_market_simulator.Prelude.Int.{ℤ, eqbℤ}
use pmr_market_simulator.Prelude.Run.{ok, Returns}
use pmr_market_simulator.Event.{Side, buy, sell}
use pmr_market_simulator.FlatHash
use pmr_market_simulator.FlatHash.{FlatHashMap}
use pmr_market_simulator.FlatHash.Keys.{tick_key, id_key}
use pmr_market_simulator.FlatHash.Laws.{contents, erase-Erased, Erased}
use pmr_market_simulator.OrderBook.{
  Order, Half, Book, half, with_half, deref, remove_level_if_empty, drop_tick, remove_active_tick,
}
use pmr_market_simulator.OrderBook.Ticks.{
  count, drop_tick-IsBest, ticks-drop_tick, levels-drop_tick, count-remove_active_tick,
}
use pmr_market_simulator.OrderBook.Sound.{
  same_side, same_level, same_level_iff, occurs, present, IsHalf, IsLayout, pointer, IsSound,
  half-with_half,
}

drop_listed :
    (tick t : ℤ) (ticks : List ℤ) (o o' : Option ℕ)
    → count t ticks ≡ present o
    → o' ≡ (if eqbℤ tick t then none else o)
    → count t (remove_active_tick tick ticks) ≡ present o'
drop_listed tick t ticks none o' a b = ground (arith, count-remove_active_tick t tick ticks)
drop_listed tick t ticks (some p) o' a b = ground (arith, count-remove_active_tick t tick ticks)

-- A side whose level at the tick was erased from the map and whose tick was dropped.
dropped-IsHalf :
    (side : Side) (tick : ℤ) (h : Half) (levels : FlatHashMap ℤ ℕ) (answer : Bool)
    → IsHalf side h
    → Erased h.levels tick (answer, levels)
    → IsHalf side (drop_tick side tick (record h { levels = levels }))
dropped-IsHalf side tick h levels answer was e =
    let h' : Half = record h { levels = levels } in
    record {
      levels = rw (levels-drop_tick side tick h') e.valid;
      fixed = rw (levels-drop_tick side tick h') (e.same_grow ∙ was.fixed);
      listed = λ t.
          rw (levels-drop_tick side tick h', ticks-drop_tick side tick h')
            (drop_listed tick t h.ticks (contents h.levels t) (contents levels t) (was.listed t)
              (e.reads t));
      best = drop_tick-IsBest side tick h' was.best;
    }

-- The layout without one level, which is free again.
freed-IsLayout :
    (s : Side) (t : ℤ) (p n : ℕ) (free : List ℕ) (halves halves' : Side → Half)
    → IsLayout halves n free
    → contents (halves s).levels t ≡ some p
    → ((s' : Side) → IsHalf s' (halves' s'))
    → ((s' : Side) (t' : ℤ)
        → contents (halves' s').levels t'
          ≡ (if same_level s t s' t' then none else contents (halves s').levels t'))
    → IsLayout halves' n (p ∷ free)
unfolding occurs
freed-IsLayout s t p n free halves halves' l at sides reads = record {
  sides = sides;
  allocated = λ s' t' p' e. l.allocated s' t' p' (old s' t' p' e).0;
  apart = λ s₁ s₂ t₁ t₂ p' e₁ e₂. l.apart s₁ s₂ t₁ t₂ p' (old s₁ t₁ p' e₁).0 (old s₂ t₂ p' e₂).0;
  in_use = λ s' t' p' e. ground (arith, l.in_use s' t' p' (old s' t' p' e).0, (old s' t' p' e).1);
  free_once = λ p'. ground (arith, l.free_once p', l.in_use s t p at);
  free_allocated = λ p' h. ground (arith, l.free_allocated p', l.allocated s t p at);
}
  where
    old :
        (s' : Side) (t' : ℤ) (p' : ℕ)
        → contents (halves' s').levels t' ≡ some p'
        → (contents (halves s').levels t' ≡ some p') × (p ≢ p')
    old s' t' p' e = elim (Bool-cases (same_level s t s' t')) [
      | inl same ↦
          let bad : none ≡ some p' =
            ap (λ (c : Bool). if c then none else contents (halves s').levels t') (sym same)
            ∙ sym (reads s' t')
            ∙ e in
          cc
      | inr other ↦
          let e' : contents (halves s').levels t' ≡ some p' =
            ap (λ (c : Bool). if c then none else contents (halves s').levels t') (sym other)
            ∙ sym (reads s' t')
            ∙ e in
          (
            e',
            λ c.
                let same =
                  (same_level_iff s s' t t').1 (l.apart s s' t t' p at (e' ∙ ap some (sym c))) in
                let bad : true ≡ false = sym same ∙ other in cc,
          )
    ]

pub relayout :
    {n : ℕ} {free : List ℕ} {halves halves' : Side → Half}
    → ((x : Side) → halves x ≡ halves' x)
    → IsLayout halves n free
    → IsLayout halves' n free
relayout {n} {free} e l = subst (λ hs. IsLayout hs n free) (fun_ext e) l

module _ {Double : Type 0} where
  -- The levels of the other ticks and of the other side, whatever became of one level.
  abbrev pub Repointed : Side → ℤ → Option ℕ → Book Double → Book Double → Type 0
  Repointed s t o b b' =
      (s' : Side) (t' : ℤ)
      → pointer s' t' b' ≡ (if same_level s t s' t' then o else pointer s' t' b)

  -- The members that the moves of levels leave alone.
  pub record SameRest (b b' : Book Double) : Type 0 where
    pub index : b'.index ≡ b.index
    pub symbol : b'.symbol ≡ b.symbol
    pub tick_size : b'.tick_size ≡ b.tick_size
    pub inv_tick : b'.inv_tick ≡ b.inv_tick

  -- What `remove_level_if_empty` leaves of a book with an empty level.
  pub record Removed (s : Side) (t : ℤ) (b b' : Book Double) : Type 0 where
    pub sound : IsSound b'
    pub pointers : Repointed s t none b b'
    pub heap : b'.heap ≡ b.heap
    pub rest : SameRest b b'
    pub other_half : (s' : Side) → same_side s s' ≡ false → half s' b' ≡ half s' b
    pub fewer : (half s b').levels.size + 1 ≡ (half s b).levels.size

  pub repoint :
      (s s' : Side) (t t' : ℤ) (h : Half) (b : Book Double) (o : Option ℕ)
      → contents h.levels t' ≡ (if eqbℤ t t' then o else contents (half s b).levels t')
      → contents (half s' (with_half s h b)).levels t'
        ≡ (if same_level s t s' t' then o else pointer s' t' b)
  repoint buy buy t t' h b o e = e
  repoint buy sell t t' h b o e = refl
  repoint sell buy t t' h b o e = refl
  repoint sell sell t t' h b o e = e

  pub with_half-IsHalf :
      (s : Side) (h : Half) (b : Book Double)
      → IsHalf s h
      → ((s' : Side) → IsHalf s' (half s' b))
      → (s' : Side) → IsHalf s' (half s' (with_half s h b))
  with_half-IsHalf buy h b new all buy = new
  with_half-IsHalf buy h b new all sell = all sell
  with_half-IsHalf sell h b new all buy = all buy
  with_half-IsHalf sell h b new all sell = new

  pub half-rest :
      (x : Side) (free : List ℕ) (b : Book Double)
      → half x (record b { free_levels = free }) ≡ half x b
  half-rest buy free b = refl
  half-rest sell free b = refl

  pub half-with_half_self : (s : Side) (h : Half) (b : Book Double) → half s (with_half s h b) ≡ h
  half-with_half_self buy h b = refl
  half-with_half_self sell h b = refl

  pub with_half-SameRest :
      (s : Side) (h : Half) (b : Book Double)
      → SameRest b (with_half s h b) × ((with_half s h b).heap ≡ b.heap)
  with_half-SameRest buy h b =
      (record { index = refl; symbol = refl; tick_size = refl; inv_tick = refl }, refl)
  with_half-SameRest sell h b =
      (record { index = refl; symbol = refl; tick_size = refl; inv_tick = refl }, refl)

  -- A level with orders stays.
  pub remove_level-filled :
      (s : Side) (t : ℤ) (p : ℕ) (b : Book Double) (o : Order Double) (q : List (Order Double))
      → (deref b p).q ≡ o ∷ q
      → remove_level_if_empty s t p b ≡ ok b
  unfolding remove_level_if_empty
  remove_level-filled s t p b o q e = rw (e, remove_level_if_empty)

  abbrev removed_book : Side → ℤ → ℕ → FlatHashMap ℤ ℕ → Book Double → Book Double
  removed_book s t p levels b =
      record (with_half s (drop_tick s t (record (half s b) { levels = levels })) b) {
        free_levels = p ∷ b.free_levels;
      }

  remove_level-run :
      (s : Side) (t : ℤ) (p : ℕ) (b : Book Double) (r : Bool × FlatHashMap ℤ ℕ)
      → (deref b p).q ≡ []
      → FlatHash.erase (half s b).levels t ≡ ok r
      → remove_level_if_empty s t p b ≡ ok (removed_book s t p r.1 b)
  unfolding remove_level_if_empty
  remove_level-run s t p b r e run = rw (e, remove_level_if_empty, run)

  -- An empty level leaves its side and is free again; no other level changes.
  pub remove_level-Removed :
      (s : Side) (t : ℤ) (p : ℕ) (b : Book Double)
      → IsSound b
      → pointer s t b ≡ some p
      → (deref b p).q ≡ []
      → Returns (remove_level_if_empty s t p b) (Removed s t b)
  remove_level-Removed s t p b sound at empty =
      let (r, run, e) = erase-Erased t (sound.sides s).levels in
      let h = drop_tick s t (record (half s b) { levels = r.1 }) in
      let keeps = levels-drop_tick s t (record (half s b) { levels = r.1 }) in
      let reads : (t' : ℤ) → contents h.levels t' ≡ (if eqbℤ t t' then none else pointer s t' b) =
        λ t'. ap (λ (l : FlatHashMap ℤ ℕ). contents l t') keeps ∙ e.reads t' in
      let was_there : contents (half s b).levels t ≢ none =
        λ gone. (let bad : some p ≡ none = sym at ∙ gone in cc) in
      let yes_erased : r.0 ≡ true = e.answer.1 was_there in
      let pointers : (s' : Side) (t' : ℤ)
          → contents (half s' (with_half s h b)).levels t'
            ≡ (if same_level s t s' t' then none else pointer s' t' b) =
        λ s' t'. repoint s s' t t' h b none (reads t') in
      let same = with_half-SameRest s h b in
      (
        removed_book s t p r.1 b,
        remove_level-run s t p b r empty run,
        record {
          sound =
              relayout (λ x. sym (half-rest x (p ∷ b.free_levels) (with_half s h b)))
                (rw (same.1) (
                  freed-IsLayout s t p (length b.heap) b.free_levels (λ x. half x b)
                    (λ x. half x (with_half s h b)) sound at
                    (with_half-IsHalf s h b
                      (dropped-IsHalf s t (half s b) r.1 r.0 (sound.sides s) e) sound.sides)
                    pointers));
          pointers = λ s' t'.
              ap (λ (l : Half). contents l.levels t')
                (half-rest s' (p ∷ b.free_levels) (with_half s h b))
              ∙ pointers s' t';
          heap = same.1;
          rest = record {
            index = same.0.index;
            symbol = same.0.symbol;
            tick_size = same.0.tick_size;
            inv_tick = same.0.inv_tick;
          };
          other_half = λ s' other.
              half-rest s' (p ∷ b.free_levels) (with_half s h b)
              ∙ half-with_half s s' h b
              ∙ ap (λ (c : Bool). if c then h else half s' b) other;
          fewer =
              ap (λ (l : Half). l.levels.size + 1)
                (half-rest s (p ∷ b.free_levels) (with_half s h b) ∙ half-with_half_self s h b)
              ∙ ground (arith, keeps, e.size, yes_erased);
        },
      )
