-- ===== src/OrderBook/Sound.antt =====
-- The structure of a book: which level a side and a tick have, and that no two share one.
use pmr_market_simulator.Prelude.{
  ℕ, ◌+◌, ◌<◌, ◌≤◌, ◌≡◌, ◌≢◌, ◌↔◌, inl, inr, refl, sym, ap, ◌∙◌, Bool, true, false, Option, none,
  some, List, [], ◌∷◌, ◌&&◌, arith, length, get_or, get_or-set_self, get_or-set_ne, length-set,
  ◌==◌, if◌then◌else◌, Bool-cases,
}
use mathlib.Core.Path.{fun_ext, subst, ap₂}
use pmr_market_simulator.Prelude.Int.{ℤ, pos, eqbℤ, eqbℤ_iff}
use pmr_market_simulator.Prelude.Run.{ok}
use pmr_market_simulator.Event.{Side, buy, sell}
use pmr_market_simulator.FlatHash.Keys.{tick_key, id_key}
use pmr_market_simulator.FlatHash.Laws.{contents, find_ptr-contents}
use pmr_market_simulator.FlatHash.Laws
use pmr_market_simulator.OrderBook.{
  Order, Level, Half, Book, half, with_half, get_level, deref, store,
}
use pmr_market_simulator.OrderBook.Ticks.{count, IsBest}

abbrev pub same_side : Side → Side → Bool
same_side buy buy = true
same_side buy sell = false
same_side sell buy = false
same_side sell sell = true

pub same_side_iff : (a b : Side) → (same_side a b ≡ true) ↔ (a ≡ b)
same_side_iff buy buy = ground arith
same_side_iff buy sell = ground arith
same_side_iff sell buy = ground arith
same_side_iff sell sell = ground arith

-- The side and the tick of one level are those of the other.
abbrev pub same_level : Side → ℤ → Side → ℤ → Bool
same_level s t s' t' = same_side s s' && eqbℤ t t'

pub same_level_iff :
    (s s' : Side) (t t' : ℤ) → (same_level s t s' t' ≡ true) ↔ ((s ≡ s') × (t ≡ t'))
same_level_iff s s' t t' = ground (arith, same_side_iff s s', eqbℤ_iff t t')

pub same_level_refl : (s : Side) (t : ℤ) → same_level s t s t ≡ true
same_level_refl s t = (same_level_iff s s t t).1 (refl, refl)

unfoldable pub occurs : ℕ → List ℕ → ℕ
occurs p [] = 0
occurs p (x ∷ xs) = (if x == p then 1 else 0) + occurs p xs

abbrev pub present {ℓ} : {A : Type ℓ} → Option A → ℕ
present none = 0
present (some a) = 1

-- One side: a valid map of levels, whose ticks are listed once each, with the best of them.
pub record IsHalf (side : Side) (h : Half) : Type 0 where
  pub levels : Laws.IsValid h.levels
  pub fixed : h.levels.allow_grow ≡ false
  pub listed : (t : ℤ) → count t h.ticks ≡ present (contents h.levels t)
  pub best : IsBest side h.ticks h.best

-- Both sides, with `n` allocated levels of which `free` can be used again. No level is in two
-- places, and none that is free is in one.
pub record IsLayout (halves : Side → Half) (n : ℕ) (free : List ℕ) : Type 0 where
  pub sides : (s : Side) → IsHalf s (halves s)
  pub allocated : (s : Side) (t : ℤ) (p : ℕ) → contents (halves s).levels t ≡ some p → p < n
  pub apart :
      (s s' : Side) (t t' : ℤ) (p : ℕ)
      → contents (halves s).levels t ≡ some p
      → contents (halves s').levels t' ≡ some p
      → (s ≡ s') × (t ≡ t')
  pub in_use :
      (s : Side) (t : ℤ) (p : ℕ) → contents (halves s).levels t ≡ some p → occurs p free ≡ 0
  pub free_once : (p : ℕ) → occurs p free ≤ 1
  pub free_allocated : (p : ℕ) → 0 < occurs p free → p < n

module _ {Double : Type 0} where
  abbrev pub pointer : Side → ℤ → Book Double → Option ℕ
  pointer s t b = contents (half s b).levels t

  abbrev pub IsSound : Book Double → Type 0
  IsSound b = IsLayout (λ s. half s b) (length b.heap) b.free_levels

  abbrev pub queue_at : Book Double → Option ℕ → List (Order Double)
  queue_at b none = []
  queue_at b (some p) = (deref b p).q

  -- The orders that rest at a tick of a side, oldest first.
  unfoldable pub queue : Side → ℤ → Book Double → List (Order Double)
  queue s t b = queue_at b (pointer s t b)

  pub deref_heap :
      (b b' : Book Double) → b'.heap ≡ b.heap → (p : ℕ) → (deref b' p).q ≡ (deref b p).q
  deref_heap b b' e p =
      ap
        (λ (heap : List (Level Double)).
          let l : Level Double = get_or heap p (record { tick = pos 0; q = [] }) in l.q)
        e

  pub queue-pointer :
      (s : Side) (t : ℤ) (b : Book Double) (p : ℕ)
      → pointer s t b ≡ some p
      → queue s t b ≡ (deref b p).q
  unfolding queue
  queue-pointer s t b p e = ap (queue_at b) e

  pub get_level-pointer :
      (s : Side) (t : ℤ) (b : Book Double) → IsSound b → get_level s t b ≡ ok (pointer s t b)
  unfolding get_level
  get_level-pointer s t b h = find_ptr-contents t (h.sides s).levels

  pub half-store :
      (s : Side) (b : Book Double) (p : ℕ) (q : List (Order Double))
      → half s (store b p q) ≡ half s b
  half-store buy b p q = refl
  half-store sell b p q = refl

  pub half-with_half :
      (s s' : Side) (h : Half) (b : Book Double)
      → half s' (with_half s h b) ≡ (if same_side s s' then h else half s' b)
  half-with_half buy buy h b = refl
  half-with_half buy sell h b = refl
  half-with_half sell buy h b = refl
  half-with_half sell sell h b = refl

  pub store-IsSound :
      {b : Book Double} (p : ℕ) (q : List (Order Double)) → IsSound b → IsSound (store b p q)
  store-IsSound {b} p q h =
      subst (λ hs. IsLayout hs (length (store b p q).heap) b.free_levels)
        (fun_ext (λ s. sym (half-store s b p q)))
        (rw (length-set b.heap p (record { tick = (deref b p).tick; q = q })) h)

  pub pointer-store :
      (s : Side) (t : ℤ) (b : Book Double) (p : ℕ) (q : List (Order Double))
      → pointer s t (store b p q) ≡ pointer s t b
  pointer-store s t b p q = ap (λ (h : Half). contents h.levels t) (half-store s b p q)

  deref-store_self :
      (b : Book Double) (p : ℕ) (q : List (Order Double))
      → p < length b.heap
      → (deref (store b p q) p).q ≡ q
  deref-store_self b p q h =
      ap (λ (l : Level Double). l.q)
        (get_or-set_self b.heap p (record { tick = (deref b p).tick; q = q })
          (record { tick = pos 0; q = [] }) h)

  deref-store_other :
      (b : Book Double) (p p' : ℕ) (q : List (Order Double))
      → p ≢ p'
      → (deref (store b p q) p').q ≡ (deref b p').q
  deref-store_other b p p' q h =
      ap (λ (l : Level Double). l.q)
        (get_or-set_ne b.heap p p' (record { tick = (deref b p).tick; q = q })
          (record { tick = pos 0; q = [] }) h)

  -- A write through a level's pointer changes the queue of that level alone.
  pub queue-store :
      (s s' : Side) (t t' : ℤ) (b : Book Double) (p : ℕ) (q : List (Order Double))
      → IsSound b
      → pointer s t b ≡ some p
      → queue s' t' (store b p q) ≡ (if same_level s t s' t' then q else queue s' t' b)
  unfolding queue
  queue-store s s' t t' b p q h e = elim (Bool-cases (same_level s t s' t')) [
    | inl same ↦
        let (ss, tt') = (same_level_iff s s' t t').0 same in
        let e' : pointer s' t' b ≡ some p = sym (ap₂ (λ x y. pointer x y b) ss tt') ∙ e in
        rw same (
          ap (queue_at (store b p q)) (pointer-store s' t' b p q ∙ e')
          ∙ deref-store_self b p q (h.allocated s t p e))
    | inr other ↦ rw other (
        ap (queue_at (store b p q)) (pointer-store s' t' b p q)
        ∙ elsewhere other (pointer s' t' b) refl)
  ]
    where
      elsewhere :
          same_level s t s' t' ≡ false
          → (o : Option ℕ) → pointer s' t' b ≡ o
          → queue_at (store b p q) o ≡ queue_at b o
      elsewhere other none at = refl
      elsewhere other (some p') at = deref-store_other b p p' q (λ c.
          let at' : pointer s' t' b ≡ some p = at ∙ ap some (sym c) in
          let same = (same_level_iff s s' t t').1 (h.apart s s' t t' p e at') in
          let bad : true ≡ false = sym same ∙ other in cc)
