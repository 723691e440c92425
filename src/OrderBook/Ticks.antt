-- ===== src/OrderBook/Ticks.antt =====
-- The list of active ticks of a side, and the best tick kept beside it.
use pmr_market_simulator.Prelude.{
  ℕ, ◌+◌, ◌-◌, ◌<◌, ◌≡◌, inl, inr, refl, ap, true, false, Option, none, some, List, [], ◌∷◌, ◌++◌,
  arith, if◌then◌else◌, Bool-cases,
}
use pmr_market_simulator.Prelude.Int.{ℤ, eqbℤ, eqbℤ_iff, eq_of_parts}
use pmr_market_simulator.Event.{Side, buy, sell}
use pmr_market_simulator.OrderBook.{
  Half, better, improve, last_first, remove_active_tick, best_of, best_tick, drop_tick, is_best,
}

unfoldable pub count : ℤ → List ℤ → ℕ
count t [] = 0
count t (x ∷ xs) = (if eqbℤ x t then 1 else 0) + count t xs

pub count-append : (t : ℤ) (xs ys : List ℤ) → count t (xs ++ ys) ≡ count t xs + count t ys
unfolding count
count-append t [] ys = omega arith
count-append t (x ∷ xs) ys = omega (arith, count-append t xs ys)

count-last_first : (t : ℤ) (xs : List ℤ) → count t (last_first xs) ≡ count t xs
unfolding count
count-last_first t [] = refl
count-last_first t (x ∷ xs) = go (last_first xs) refl (count-last_first t xs)
  where
    go :
        (l : List ℤ)
        → last_first xs ≡ l
        → count t (last_first xs) ≡ count t xs
        → count t (last_first (x ∷ xs)) ≡ count t (x ∷ xs)
    go [] e h = rw (e, last_first) (omega (arith, ap (count t) e))
    go (y ∷ ys) e h = rw (e, last_first) (omega (arith, ap (count t) e))

-- The swap with the last element and the pop take away one occurrence of the tick, and nothing else.
pub count-remove_active_tick :
    (t x : ℤ) (xs : List ℤ)
    → count t (remove_active_tick x xs) ≡ (if eqbℤ x t then count t xs - 1 else count t xs)
unfolding count remove_active_tick
count-remove_active_tick t x [] = ground arith
count-remove_active_tick t x (y ∷ ys) = ground (
  arith,
  count-remove_active_tick t x ys,
  count-last_first t ys,
  eqbℤ_iff y x,
  eqbℤ_iff y t,
  eqbℤ_iff x t,
)

-- The best tick: none if there is no tick, and otherwise one that no tick is better than.
abbrev pub IsBest : Side → List ℤ → Option ℤ → Type 0
IsBest side ticks none = (t : ℤ) → count t ticks ≡ 0
IsBest side ticks (some best) =
    (0 < count best ticks) × ((t : ℤ) → 0 < count t ticks → better side t best ≡ false)

pub better_irrefl : (side : Side) (a : ℤ) → better side a a ≡ false
better_irrefl buy a = ground arith
better_irrefl sell a = ground arith

-- No worse than `b`, which is no worse than `c`.
not_better_trans :
    (side : Side) (a b c : ℤ)
    → better side a b ≡ false
    → better side b c ≡ false
    → better side a c ≡ false
not_better_trans buy a b c h k = ground arith
not_better_trans sell a b c h k = ground arith

pub better_asymm : (side : Side) (a b : ℤ) → better side a b ≡ true → better side b a ≡ false
better_asymm buy a b h = ground arith
better_asymm sell a b h = ground arith

pub better_trans :
    (side : Side) (a b c : ℤ)
    → better side a b ≡ true
    → better side b c ≡ true
    → better side a c ≡ true
better_trans buy a b c h k = ground arith
better_trans sell a b c h k = ground arith

pub better_total :
    (side : Side) (a b : ℤ) → better side a b ≡ false → better side b a ≡ false → a ≡ b
better_total buy a b h k = eq_of_parts a b (ground arith)
better_total sell a b h k = eq_of_parts a b (ground arith)

count_self : (t : ℤ) (xs : List ℤ) → 0 < count t (t ∷ xs)
unfolding count
count_self t xs = ground arith

pub count_other : (x t : ℤ) (xs : List ℤ) → eqbℤ x t ≡ false → count t (x ∷ xs) ≡ count t xs
unfolding count
count_other x t xs h = rw h (omega arith)

-- Adding ticks that are no better than one that is there already.
IsBest-cons :
    (side : Side) (x kept r : ℤ) (vs : List ℤ)
    → better side x kept ≡ false
    → IsBest side (kept ∷ vs) (some r)
    → IsBest side (x ∷ kept ∷ vs) (some r)
unfolding count
IsBest-cons side x kept r vs worse (here, least) = (
  omega arith,
  λ t h. elim (Bool-cases (eqbℤ x t)) [
    | inl e ↦
        let worse' : better side t kept ≡ false = rw (← (eqbℤ_iff x t).0 e) worse in
        not_better_trans side t kept r worse' (least kept (count_self kept vs))
    | inr e ↦
        (let h' : 0 < count t (kept ∷ vs) = rw (← count_other x t (kept ∷ vs) e) h in least t h')
  ],
)

IsBest-swap :
    (side : Side) (x y r : ℤ) (vs : List ℤ)
    → IsBest side (x ∷ y ∷ vs) (some r)
    → IsBest side (y ∷ x ∷ vs) (some r)
unfolding count
IsBest-swap side x y r vs (here, least) = (omega arith, λ t h. least t (omega arith))

-- The fold of `std::max` or `std::min` over the ticks.
best_of-IsBest :
    (side : Side) (best : ℤ) (vs : List ℤ) → IsBest side (best ∷ vs) (some (best_of side best vs))
unfolding best_of
best_of-IsBest side best [] = (
  count_self best [],
  λ t h. elim (Bool-cases (eqbℤ best t)) [
    | inl e ↦ rw ((eqbℤ_iff best t).0 e) (better_irrefl side t)
    | inr e ↦ absurd (unfold count in omega (arith, count_other best t [] e))
  ],
)
best_of-IsBest side best (v ∷ vs) = elim (Bool-cases (better side v best)) [
  | inl up ↦ rw up (
      IsBest-cons side best v (best_of side v vs) vs (better_asymm side v best up)
        (best_of-IsBest side v vs))
  | inr keep ↦ rw keep (
      IsBest-swap side v best (best_of side best vs) vs
        (IsBest-cons side v best (best_of side best vs) vs keep (best_of-IsBest side best vs)))
]

-- `recompute_best` finds the best of the active ticks.
pub best_tick-IsBest : (side : Side) (ticks : List ℤ) → IsBest side ticks (best_tick side ticks)
unfolding count
best_tick-IsBest side [] = λ t. refl
best_tick-IsBest side (v ∷ vs) = best_of-IsBest side v vs

-- `add_active_tick` keeps the best tick right.
pub improve-IsBest :
    (side : Side) (t : ℤ) (ticks : List ℤ) (best : Option ℤ)
    → IsBest side ticks best
    → IsBest side (ticks ++ (t ∷ [])) (improve side t best)
unfolding count
improve-IsBest side t ticks none h = (
  omega (arith, count-append t ticks (t ∷ []), count_self t []),
  λ x p. elim (Bool-cases (eqbℤ t x)) [
    | inl e ↦ rw ((eqbℤ_iff t x).0 e) (better_irrefl side x)
    | inr e ↦ absurd (omega (arith, count-append x ticks (t ∷ []), count_other t x [] e, h x))
  ],
)
improve-IsBest side t ticks (some b) (here, least) = elim (Bool-cases (better side t b)) [
  | inl up ↦ rw up (
    omega (arith, count-append t ticks (t ∷ []), count_self t []),
    λ x p. elim (Bool-cases (eqbℤ t x)) [
      | inl e ↦ rw ((eqbℤ_iff t x).0 e) (better_irrefl side x)
      | inr e ↦
          not_better_trans side x b t
            (least x (omega (arith, count-append x ticks (t ∷ []), count_other t x [] e)))
            (better_asymm side t b up)
    ],
  )
  | inr keep ↦ rw keep (
    omega (arith, count-append b ticks (t ∷ [])),
    λ x p. elim (Bool-cases (eqbℤ t x)) [
      | inl e ↦ rw (← (eqbℤ_iff t x).0 e) keep
      | inr e ↦ least x (omega (arith, count-append x ticks (t ∷ []), count_other t x [] e))
    ],
  )
]

-- If the best tick kept beside a list of ticks is a best one of them (none if there are none), then it
-- is so again after `drop_tick`, for the list that is left.
pub drop_tick-IsBest :
    (side : Side) (t : ℤ) (h : Half)
    → IsBest side h.ticks h.best
    → IsBest side (drop_tick side t h).ticks (drop_tick side t h).best
unfolding drop_tick
drop_tick-IsBest side t h ok = elim (Bool-cases (is_best t h.best)) [
  | inl gone ↦ rw gone (best_tick-IsBest side (remove_active_tick t h.ticks))
  | inr stays ↦ rw stays (keep h.best ok stays)
]
  where
    keep :
        (best : Option ℤ)
        → IsBest side h.ticks best
        → is_best t best ≡ false
        → IsBest side (remove_active_tick t h.ticks) best
    keep none a e = λ x. ground (arith, a x, count-remove_active_tick x t h.ticks)
    keep (some b) (here, least) e = (
      ground (arith, count-remove_active_tick b t h.ticks, eqbℤ_iff b t, eqbℤ_iff t b),
      λ x p. least x (ground (arith, count-remove_active_tick x t h.ticks)),
    )

pub ticks-drop_tick :
    (side : Side) (t : ℤ) (h : Half) → (drop_tick side t h).ticks ≡ remove_active_tick t h.ticks
unfolding drop_tick
ticks-drop_tick side t h = ground arith

pub levels-drop_tick : (side : Side) (t : ℤ) (h : Half) → (drop_tick side t h).levels ≡ h.levels
unfolding drop_tick
levels-drop_tick side t h = ground arith
