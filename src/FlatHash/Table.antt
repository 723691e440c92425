-- ===== src/FlatHash/Table.antt =====
-- The entry array as a list: the map that it stands for, keys that occur once, and the counters.
use pmr_market_simulator.Prelude.{
  ℕ, zero, suc, ◌+◌, ◌<◌, ◌≡◌, ◌≢◌, refl, Option, none, some, List, [], ◌∷◌, arith, length, set,
  replicate, if◌then◌else◌,
}
use pmr_market_simulator.FlatHash.{Key, Entry, empty, filled, tomb, slot}

module _ {ℓ} {K V : Type ℓ} where
  abbrev pub one_if_filled : Entry K V → ℕ
  one_if_filled empty = 0
  one_if_filled tomb = 0
  one_if_filled (filled k v) = 1

  abbrev pub one_if_tomb : Entry K V → ℕ
  one_if_tomb empty = 0
  one_if_tomb tomb = 1
  one_if_tomb (filled k v) = 0

  unfoldable pub count_filled : List (Entry K V) → ℕ
  count_filled [] = 0
  count_filled (e ∷ t) = one_if_filled e + count_filled t

  unfoldable pub count_tombs : List (Entry K V) → ℕ
  count_tombs [] = 0
  count_tombs (e ∷ t) = one_if_tomb e + count_tombs t

  pub count_filled-set :
      (t : List (Entry K V)) (i : ℕ) (e : Entry K V)
      → i < length t
      → count_filled (set t i e) + one_if_filled (slot t i) ≡ count_filled t + one_if_filled e
  unfolding count_filled
  count_filled-set [] i e h = absurd (omega arith)
  count_filled-set (x ∷ t) zero e h = omega arith
  count_filled-set (x ∷ t) (suc i) e h = omega (arith, count_filled-set t i e (omega arith))

  pub count_tombs-set :
      (t : List (Entry K V)) (i : ℕ) (e : Entry K V)
      → i < length t
      → count_tombs (set t i e) + one_if_tomb (slot t i) ≡ count_tombs t + one_if_tomb e
  unfolding count_tombs
  count_tombs-set [] i e h = absurd (omega arith)
  count_tombs-set (x ∷ t) zero e h = omega arith
  count_tombs-set (x ∷ t) (suc i) e h = omega (arith, count_tombs-set t i e (omega arith))

  -- Fewer entries in use than slots: some slot is Empty.
  pub empty-slot :
      (t : List (Entry K V))
      → count_filled t + count_tombs t < length t
      → (i : ℕ) × (i < length t) × (slot t i ≡ empty)
  unfolding count_filled count_tombs
  empty-slot [] h = absurd (omega arith)
  empty-slot (empty ∷ t) h = (0, omega arith, refl)
  empty-slot (tomb ∷ t) h = let (i, b, e) = empty-slot t (omega arith) in (suc i, omega arith, e)
  empty-slot (filled k v ∷ t) h =
      let (i, b, e) = empty-slot t (omega arith) in (suc i, omega arith, e)

module _ {ℓ} {K V : Type ℓ} ⦃key : Key K⦄ where
  -- The map that a table stands for, whatever the order of its entries.
  unfoldable pub view : List (Entry K V) → K → Option V
  view [] q = none
  view (empty ∷ t) q = view t q
  view (tomb ∷ t) q = view t q
  view (filled k v ∷ t) q = if key.beq k q then some v else view t q

  -- No key stands in two Filled entries.
  abbrev pub Distinct : List (Entry K V) → Type ℓ
  Distinct [] = Unit {ℓ}
  Distinct (empty ∷ t) = Distinct t
  Distinct (tomb ∷ t) = Distinct t
  Distinct (filled k v ∷ t) = (view t k ≡ none) × Distinct t

  -- An absent key stands in no entry.
  pub absent_nowhere :
      (t : List (Entry K V)) (i : ℕ) (k : K) (v : V) → view t k ≡ none → slot t i ≢ filled k v
  unfolding view
  absent_nowhere [] i k v h e = cc
  absent_nowhere (empty ∷ t) zero k v h e = cc
  absent_nowhere (empty ∷ t) (suc i) k v h e = absent_nowhere t i k v h e
  absent_nowhere (tomb ∷ t) zero k v h e = cc
  absent_nowhere (tomb ∷ t) (suc i) k v h e = absent_nowhere t i k v h e
  absent_nowhere (filled j w ∷ t) zero k v h e = ground (arith, key.beq_iff j k)
  absent_nowhere (filled j w ∷ t) (suc i) k v h e = ground (arith, absent_nowhere t i k v)

  -- A key that stands in no entry is absent.
  pub nowhere_absent :
      (t : List (Entry K V)) (k : K) → ((i : ℕ) (v : V) → slot t i ≢ filled k v) → view t k ≡ none
  unfolding view
  nowhere_absent [] k h = refl
  nowhere_absent (empty ∷ t) k h = nowhere_absent t k (λ i. h (suc i))
  nowhere_absent (tomb ∷ t) k h = nowhere_absent t k (λ i. h (suc i))
  nowhere_absent (filled j w ∷ t) k h =
      ground (arith, key.beq_iff j k, h 0 w, nowhere_absent t k (λ i. h (suc i)))

  -- With distinct keys, an entry is what the map holds at its key.
  pub view-slot :
      (t : List (Entry K V)) (i : ℕ) (k : K) (v : V)
      → Distinct t
      → slot t i ≡ filled k v
      → view t k ≡ some v
  unfolding view
  view-slot [] i k v d e = cc
  view-slot (empty ∷ t) zero k v d e = cc
  view-slot (empty ∷ t) (suc i) k v d e = view-slot t i k v d e
  view-slot (tomb ∷ t) zero k v d e = cc
  view-slot (tomb ∷ t) (suc i) k v d e = view-slot t i k v d e
  view-slot (filled j w ∷ t) zero k v d e = ground (arith, key.beq_iff j k)
  view-slot (filled j w ∷ t) (suc i) k v d e =
      ground (arith, key.beq_iff j k, absent_nowhere t i k v, view-slot t i k v d.1)

  -- Filling a slot that was not Filled, with a key that was absent.
  pub view-set_filled :
      (t : List (Entry K V)) (i : ℕ) (k : K) (v : V) (q : K)
      → i < length t
      → one_if_filled (slot t i) ≡ 0
      → view t k ≡ none
      → view (set t i (filled k v)) q ≡ (if key.beq k q then some v else view t q)
  unfolding view
  view-set_filled [] i k v q b f h = absurd (omega arith)
  view-set_filled (empty ∷ t) zero k v q b f h = refl
  view-set_filled (tomb ∷ t) zero k v q b f h = refl
  view-set_filled (filled j w ∷ t) zero k v q b f h = absurd (omega arith)
  view-set_filled (empty ∷ t) (suc i) k v q b f h = view-set_filled t i k v q (omega arith) f h
  view-set_filled (tomb ∷ t) (suc i) k v q b f h = view-set_filled t i k v q (omega arith) f h
  view-set_filled (filled j w ∷ t) (suc i) k v q b f h =
      ground (arith, view-set_filled t i k v q, key.beq_iff j q, key.beq_iff k q, key.beq_iff j k)

  pub Distinct-set_filled :
      (t : List (Entry K V)) (i : ℕ) (k : K) (v : V)
      → i < length t
      → one_if_filled (slot t i) ≡ 0
      → view t k ≡ none
      → Distinct t
      → Distinct (set t i (filled k v))
  unfolding view
  Distinct-set_filled [] i k v b f h d = absurd (omega arith)
  Distinct-set_filled (empty ∷ t) zero k v b f h d = (h, d)
  Distinct-set_filled (tomb ∷ t) zero k v b f h d = (h, d)
  Distinct-set_filled (filled j w ∷ t) zero k v b f h d = absurd (omega arith)
  Distinct-set_filled (empty ∷ t) (suc i) k v b f h d =
      Distinct-set_filled t i k v (omega arith) f h d
  Distinct-set_filled (tomb ∷ t) (suc i) k v b f h d =
      Distinct-set_filled t i k v (omega arith) f h d
  Distinct-set_filled (filled j w ∷ t) (suc i) k v b f h d =
      let h' : view t k ≡ none = ground arith in
      (
        ground (arith, view-set_filled t i k v j, key.beq_iff j k, key.beq_iff k j),
        Distinct-set_filled t i k v (omega arith) f h' d.1,
      )

  view-set_tomb_absent :
      (t : List (Entry K V)) (i : ℕ) (q : K) → view t q ≡ none → view (set t i tomb) q ≡ none
  unfolding view
  view-set_tomb_absent [] i q h = refl
  view-set_tomb_absent (empty ∷ t) zero q h = h
  view-set_tomb_absent (tomb ∷ t) zero q h = h
  view-set_tomb_absent (filled j w ∷ t) zero q h = ground arith
  view-set_tomb_absent (empty ∷ t) (suc i) q h = view-set_tomb_absent t i q h
  view-set_tomb_absent (tomb ∷ t) (suc i) q h = view-set_tomb_absent t i q h
  view-set_tomb_absent (filled j w ∷ t) (suc i) q h = ground (arith, view-set_tomb_absent t i q)

  -- A tombstone over an entry removes its key and nothing else.
  pub view-set_tomb :
      (t : List (Entry K V)) (i : ℕ) (k : K) (v : V) (q : K)
      → Distinct t
      → slot t i ≡ filled k v
      → view (set t i tomb) q ≡ (if key.beq k q then none else view t q)
  unfolding view
  view-set_tomb [] i k v q d e = cc
  view-set_tomb (empty ∷ t) zero k v q d e = cc
  view-set_tomb (tomb ∷ t) zero k v q d e = cc
  view-set_tomb (filled j w ∷ t) zero k v q d e = ground (arith, key.beq_iff j q, key.beq_iff k q)
  view-set_tomb (empty ∷ t) (suc i) k v q d e = view-set_tomb t i k v q d e
  view-set_tomb (tomb ∷ t) (suc i) k v q d e = view-set_tomb t i k v q d e
  view-set_tomb (filled j w ∷ t) (suc i) k v q d e = ground (
    arith,
    view-set_tomb t i k v q d.1 e,
    key.beq_iff j q,
    key.beq_iff k q,
    absent_nowhere t i k v,
  )

  pub Distinct-set_tomb : (t : List (Entry K V)) (i : ℕ) → Distinct t → Distinct (set t i tomb)
  Distinct-set_tomb [] i d = tt
  Distinct-set_tomb (empty ∷ t) zero d = d
  Distinct-set_tomb (tomb ∷ t) zero d = d
  Distinct-set_tomb (filled j w ∷ t) zero d = d.1
  Distinct-set_tomb (empty ∷ t) (suc i) d = Distinct-set_tomb t i d
  Distinct-set_tomb (tomb ∷ t) (suc i) d = Distinct-set_tomb t i d
  Distinct-set_tomb (filled j w ∷ t) (suc i) d =
      (view-set_tomb_absent t i j d.0, Distinct-set_tomb t i d.1)

-- A table of Empty slots stands for the empty map.
module _ {ℓ} (K V : Type ℓ) where
  abbrev pub blank : ℕ → List (Entry K V)
  blank n = replicate n empty

  pub count_filled-blank : (n : ℕ) → count_filled (blank n) ≡ 0
  unfolding count_filled
  count_filled-blank zero = refl
  count_filled-blank (suc n) = omega (arith, count_filled-blank n)

  pub count_tombs-blank : (n : ℕ) → count_tombs (blank n) ≡ 0
  unfolding count_tombs
  count_tombs-blank zero = refl
  count_tombs-blank (suc n) = omega (arith, count_tombs-blank n)

  module _ ⦃key : Key K⦄ where
    pub view-blank : (n : ℕ) (q : K) → view (blank n) q ≡ none
    unfolding view
    view-blank zero q = refl
    view-blank (suc n) q = view-blank n q

    pub Distinct-blank : (n : ℕ) → Distinct (blank n)
    Distinct-blank zero = tt
    Distinct-blank (suc n) = Distinct-blank n
