-- ===== src/FlatHash/Placed.antt =====
-- The invariant of the entry array: distinct keys, each reachable from its home. Writes keep it.
use native.Mathlib.Decide.{dec_lt}
use pmr_market_simulator.Prelude.{
  ℕ, zero, suc, ◌+◌, ◌<◌, ◌≡◌, ◌≢◌, ◌⊎◌, inl, inr, refl, sym, ap, ◌∙◌, none, List, [], ◌∷◌, arith,
  length, set, get_or-set, length-set, length-replicate, get_or-replicate,
}
use pmr_market_simulator.FlatHash.{Key, Entry, empty, filled, tomb, slot, home}
use pmr_market_simulator.FlatHash.Table.{
  view, Distinct, one_if_filled, nowhere_absent, Distinct-set_filled, Distinct-set_tomb, blank,
  Distinct-blank,
}
use pmr_market_simulator.FlatHash.Probe.{
  IsMask, step_to, step_to-lt, home-lt, step_to_onto, step_to_injective,
}
use pmr_market_simulator.FlatHash.Search.{Misses-ne_empty, Misses-ne_filled, on_path, Passed, Finds}

module _ {ℓ} {K V : Type ℓ} where
  pub slot-lt : (t : List (Entry K V)) (i : ℕ) → slot t i ≢ empty → i < length t
  slot-lt [] i h = absurd (h refl)
  slot-lt (e ∷ t) zero h = omega arith
  slot-lt (e ∷ t) (suc i) h = omega (arith, slot-lt t i h)

  -- What a slot holds after a write is what was written there, or what it held before.
  pub slot-set :
      (t : List (Entry K V)) (i j : ℕ) (x : Entry K V)
      → (i ≡ j) × (slot (set t i x) j ≡ x) ⊎ (slot (set t i x) j ≡ slot t j)
  slot-set t i j x = ground (arith, get_or-set t i j x empty)

  pub slot-set-ne_empty :
      (t : List (Entry K V)) (i j : ℕ) (x : Entry K V)
      → x ≢ empty
      → slot t j ≢ empty
      → slot (set t i x) j ≢ empty
  slot-set-ne_empty t i j x hx ht e = elim (slot-set t i j x) [
    | inl (_, w) ↦ hx (sym w ∙ e)
    | inr w ↦ ht (sym w ∙ e)
  ]

module _ {ℓ} {K V : Type ℓ} ⦃key : Key K⦄ where
  pub record IsPlaced (mask : ℕ) (t : List (Entry K V)) : Type ℓ where
    pub width : length t ≡ mask + 1
    pub distinct : Distinct t
    pub reach :
        (k : K) (v : V) (d e : ℕ)
        → d < mask + 1
        → on_path t mask k d ≡ filled k v
        → e < d
        → on_path t mask k e ≢ empty

  -- A search that ends at an Empty slot shows that the key is absent.
  pub Finds-absent :
      (t : List (Entry K V)) (mask : ℕ) (k : K)
      → IsMask mask
      → IsPlaced mask t
      → Finds t mask k none
      → view t k ≡ none
  Finds-absent t mask k is_mask p (d, at_d, passed, _) = nowhere_absent t k λ i v here.
      let bound : i < length t =
        slot-lt t i (λ e. (let c : filled k v ≡ empty = sym here ∙ e in cc)) in
      let (d', lt, onto) =
        step_to_onto mask (home mask k) i (home-lt mask k is_mask) (omega (arith, p.width)) in
      let here' : on_path t mask k d' ≡ filled k v = ap (slot t) onto ∙ here in
      elim (dec_lt d' d) [
        | yes before ↦ Misses-ne_filled k _ v (passed d' before) here'
        | no not_before ↦ elim (dec_lt d d') [
          | yes after ↦ p.reach k v d' d lt here' after at_d
          | no not_after ↦
              let same : d' ≡ d = omega arith in
              let c : filled k v ≡ empty = sym here' ∙ ap (on_path t mask k) same ∙ at_d in cc
        ]
      ]

  -- Filling a free slot on the path of an absent key.
  pub set_filled-IsPlaced :
      (t : List (Entry K V)) (mask : ℕ) (k : K) (v : V) (i d : ℕ)
      → IsMask mask
      → IsPlaced mask t
      → one_if_filled (slot t i) ≡ 0
      → view t k ≡ none
      → d < mask + 1
      → step_to mask (home mask k) d ≡ i
      → Passed t mask k d
      → IsPlaced mask (set t i (filled k v))
  set_filled-IsPlaced t mask k v i d is_mask p free absent lt at passed = record {
    width = length-set t i (filled k v) ∙ p.width;
    distinct =
        Distinct-set_filled t i k v (omega (arith, p.width, step_to-lt mask (home mask k) d)) free
          absent p.distinct;
    reach = λ q w d' e lt' here before.
        slot-set-ne_empty t i _ (filled k v) (λ c. (cc))
          (elim (slot-set t i (step_to mask (home mask q) d') (filled k v)) [
            | inr old ↦ p.reach q w d' e lt' (sym old ∙ here) before
            | inl (there, new) ↦
                let same : filled k v ≡ filled q w = sym new ∙ here in
                let kq : k ≡ q = cc in
                let at' : step_to mask (home mask k) d' ≡ i =
                  ap (λ x. step_to mask (home mask x) d') kq ∙ sym there in
                let dd : d' ≡ d =
                  step_to_injective mask (home mask k) d' d (home-lt mask k is_mask) lt' lt
                    (at' ∙ sym at) in
                rw (← kq) (Misses-ne_empty k _ (passed e (omega arith)))
          ]);
  }

  -- A tombstone over an entry.
  pub set_tomb-IsPlaced :
      (t : List (Entry K V)) (mask i : ℕ) → IsPlaced mask t → IsPlaced mask (set t i tomb)
  set_tomb-IsPlaced t mask i p = record {
    width = length-set t i tomb ∙ p.width;
    distinct = Distinct-set_tomb t i p.distinct;
    reach = λ q w d e lt here before.
        slot-set-ne_empty t i _ tomb (λ c. (cc))
          (elim (slot-set t i (step_to mask (home mask q) d) tomb) [
            | inr old ↦ p.reach q w d e lt (sym old ∙ here) before
            | inl (there, new) ↦ (let c : tomb ≡ filled q w = sym new ∙ here in cc)
          ]);
  }

  -- An array of Empty entries.
  pub blank-IsPlaced : (mask : ℕ) → IsPlaced mask (blank K V (mask + 1))
  blank-IsPlaced mask = record {
    width = length-replicate (mask + 1) empty;
    distinct = Distinct-blank K V (mask + 1);
    reach = λ k v d e lt here before.
        (let c : empty ≡ filled k v =
            sym (get_or-replicate (mask + 1) (step_to mask (home mask k) d) empty) ∙ here in
          cc);
  }
