-- ===== src/SpscRing/Queue.antt =====
-- The ring is a bounded queue: its slots hold the objects of the queue, oldest at the tail counter,
-- also when the counters wrap.
use Prim.Native.Nat.{◌∣◌}
use native.Mathlib.Nat.{mod-mod_of_dvd, mod-add-mod, add-mod_right}
use pmr_market_simulator.Prelude.{
  ℕ, zero, suc, ◌+◌, ◌-◌, ◌%◌, ◌^◌, ◌<◌, ◌≤◌, ◌≡◌, refl, sym, ap, ◌∙◌, none, some, List, [], ◌∷◌,
  ◌++◌, arith, length, get_or, get_elem?, set, ◌==◌, if◌then◌else◌, Bool-cases, length-append,
  length-set, get_or-set_self, get_or-set_ne, inl, inr,
}
use pmr_market_simulator.Prelude.Mask.{mask-eq-mod}
use pmr_market_simulator.SpscRing.{SpscRing, sub_size, next_size, slot_at}

-- What the assertions on the template argument say, for a `std::size_t`.
pub record IsCapacity (cap : ℕ) : Type 0 where
  pub exponent : (k : ℕ) × (cap ≡ 2 ^ k)
  pub divides : cap ∣ 2 ^ 64
  pub at_least : 2 ≤ cap
  pub fits : cap < 2 ^ 64

pub slot_at-mod : (cap x : ℕ) → IsCapacity cap → slot_at cap x ≡ x % cap
slot_at-mod cap x h =
    mask-eq-mod h.exponent.0 x (cap - 1) (omega (arith, h.at_least, h.exponent.1))
    ∙ ap (λ (c : ℕ). x % c) (sym h.exponent.1)

-- Counters that wrap name the same slot as counters that do not.
pub wrapped : (cap x i : ℕ) → IsCapacity cap → (x % 2 ^ 64 + i) % cap ≡ (x + i) % cap
wrapped cap x i h =
    sym (mod-add-mod (x % 2 ^ 64) cap i)
    ∙ ap (λ (y : ℕ). (y + i) % cap) (mod-mod_of_dvd cap x h.divides)
    ∙ mod-add-mod x cap i

pub same_slot : (cap t i j : ℕ) → i < cap → j < cap → (t + i) % cap ≡ (t + j) % cap → i ≡ j
same_slot cap t i j hi hj e = grind arith

module _ {ℓ} {T : Type ℓ} where
  pub get_elem?-append :
      (xs : List T) (v : T) (j : ℕ)
      → get_elem? (xs ++ (v ∷ [])) j ≡ (if j == length xs then some v else get_elem? xs j)
  get_elem?-append [] v zero = refl
  get_elem?-append [] v (suc j) = ground arith
  get_elem?-append (x ∷ xs) v zero = ground arith
  get_elem?-append (x ∷ xs) v (suc j) = ground (arith, get_elem?-append xs v j)

  pub get_elem?-none : (xs : List T) (j : ℕ) → length xs ≤ j → get_elem? xs j ≡ none
  get_elem?-none [] j h = refl
  get_elem?-none (x ∷ xs) zero h = absurd (omega arith)
  get_elem?-none (x ∷ xs) (suc j) h = get_elem?-none xs j (omega arith)

  -- The ring holds the objects of the list, and every other slot is free.
  pub record Holds (cap : ℕ) (r : SpscRing T) (xs : List T) : Type ℓ where
    pub slots : length r.buf ≡ cap
    pub bounded : length xs ≤ cap
    pub tail : r.tail < 2 ^ 64
    pub head : r.head ≡ (r.tail + length xs) % 2 ^ 64
    pub reads : (j : ℕ) → j < cap → get_or r.buf ((r.tail + j) % cap) none ≡ get_elem? xs j

  pub sub_size-Holds :
      (cap : ℕ) (r : SpscRing T) (xs : List T)
      → IsCapacity cap
      → Holds cap r xs
      → sub_size r.head r.tail ≡ length xs
  sub_size-Holds cap r xs c h = omega (arith, h.bounded, h.tail, h.head, c.fits)

  pub empty-Holds :
      (cap : ℕ) (r : SpscRing T) (xs : List T)
      → IsCapacity cap
      → Holds cap r xs
      → (r.tail == r.head) ≡ (length xs == 0)
  empty-Holds cap r xs c h = ground (arith, h.bounded, h.tail, h.head, c.fits)

  -- A ring that is not full takes the object as the newest one.
  pub Holds-push :
      (cap : ℕ) (v : T) (r : SpscRing T) (xs : List T)
      → IsCapacity cap
      → Holds cap r xs
      → length xs < cap
      → Holds cap
          (record r { buf = set r.buf (slot_at cap r.head) (some v); head = next_size r.head })
          (xs ++ (v ∷ []))
  Holds-push cap v r xs c h room =
      let at : slot_at cap r.head ≡ (r.tail + length xs) % cap =
        slot_at-mod cap r.head c
        ∙ ap (λ (x : ℕ). x % cap) h.head
        ∙ mod-mod_of_dvd cap (r.tail + length xs) c.divides in
      let inside : (r.tail + length xs) % cap < length r.buf = omega (arith, h.slots, c.at_least) in
      record {
        slots = length-set r.buf (slot_at cap r.head) (some v) ∙ h.slots;
        bounded = omega (arith, length-append xs (v ∷ []));
        tail = h.tail;
        head = omega (arith, h.head, length-append xs (v ∷ []));
        reads = λ j lt. elim (Bool-cases (j == length xs)) [
          | inl last ↦
              let e : j ≡ length xs = ground (arith, last) in
              rw (at, get_elem?-append xs v j, last)
                (ap
                    (λ (i : ℕ).
                      get_or (set r.buf ((r.tail + length xs) % cap) (some v)) ((r.tail + i) % cap)
                        none)
                    e
                  ∙ get_or-set_self r.buf ((r.tail + length xs) % cap) (some v) none inside)
          | inr other ↦
              rw (at, get_elem?-append xs v j, other)
                (get_or-set_ne r.buf ((r.tail + length xs) % cap) ((r.tail + j) % cap) (some v) none
                    (λ e.
                      let same = same_slot cap r.tail (length xs) j room lt e in
                      ground (arith, same, other))
                  ∙ h.reads j lt)
        ];
      }

  -- A ring that is not empty gives the oldest object and frees its slot.
  pub Holds-pop :
      (cap : ℕ) (r : SpscRing T) (x : T) (xs : List T)
      → IsCapacity cap
      → Holds cap r (x ∷ xs)
      → (get_or r.buf (slot_at cap r.tail) none ≡ some x)
        × Holds cap
            (record r { buf = set r.buf (slot_at cap r.tail) none; tail = next_size r.tail })
            xs
  Holds-pop cap r x xs c h =
      let at : slot_at cap r.tail ≡ (r.tail + 0) % cap =
        slot_at-mod cap r.tail c ∙ ap (λ (y : ℕ). y % cap) (omega arith) in
      let inside : (r.tail + 0) % cap < length r.buf = omega (arith, h.slots, c.at_least) in
      (
        rw at (h.reads 0 (omega (arith, c.at_least))),
        record {
          slots = length-set r.buf (slot_at cap r.tail) none ∙ h.slots;
          bounded = omega (arith, h.bounded);
          tail = omega arith;
          head = omega (arith, h.head);
          reads = λ j lt.
              rw (at, wrapped cap (r.tail + 1) j c)
                (elim (Bool-cases (suc j == cap)) [
                  | inl last ↦
                      let round : (r.tail + 1 + j) % cap ≡ (r.tail + 0) % cap =
                        ap (λ (y : ℕ). y % cap) (ground (arith, last))
                        ∙ add-mod_right (r.tail + 0) cap in
                      rw round (
                        get_or-set_self r.buf ((r.tail + 0) % cap) none none inside
                        ∙ sym (get_elem?-none xs j (ground (arith, h.bounded, last))))
                  | inr more ↦
                      let lt' : suc j < cap = ground (arith, more) in
                      let e : (r.tail + 1 + j) % cap ≡ (r.tail + suc j) % cap =
                        ap (λ (y : ℕ). y % cap) (omega arith) in
                      rw e (
                        get_or-set_ne r.buf ((r.tail + 0) % cap) ((r.tail + suc j) % cap) none none
                          (λ same.
                            let zero_is =
                              same_slot cap r.tail 0 (suc j) (omega (arith, c.at_least)) lt' same in
                            omega arith)
                        ∙ h.reads (suc j) lt')
                ]);
        },
      )
