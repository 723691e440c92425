-- ===== src/SpscRing/Slots.antt =====
-- The slots of the ring while both threads are in the middle of a call.
use native.Mathlib.Nat.{mod-mod_of_dvd, add-mod_right}
use pmr_market_simulator.Prelude.{
  ℕ, zero, suc, ◌+◌, ◌%◌, ◌^◌, ◌<◌, ◌≤◌, ◌≡◌, refl, sym, ap, ◌∙◌, Bool, true, false, Option, none,
  some, List, [], ◌∷◌, ◌++◌, ◌&&◌, arith, length, get_or, get_elem?, set, ◌==◌, if◌then◌else◌,
  Bool-cases, length-append, length-set, get_or-set_self, get_or-set_ne, inl, inr,
}
use pmr_market_simulator.SpscRing.{next_size, slot_at}
use pmr_market_simulator.SpscRing.Queue.{
  IsCapacity, slot_at-mod, wrapped, same_slot, get_elem?-append, get_elem?-none,
}
use pmr_market_simulator.SpscRing.Threads.{
  Producer, idle, granted, placed, Consumer, waiting, sees, took,
}

pub tail_slot : (cap tail : ℕ) → IsCapacity cap → slot_at cap tail ≡ (tail + 0) % cap
tail_slot cap tail is = slot_at-mod cap tail is ∙ ap (λ (y : ℕ). y % cap) (omega arith)

module _ {ℓ} {T : Type ℓ} where
  abbrev pub has_taken : Consumer T → Bool
  has_taken waiting = false
  has_taken sees = false
  has_taken (took o) = true

  -- The content of the slot `j` steps behind the tail, where `n` objects are published.
  abbrev pub with_placed : Producer T → ℕ → ℕ → Option T → Option T
  with_placed idle n j o = o
  with_placed (granted v) n j o = o
  with_placed (placed v) n j o = if j == n then some v else o

  abbrev pub expected : Producer T → Consumer T → List T → ℕ → Option T
  expected p c xs j =
      if has_taken c && j == 0 then none else with_placed p (length xs) j (get_elem? xs j)

  abbrev pub HasSpace : ℕ → Producer T → ℕ → Type 0
  HasSpace cap idle n = n ≤ cap
  HasSpace cap (granted v) n = n < cap
  HasSpace cap (placed v) n = n < cap

  abbrev pub HasObject : Consumer T → List T → Type ℓ
  HasObject waiting xs = Unit {ℓ}
  HasObject sees xs = (x : T) × (get_elem? xs 0 ≡ some x)
  HasObject (took o) xs = (x : T) × (get_elem? xs 0 ≡ some x) × (o ≡ some x)

  -- The published objects that the consumer has not released yet are `xs`.
  pub record Slots (cap head tail : ℕ) (buf : List (Option T)) (p : Producer T) (c : Consumer T)
      (xs : List T) : Type ℓ where
    pub slots : length buf ≡ cap
    pub bounded : length xs ≤ cap
    pub tail_word : tail < 2 ^ 64
    pub head_word : head ≡ (tail + length xs) % 2 ^ 64
    pub reads : (j : ℕ) → j < cap → get_or buf ((tail + j) % cap) none ≡ expected p c xs j
    pub space : HasSpace cap p (length xs)
    pub object : HasObject c xs

  first_is : (xs : List T) (x : T) → get_elem? xs 0 ≡ some x → 0 < length xs
  first_is [] x e = absurd (let bad : none ≡ some x = e in cc)
  first_is (y ∷ xs) x e = omega arith

  pub taken_first :
      (c : Consumer T) (xs : List T) → HasObject c xs → has_taken c ≡ true → 0 < length xs
  taken_first waiting xs h e = absurd (ground arith)
  taken_first sees xs h e = absurd (ground arith)
  taken_first (took o) xs (x, first, same) e = first_is xs x first

  pub head_slot :
      (cap head tail : ℕ) (buf : List (Option T)) (p : Producer T) (c : Consumer T) (xs : List T)
      → IsCapacity cap
      → Slots cap head tail buf p c xs
      → slot_at cap head ≡ (tail + length xs) % cap
  head_slot cap head tail buf p c xs is h =
      slot_at-mod cap head is
      ∙ ap (λ (x : ℕ). x % cap) h.head_word
      ∙ mod-mod_of_dvd cap (tail + length xs) is.divides

  -- The producer constructs its object.
  pub Slots-placed :
      (cap head tail : ℕ) (buf : List (Option T)) (v : T) (c : Consumer T) (xs : List T)
      → IsCapacity cap
      → Slots cap head tail buf (granted v) c xs
      → Slots cap head tail (set buf (slot_at cap head) (some v)) (placed v) c xs
  Slots-placed cap head tail buf v c xs is h =
      let at = head_slot cap head tail buf (granted v) c xs is h in
      let inside : (tail + length xs) % cap < length buf = omega (arith, h.slots, is.at_least) in
      record {
        slots = length-set buf (slot_at cap head) (some v) ∙ h.slots;
        bounded = h.bounded;
        tail_word = h.tail_word;
        head_word = h.head_word;
        reads = λ j lt. elim (Bool-cases (j == length xs)) [
          | inl last ↦
              let e : j ≡ length xs = ground (arith, last) in
              let not_taken : (has_taken c && j == 0) ≡ false =
                ground (arith, taken_first c xs h.object, e) in
              rw (at, not_taken, last)
                (ap
                    (λ (i : ℕ).
                      get_or (set buf ((tail + length xs) % cap) (some v)) ((tail + i) % cap) none)
                    e
                  ∙ get_or-set_self buf ((tail + length xs) % cap) (some v) none inside)
          | inr other ↦
              rw (at, other)
                (get_or-set_ne buf ((tail + length xs) % cap) ((tail + j) % cap) (some v) none (λ e.
                    let same = same_slot cap tail (length xs) j h.space lt e in
                    ground (arith, same, other))
                  ∙ h.reads j lt)
        ];
        space = h.space;
        object = h.object;
      }

  -- The producer publishes its object.
  pub Slots-published :
      (cap head tail : ℕ) (buf : List (Option T)) (v : T) (c : Consumer T) (xs : List T)
      → IsCapacity cap
      → Slots cap head tail buf (placed v) c xs
      → Slots cap (next_size head) tail buf idle c (xs ++ (v ∷ []))
  Slots-published cap head tail buf v c xs is h =
      let longer = length-append xs (v ∷ []) in
      record {
        slots = h.slots;
        bounded = omega (arith, longer, h.space);
        tail_word = h.tail_word;
        head_word = omega (arith, h.head_word, longer);
        reads = λ j lt. rw (get_elem?-append xs v j) (h.reads j lt);
        space = omega (arith, longer, h.space);
        object = still c h.object;
      }
    where
      first_stays : (x : T) → get_elem? xs 0 ≡ some x → get_elem? (xs ++ (v ∷ [])) 0 ≡ some x
      first_stays x e = get_elem?-append xs v 0 ∙ rw (e) (ground (arith, first_is xs x e))

      still : (c : Consumer T) → HasObject c xs → HasObject c (xs ++ (v ∷ []))
      still waiting o = o
      still sees (x, e) = (x, first_stays x e)
      still (took o) (x, e, same) = (x, first_stays x e, same)

  pub not_placed_first :
      (cap : ℕ) (p : Producer T) (x : T) (xs : List T)
      → with_placed p (length (x ∷ xs)) 0 (some x) ≡ some x
  not_placed_first cap idle x xs = refl
  not_placed_first cap (granted v) x xs = refl
  not_placed_first cap (placed v) x xs = ground arith

  -- The consumer moves the oldest object out.
  pub Slots-taken :
      (cap head tail : ℕ) (buf : List (Option T)) (p : Producer T) (xs : List T)
      → IsCapacity cap
      → Slots cap head tail buf p sees xs
      → Slots cap head tail
          (set buf (slot_at cap tail) none)
          p
          (took (get_or buf (slot_at cap tail) none))
          xs
  Slots-taken cap head tail buf p [] is h =
      absurd (let (x, e) = h.object in let bad : none ≡ some x = e in cc)
  Slots-taken cap head tail buf p (x ∷ xs) is h =
      let at = tail_slot cap tail is in
      let inside : (tail + 0) % cap < length buf = omega (arith, h.slots, is.at_least) in
      record {
        slots = length-set buf (slot_at cap tail) none ∙ h.slots;
        bounded = h.bounded;
        tail_word = h.tail_word;
        head_word = h.head_word;
        reads = λ j lt. rw at (go j lt inside);
        space = h.space;
        object =
            (x, refl, rw at (h.reads 0 (omega (arith, is.at_least)) ∙ not_placed_first cap p x xs));
      }
    where
      go :
          (j : ℕ)
          → j < cap
          → (tail + 0) % cap < length buf
          → get_or (set buf ((tail + 0) % cap) none) ((tail + j) % cap) none
            ≡ expected p (took (get_or buf ((tail + 0) % cap) none)) (x ∷ xs) j
      go zero lt inside = get_or-set_self buf ((tail + 0) % cap) none none inside ∙ ground arith
      go (suc j) lt inside =
          get_or-set_ne buf ((tail + 0) % cap) ((tail + suc j) % cap) none none (λ same.
            let zero_is = same_slot cap tail 0 (suc j) (omega arith) lt same in omega arith)
          ∙ h.reads (suc j) lt
          ∙ ground arith

  shifted :
      (p : Producer T) (o : Option T) (x : T) (xs : List T) (j : ℕ)
      → expected p (took o) (x ∷ xs) (suc j) ≡ expected p waiting xs j
  shifted idle o x xs j = ground arith
  shifted (granted v) o x xs j = ground arith
  shifted (placed v) o x xs j = ground arith

  last_free :
      (cap : ℕ) (p : Producer T) (x : T) (xs : List T) (j : ℕ)
      → HasSpace cap p (length (x ∷ xs))
      → suc j ≡ cap
      → expected p waiting xs j ≡ none
  last_free cap idle x xs j space e = get_elem?-none xs j (omega arith)
  last_free cap (granted v) x xs j space e = get_elem?-none xs j (omega arith)
  last_free cap (placed v) x xs j space e =
      let none_there = get_elem?-none xs j (omega arith) in ground arith

  space_grows : (cap n : ℕ) (p : Producer T) → HasSpace cap p (suc n) → HasSpace cap p n
  space_grows cap n idle h = omega arith
  space_grows cap n (granted v) h = omega arith
  space_grows cap n (placed v) h = omega arith

  -- The consumer gives the slot back.
  pub Slots-released :
      (cap head tail : ℕ) (buf : List (Option T)) (p : Producer T) (o : Option T) (xs : List T)
      → IsCapacity cap
      → Slots cap head tail buf p (took o) xs
      → (x : T) × (rest : List T) × (xs ≡ x ∷ rest)
        × (o ≡ some x)
        × Slots cap head (next_size tail) buf p waiting rest
  Slots-released cap head tail buf p o [] is h =
      absurd (let (x, e, same) = h.object in let bad : none ≡ some x = e in cc)
  Slots-released cap head tail buf p o (x ∷ xs) is h =
      let (x', e, same) = h.object in
      let same_object : o ≡ some x = same ∙ sym e in
      (
        x,
        xs,
        refl,
        same_object,
        record {
          slots = h.slots;
          bounded = omega (arith, h.bounded);
          tail_word = omega arith;
          head_word = omega (arith, h.head_word);
          reads = λ j lt. rw (wrapped cap (tail + 1) j is) (elim (Bool-cases (suc j == cap)) [
            | inl last ↦
                let all : suc j ≡ cap = ground (arith, last) in
                let round : (tail + 1 + j) % cap ≡ (tail + 0) % cap =
                  ap (λ (y : ℕ). y % cap) (ground (arith, last)) ∙ add-mod_right (tail + 0) cap in
                rw round (
                  h.reads 0 (omega (arith, is.at_least))
                  ∙ ground arith
                  ∙ sym (last_free cap p x xs j h.space all))
            | inr more ↦
                let lt' : suc j < cap = ground (arith, more) in
                let e' : (tail + 1 + j) % cap ≡ (tail + suc j) % cap =
                  ap (λ (y : ℕ). y % cap) (omega arith) in
                rw e' (h.reads (suc j) lt' ∙ shifted p o x xs j)
          ]);
          space = space_grows cap (length xs) p h.space;
          object = tt;
        },
      )
