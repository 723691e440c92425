-- ===== src/FlatHash/Laws.antt =====
-- What the operations of the map promise: they return, they keep the invariant, and they act as the
-- operations of a finite map; an insertion aborts exactly at four fifths live entries.
use pmr_market_simulator.Prelude.{
  ℕ, ◌+◌, ◌-◌, ◌<◌, ◌≤◌, ◌≡◌, ◌≢◌, ◌↔◌, refl, sym, ap, ◌∙◌, Bool, true, false, Option, none, some,
  arith, length, set, if◌then◌else◌,
}
use pmr_market_simulator.Prelude.Run.{ok, Returns}
use pmr_market_simulator.FlatHash.{
  Key, empty, filled, tomb, slot, find_index, find_from, find_ptr, erase, FlatHashMap,
}
use pmr_market_simulator.FlatHash.Table
use pmr_market_simulator.FlatHash.Table.{
  view, Distinct, one_if_filled, one_if_tomb, count_filled, count_tombs, blank, view-slot,
}
use pmr_market_simulator.FlatHash.Probe.{IsMask, home_step}
use pmr_market_simulator.FlatHash.Search.{on_path, Finds, find_from-Finds}
use pmr_market_simulator.FlatHash.Placed.{IsPlaced, set_tomb-IsPlaced, Finds-absent, slot-lt}
use pmr_market_simulator.FlatHash.Rehash.{path_end}

module _ {ℓ} {K V : Type ℓ} ⦃key : Key K⦄ where
  pub record IsValid (m : FlatHashMap K V) : Type ℓ where
    pub is_mask : IsMask m.mask
    pub placed : IsPlaced m.mask m.table
    pub counted : count_filled m.table ≡ m.size
    pub counted_tombs : count_tombs m.table ≡ m.tombs
    pub room : m.size + m.tombs < m.mask + 1
    pub least : 8 ≤ m.mask + 1

  -- The map that a table stands for.
  abbrev pub contents : FlatHashMap K V → K → Option V
  contents m = view m.table

  -- The end of the path, with the step count that `find_from-Finds` wants.
  pub valid_end :
      {m : FlatHashMap K V} (k : K)
      → IsValid m
      → (d : ℕ) × (d < m.mask + 1) × (on_path m.table m.mask k d ≡ empty)
  valid_end {m} k h =
      path_end m.mask m.table k h.is_mask h.placed
        (omega (arith, h.counted, h.counted_tombs, h.room))

  pub find_index-Finds :
      {m : FlatHashMap K V} (k : K) → IsValid m → Returns (find_index m k) (Finds m.table m.mask k)
  unfolding find_index
  find_index-Finds {m} k h =
      let (last, lt, e) = valid_end k h in
      let (r, run, found) =
        find_from-Finds m.table m.mask k h.is_mask last e (m.mask + 1) 0 (omega arith) (omega arith)
          (λ e b. absurd (omega arith)) in
      (
        r,
        ap (find_from m.table m.mask k (m.mask + 1)) (sym (home_step m.mask k h.is_mask)) ∙ run,
        found,
      )

  -- What `find_index` returns, in terms of the map.
  abbrev Located : FlatHashMap K V → K → Option ℕ → Type ℓ
  Located m k none = contents m k ≡ none
  Located m k (some i) = (v : V) × (slot m.table i ≡ filled k v) × (contents m k ≡ some v)

  pub find_index-Located :
      {m : FlatHashMap K V} (k : K) → IsValid m → Returns (find_index m k) (Located m k)
  find_index-Located {m} k h = go (find_index-Finds k h)
    where
      go :
          Returns (find_index m k) (Finds m.table m.mask k) → Returns (find_index m k) (Located m k)
      go (none, run, f) = (none, run, Finds-absent m.table m.mask k h.is_mask h.placed f)
      go (some i, run, (v, e)) = (some i, run, (v, e, view-slot m.table i k v h.placed.distinct e))

  -- On a valid map `find_ptr` ends, and finds the value that the map holds at the key, or nothing if
  -- the key is absent.
  pub find_ptr-contents :
      {m : FlatHashMap K V} (k : K) → IsValid m → find_ptr m k ≡ ok (contents m k)
  unfolding find_ptr
  find_ptr-contents {m} k h = go (find_index-Located k h)
    where
      go : Returns (find_index m k) (Located m k) → find_ptr m k ≡ ok (contents m k)
      go (none, run, e) = rw (run, e)
      go (some i, run, (v, e, c)) = rw (run, e, c)

  -- What an erasure leaves: the map without the key.
  pub record Erased (m : FlatHashMap K V) (k : K) (r : Bool × FlatHashMap K V) : Type ℓ where
    pub valid : IsValid r.1
    pub reads : (q : K) → contents r.1 q ≡ (if key.beq k q then none else contents m q)
    pub answer : (r.0 ≡ true) ↔ (contents m k ≢ none)
    pub size : r.1.size + (if r.0 then 1 else 0) ≡ m.size
    pub same_mask : r.1.mask ≡ m.mask
    pub same_grow : r.1.allow_grow ≡ m.allow_grow

  -- On a valid map `erase` ends and leaves a valid map of the same capacity without the key, and with
  -- every other key as before; the answer is true exactly if the key was there, and then there is one
  -- live entry less.
  pub erase-Erased : {m : FlatHashMap K V} (k : K) → IsValid m → Returns (erase m k) (Erased m k)
  unfolding erase
  erase-Erased {m} k h = go (find_index-Located k h)
    where
      go : Returns (find_index m k) (Located m k) → Returns (erase m k) (Erased m k)
      go (none, run, e) = (
        (false, m),
        rw run,
        record {
          valid = h;
          reads = λ q. ground (arith, key.beq_iff k q, e);
          answer = ((λ p. (cc)), λ p. absurd (p e));
          size = omega arith;
          same_mask = refl;
          same_grow = refl;
        },
      )
      go (some i, run, (v, e, c)) =
          let b : i < length m.table =
            slot-lt m.table i (λ q. (let d : filled k v ≡ empty = sym e ∙ q in cc)) in
          let full : one_if_filled (slot m.table i) ≡ 1 = ap one_if_filled e in
          let no_tomb : one_if_tomb (slot m.table i) ≡ 0 = ap one_if_tomb e in
          let f = Table.count_filled-set m.table i tomb b in
          let t = Table.count_tombs-set m.table i tomb b in
          (
            (true, record m { table = set m.table i tomb; size = m.size - 1; tombs = m.tombs + 1 }),
            rw run,
            record {
              valid = record {
                is_mask = h.is_mask;
                placed = set_tomb-IsPlaced m.table m.mask i h.placed;
                counted = omega (arith, h.counted);
                counted_tombs = omega (arith, h.counted_tombs);
                room = omega (arith, h.room, h.counted);
                least = h.least;
              };
              reads = λ q. Table.view-set_tomb m.table i k v q h.placed.distinct e;
              answer = ((λ p n. (let d : some v ≡ none = sym c ∙ n in cc)), λ p. refl);
              size = omega (arith, h.counted);
              same_mask = refl;
              same_grow = refl;
            },
          )
