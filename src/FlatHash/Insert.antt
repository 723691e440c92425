-- ===== src/FlatHash/Insert.antt =====
-- The insertions: the check for room with its compaction, and the write at the place found.
use mathlib.Core.Option.{get_or, or_else}
use mathlib.Core.Path.{ap₂}
use pmr_market_simulator.Prelude.{
  ℕ, ◌+◌, ◌-◌, ◌*◌, ◌^◌, ◌<◌, ◌≤◌, ◌≡◌, ◌↔◌, inl, inr, refl, sym, ap, ◌∙◌, Bool, true, false, none,
  some, arith, length, set, Bool-cases, if◌then◌else◌,
}
use pmr_market_simulator.Prelude.Run.{ok, abort, Returns, ◌>>=◌}
use pmr_market_simulator.FlatHash.{
  Key, empty, filled, tomb, slot, home, rehash_same_capacity, FlatHashMap, crowded, check_capacity,
  compacts, maybe_compact_for_tombs, make_room, insertion_place, insert, probe, write_entry, is_new,
  Place, fresh, reused, taken, create, next_pow2,
}
use pmr_market_simulator.FlatHash.Table
use pmr_market_simulator.FlatHash.Table.{
  view, Distinct, one_if_filled, one_if_tomb, count_filled, count_tombs, blank, view-slot,
}
use pmr_market_simulator.FlatHash.Probe.{step_to, step_to-lt, home_step}
use pmr_market_simulator.FlatHash.Search.{Passed, Finds, Lands, probe-Lands, Open}
use pmr_market_simulator.FlatHash.Placed.{
  set_filled-IsPlaced, Finds-absent, slot-lt, blank-IsPlaced,
}
use pmr_market_simulator.FlatHash.Rehash.{rehash_loop-Rehashed}
use pmr_market_simulator.FlatHash.Laws.{IsValid, contents, valid_end}

module _ {ℓ} {K V : Type ℓ} ⦃key : Key K⦄ where
  -- The same map at the same capacity, with as many live entries.
  pub record SameMap (m m' : FlatHashMap K V) : Type ℓ where
    pub valid : IsValid m'
    pub reads : (q : K) → contents m' q ≡ contents m q
    pub size : m'.size ≡ m.size
    pub mask : m'.mask ≡ m.mask
    pub grow : m'.allow_grow ≡ m.allow_grow

  SameMap-refl : {m : FlatHashMap K V} → IsValid m → SameMap m m
  SameMap-refl h = record { valid = h; reads = λ q. refl; size = refl; mask = refl; grow = refl }

  -- On a valid map a rehash at the same capacity ends. The map then has the same contents and as many
  -- live entries, is valid, and has no tombstones; a map of fixed capacity is checked once more.
  pub rehash-SameMap :
      (m : FlatHashMap K V)
      → IsValid m
      → (m' : FlatHashMap K V) × (rehash_same_capacity m
          ≡ (if m.allow_grow then ok m' else check_capacity m'))
        × SameMap m m'
        × (m'.tombs ≡ 0)
  unfolding rehash_same_capacity or_else
  rehash-SameMap m h =
      let cap = m.mask + 1 in
      let none_filled = Table.count_filled-blank K V cap in
      let (r, run, p) =
        rehash_loop-Rehashed m.mask m.table (blank K V cap) 0 h.is_mask (blank-IsPlaced m.mask)
          (Table.count_tombs-blank K V cap) (omega (arith, h.counted, h.room, none_filled))
          h.placed.distinct (λ q n. Table.view-blank K V cap q) in
      (
        record m { table = r.0; size = r.1; tombs = 0 },
        rw run,
        record {
          valid = record {
            is_mask = h.is_mask;
            placed = p.placed;
            counted = omega (arith, p.counted, p.new_size);
            counted_tombs = p.no_tombs;
            room = omega (arith, p.new_size, h.counted, h.room);
            least = h.least;
          };
          reads = λ q. ground (arith, p.reads q, Table.view-blank K V cap q);
          size = omega (arith, p.new_size, h.counted);
          mask = refl;
          grow = refl;
        },
        refl,
      )

  -- The live entries fill less than four fifths of the capacity.
  abbrev pub HasRoom : FlatHashMap K V → Type 0
  HasRoom m = m.size * 10 < (m.mask + 1) * 8

  check_capacity-free : (m : FlatHashMap K V) → crowded m ≡ false → check_capacity m ≡ ok m
  check_capacity-free m e = ap (λ b. if b then abort else ok m) e

  check_capacity-crowded : (m : FlatHashMap K V) → crowded m ≡ true → check_capacity m ≡ abort
  check_capacity-crowded m e = ap (λ b. if b then abort else ok m) e

  -- The three ways through the check for room.
  make_room-keep :
      (m : FlatHashMap K V)
      → m.allow_grow ≡ false
      → compacts m ≡ false
      → make_room m ≡ check_capacity m
  unfolding make_room maybe_compact_for_tombs
  make_room-keep m fixed keep =
      ap (λ b. if b then ok m else maybe_compact_for_tombs m >>= check_capacity) fixed
      ∙ ap (λ b. (if b then rehash_same_capacity m else ok m) >>= check_capacity) keep

  make_room-compact :
      (m c : FlatHashMap K V)
      → m.allow_grow ≡ false
      → compacts m ≡ true
      → rehash_same_capacity m ≡ (if m.allow_grow then ok c else check_capacity c)
      → make_room m ≡ check_capacity c >>= check_capacity
  unfolding make_room maybe_compact_for_tombs
  make_room-compact m c fixed compact run =
      ap (λ b. if b then ok m else maybe_compact_for_tombs m >>= check_capacity) fixed
      ∙ ap (λ b. (if b then rehash_same_capacity m else ok m) >>= check_capacity) compact
      ∙ ap (λ r. r >>= check_capacity) (run ∙ ap (λ b. if b then ok c else check_capacity c) fixed)

  -- With room, `make_room` returns the same map, with room for one more entry of any kind.
  make_room-SameMap :
      (m : FlatHashMap K V)
      → IsValid m
      → m.allow_grow ≡ false
      → HasRoom m
      → Returns (make_room m) λ m'. SameMap m m' × (crowded m' ≡ false)
  make_room-SameMap m h fixed room =
      let (c, run, same, no_tombs) = rehash-SameMap m h in
      elim (Bool-cases (compacts m)) [
        | inr keep ↦
            let free : crowded m ≡ false = ground arith in
            (m, make_room-keep m fixed keep ∙ check_capacity-free m free, (SameMap-refl h, free))
        | inl compact ↦
            let free : crowded c ≡ false = ground (arith, same.size, same.mask) in
            let pass = check_capacity-free c free in
            (
              c,
              make_room-compact m c fixed compact run ∙ ap (λ r. r >>= check_capacity) pass ∙ pass,
              (same, free),
            )
      ]

  -- Without it, it aborts.
  make_room-abort :
      (m : FlatHashMap K V) → IsValid m → m.allow_grow ≡ false → ¬ HasRoom m → make_room m ≡ abort
  make_room-abort m h fixed full =
      let (c, run, same, no_tombs) = rehash-SameMap m h in
      elim (Bool-cases (compacts m)) [
        | inr keep ↦
            let over : crowded m ≡ true = ground arith in
            make_room-keep m fixed keep ∙ check_capacity-crowded m over
        | inl compact ↦
            let over : crowded c ≡ true = ground (arith, same.size, same.mask) in
            make_room-compact m c fixed compact run
            ∙ ap (λ r. r >>= check_capacity) (check_capacity-crowded c over)
      ]

  -- A slot on the path of an absent key, with nothing Empty before it.
  abbrev OpenAt : FlatHashMap K V → K → ℕ → Type ℓ
  OpenAt m k i =
      (d : ℕ) × (d < m.mask + 1)
      × (step_to m.mask (home m.mask k) d ≡ i)
      × Passed m.table m.mask k d
      × (contents m k ≡ none)

  -- The place found is right for the key: its own slot, or a free one on its path.
  abbrev Placing : FlatHashMap K V → K → Place → Type ℓ
  Placing m k (taken i) = (v : V) × (slot m.table i ≡ filled k v)
  Placing m k (fresh i) = (slot m.table i ≡ empty) × OpenAt m k i
  Placing m k (reused i) = (slot m.table i ≡ tomb) × OpenAt m k i

  insertion_place-Placing :
      (m : FlatHashMap K V) (k : K) → IsValid m → Returns (insertion_place m k) (Placing m k)
  unfolding insertion_place
  insertion_place-Placing m k h =
      let (last, lt, e) = valid_end k h in
      let (r, run, l) =
        probe-Lands m.table m.mask k h.is_mask last e (m.mask + 1) 0 none (omega arith)
          (omega arith) (λ e b. absurd (omega arith)) tt in
      (
        r,
        ap (λ i. probe m.table m.mask k (m.mask + 1) i none) (sym (home_step m.mask k h.is_mask))
            ∙ run,
        go r last lt l,
      )
    where
      open_at :
          (i last : ℕ)
          → last < m.mask + 1
          → Open m.table m.mask k last i
          → Finds m.table m.mask k none
          → OpenAt m k i
      open_at i last lt (d, le, at, p) f =
          (d, omega arith, at, p, Finds-absent m.table m.mask k h.is_mask h.placed f)

      go :
          (r : Place) (last : ℕ) → last < m.mask + 1 → Lands m.table m.mask k last r → Placing m k r
      go (fresh i) last lt (e, o, f) = (e, open_at i last lt o f)
      go (reused i) last lt (e, o, f) = (e, open_at i last lt o f)
      go (taken i) last lt l = l

  -- What an insertion leaves: a new key is added, a key that is there keeps its value.
  pub record Inserted (m : FlatHashMap K V) (k : K) (v : V) (r : Bool × FlatHashMap K V)
      : Type ℓ where
    pub valid : IsValid r.1
    pub reads :
        (q : K)
        → contents r.1 q ≡ (if key.beq k q then some (get_or (contents m k) v) else contents m q)
    pub answer : (r.0 ≡ true) ↔ (contents m k ≡ none)
    pub size : r.1.size ≡ m.size + (if r.0 then 1 else 0)
    pub mask : r.1.mask ≡ m.mask
    pub grow : r.1.allow_grow ≡ m.allow_grow

  -- The counters after a free slot is filled, with `t` tombstones left.
  fill_slot :
      (m : FlatHashMap K V) (k : K) (v : V) (i t : ℕ)
      → IsValid m
      → crowded m ≡ false
      → OpenAt m k i
      → one_if_filled (slot m.table i) ≡ 0
      → t + one_if_tomb (slot m.table i) ≡ m.tombs
      → Inserted m k v
          (true, record m { table = set m.table i (filled k v); size = m.size + 1; tombs = t })
  fill_slot m k v i t h free (d, lt, at, passed, absent) not_filled left =
      let b : i < length m.table =
        omega (arith, h.placed.width, step_to-lt m.mask (home m.mask k) d) in
      let space : (m.size + m.tombs) * 10 < (m.mask + 1) * 8 = ground arith in
      record {
        valid = record {
          is_mask = h.is_mask;
          placed =
              set_filled-IsPlaced m.table m.mask k v i d h.is_mask h.placed not_filled absent lt at
                passed;
          counted = omega (arith, h.counted, Table.count_filled-set m.table i (filled k v) b);
          counted_tombs =
              omega (arith, h.counted_tombs, Table.count_tombs-set m.table i (filled k v) b);
          room = omega (arith, h.least);
          least = h.least;
        };
        reads =
            λ q. ground (arith, Table.view-set_filled m.table i k v q b not_filled absent, absent);
        answer = ((λ p. absent), λ p. refl);
        size = refl;
        mask = refl;
        grow = refl;
      }

  write_entry-Inserted :
      (m : FlatHashMap K V) (k : K) (v : V) (p : Place)
      → IsValid m
      → crowded m ≡ false
      → Placing m k p
      → Inserted m k v (is_new p, write_entry m k v p)
  write_entry-Inserted m k v (fresh i) h free (e, o) =
      fill_slot m k v i m.tombs h free o (ap one_if_filled e)
        (let z : one_if_tomb (slot m.table i) ≡ 0 = ap one_if_tomb e in omega arith)
  write_entry-Inserted m k v (reused i) h free (e, o) =
      let z : one_if_tomb (slot m.table i) ≡ 1 = ap one_if_tomb e in
      let b : i < length m.table =
        slot-lt m.table i (λ q. (let c : tomb ≡ empty = sym e ∙ q in cc)) in
      fill_slot m k v i (m.tombs - 1) h free o (ap one_if_filled e)
        (omega (arith, h.counted_tombs, Table.count_tombs-set m.table i empty b))
  write_entry-Inserted m k v (taken i) h free (w, e) =
      let c : contents m k ≡ some w = view-slot m.table i k w h.placed.distinct e in
      record {
        valid = h;
        reads = λ q. ground (arith, key.beq_iff k q, c);
        answer = ((λ p. (cc)), λ p. (let d : some w ≡ none = sym c ∙ p in cc));
        size = omega arith;
        mask = refl;
        grow = refl;
      }

  -- On a valid map of fixed capacity whose live entries fill less than four fifths of it, however many
  -- tombstones there are, `insert` ends and leaves a valid map. That map has the new key with its
  -- value, or the old value if the key was there, and every other key as before; the answer is true
  -- exactly if the key was absent, and then there is one more live entry.
  pub insert-Inserted :
      {m : FlatHashMap K V} (k : K) (v : V)
      → IsValid m
      → m.allow_grow ≡ false
      → HasRoom m
      → Returns (insert m k v) (Inserted m k v)
  unfolding insert
  insert-Inserted {m} k v h fixed room =
      let (c, made, (same, free)) = make_room-SameMap m h fixed room in
      let (p, found, placing) = insertion_place-Placing c k same.valid in
      let w = write_entry-Inserted c k v p same.valid free placing in
      (
        (is_new p, write_entry c k v p),
        ap (λ r. r >>= λ m'. insertion_place m' k >>= λ q. ok (is_new q, write_entry m' k v q)) made
            ∙ ap (λ r. r >>= λ q. ok (is_new q, write_entry c k v q)) found,
        record {
          valid = w.valid;
          reads = λ q.
              w.reads q
              ∙ ap₂ (λ a b. if key.beq k q then some (get_or a v) else b) (same.reads k)
                  (same.reads q);
          answer = ((λ e. sym (same.reads k) ∙ w.answer.0 e), λ e. w.answer.1 (same.reads k ∙ e));
          size = omega (arith, w.size, same.size);
          mask = w.mask ∙ same.mask;
          grow = w.grow ∙ same.grow;
        },
      )

  -- On a valid map of fixed capacity whose live entries fill four fifths of it or more, `insert`
  -- aborts, also for a key that is there.
  pub insert-abort :
      {m : FlatHashMap K V} (k : K) (v : V)
      → IsValid m
      → m.allow_grow ≡ false
      → ¬ HasRoom m
      → insert m k v ≡ abort
  unfolding insert
  insert-abort {m} k v h fixed full =
      ap (λ r. r >>= λ m'. insertion_place m' k >>= λ q. ok (is_new q, write_entry m' k v q))
        (make_room-abort m h fixed full)

-- A map that was just made is valid and empty, at a capacity that is a power of two.
pub create-IsValid {ℓ} :
    {K V : Type ℓ} ⦃key : Key K⦄ (capacity_pow2 k : ℕ) (grow : Bool)
    → next_pow2 capacity_pow2 ≡ 2 ^ k
    → 8 ≤ 2 ^ k
    → (let m : FlatHashMap K V = create capacity_pow2 grow in
        IsValid m × ((q : K) → contents m q ≡ none))
unfolding create
create-IsValid {K} {V} capacity_pow2 k grow e least =
    let n = next_pow2 capacity_pow2 in
    let back : n - 1 + 1 ≡ n = omega arith in
    (
      record {
        is_mask = (k, back ∙ e);
        placed = rw (ap (blank K V) (sym back)) (blank-IsPlaced (n - 1));
        counted = Table.count_filled-blank K V n;
        counted_tombs = Table.count_tombs-blank K V n;
        room = omega arith;
        least = omega arith;
      },
      Table.view-blank K V n,
    )
