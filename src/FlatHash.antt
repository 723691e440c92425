-- ===== src/FlatHash.antt =====
-- include/msim/flat_hash.hpp: the flat hash map of fixed capacity (open addressing, linear probing,
-- tombstones that are compacted by a rehash at the same capacity).
pub mod Table
pub mod Probe
pub mod Search
pub mod Placed
pub mod Rehash
pub mod Laws
pub mod Insert
pub mod Keys
mod Tests
use Prim.Native.Nat.{bit_and, bit_or, bit_xor}
use pmr_market_simulator.Prelude.{
  ℕ, zero, suc, ◌+◌, ◌-◌, ◌*◌, ◌/◌, ◌^◌, ◌%◌, ◌≡◌, ◌↔◌, Bool, true, false, ◌||◌, Option, none, some,
  List, [], ◌∷◌, get_or, set, replicate, ltb, leb, ◌==◌, if◌then◌else◌,
}
use pmr_market_simulator.Prelude.Run.{Run, ok, abort, spin, ◌>>=◌}

-- The template parameter `K`: an integral type, with `==` and `hash_key`.
pub record Key {ℓ} (K : Type ℓ) : Type ℓ where
  pub beq : K → K → Bool
  pub beq_iff : (a b : K) → (beq a b ≡ true) ↔ (a ≡ b)
  pub hash : K → ℕ

-- `Entry` with its `State`. Key and value of an entry are read only where the state is Filled, so
-- the other two states carry none.
pub data Entry {ℓ} (K V : Type ℓ) : Type ℓ where
  empty : Entry K V
  filled : K → V → Entry K V
  tomb : Entry K V

-- The members of the class. `scratch_` is none of them: a rehash resets it before it reads it. The
-- counters stay below the number of entries, so their `size_t` arithmetic does not wrap.
pub record FlatHashMap {ℓ} (K V : Type ℓ) : Type ℓ where
  pub allow_grow : Bool
  pub mask : ℕ
  pub size : ℕ
  pub tombs : ℕ
  pub table : List (Entry K V)

-- `x |= x >> s`
abbrev smear : ℕ → ℕ → ℕ
smear s x = bit_or x (x / 2 ^ s)

unfoldable pub next_pow2 : ℕ → ℕ
next_pow2 x =
    if ltb x 8
    then 8
    else (smear 32 (smear 16 (smear 8 (smear 4 (smear 2 (smear 1 (x - 1)))))) + 1) % 2 ^ 64

-- `hash_key` for keys of eight bytes
unfoldable pub hash64 : ℕ → ℕ
hash64 key =
    let a = bit_xor key (key / 2 ^ 33) in
    let b = a * 0xff51afd7ed558ccd % 2 ^ 64 in
    let c = bit_xor b (b / 2 ^ 33) in
    let d = c * 0xc4ceb9fe1a85ec53 % 2 ^ 64 in bit_xor d (d / 2 ^ 33)

-- `hash_key` for keys of four bytes, at the key's bit pattern
unfoldable pub hash32 : ℕ → ℕ
hash32 key =
    let a = bit_xor key (key / 2 ^ 16) in
    let b = a * 0x7feb352d % 2 ^ 32 in
    let c = bit_xor b (b / 2 ^ 15) in let d = c * 0x846ca68b % 2 ^ 32 in bit_xor d (d / 2 ^ 16)

-- `(idx + 1) & mask_`
unfoldable pub next_index : ℕ → ℕ → ℕ
next_index mask idx = bit_and (idx + 1) mask

-- Where the loop of an insertion stops: at an Empty entry with no tombstone before it, at an Empty
-- entry with a first tombstone, or at the key.
pub data Place : Type 0 where
  fresh : ℕ → Place
  reused : ℕ → Place
  taken : ℕ → Place

abbrev pub is_new : Place → Bool
is_new (taken i) = false
is_new (fresh i) = true
is_new (reused i) = true

abbrev pub index_of : Place → ℕ
index_of (fresh i) = i
index_of (reused i) = i
index_of (taken i) = i

module _ {ℓ} {K : Type ℓ} ⦃key : Key K⦄ where
  -- `hash_key(key) & mask_`
  abbrev pub home : ℕ → K → ℕ
  home mask k = bit_and (key.hash k) mask

module _ {ℓ} {K V : Type ℓ} where
  abbrev pub reserve_pow2 : ℕ → FlatHashMap K V → FlatHashMap K V
  reserve_pow2 cap_pow2 m = record {
    allow_grow = m.allow_grow;
    mask = next_pow2 cap_pow2 - 1;
    size = 0;
    tombs = 0;
    table = replicate (next_pow2 cap_pow2) empty;
  }

  -- The constructor
  unfoldable pub create : ℕ → Bool → FlatHashMap K V
  unfolding next_pow2
  create capacity_pow2 allow_grow =
      reserve_pow2 capacity_pow2
        (record { allow_grow = allow_grow; mask = 0; size = 0; tombs = 0; table = [] })

  unfoldable pub capacity : FlatHashMap K V → ℕ
  capacity m = m.mask + 1

  abbrev pub slot : List (Entry K V) → ℕ → Entry K V
  slot t i = get_or t i empty

module _ {ℓ} {K V : Type ℓ} ⦃key : Key K⦄ where
  -- The loop of `find_index`. It has gone round the table when the fuel, one lap, is used up; it
  -- would then go round for ever.
  unfoldable pub find_from : List (Entry K V) → ℕ → K → ℕ → ℕ → Run (Option ℕ)
  unfolding next_index
  find_from t mask k zero idx = spin
  find_from t mask k (suc fuel) idx =
      let rest = find_from t mask k fuel (next_index mask idx) in
      elim (slot t idx) [
        | empty ↦ ok none
        | filled j v ↦ if key.beq j k then ok (some idx) else rest
        | tomb ↦ rest
      ]

  unfoldable pub find_index : FlatHashMap K V → K → Run (Option ℕ)
  unfolding find_from
  find_index m k = find_from m.table m.mask k (m.mask + 1) (home m.mask k)

  abbrev pub value_of : Entry K V → Option V
  value_of (filled k v) = some v
  value_of empty = none
  value_of tomb = none

  -- The value that the pointer of `find_ptr` points to; `none` is the null pointer.
  unfoldable pub find_ptr : FlatHashMap K V → K → Run (Option V)
  unfolding find_index
  find_ptr m k = do
    idx ← find_index m k
    elim idx [ none ↦ ok none | some i ↦ ok (value_of (slot m.table i)) ]

  unfoldable pub contains : FlatHashMap K V → K → Run Bool
  unfolding find_index
  contains m k = do idx ← find_index m k; elim idx [ none ↦ ok false | some i ↦ ok true ]

  unfoldable pub erase : FlatHashMap K V → K → Run (Bool × FlatHashMap K V)
  unfolding find_index
  erase m k = do
    idx ← find_index m k
    elim idx [
      | none ↦ ok (false, m)
      | some i ↦
          ok (true, record m { table = set m.table i tomb; size = m.size - 1; tombs = m.tombs + 1 })
    ]

  -- the inner loop of a rehash: one entry goes to the first Empty slot of its path
  unfoldable pub reinsert : ℕ → K → V → ℕ → List (Entry K V) → ℕ → Run (List (Entry K V))
  unfolding next_index
  reinsert mask k v zero scratch idx = spin
  reinsert mask k v (suc fuel) scratch idx =
      let rest = reinsert mask k v fuel scratch (next_index mask idx) in
      elim (slot scratch idx) [
        | empty ↦ ok (set scratch idx (filled k v))
        | filled j w ↦ rest
        | tomb ↦ rest
      ]

  -- the loop over `table_`; the number is `new_size`
  unfoldable pub rehash_loop :
      ℕ → List (Entry K V) → List (Entry K V) → ℕ → Run (List (Entry K V) × ℕ)
  unfolding reinsert
  rehash_loop mask [] scratch new_size = ok (scratch, new_size)
  rehash_loop mask (empty ∷ es) scratch new_size = rehash_loop mask es scratch new_size
  rehash_loop mask (tomb ∷ es) scratch new_size = rehash_loop mask es scratch new_size
  rehash_loop mask (filled k v ∷ es) scratch new_size = do
    scratch' ← reinsert mask k v (mask + 1) scratch (home mask k)
    rehash_loop mask es scratch' (new_size + 1)

  -- `(size_ + tombs_) * 10 >= cap * 8`
  abbrev pub crowded : FlatHashMap K V → Bool
  crowded m = leb ((m.mask + 1) * 8) ((m.size + m.tombs) * 10)

  -- the check before `die_capacity`
  abbrev pub check_capacity : FlatHashMap K V → Run (FlatHashMap K V)
  check_capacity m = if crowded m then abort else ok m

  unfoldable pub rehash_same_capacity : FlatHashMap K V → Run (FlatHashMap K V)
  unfolding rehash_loop
  rehash_same_capacity m = do
    (scratch, new_size) ← rehash_loop m.mask m.table (replicate (m.mask + 1) empty) 0
    let m' = record m { table = scratch; size = new_size; tombs = 0 }
    if m.allow_grow then ok m' else check_capacity m'

  -- the test of `maybe_compact_for_tombs`
  abbrev pub compacts : FlatHashMap K V → Bool
  compacts m =
      let cap = m.mask + 1 in
      if m.tombs == 0
      then false
      else ltb (cap / 4) m.tombs || leb (cap * 7) ((m.size + m.tombs) * 10)

  unfoldable pub maybe_compact_for_tombs : FlatHashMap K V → Run (FlatHashMap K V)
  unfolding rehash_same_capacity
  maybe_compact_for_tombs m = if compacts m then rehash_same_capacity m else ok m

  -- what both insertions do before they probe
  unfoldable pub make_room : FlatHashMap K V → Run (FlatHashMap K V)
  unfolding maybe_compact_for_tombs
  make_room m = if m.allow_grow then ok m else maybe_compact_for_tombs m >>= check_capacity

  -- the loop of both insertions, with `first_tomb`
  unfoldable pub probe : List (Entry K V) → ℕ → K → ℕ → ℕ → Option ℕ → Run Place
  unfolding next_index
  probe t mask k zero idx first_tomb = spin
  probe t mask k (suc fuel) idx first_tomb =
      let rest = probe t mask k fuel (next_index mask idx) first_tomb in
      let rest_tomb =
        probe t mask k fuel (next_index mask idx)
          (elim first_tomb [ none ↦ some idx | some i ↦ some i ]) in
      elim (slot t idx) [
        | empty ↦ elim first_tomb [ none ↦ ok (fresh idx) | some i ↦ ok (reused i) ]
        | filled j v ↦ if key.beq j k then ok (taken idx) else rest
        | tomb ↦ rest_tomb
      ]

  unfoldable pub insertion_place : FlatHashMap K V → K → Run Place
  unfolding probe
  insertion_place m k = probe m.table m.mask k (m.mask + 1) (home m.mask k) none

  -- the writes at `dst`, with `++size_` and `--tombs_`
  abbrev pub write_entry : FlatHashMap K V → K → V → Place → FlatHashMap K V
  write_entry m k v (fresh i) = record m { table = set m.table i (filled k v); size = m.size + 1 }
  write_entry m k v (reused i) = record m {
    table = set m.table i (filled k v);
    size = m.size + 1;
    tombs = m.tombs - 1;
  }
  write_entry m k v (taken i) = m

  -- `insert`, through `emplace_impl`
  unfoldable pub insert : FlatHashMap K V → K → V → Run (Bool × FlatHashMap K V)
  unfolding make_room insertion_place
  insert m k v = do
    m' ← make_room m
    place ← insertion_place m' k
    ok (is_new place, write_entry m' k v place)

  -- `find_or_insert`, through `find_or_insert_impl`: the index that the pointer stands for
  unfoldable pub find_or_insert : FlatHashMap K V → K → V → Run (ℕ × FlatHashMap K V)
  unfolding make_room insertion_place
  find_or_insert m k v = do
    m' ← make_room m
    place ← insertion_place m' k
    ok (index_of place, write_entry m' k v place)
