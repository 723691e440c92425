-- ===== src/OrderBook/Fill.antt =====
-- Matching in one level: oldest orders first, and each filled order leaves the index.
use pmr_market_simulator.Prelude.{
  ℕ, ◌+◌, ◌-◌, ◌<◌, ◌≤◌, ◌≡◌, ◌⊎◌, inl, inr, refl, ◌∙◌, Bool, true, false, none, List, [], ◌∷◌,
  arith, min, ◌==◌, if◌then◌else◌, Bool-cases,
}
use pmr_market_simulator.Prelude.Run.{Returns}
use pmr_market_simulator.FlatHash.{FlatHashMap}
use pmr_market_simulator.FlatHash.Keys.{id_key}
use pmr_market_simulator.FlatHash.Laws
use pmr_market_simulator.FlatHash.Laws.{contents, erase-Erased, Erased}
use pmr_market_simulator.OrderBook.{Order, OrderRef, Filled, match_level}

-- The index of the resting orders, valid and of fixed capacity.
pub record IsIndex (m : FlatHashMap ℕ OrderRef) : Type 0 where
  pub valid : Laws.IsValid m
  pub fixed : m.allow_grow ≡ false

unfoldable pub among : ℕ → List ℕ → Bool
among id [] = false
among id (x ∷ xs) = if x == id then true else among id xs

-- An index after the erasure of some ids.
pub record Unindexed (ids : List ℕ) (m m' : FlatHashMap ℕ OrderRef) : Type 0 where
  pub index : IsIndex m'
  pub reads : (id : ℕ) → contents m' id ≡ (if among id ids then none else contents m id)
  pub size : m'.size ≤ m.size
  pub mask : m'.mask ≡ m.mask

pub Unindexed-none : (m : FlatHashMap ℕ OrderRef) → IsIndex m → Unindexed [] m m
unfolding among
Unindexed-none m h = record { index = h; reads = λ id. refl; size = omega arith; mask = refl }

Unindexed-cons :
    (id : ℕ) (ids : List ℕ) (m m' m'' : FlatHashMap ℕ OrderRef) (answer : Bool)
    → Erased m id (answer, m')
    → Unindexed ids m' m''
    → Unindexed (id ∷ ids) m m''
unfolding among
Unindexed-cons id ids m m' m'' answer e u = record {
  index = u.index;
  reads = λ x. ground (arith, u.reads x, e.reads x);
  size = omega (arith, u.size, e.size);
  mask = u.mask ∙ e.same_mask;
}

module _ {Double : Type 0} where
  unfoldable pub total : List (Order Double) → ℕ
  total [] = 0
  total (o ∷ q) = o.qty + total q

  -- `q'` is `q` after the orders with the ids, its oldest ones, were filled, and at most one more
  -- in part.
  pub data Cut : List (Order Double) → List (Order Double) → List ℕ → Type 0 where
    cut_end : (q : List (Order Double)) → Cut q q []
    cut_part :
        (o : Order Double) (q : List (Order Double)) (n : ℕ)
        → 0 < n
        → n < o.qty
        → Cut (o ∷ q) (record o { qty = n } ∷ q) []
    cut_front :
        (o : Order Double) (q q' : List (Order Double)) (ids : List ℕ)
        → Cut q q' ids
        → Cut (o ∷ q) q' (o.id ∷ ids)

  -- What matching in a level promises.
  pub record Fills (remaining : ℕ) (q : List (Order Double)) (index : FlatHashMap ℕ OrderRef)
      (f : Filled Double) : Type 0 where
    pub ids : List ℕ
    pub oldest_first : Cut q f.q ids
    pub unindexed : Unindexed ids index f.index
    pub conserved : remaining + total f.q ≡ f.remaining + total q
    pub no_more : f.remaining ≤ remaining
    pub complete : (f.remaining ≡ 0) ⊎ (f.q ≡ [])

  Fills-cons :
      (remaining : ℕ) (o : Order Double) (q : List (Order Double))
      (index index' : FlatHashMap ℕ OrderRef) (answer : Bool) (f : Filled Double)
      → o.qty - min remaining o.qty ≡ 0
      → Erased index o.id (answer, index')
      → Fills (remaining - min remaining o.qty) q index' f
      → Fills remaining (o ∷ q) index f
  unfolding total
  Fills-cons remaining o q index index' answer f done e r = record {
    ids = o.id ∷ r.ids;
    oldest_first = cut_front o q f.q r.ids r.oldest_first;
    unindexed = Unindexed-cons o.id r.ids index index' f.index answer e r.unindexed;
    conserved = ground (arith, r.conserved);
    no_more = ground (arith, r.no_more);
    complete = r.complete;
  }

  -- On a valid index matching in a level ends. The oldest orders are filled first and leave the
  -- index; at most one more is filled in part; the quantity that the incoming order loses is the
  -- quantity that the level loses; and the incoming order is filled or the level is empty.
  pub match_level-Fills :
      (remaining : ℕ) (q : List (Order Double)) (index : FlatHashMap ℕ OrderRef) (price : Double)
      → IsIndex index
      → Returns (match_level remaining q index price) (Fills remaining q index)
  unfolding match_level total
  match_level-Fills remaining [] index price h = (
    record { remaining = remaining; q = []; index = index; trade_price = price },
    refl,
    record {
      ids = [];
      oldest_first = cut_end [];
      unindexed = Unindexed-none index h;
      conserved = refl;
      no_more = omega arith;
      complete = inr refl;
    },
  )
  match_level-Fills remaining (o ∷ q) index price h = elim (Bool-cases (remaining == 0)) [
    | inl none_left ↦ (
      record { remaining = remaining; q = o ∷ q; index = index; trade_price = price },
      rw none_left refl,
      record {
        ids = [];
        oldest_first = cut_end (o ∷ q);
        unindexed = Unindexed-none index h;
        conserved = refl;
        no_more = omega arith;
        complete = inl (ground arith);
      },
    )
    | inr left ↦ elim (Bool-cases (o.qty - min remaining o.qty == 0)) [
      | inl filled ↦
          let ((answer, index'), run, e) = erase-Erased o.id h.valid in
          let h' : IsIndex index' = record { valid = e.valid; fixed = e.same_grow ∙ h.fixed } in
          let (f, rest, r) =
            match_level-Fills (remaining - min remaining o.qty) q index' o.price h' in
          (
            f,
            rw (left, filled, run) rest,
            Fills-cons remaining o q index index' answer f (ground arith) e r,
          )
      | inr partial ↦ (
        record {
          remaining = remaining - min remaining o.qty;
          q = record o { qty = o.qty - min remaining o.qty } ∷ q;
          index = index;
          trade_price = o.price;
        },
        rw (left, partial) refl,
        record {
          ids = [];
          oldest_first = cut_part o q (o.qty - min remaining o.qty) (ground arith) (ground arith);
          unindexed = Unindexed-none index h;
          conserved = ground arith;
          no_more = omega arith;
          complete = inl (ground arith);
        },
      )
    ]
  ]
