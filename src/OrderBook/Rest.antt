-- ===== src/OrderBook/Rest.antt =====
-- The rest of an incoming order enters the book.
use pmr_market_simulator.Prelude.{
  ℕ, ◌≡◌, ◌≢◌, refl, sym, ap, ◌∙◌, true, none, some, List, [], ◌∷◌, ◌++◌, if◌then◌else◌, ◌==◌,
}
use mathlib.Core.Option
use pmr_market_simulator.Prelude.Int.{ℤ}
use pmr_market_simulator.Prelude.Run.{Returns}
use pmr_market_simulator.Event.{Side}
use pmr_market_simulator.FlatHash.{FlatHashMap}
use pmr_market_simulator.FlatHash.Keys.{tick_key, id_key}
use pmr_market_simulator.FlatHash.Laws.{contents}
use pmr_market_simulator.FlatHash.Insert.{insert-Inserted, HasRoom}
use pmr_market_simulator.OrderBook.{Order, OrderRef, Book, half, deref, rest_order}
use pmr_market_simulator.OrderBook.Sound.{same_level, queue, queue-pointer}
use pmr_market_simulator.OrderBook.Create.{get_or_create_level-Created}
use pmr_market_simulator.OrderBook.Round.{
  IsBook, rewrite, rewrite-IsSound, queue-rewrite, pointer-rewrite,
}
use pmr_market_simulator.OrderBook.Matching.{changed-IsBook}

append_filled : {A : Type 0} (xs : List A) (x : A) → xs ++ (x ∷ []) ≢ []
append_filled [] x e = cc
append_filled (y ∷ xs) x e = cc

module _ {Double : Type 0} where
  -- What `rest_order` leaves: the order is the newest of its level, and the index refers to it.
  pub record Rested (s : Side) (t : ℤ) (o : Order Double) (b b' : Book Double) : Type 0 where
    pub book : IsBook b'
    pub queues :
        (s' : Side) (t' : ℤ)
        → queue s' t' b' ≡ (if same_level s t s' t' then queue s t b ++ (o ∷ []) else queue s' t' b)
    pub indexed :
        (id : ℕ)
        → contents b'.index id
          ≡ (if o.id == id then some (record { side = s; tick = t }) else contents b.index id)
    pub same_tick_size : b'.tick_size ≡ b.tick_size

  -- In a book with room in the level map of the side and in the index, an order whose id is not in
  -- the index enters the book behind the orders of its level.
  pub rest_order-Rested :
      (s : Side) (t : ℤ) (o : Order Double) (b : Book Double)
      → IsBook b
      → HasRoom (half s b).levels
      → HasRoom b.index
      → contents b.index o.id ≡ none
      → Returns (rest_order s t o b) (Rested s t o b)
  unfolding rest_order
  rest_order-Rested s t o b is room index_room absent =
      let ((p, b₁), found, c) = get_or_create_level-Created s t b is.sound room in
      let q = (deref b₁ p).q ++ (o ∷ []) in
      let ref : OrderRef = record { side = s; tick = t } in
      let old : (deref b₁ p).q ≡ queue s t b =
        sym (queue-pointer s t b₁ p c.pointer_here) ∙ c.queues s t in
      let (r, run, i) =
        insert-Inserted {m = b₁.index} o.id ref (rw c.rest.index is.index.valid)
          (ap (λ (m : FlatHashMap ℕ OrderRef). m.allow_grow) c.rest.index ∙ is.index.fixed)
          (rw c.rest.index index_room) in
      let same_index : (id : ℕ) → contents b₁.index id ≡ contents b.index id =
        λ id. ap (λ (m : FlatHashMap ℕ OrderRef). contents m id) c.rest.index in
      let new : r.0 ≡ true = i.answer.1 (same_index o.id ∙ absent) in
      let b₂ = rewrite b₁ p q r.1 in
      let queues : (s' : Side) (t' : ℤ)
          → queue s' t' b₂ ≡ (if same_level s t s' t' then q else queue s' t' b) =
        λ s' t'.
          queue-rewrite s s' t t' b₁ p q r.1 c.sound c.pointer_here
          ∙ ap (λ x. if same_level s t s' t' then q else x) (c.queues s' t') in
      (
        b₂,
        rw (found, run, new) refl,
        record {
          book =
              changed-IsBook s t b b₂ q is (rewrite-IsSound b₁ p q r.1 c.sound)
                (record {
                  valid = i.valid;
                  fixed =
                      i.grow
                      ∙ ap (λ (m : FlatHashMap ℕ OrderRef). m.allow_grow) c.rest.index
                      ∙ is.index.fixed;
                })
                queues (λ s' t' other. pointer-rewrite s' t' b₁ p q r.1 ∙ c.others s' t' other)
                (λ s' t' same empty. absurd (append_filled (deref b₁ p).q o empty));
          queues = λ s' t'.
              queues s' t'
              ∙ ap (λ x. if same_level s t s' t' then x ++ (o ∷ []) else queue s' t' b) old;
          indexed = λ id.
              i.reads id
              ∙ ap (λ x. if o.id == id then some (Option.get_or x ref) else contents b₁.index id)
                  (same_index o.id ∙ absent)
              ∙ ap (λ x. if o.id == id then some ref else x) (same_index id);
          same_tick_size = c.rest.tick_size;
        },
      )
