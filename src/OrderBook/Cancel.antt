-- ===== src/OrderBook/Cancel.antt =====
-- `cancel_order`: the order leaves its level and the index, and an empty level leaves the book.
use pmr_market_simulator.Prelude.{
  ℕ, ◌≡◌, inl, inr, refl, sym, ap, ◌∙◌, Bool, true, false, Option, none, some, List, [], ◌∷◌, arith,
  if◌then◌else◌, Bool-cases, ◌==◌,
}
use mathlib.Core.Path.{subst, ap₂}
use pmr_market_simulator.Prelude.Int.{ℤ}
use pmr_market_simulator.Prelude.Run.{Run, ok, Returns, ◌>>=◌}
use pmr_market_simulator.Event.{Side}
use pmr_market_simulator.FlatHash
use pmr_market_simulator.FlatHash.{FlatHashMap}
use pmr_market_simulator.FlatHash.Keys.{tick_key, id_key}
use pmr_market_simulator.FlatHash.Laws.{contents, erase-Erased, Erased, find_ptr-contents}
use pmr_market_simulator.OrderBook.{
  Order, OrderRef, Book, deref, store, erase_order, unindex, cancel_order, remove_level_if_empty,
}
use pmr_market_simulator.OrderBook.Sound.{
  same_level, same_level_iff, IsSound, pointer, queue, queue-pointer, queue_at, get_level-pointer,
}
use pmr_market_simulator.OrderBook.Levels.{remove_level-filled, remove_level-Removed, relayout}
use pmr_market_simulator.OrderBook.Fill.{IsIndex}
use pmr_market_simulator.OrderBook.Round.{
  IsBook, rewrite, rewrite-IsSound, queue-rewrite, pointer-rewrite, deref-rewrite, Removed-queue,
  queue-index, pointer-index, half-index,
}
use pmr_market_simulator.OrderBook.Matching.{changed-IsBook, list_cases}

module _ {Double : Type 0} where
  unfoldable pub holds : ℕ → List (Order Double) → Bool
  holds id [] = false
  holds id (o ∷ q) = if o.id == id then true else holds id q

  -- The queue without its first order with the id.
  unfoldable pub drop_order : ℕ → List (Order Double) → List (Order Double)
  drop_order id [] = []
  drop_order id (o ∷ q) = if o.id == id then q else o ∷ drop_order id q

  -- `erase_order` is `drop_order` on the queues that hold the id, and finds nothing on the others.
  erase_order-drop :
      (id : ℕ) (q : List (Order Double))
      → erase_order id q ≡ (if holds id q then some (drop_order id q) else none)
  unfolding erase_order holds drop_order
  erase_order-drop id [] = refl
  erase_order-drop id (o ∷ q) = elim (Bool-cases (o.id == id)) [
    | inl here ↦ rw here refl
    | inr other ↦ elim (Bool-cases (holds id q)) [
      | inl there ↦ rw (other, erase_order-drop id q, there) refl
      | inr gone ↦ rw (other, erase_order-drop id q, gone) refl
    ]
  ]

  drop_order-absent : (id : ℕ) (q : List (Order Double)) → holds id q ≡ false → drop_order id q ≡ q
  unfolding holds drop_order
  drop_order-absent id [] h = refl
  drop_order-absent id (o ∷ q) h = elim (Bool-cases (o.id == id)) [
    | inl here ↦ absurd (ground (arith, here, h))
    | inr other ↦ rw other (ap (λ r. o ∷ r) (drop_order-absent id q (ground (arith, other, h))))
  ]

  -- The book after the write of a queue and of the index, when the level is dropped if it is empty.
  record Written (s : Side) (t : ℤ) (q : List (Order Double)) (i : FlatHashMap ℕ OrderRef)
      (b b' : Book Double) : Type 0 where
    book : IsBook b'
    index : b'.index ≡ i
    queues :
        (s' : Side) (t' : ℤ) → queue s' t' b' ≡ (if same_level s t s' t' then q else queue s' t' b)

  write_level :
      (s : Side) (t : ℤ) (p : ℕ) (b : Book Double) (q : List (Order Double))
      (i : FlatHashMap ℕ OrderRef)
      → IsBook b
      → pointer s t b ≡ some p
      → IsIndex i
      → Returns (remove_level_if_empty s t p (rewrite b p q i)) (Written s t q i b)
  write_level s t p b q i is at index =
      let b₁ = rewrite b p q i in
      let sound : IsSound b₁ = rewrite-IsSound b p q i is.sound in
      let self : (deref b₁ p).q ≡ q = deref-rewrite s t b p q i is.sound at in
      let queues : (s' : Side) (t' : ℤ)
          → queue s' t' b₁ ≡ (if same_level s t s' t' then q else queue s' t' b) =
        λ s' t'. queue-rewrite s s' t t' b p q i is.sound at in
      elim (list_cases q) [
        | inr (o, r, e) ↦ (
          b₁,
          remove_level-filled s t p b₁ o r (self ∙ e),
          record {
            book =
                changed-IsBook s t b b₁ q is sound index queues
                  (λ s' t' other. pointer-rewrite s' t' b p q i)
                  (λ s' t' same empty. absurd (let bad : o ∷ r ≡ [] = sym e ∙ empty in cc));
            index = refl;
            queues = queues;
          },
        )
        | inl empty ↦
            let (b', run, r) =
              remove_level-Removed s t p b₁ sound (pointer-rewrite s t b p q i ∙ at)
                (self ∙ empty) in
            let queues' : (s' : Side) (t' : ℤ)
                → queue s' t' b' ≡ (if same_level s t s' t' then q else queue s' t' b) =
              λ s' t'. elim (Bool-cases (same_level s t s' t')) [
                | inl same ↦ Removed-queue s s' t t' b₁ b' r ∙ rw same (sym empty)
                | inr other ↦
                    Removed-queue s s' t t' b₁ b' r
                    ∙ rw other
                        (queues s' t' ∙ ap (λ (c : Bool). if c then q else queue s' t' b) other)
              ] in
            (
              b',
              run,
              record {
                book =
                    changed-IsBook s t b b' q is r.sound (subst IsIndex (sym r.rest.index) index)
                      queues'
                      (λ s' t' other.
                        r.pointers s' t'
                        ∙ ap (λ (c : Bool). if c then none else pointer s' t' b₁) other
                        ∙ pointer-rewrite s' t' b p q i)
                      (λ s' t' same e.
                        r.pointers s' t'
                        ∙ ap (λ (c : Bool). if c then none else pointer s' t' b₁) same);
                index = r.rest.index;
                queues = queues';
              },
            )
      ]

  reindex-IsBook :
      (b : Book Double) (i : FlatHashMap ℕ OrderRef)
      → IsBook b
      → IsIndex i
      → IsBook (record b { index = i })
  reindex-IsBook b i is index = record {
    sound = relayout (λ x. sym (half-index x b i)) is.sound;
    index = index;
    filled = λ s t e. pointer-index s t b i ∙ is.filled s t (sym (queue-index s t b i) ∙ e);
  }

  -- What `cancel_order` promises where the index refers to a side and a tick.
  pub record Cancelled (id : ℕ) (ref : OrderRef) (b : Book Double) (r : Bool × Book Double)
      : Type 0 where
    pub book : IsBook r.1
    pub answer : r.0 ≡ holds id (queue ref.side ref.tick b)
    pub queues :
        (s : Side) (t : ℤ)
        → queue s t r.1 ≡ (
            if same_level ref.side ref.tick s t
            then drop_order id (queue ref.side ref.tick b)
            else queue s t b)
    pub indexed : (x : ℕ) → contents r.1.index x ≡ (if id == x then none else contents b.index x)

  unindex_erased :
      (id : ℕ) (b : Book Double) (r : Bool × FlatHashMap ℕ OrderRef)
      → FlatHash.erase b.index id ≡ ok r
      → unindex id b ≡ ok (record b { index = r.1 })
  unfolding unindex
  unindex_erased id b r e = rw e refl

  -- An id that no queue holds where the index says.
  Cancelled-stale :
      (id : ℕ) (ref : OrderRef) (b : Book Double) (i : FlatHashMap ℕ OrderRef) (found : Bool)
      → IsBook b
      → Erased b.index id (found, i)
      → IsIndex i
      → holds id (queue ref.side ref.tick b) ≡ false
      → Cancelled id ref b (false, record b { index = i })
  Cancelled-stale id ref b i found is e index gone =
      let q = queue ref.side ref.tick b in
      record {
        book = reindex-IsBook b i is index;
        answer = sym gone;
        queues = λ s t. elim (Bool-cases (same_level ref.side ref.tick s t)) [
          | inl same ↦
              let (a, c) = (same_level_iff ref.side s ref.tick t).0 same in
              rw same (
                queue-index s t b i
                ∙ sym (ap₂ (λ x y. queue x y b) a c)
                ∙ sym (drop_order-absent id q gone))
          | inr other ↦ rw other (queue-index s t b i)
        ];
        indexed = e.reads;
      }

  -- `cancel_order` from the search in the level on
  abbrev cancel_in :
      ℕ → OrderRef → Book Double → ℕ → Option (List (Order Double)) → Run (Bool × Book Double)
  cancel_in id ref b p o = elim o [
    | none ↦ do b' ← unindex id b; ok (false, b')
    | some q ↦ do
      b' ← unindex id (store b p q)
      b'' ← remove_level_if_empty ref.side ref.tick p b'
      ok (true, b'')
  ]

  cancel_run :
      (id : ℕ) (ref : OrderRef) (b : Book Double) (p : ℕ)
      → IsBook b
      → contents b.index id ≡ some ref
      → pointer ref.side ref.tick b ≡ some p
      → cancel_order id b
        ≡ cancel_in id ref b p
            (if holds id (deref b p).q then some (drop_order id (deref b p).q) else none)
  unfolding cancel_order
  cancel_run id ref b p is at e =
      rw
        (find_ptr-contents id is.index.valid, at, get_level-pointer ref.side ref.tick b is.sound, e)
        (ap (cancel_in id ref b p) (erase_order-drop id (deref b p).q))

  -- `cancel_order` from the level on.
  cancel_at :
      (id : ℕ) (ref : OrderRef) (b : Book Double)
      → IsBook b
      → contents b.index id ≡ some ref
      → (o : Option ℕ) → pointer ref.side ref.tick b ≡ o
      → Returns (cancel_order id b) (Cancelled id ref b)
  unfolding cancel_order holds
  cancel_at id ref b is at none e =
      let ((found, i), run, erased) = erase-Erased id is.index.valid in
      let index : IsIndex i = record {
        valid = erased.valid;
        fixed = erased.same_grow ∙ is.index.fixed;
      } in
      let nothing : queue ref.side ref.tick b ≡ [] = unfold queue in ap (queue_at b) e in
      (
        (false, record b { index = i }),
        rw
            (
              find_ptr-contents id is.index.valid,
              at,
              get_level-pointer ref.side ref.tick b is.sound,
              e,
              unindex_erased id b (found, i) run,
            )
            refl,
        Cancelled-stale id ref b i found is erased index (ap (holds id) nothing),
      )
  cancel_at id ref b is at (some p) e =
      let q : List (Order Double) = (deref b p).q in
      let old : queue ref.side ref.tick b ≡ q = queue-pointer ref.side ref.tick b p e in
      let ((found, i), run, erased) = erase-Erased id is.index.valid in
      let index : IsIndex i = record {
        valid = erased.valid;
        fixed = erased.same_grow ∙ is.index.fixed;
      } in
      elim (Bool-cases (holds id q)) [
        | inr gone ↦ (
          (false, record b { index = i }),
          cancel_run id ref b p is at e ∙ rw (gone, unindex_erased id b (found, i) run) refl,
          Cancelled-stale id ref b i found is erased index (ap (holds id) old ∙ gone),
        )
        | inl there ↦
            let (b', removed, w) =
              write_level ref.side ref.tick p b (drop_order id q) i is e index in
            (
              (true, b'),
              cancel_run id ref b p is at e
                  ∙ rw
                      (
                        there,
                        unindex_erased id (store b p (drop_order id q)) (found, i) run,
                        removed,
                      )
                      refl,
              record {
                book = w.book;
                answer = sym (ap (holds id) old ∙ there);
                queues = λ s t.
                    w.queues s t
                    ∙ ap
                        (λ (x : List (Order Double)).
                          if same_level ref.side ref.tick s t then drop_order id x else queue s t b)
                        (sym old);
                indexed =
                    λ x. ap (λ (m : FlatHashMap ℕ OrderRef). contents m x) w.index ∙ erased.reads x;
              },
            )
      ]

  -- Where the index refers to a side and a tick for the id, `cancel_order` ends and leaves a book
  -- between two operations: the first order with the id leaves the queue of that tick, every other
  -- queue stays, the id leaves the index, and the answer is whether the queue held the id.
  pub cancel_order-Cancelled :
      (id : ℕ) (ref : OrderRef) (b : Book Double)
      → IsBook b
      → contents b.index id ≡ some ref
      → Returns (cancel_order id b) (Cancelled id ref b)
  cancel_order-Cancelled id ref b is at =
      cancel_at id ref b is at (pointer ref.side ref.tick b) refl

  -- In a book between two operations an id that is not in the index is refused, and the book stays as
  -- it is.
  pub cancel_order-absent :
      (id : ℕ) (b : Book Double)
      → IsBook b
      → contents b.index id ≡ none
      → cancel_order id b ≡ ok (false, b)
  unfolding cancel_order
  cancel_order-absent id b is at = rw (find_ptr-contents id is.index.valid, at) refl
