-- ===== src/OrderBook/Matching.antt =====
-- What a round of the matching loop does to a book.
use pmr_market_simulator.Prelude.{
  ℕ, ◌<◌, ◌≡◌, ◌⊎◌, inl, inr, refl, sym, ap, ◌∙◌, Bool, true, false, none, some, List, [], ◌∷◌,
  arith, if◌then◌else◌, Bool-cases,
}
use mathlib.Core.Path.{subst}
use pmr_market_simulator.Prelude.Int.{ℤ}
use pmr_market_simulator.Prelude.Run.{Returns}
use pmr_market_simulator.Event.{Side}
use pmr_market_simulator.FlatHash.{FlatHashMap}
use pmr_market_simulator.FlatHash.Keys.{tick_key, id_key}
use pmr_market_simulator.OrderBook.{
  Order, OrderRef, Half, Book, Filled, Matched, half, deref, opposite, match_round,
}
use pmr_market_simulator.OrderBook.Sound.{
  same_side, same_level, same_level_refl, IsSound, pointer, queue, queue-pointer, get_level-pointer,
}
use pmr_market_simulator.OrderBook.Levels.{Removed, remove_level-filled, remove_level-Removed}
use pmr_market_simulator.OrderBook.Fill.{IsIndex, Unindexed, Fills, match_level-Fills}
use pmr_market_simulator.OrderBook.Round.{
  IsBook, best_level, rewrite, rewrite-IsSound, queue-rewrite, pointer-rewrite, half-rewrite,
  deref-rewrite, Removed-queue, Rounded,
}

pub list_cases : {A : Type 0} (q : List A) → (q ≡ []) ⊎ ((o : A) × (r : List A) × (q ≡ o ∷ r))
list_cases [] = inl refl
list_cases (o ∷ r) = inr (o, r, refl)

Unindexed-to :
    {ids : List ℕ} {i j k : FlatHashMap ℕ OrderRef} → k ≡ j → Unindexed ids i j → Unindexed ids i k
Unindexed-to {ids} {i} e u = subst (Unindexed ids i) (sym e) u

module _ {Double : Type 0} where
  -- A book in which one queue changed, and no level is empty.
  pub changed-IsBook :
      (s : Side) (t : ℤ) (b b' : Book Double) (q : List (Order Double))
      → IsBook b
      → IsSound b'
      → IsIndex b'.index
      → ((s' : Side) (t' : ℤ)
          → queue s' t' b' ≡ (if same_level s t s' t' then q else queue s' t' b))
      → ((s' : Side) (t' : ℤ) → same_level s t s' t' ≡ false → pointer s' t' b' ≡ pointer s' t' b)
      → ((s' : Side) (t' : ℤ) → same_level s t s' t' ≡ true → q ≡ [] → pointer s' t' b' ≡ none)
      → IsBook b'
  changed-IsBook s t b b' q was sound index queues pointers here = record {
    sound = sound;
    index = index;
    filled = λ s' t' e. elim (Bool-cases (same_level s t s' t')) [
      | inl same ↦
          here s' t' same
            (sym (ap (λ (c : Bool). if c then q else queue s' t' b) same) ∙ sym (queues s' t') ∙ e)
      | inr other ↦
          pointers s' t' other
          ∙ was.filled s' t' (
              sym (ap (λ (c : Bool). if c then q else queue s' t' b) other)
              ∙ sym (queues s' t')
              ∙ e)
    ];
  }

  -- The parts of `Rounded` that follow from the queues of the book that is left.
  rounded :
      (s : Side) (t : ℤ) (p : ℕ) (m : Matched Double) (f : Filled Double) (b' : Book Double)
      → pointer s t m.book ≡ some p
      → Fills m.remaining (deref m.book p).q m.book.index f
      → IsBook b'
      → b'.index ≡ f.index
      → ((s' : Side) (t' : ℤ)
          → queue s' t' b' ≡ (if same_level s t s' t' then f.q else queue s' t' m.book))
      → (f.remaining ≡ 0) ⊎ ((half s b').levels.size < (half s m.book).levels.size)
      → ((s' : Side) → same_side s s' ≡ false → half s' b' ≡ half s' m.book)
      → b'.tick_size ≡ m.book.tick_size
      → Rounded s t m (record { remaining = f.remaining; trade_price = f.trade_price; book = b' })
  rounded s t p m f b' at fill book index queues progress other_half tick_size =
      let old : queue s t m.book ≡ (deref m.book p).q = queue-pointer s t m.book p at in
      let new : queue s t b' ≡ f.q =
        queues s t ∙ ap (λ (c : Bool). if c then f.q else queue s t m.book) (same_level_refl s t) in
      record {
        book = book;
        ids = fill.ids;
        oldest_first = rw (old, new) fill.oldest_first;
        unindexed = Unindexed-to index fill.unindexed;
        others = λ s' t' other.
            queues s' t' ∙ ap (λ (c : Bool). if c then f.q else queue s' t' m.book) other;
        conserved = rw (old, new) fill.conserved;
        no_more = fill.no_more;
        complete = elim fill.complete [ inl done ↦ inl done | inr empty ↦ inr (new ∙ empty) ];
        progress = progress;
        other_half = other_half;
        same_tick_size = tick_size;
      }

  -- The round that leaves orders in the level.
  Rounded-kept :
      (s : Side) (t : ℤ) (p : ℕ) (m : Matched Double) (f : Filled Double) (o : Order Double)
      (q : List (Order Double))
      → IsBook m.book
      → pointer s t m.book ≡ some p
      → Fills m.remaining (deref m.book p).q m.book.index f
      → f.q ≡ o ∷ q
      → Rounded s t m (record {
        remaining = f.remaining;
        trade_price = f.trade_price;
        book = rewrite m.book p f.q f.index;
      })
  Rounded-kept s t p m f o q was at fill e =
      let queues : (s' : Side) (t' : ℤ)
          → queue s' t' (rewrite m.book p f.q f.index)
            ≡ (if same_level s t s' t' then f.q else queue s' t' m.book) =
        λ s' t'. queue-rewrite s s' t t' m.book p f.q f.index was.sound at in
      rounded s t p m f (rewrite m.book p f.q f.index) at fill
        (changed-IsBook s t m.book (rewrite m.book p f.q f.index) f.q was
          (rewrite-IsSound m.book p f.q f.index was.sound) fill.unindexed.index queues
          (λ s' t' other. pointer-rewrite s' t' m.book p f.q f.index)
          (λ s' t' same empty. absurd (let bad : o ∷ q ≡ [] = sym e ∙ empty in cc)))
        refl queues
        (elim fill.complete [
          | inl done ↦ inl done
          | inr empty ↦ absurd (let bad : o ∷ q ≡ [] = sym e ∙ empty in cc)
        ])
        (λ s' other. half-rewrite s' m.book p f.q f.index) refl

  -- The round that empties the level.
  Rounded-Removed :
      (s : Side) (t : ℤ) (p : ℕ) (m : Matched Double) (f : Filled Double) (b' : Book Double)
      → IsBook m.book
      → pointer s t m.book ≡ some p
      → Fills m.remaining (deref m.book p).q m.book.index f
      → f.q ≡ []
      → Removed s t (rewrite m.book p f.q f.index) b'
      → Rounded s t m (record { remaining = f.remaining; trade_price = f.trade_price; book = b' })
  Rounded-Removed s t p m f b' was at fill e r =
      let b₁ = rewrite m.book p f.q f.index in
      let queues : (s' : Side) (t' : ℤ)
          → queue s' t' b' ≡ (if same_level s t s' t' then f.q else queue s' t' m.book) =
        λ s' t'. elim (Bool-cases (same_level s t s' t')) [
          | inl same ↦ Removed-queue s s' t t' b₁ b' r ∙ rw same (sym e)
          | inr other ↦
              Removed-queue s s' t t' b₁ b' r
              ∙ rw other (
                  queue-rewrite s s' t t' m.book p f.q f.index was.sound at
                  ∙ ap (λ (c : Bool). if c then f.q else queue s' t' m.book) other)
        ] in
      rounded s t p m f b' at fill
        (changed-IsBook s t m.book b' f.q was r.sound
          (subst IsIndex (sym r.rest.index) fill.unindexed.index) queues
          (λ s' t' other.
            r.pointers s' t'
            ∙ ap (λ (c : Bool). if c then none else pointer s' t' b₁) other
            ∙ pointer-rewrite s' t' m.book p f.q f.index)
          (λ s' t' same empty.
            r.pointers s' t' ∙ ap (λ (c : Bool). if c then none else pointer s' t' b₁) same))
        r.rest.index queues
        (inr (
          let size = ap (λ (h : Half). h.levels.size) (half-rewrite s m.book p f.q f.index) in
          omega (arith, r.fewer, size)))
        (λ s' other. r.other_half s' other ∙ half-rewrite s' m.book p f.q f.index) r.rest.tick_size

  -- A round at the best tick of the side that is hit ends; that level alone changes, its oldest
  -- orders first, and either the incoming order is filled or there is one level less.
  pub match_round-Rounded :
      (side : Side) (t : ℤ) (m : Matched Double)
      → IsBook m.book
      → (half (opposite side) m.book).best ≡ some t
      → Returns (match_round side t m) (Rounded (opposite side) t m)
  unfolding match_round
  match_round-Rounded side t m was best =
      let s = opposite side in
      let (p, at) = best_level s m.book t was.sound best in
      let (f, run, fill) =
        match_level-Fills m.remaining (deref m.book p).q m.book.index m.trade_price was.index in
      let b₁ = rewrite m.book p f.q f.index in
      let self = deref-rewrite s t m.book p f.q f.index was.sound at in
      elim (list_cases f.q) [
        | inl empty ↦
            let (b', removed, r) =
              remove_level-Removed s t p b₁ (rewrite-IsSound m.book p f.q f.index was.sound)
                (pointer-rewrite s t m.book p f.q f.index ∙ at) (self ∙ empty) in
            (
              record { remaining = f.remaining; trade_price = f.trade_price; book = b' },
              rw (get_level-pointer s t m.book was.sound, at, run, removed) refl,
              Rounded-Removed s t p m f b' was at fill empty r,
            )
        | inr (o, q, e) ↦ (
          record { remaining = f.remaining; trade_price = f.trade_price; book = b₁ },
          rw
              (
                get_level-pointer s t m.book was.sound,
                at,
                run,
                remove_level-filled s t p b₁ o q (self ∙ e),
              )
              refl,
          Rounded-kept s t p m f o q was at fill e,
        )
      ]
