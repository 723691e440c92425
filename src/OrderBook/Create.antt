-- ===== src/OrderBook/Create.antt =====
-- A level for a tick: the one that is there, or a new one that holds no orders.
use pmr_market_simulator.Prelude.{
  ℕ, zero, suc, ◌<◌, ◌≤◌, ◌≡◌, ◌≢◌, ◌⊎◌, inl, inr, refl, sym, ap, ◌∙◌, Bool, true, false, Option,
  none, some, List, [], ◌∷◌, ◌++◌, arith, length, get_or, set, length-set, ltb, if◌then◌else◌,
  Bool-cases, Option-cases, length-append, get_or-set_self, get_or-set_ne,
}
use mathlib.Core.Path.{ap₂}
use mathlib.Core.Option
use pmr_market_simulator.Prelude.Int.{ℤ, pos, eqbℤ, eqbℤ_iff}
use pmr_market_simulator.Prelude.Run.{Run, ok, abort, Returns, ◌>>=◌}
use pmr_market_simulator.Event.{Side, buy, sell}
use pmr_market_simulator.FlatHash
use pmr_market_simulator.FlatHash.{FlatHashMap}
use pmr_market_simulator.FlatHash.Keys.{tick_key, id_key}
use pmr_market_simulator.FlatHash.Laws.{contents}
use pmr_market_simulator.FlatHash.Insert.{insert-Inserted, Inserted, HasRoom}
use pmr_market_simulator.OrderBook.{
  Level, Half, Book, half, with_half, deref, get_or_create_level, allocate_level, take_level,
  add_active_tick,
}
use pmr_market_simulator.OrderBook.Ticks.{count, improve-IsBest, count-append}
use pmr_market_simulator.OrderBook.Sound.{
  deref_heap, same_side, same_level, same_level_iff, same_level_refl, occurs, present, IsHalf,
  IsLayout, pointer, IsSound, queue, queue_at, half-with_half, get_level-pointer,
}
use pmr_market_simulator.OrderBook.Levels.{
  Repointed, SameRest, repoint, with_half-IsHalf, with_half-SameRest,
}

add_listed :
    (tick t : ℤ) (ticks : List ℤ) (o o' : Option ℕ) (p : ℕ)
    → count t ticks ≡ present o
    → (eqbℤ tick t ≡ true → o ≡ none)
    → o' ≡ (if eqbℤ tick t then some p else o)
    → count t (ticks ++ (tick ∷ [])) ≡ present o'
unfolding count
add_listed tick t ticks none o' p a absent b = ground (arith, count-append t ticks (tick ∷ []))
add_listed tick t ticks (some x) o' p a absent b = ground (arith, count-append t ticks (tick ∷ []))

-- A side that got a level at a tick where it had none.
added-IsHalf :
    (side : Side) (tick : ℤ) (p : ℕ) (h : Half) (levels : FlatHashMap ℤ ℕ) (answer : Bool)
    → IsHalf side h
    → contents h.levels tick ≡ none
    → Inserted h.levels tick p (answer, levels)
    → IsHalf side (add_active_tick side tick (record h { levels = levels }))
unfolding add_active_tick
added-IsHalf side tick p h levels answer was absent i = record {
  levels = i.valid;
  fixed = i.grow ∙ was.fixed;
  listed = λ t.
      add_listed tick t h.ticks (contents h.levels t) (contents levels t) p (was.listed t)
        (λ e. (let same = (eqbℤ_iff tick t).0 e in ap (contents h.levels) (sym same) ∙ absent))
        (i.reads t
          ∙ ap (λ o. if eqbℤ tick t then some (Option.get_or o p) else contents h.levels t) absent);
  best = improve-IsBest side tick h.ticks h.best was.best;
}

-- The layout with one more level, at a pointer that was in no use.
used-IsLayout :
    (s : Side) (t : ℤ) (p n n' : ℕ) (free free' : List ℕ) (halves halves' : Side → Half)
    → IsLayout halves n free
    → ((s' : Side) (t' : ℤ) → contents (halves s').levels t' ≢ some p)
    → p < n'
    → n ≤ n'
    → occurs p free' ≡ 0
    → ((x : ℕ) → occurs x free' ≤ occurs x free)
    → ((s' : Side) → IsHalf s' (halves' s'))
    → ((s' : Side) (t' : ℤ)
        → contents (halves' s').levels t'
          ≡ (if same_level s t s' t' then some p else contents (halves s').levels t'))
    → IsLayout halves' n' free'
used-IsLayout s t p n n' free free' halves halves' l unused lt le gone fewer sides reads = record {
  sides = sides;
  allocated = λ s' t' p' e. elim (cases s' t' p' e) [
    | inl (_, _, c) ↦ rw (← c) lt
    | inr old ↦ omega (arith, l.allocated s' t' p' old)
  ];
  apart = λ s₁ s₂ t₁ t₂ p' e₁ e₂. elim (cases s₁ t₁ p' e₁) [
    | inl (a, b, c) ↦ elim (cases s₂ t₂ p' e₂) [
      | inl (a', b', c') ↦ (sym a ∙ a', sym b ∙ b')
      | inr old ↦ absurd (unused s₂ t₂ (old ∙ ap some (sym c)))
    ]
    | inr old₁ ↦ elim (cases s₂ t₂ p' e₂) [
      | inl (a', b', c') ↦ absurd (unused s₁ t₁ (old₁ ∙ ap some (sym c')))
      | inr old ↦ l.apart s₁ s₂ t₁ t₂ p' old₁ old
    ]
  ];
  in_use = λ s' t' p' e. elim (cases s' t' p' e) [
    | inl (_, _, c) ↦ rw (← c) gone
    | inr old ↦ omega (arith, l.in_use s' t' p' old, fewer p')
  ];
  free_once = λ p'. omega (arith, l.free_once p', fewer p');
  free_allocated = λ p' h. omega (arith, l.free_allocated p' (omega (arith, fewer p')));
}
  where
    cases :
        (s' : Side) (t' : ℤ) (p' : ℕ)
        → contents (halves' s').levels t' ≡ some p'
        → (s ≡ s') × (t ≡ t') × (p ≡ p') ⊎ (contents (halves s').levels t' ≡ some p')
    cases s' t' p' e = elim (Bool-cases (same_level s t s' t')) [
      | inl same ↦
          let (a, b) = (same_level_iff s s' t t').0 same in
          let q : some p ≡ some p' =
            ap (λ (c : Bool). if c then some p else contents (halves s').levels t') (sym same)
            ∙ sym (reads s' t')
            ∙ e in
          inl (a, b, (cc))
      | inr other ↦ inr (
          ap (λ (c : Bool). if c then some p else contents (halves s').levels t') (sym other)
          ∙ sym (reads s' t')
          ∙ e)
    ]

module _ {Double : Type 0} where
  -- What `allocate_level` gives: a pointer in no use to a level with no orders.
  record Allocated (b : Book Double) (p : ℕ) (b' : Book Double) : Type 0 where
    halves : (s : Side) → half s b' ≡ half s b
    unused : (s : Side) (t : ℤ) → pointer s t b ≢ some p
    grown : length b.heap ≤ length b'.heap
    inside : p < length b'.heap
    gone : occurs p b'.free_levels ≡ 0
    fewer : (x : ℕ) → occurs x b'.free_levels ≤ occurs x b.free_levels
    no_orders : (deref b' p).q ≡ []
    others : (x : ℕ) → x < length b.heap → x ≢ p → (deref b' x).q ≡ (deref b x).q
    rest : SameRest b b'

  get_or-append :
      (xs ys : List (Level Double)) (i : ℕ) (d : Level Double)
      → i < length xs
      → get_or (xs ++ ys) i d ≡ get_or xs i d
  get_or-append [] ys i d h = absurd (omega arith)
  get_or-append (x ∷ xs) ys zero d h = refl
  get_or-append (x ∷ xs) ys (suc i) d h = get_or-append xs ys i d (omega arith)

  get_or-append_last :
      (xs : List (Level Double)) (l d : Level Double) → get_or (xs ++ (l ∷ [])) (length xs) d ≡ l
  get_or-append_last [] l d = refl
  get_or-append_last (x ∷ xs) l d = get_or-append_last xs l d

  never_free :
      (b : Book Double) → IsSound b → ((x : ℕ) → length b.heap ≤ x → occurs x b.free_levels ≡ 0)
  never_free b sound x h = elim (Bool-cases (ltb 0 (occurs x b.free_levels))) [
    | inl some_free ↦ absurd (omega (arith, sound.free_allocated x (ground arith)))
    | inr none_free ↦ ground arith
  ]

  half-heap :
      (s : Side) (free : List ℕ) (heap : List (Level Double)) (b : Book Double)
      → half s (record b { free_levels = free; heap = heap }) ≡ half s b
  half-heap buy free heap b = refl
  half-heap sell free heap b = refl

  take_level-Allocated :
      (free : List ℕ) (t : ℤ) (b : Book Double)
      → IsSound b
      → b.free_levels ≡ free
      → (let (p, b') = take_level free t b in Allocated b p b')
  unfolding take_level occurs
  take_level-Allocated [] t b sound e =
      let fresh : Level Double = record { tick = t; q = [] } in
      let blank : Level Double = record { tick = pos 0; q = [] } in
      record {
        halves = λ s. half-heap s b.free_levels (b.heap ++ (fresh ∷ [])) b;
        unused = λ s t' c. omega (arith, sound.allocated s t' (length b.heap) c);
        grown = omega (arith, length-append b.heap (fresh ∷ []));
        inside = omega (arith, length-append b.heap (fresh ∷ []));
        gone = never_free b sound (length b.heap) (omega arith);
        fewer = λ x. omega arith;
        no_orders = ap (λ (l : Level Double). l.q) (get_or-append_last b.heap fresh blank);
        others =
            λ x h n. ap (λ (l : Level Double). l.q) (get_or-append b.heap (fresh ∷ []) x blank h);
        rest = record { index = refl; symbol = refl; tick_size = refl; inv_tick = refl };
      }
  take_level-Allocated (p ∷ free) t b sound e =
      let fresh : Level Double = record { tick = t; q = [] } in
      let blank : Level Double = record { tick = pos 0; q = [] } in
      let same : (x : ℕ) → occurs x b.free_levels ≡ occurs x (p ∷ free) = λ x. ap (occurs x) e in
      let here : 0 < occurs p b.free_levels = ground (arith, same p) in
      let inside : p < length b.heap = sound.free_allocated p here in
      record {
        halves = λ s. half-heap s free (set b.heap p fresh) b;
        unused = λ s t' c. omega (arith, sound.in_use s t' p c);
        grown = omega (arith, length-set b.heap p fresh);
        inside = omega (arith, length-set b.heap p fresh);
        gone = ground (arith, same p, sound.free_once p);
        fewer = λ x. ground (arith, same x);
        no_orders = ap (λ (l : Level Double). l.q) (get_or-set_self b.heap p fresh blank inside);
        others = λ x h n.
            ap (λ (l : Level Double). l.q) (get_or-set_ne b.heap p x fresh blank (λ c. n (sym c)));
        rest = record { index = refl; symbol = refl; tick_size = refl; inv_tick = refl };
      }

  -- What `get_or_create_level` leaves: a level for the tick, and the same orders everywhere.
  pub record Created (s : Side) (t : ℤ) (b : Book Double) (r : ℕ × Book Double) : Type 0 where
    pub sound : IsSound r.1
    pub pointer_here : pointer s t r.1 ≡ some r.0
    pub queues : (s' : Side) (t' : ℤ) → queue s' t' r.1 ≡ queue s' t' b
    pub others :
        (s' : Side) (t' : ℤ) → same_level s t s' t' ≡ false → pointer s' t' r.1 ≡ pointer s' t' b
    pub other_half : (s' : Side) → same_side s s' ≡ false → half s' r.1 ≡ half s' b
    pub rest : SameRest b r.1

  Created-old :
      (s : Side) (t : ℤ) (b : Book Double) (p : ℕ)
      → IsSound b
      → pointer s t b ≡ some p
      → Returns (get_or_create_level s t b) (Created s t b)
  unfolding get_or_create_level
  Created-old s t b p sound at = (
    (p, b),
    rw (get_level-pointer s t b sound, at),
    record {
      sound = sound;
      pointer_here = at;
      queues = λ s' t'. refl;
      others = λ s' t' other. refl;
      other_half = λ s' other. refl;
      rest = record { index = refl; symbol = refl; tick_size = refl; inv_tick = refl };
    },
  )

  abbrev create_in : Side → ℤ → ℕ × Book Double → Run (ℕ × Book Double)
  create_in s t a = do
    (inserted, levels) ← FlatHash.insert (half s a.1).levels t a.0
    if inserted
        then ok
            (a.0, with_half s (add_active_tick s t (record (half s a.1) { levels = levels })) a.1)
        else abort

  create_run :
      (s : Side) (t : ℤ) (b : Book Double)
      → IsSound b
      → pointer s t b ≡ none
      → get_or_create_level s t b ≡ create_in s t (allocate_level t b)
  unfolding get_or_create_level
  create_run s t b sound at = rw (get_level-pointer s t b sound, at)

  with_half-free :
      (s : Side) (h : Half) (b : Book Double) → (with_half s h b).free_levels ≡ b.free_levels
  with_half-free buy h b = refl
  with_half-free sell h b = refl

  -- The queues of a book where a tick without a level got one without orders.
  Created-queues :
      (s : Side) (t : ℤ) (p : ℕ) (b b₁ b₂ : Book Double)
      → IsSound b
      → pointer s t b ≡ none
      → Allocated b p b₁
      → b₂.heap ≡ b₁.heap
      → Repointed s t (some p) b b₂
      → (s' : Side) (t' : ℤ) → queue s' t' b₂ ≡ queue s' t' b
  unfolding queue
  Created-queues s t p b b₁ b₂ sound at al heap reads s' t' =
      elim (Bool-cases (same_level s t s' t')) [
        | inl same ↦
            let (a, c) = (same_level_iff s s' t t').0 same in
            let none_here : pointer s' t' b ≡ none = sym (ap₂ (λ x y. pointer x y b) a c) ∙ at in
            ap (queue_at b₂)
              (reads s' t' ∙ ap (λ (d : Bool). if d then some p else pointer s' t' b) same)
            ∙ deref_heap b₁ b₂ heap p
            ∙ al.no_orders
            ∙ sym (ap (queue_at b) none_here)
        | inr other ↦
            ap (queue_at b₂)
              (reads s' t' ∙ ap (λ (d : Bool). if d then some p else pointer s' t' b) other)
            ∙ elsewhere (pointer s' t' b) refl
      ]
    where
      elsewhere : (o : Option ℕ) → pointer s' t' b ≡ o → queue_at b₂ o ≡ queue_at b o
      elsewhere none e = refl
      elsewhere (some p') e =
          deref_heap b₁ b₂ heap p'
          ∙ al.others p' (sound.allocated s' t' p' e) (λ c. al.unused s' t' (e ∙ ap some c))

  Created-new :
      (s : Side) (t : ℤ) (b : Book Double)
      → IsSound b
      → pointer s t b ≡ none
      → HasRoom (half s b).levels
      → (p : ℕ) (b₁ : Book Double) → Allocated b p b₁
      → Returns (create_in s t (p, b₁)) (Created s t b)
  Created-new s t b sound at room p b₁ al =
      let same = al.halves s in
      let was : IsHalf s (half s b₁) = rw same (sound.sides s) in
      let absent : contents (half s b₁).levels t ≡ none =
        ap (λ (h : Half). contents h.levels t) same ∙ at in
      let (r, run, i) = insert-Inserted t p was.levels was.fixed (rw same room) in
      let new : r.0 ≡ true = i.answer.1 absent in
      let h = add_active_tick s t (record (half s b₁) { levels = r.1 }) in
      let b₂ = with_half s h b₁ in
      let rests = with_half-SameRest s h b₁ in
      let free = with_half-free s h b₁ in
      let half_h : h.levels ≡ r.1 = unfold add_active_tick in refl in
      let reads : Repointed s t (some p) b b₂ = λ s' t'.
        repoint s s' t t' h b₁ (some p) (
          ap (λ (l : FlatHashMap ℤ ℕ). contents l t') half_h
          ∙ i.reads t'
          ∙ ap (λ o. if eqbℤ t t' then some (Option.get_or o p) else pointer s t' b₁) absent)
        ∙ ap (λ o. if same_level s t s' t' then some p else o)
            (ap (λ (l : Half). contents l.levels t') (al.halves s')) in
      let sides : (s' : Side) → IsHalf s' (half s' b₂) =
        with_half-IsHalf s h b₁ (added-IsHalf s t p (half s b₁) r.1 r.0 was absent i)
          (λ s'. rw (al.halves s') (sound.sides s')) in
      (
        (p, b₂),
        rw run (rw new),
        record {
          sound =
              used-IsLayout s t p (length b.heap) (length b₂.heap) b.free_levels b₂.free_levels
                (λ x. half x b) (λ x. half x b₂) sound al.unused (rw rests.1 al.inside)
                (rw rests.1 al.grown) (rw free al.gone) (λ x. rw free (al.fewer x)) sides reads;
          pointer_here =
              reads s t
              ∙ ap (λ (d : Bool). if d then some p else pointer s t b) (same_level_refl s t);
          queues = Created-queues s t p b b₁ b₂ sound at al rests.1 reads;
          others = λ s' t' other.
              reads s' t' ∙ ap (λ (d : Bool). if d then some p else pointer s' t' b) other;
          other_half = λ s' other.
              half-with_half s s' h b₁
              ∙ ap (λ (d : Bool). if d then h else half s' b₁) other
              ∙ al.halves s';
          rest = record {
            index = rests.0.index ∙ al.rest.index;
            symbol = rests.0.symbol ∙ al.rest.symbol;
            tick_size = rests.0.tick_size ∙ al.rest.tick_size;
            inv_tick = rests.0.inv_tick ∙ al.rest.inv_tick;
          };
        },
      )

  -- On a sound book with room in the level map, `get_or_create_level` ends with a level for the tick; the book stays
  -- sound and no queue changes.
  pub get_or_create_level-Created :
      (s : Side) (t : ℤ) (b : Book Double)
      → IsSound b
      → HasRoom (half s b).levels
      → Returns (get_or_create_level s t b) (Created s t b)
  get_or_create_level-Created s t b sound room = elim (Option-cases (pointer s t b)) [
    | inr (p, at) ↦ Created-old s t b p sound at
    | inl at ↦ rw (create_run s t b sound at) (
        Created-new s t b sound at room (allocate_level t b).0 (allocate_level t b).1
          (unfold allocate_level in take_level-Allocated b.free_levels t b sound refl))
  ]
