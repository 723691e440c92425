-- ===== src/FlatHash/Rehash.antt =====
-- `rehash_same_capacity`: the compaction of tombstones keeps the map.
use mathlib.Core.Option.{or_else}
use pmr_market_simulator.Prelude.{
  ℕ, zero, suc, ◌+◌, ◌<◌, ◌≤◌, ◌≡◌, ◌≢◌, inl, inr, refl, sym, ap, ◌∙◌, none, some, List, [], ◌∷◌,
  arith, length, set, if◌then◌else◌,
}
use pmr_market_simulator.Prelude.Run.{ok, Returns}
use pmr_market_simulator.FlatHash.{
  Key, Entry, empty, filled, tomb, slot, home, next_index, reinsert, rehash_loop,
}
use pmr_market_simulator.FlatHash.Table.{
  view, Distinct, one_if_filled, one_if_tomb, view-set_filled, count_filled, count_tombs,
  count_filled-set, count_tombs-set, empty-slot,
}
use pmr_market_simulator.FlatHash.Probe.{
  IsMask, step_to, step_to-lt, next_index-step_to, home-lt, home_step, step_to_onto,
}
use pmr_market_simulator.FlatHash.Search.{Misses-ne_empty, Entry-cases, on_path, Passed, Passed-suc}
use pmr_market_simulator.FlatHash.Table.{absent_nowhere}
use pmr_market_simulator.FlatHash.Placed.{IsPlaced, set_filled-IsPlaced}

module _ {ℓ} {K V : Type ℓ} ⦃key : Key K⦄ where
  -- The Empty slot that every path of a table with room comes to.
  pub path_end :
      (mask : ℕ) (t : List (Entry K V)) (k : K)
      → IsMask mask
      → IsPlaced mask t
      → count_filled t + count_tombs t < mask + 1
      → (d : ℕ) × (d < mask + 1) × (on_path t mask k d ≡ empty)
  path_end mask t k is_mask p room =
      let (i, lt, e) = empty-slot t (omega (arith, p.width)) in
      let (d, ld, onto) =
        step_to_onto mask (home mask k) i (home-lt mask k is_mask) (omega (arith, p.width)) in
      (d, ld, ap (slot t) onto ∙ e)

  module _ (mask : ℕ) (k : K) (v : V) (s : List (Entry K V)) where
    reinsert-empty :
        (f i : ℕ) → slot s i ≡ empty → reinsert mask k v (suc f) s i ≡ ok (set s i (filled k v))
    unfolding reinsert
    reinsert-empty f i e = rw (e, reinsert)

    reinsert-used :
        (f i : ℕ) (e : Entry K V)
        → slot s i ≡ e
        → e ≢ empty
        → reinsert mask k v (suc f) s i ≡ reinsert mask k v f s (next_index mask i)
    unfolding reinsert
    reinsert-used f i empty e n = absurd (n refl)
    reinsert-used f i tomb e n = rw (e, reinsert)
    reinsert-used f i (filled j w) e n = rw (e, reinsert)

    -- The entry is written to the first Empty slot of its path.
    abbrev pub Writes : ℕ → List (Entry K V) → Type ℓ
    Writes last s' =
        (d : ℕ) × (d ≤ last)
        × (on_path s mask k d ≡ empty)
        × (s' ≡ set s (step_to mask (home mask k) d) (filled k v))
        × Passed s mask k d

    pub reinsert-Writes :
        (f d last : ℕ)
        → IsMask mask
        → view s k ≡ none
        → on_path s mask k last ≡ empty
        → d ≤ last
        → last < d + f
        → Passed s mask k d
        → Returns (reinsert mask k v f s (step_to mask (home mask k) d)) (Writes last)
    reinsert-Writes zero d last is_mask absent at_last a b p = absurd (omega arith)
    reinsert-Writes (suc f) d last is_mask absent at_last a b p =
        elim (Entry-cases k (on_path s mask k d)) [
          | inl e ↦ (_, reinsert-empty f _ e, (d, a, e, refl, p))
          | inr (inr (w, e)) ↦ absurd (absent_nowhere s _ k w absent e)
          | inr (inl m) ↦
              let ne : d ≢ last = λ q. Misses-ne_empty k _ m (ap (on_path s mask k) q ∙ at_last) in
              let (r, run, w) =
                reinsert-Writes f (d + 1) last is_mask absent at_last (omega arith) (omega arith)
                  (Passed-suc s mask k d p m) in
              (
                r,
                reinsert-used f _ _ refl (Misses-ne_empty k _ m)
                    ∙ ap (reinsert mask k v f s) (next_index-step_to mask (home mask k) d is_mask)
                    ∙ run,
                w,
              )
        ]

  -- The array `s'` holds what `s` held, and `v` at `k`.
  pub record Added (mask : ℕ) (k : K) (v : V) (s s' : List (Entry K V)) : Type ℓ where
    pub placed : IsPlaced mask s'
    pub no_tombs : count_tombs s' ≡ 0
    pub counted : count_filled s' ≡ count_filled s + 1
    pub reads : (q : K) → view s' q ≡ (if key.beq k q then some v else view s q)

  -- One entry goes into a scratch table with room.
  pub reinsert-Added :
      (mask : ℕ) (k : K) (v : V) (s : List (Entry K V))
      → IsMask mask
      → IsPlaced mask s
      → count_tombs s ≡ 0
      → count_filled s < mask + 1
      → view s k ≡ none
      → Returns (reinsert mask k v (mask + 1) s (home mask k)) (Added mask k v s)
  reinsert-Added mask k v s is_mask p tombs room absent =
      let (last, lt, at_last) = path_end mask s k is_mask p (omega arith) in
      let (s', run, (d, le, at, e, passed)) =
        reinsert-Writes mask k v s (mask + 1) 0 last is_mask absent at_last (omega arith)
          (omega arith) (λ e h. absurd (omega arith)) in
      let i = step_to mask (home mask k) d in
      let bound : i < length s = omega (arith, p.width, step_to-lt mask (home mask k) d) in
      let free : one_if_filled (slot s i) ≡ 0 = ap one_if_filled at in
      let free_tomb : one_if_tomb (slot s i) ≡ 0 = ap one_if_tomb at in
      (
        s',
        ap (reinsert mask k v (mask + 1) s) (sym (home_step mask k is_mask)) ∙ run,
        record {
          placed =
              rw e (
                set_filled-IsPlaced s mask k v i d is_mask p free absent (omega arith) refl passed);
          no_tombs = rw e (omega (arith, count_tombs-set s i (filled k v) bound));
          counted = rw e (omega (arith, count_filled-set s i (filled k v) bound));
          reads = λ q. rw e (view-set_filled s i k v q bound free absent);
        },
      )

  -- The scratch table `s'`, with its count, after the entries `es` were added to `s`.
  pub record Rehashed (mask : ℕ) (es s : List (Entry K V)) (n : ℕ) (r : List (Entry K V) × ℕ)
      : Type ℓ where
    pub placed : IsPlaced mask r.0
    pub no_tombs : count_tombs r.0 ≡ 0
    pub counted : count_filled r.0 ≡ count_filled s + count_filled es
    pub new_size : r.1 ≡ n + count_filled es
    pub reads : (q : K) → view r.0 q ≡ or_else (view s q) (view es q)

  -- Every Filled entry is moved, and nothing else.
  pub rehash_loop-Rehashed :
      (mask : ℕ) (es s : List (Entry K V)) (n : ℕ)
      → IsMask mask
      → IsPlaced mask s
      → count_tombs s ≡ 0
      → count_filled s + count_filled es < mask + 1
      → Distinct es
      → ((q : K) → view es q ≢ none → view s q ≡ none)
      → Returns (rehash_loop mask es s n) (Rehashed mask es s n)
  unfolding rehash_loop view count_filled or_else
  rehash_loop-Rehashed mask [] s n is_mask p tombs room d apart = (
    _,
    refl,
    record {
      placed = p;
      no_tombs = tombs;
      counted = omega arith;
      new_size = omega arith;
      reads = λ q. ground arith;
    },
  )
  rehash_loop-Rehashed mask (empty ∷ es) s n is_mask p tombs room d apart =
      let (r, run, h) = rehash_loop-Rehashed mask es s n is_mask p tombs (omega arith) d apart in
      (
        r,
        run,
        record {
          placed = h.placed;
          no_tombs = h.no_tombs;
          counted = omega (arith, h.counted);
          new_size = omega (arith, h.new_size);
          reads = h.reads;
        },
      )
  rehash_loop-Rehashed mask (tomb ∷ es) s n is_mask p tombs room d apart =
      let (r, run, h) = rehash_loop-Rehashed mask es s n is_mask p tombs (omega arith) d apart in
      (
        r,
        run,
        record {
          placed = h.placed;
          no_tombs = h.no_tombs;
          counted = omega (arith, h.counted);
          new_size = omega (arith, h.new_size);
          reads = h.reads;
        },
      )
  rehash_loop-Rehashed mask (filled k v ∷ es) s n is_mask p tombs room d apart =
      let absent : view s k ≡ none = ground (arith, apart k, key.beq_iff k k) in
      let (s', run, a) = reinsert-Added mask k v s is_mask p tombs (omega arith) absent in
      let (r, run', h) =
        rehash_loop-Rehashed mask es s' (n + 1) is_mask a.placed a.no_tombs
          (omega (arith, a.counted)) d.1
          (λ q here. ground (arith, apart q, a.reads q, key.beq_iff k q)) in
      (
        r,
        rw run run',
        record {
          placed = h.placed;
          no_tombs = h.no_tombs;
          counted = omega (arith, h.counted, a.counted);
          new_size = omega (arith, h.new_size);
          reads = λ q. ground (arith, h.reads q, a.reads q, key.beq_iff k q, absent);
        },
      )
