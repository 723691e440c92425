-- ===== src/FlatHash/Search.antt =====
-- The loops of `find_index` and of the insertions, on a table whose entries can be reached from
-- their homes.
use pmr_market_simulator.Prelude.{
  ℕ, zero, suc, ◌+◌, ◌<◌, ◌≤◌, ◌≡◌, ◌≢◌, ◌⊎◌, inl, inr, refl, ap, ◌∙◌, false, Option, none, some,
  List, arith, Bool-cases,
}
use native.Mathlib.Decide.{dec_lt}
use pmr_market_simulator.Prelude.Run.{ok, Returns}
use pmr_market_simulator.FlatHash.{
  Key, Entry, empty, filled, tomb, slot, home, next_index, find_from, probe, Place, fresh, reused,
  taken,
}
use pmr_market_simulator.FlatHash.Probe.{IsMask, step_to, next_index-step_to}

module _ {ℓ} {K V : Type ℓ} ⦃key : Key K⦄ where
  -- A search for `k` goes on past the entry.
  abbrev pub Misses : K → Entry K V → Type 0
  Misses k empty = ⊥
  Misses k tomb = Unit {0}
  Misses k (filled j v) = key.beq j k ≡ false

  abbrev pub Holds : K → Entry K V → Type ℓ
  Holds k e = (v : V) × (e ≡ filled k v)

  pub Entry-cases : (k : K) (e : Entry K V) → (e ≡ empty) ⊎ (Misses k e ⊎ Holds k e)
  Entry-cases k empty = inl refl
  Entry-cases k tomb = inr (inl tt)
  Entry-cases k (filled j v) = elim (Bool-cases (key.beq j k)) [
    | inl same ↦ inr (inr (v, ap (λ i. filled i v) ((key.beq_iff j k).0 same)))
    | inr other ↦ inr (inl other)
  ]

  pub Misses-ne_empty : (k : K) (e : Entry K V) → Misses k e → e ≢ empty
  Misses-ne_empty k empty m p = m
  Misses-ne_empty k tomb m p = cc
  Misses-ne_empty k (filled j v) m p = cc

  pub Misses-ne_filled : (k : K) (e : Entry K V) (v : V) → Misses k e → e ≢ filled k v
  Misses-ne_filled k empty v m p = m
  Misses-ne_filled k tomb v m p = cc
  Misses-ne_filled k (filled j w) v m p = ground (arith, key.beq_iff j k)

  module _ (t : List (Entry K V)) (mask : ℕ) (k : K) where
    -- The entry that a search for `k` reads after `d` steps.
    abbrev pub on_path : ℕ → Entry K V
    on_path d = slot t (step_to mask (home mask k) d)

    abbrev pub Passed : ℕ → Type 0
    Passed d = (e : ℕ) → e < d → Misses k (on_path e)

    pub Passed-suc : (d : ℕ) → Passed d → Misses k (on_path d) → Passed (d + 1)
    Passed-suc d p m e h = elim (dec_lt e d) [
      | yes lt ↦ p e lt
      | no ge ↦ (let same : e ≡ d = omega arith in rw same m)
    ]

    -- The result of a search: the key's slot, or the Empty slot at the end of its path.
    abbrev pub Finds : Option ℕ → Type ℓ
    Finds (some i) = Holds k (slot t i)
    Finds none = (d : ℕ) × (on_path d ≡ empty) × Passed d × Unit {ℓ}

    find_from-empty : (f i : ℕ) → slot t i ≡ empty → find_from t mask k (suc f) i ≡ ok none
    unfolding find_from
    find_from-empty f i e = rw (e, find_from)

    find_from-holds :
        (f i : ℕ) (v : V) → slot t i ≡ filled k v → find_from t mask k (suc f) i ≡ ok (some i)
    unfolding find_from
    find_from-holds f i v e = rw (e, find_from) (ground (arith, key.beq_iff k k))

    find_from-Misses :
        (f i : ℕ) (e : Entry K V)
        → slot t i ≡ e
        → Misses k e
        → find_from t mask k (suc f) i ≡ find_from t mask k f (next_index mask i)
    unfolding find_from
    find_from-Misses f i empty e m = absurd m
    find_from-Misses f i tomb e m = rw (e, find_from)
    find_from-Misses f i (filled j v) e m = rw (e, find_from) (rw m)

    module _ (is_mask : IsMask mask) (last : ℕ) (at_last : on_path last ≡ empty) where
      -- While an Empty slot is ahead within the fuel, the loop returns.
      pub find_from-Finds :
          (f d : ℕ)
          → d ≤ last
          → last < d + f
          → Passed d
          → Returns (find_from t mask k f (step_to mask (home mask k) d)) Finds
      find_from-Finds zero d a b p = absurd (omega arith)
      find_from-Finds (suc f) d a b p = elim (Entry-cases k (on_path d)) [
        | inl e ↦ (none, find_from-empty f _ e, (d, e, p, tt))
        | inr (inr (v, e)) ↦ (some _, find_from-holds f _ v e, (v, e))
        | inr (inl m) ↦
            let ne : d ≢ last = λ q. Misses-ne_empty k (on_path d) m (ap on_path q ∙ at_last) in
            let (r, run, found) =
              find_from-Finds f (d + 1) (omega arith) (omega arith) (Passed-suc d p m) in
            (
              r,
              find_from-Misses f _ (on_path d) refl m
                  ∙ ap (find_from t mask k f) (next_index-step_to mask (home mask k) d is_mask)
                  ∙ run,
              found,
            )
      ]

    -- The first tombstone that the loop of an insertion remembers after a tombstone in slot `idx`.
    abbrev remember : Option ℕ → ℕ → Option ℕ
    remember none idx = some idx
    remember (some i) idx = some i

    probe-empty :
        (f i : ℕ)
        → slot t i ≡ empty
        → (probe t mask k (suc f) i none ≡ ok (fresh i))
          × ((j : ℕ) → probe t mask k (suc f) i (some j) ≡ ok (reused j))
    unfolding probe
    probe-empty f i e = (rw (e, probe), λ j. rw (e, probe))

    probe-holds :
        (f i : ℕ) (v : V) (first : Option ℕ)
        → slot t i ≡ filled k v
        → probe t mask k (suc f) i first ≡ ok (taken i)
    unfolding probe
    probe-holds f i v first e = rw (e, probe) (ground (arith, key.beq_iff k k))

    probe-other :
        (f i : ℕ) (j : K) (v : V) (first : Option ℕ)
        → slot t i ≡ filled j v
        → key.beq j k ≡ false
        → probe t mask k (suc f) i first ≡ probe t mask k f (next_index mask i) first
    unfolding probe
    probe-other f i j v first e m = rw (e, probe) (rw m)

    probe-tomb :
        (f i : ℕ) (first : Option ℕ)
        → slot t i ≡ tomb
        → probe t mask k (suc f) i first ≡ probe t mask k f (next_index mask i) (remember first i)
    unfolding probe
    probe-tomb f i none e = rw (e, probe)
    probe-tomb f i (some j) e = rw (e, probe)

    -- A slot on the key's path, at most `last` steps away, that nothing Empty comes before.
    abbrev pub Open : ℕ → ℕ → Type 0
    Open last i = (d : ℕ) × (d ≤ last) × (step_to mask (home mask k) d ≡ i) × Passed d

    -- The result of the loop of an insertion.
    abbrev pub Lands : ℕ → Place → Type ℓ
    Lands last (fresh i) = (slot t i ≡ empty) × Open last i × Finds none
    Lands last (reused i) = (slot t i ≡ tomb) × Open last i × Finds none
    Lands last (taken i) = Holds k (slot t i)

    abbrev Seen : ℕ → Option ℕ → Type ℓ
    Seen last none = Unit {ℓ}
    Seen last (some i) = (slot t i ≡ tomb) × Open last i

    module _ (is_mask : IsMask mask) (last : ℕ) (at_last : on_path last ≡ empty) where
      land :
          (f d : ℕ) (first : Option ℕ)
          → d ≤ last
          → Passed d
          → Seen last first
          → on_path d ≡ empty
          → Returns (probe t mask k (suc f) (step_to mask (home mask k) d) first) (Lands last)
      land f d none a p s e = (fresh _, (probe-empty f _ e).0, (e, (d, a, refl, p), (d, e, p, tt)))
      land f d (some i) a p s e = (reused i, (probe-empty f _ e).1 i, (s.0, s.1, (d, e, p, tt)))

      Seen-remember :
          (d : ℕ) (first : Option ℕ)
          → d ≤ last
          → Passed d
          → on_path d ≡ tomb
          → Seen last first
          → Seen last (remember first (step_to mask (home mask k) d))
      Seen-remember d none a p e s = (e, (d, a, refl, p))
      Seen-remember d (some i) a p e s = s

      move_on :
          (f d : ℕ) (first first' : Option ℕ)
          → probe t mask k (suc f) (step_to mask (home mask k) d) first
            ≡ probe t mask k f (next_index mask (step_to mask (home mask k) d)) first'
          → Returns (probe t mask k f (step_to mask (home mask k) (d + 1)) first') (Lands last)
          → Returns (probe t mask k (suc f) (step_to mask (home mask k) d) first) (Lands last)
      move_on f d first first' e (r, run, l) = (
        r,
        e
            ∙ ap (λ i. probe t mask k f i first') (next_index-step_to mask (home mask k) d is_mask)
            ∙ run,
        l,
      )

      missed_before_last : (d : ℕ) → d ≤ last → Misses k (on_path d) → d + 1 ≤ last
      missed_before_last d a m =
          let ne : d ≢ last = λ q. Misses-ne_empty k (on_path d) m (ap on_path q ∙ at_last) in
          omega arith

      -- While an Empty slot is ahead within the fuel, the loop of an insertion returns.
      pub probe-Lands :
          (f d : ℕ) (first : Option ℕ)
          → d ≤ last
          → last < d + f
          → Passed d
          → Seen last first
          → Returns (probe t mask k f (step_to mask (home mask k) d) first) (Lands last)
      probe-Lands zero d first a b p s = absurd (omega arith)
      probe-Lands (suc f) d first a b p s = go (on_path d) refl (probe-Lands f (d + 1))
        where
          rest : Type ℓ
          rest =
              (first' : Option ℕ)
              → d + 1 ≤ last
              → last < d + 1 + f
              → Passed (d + 1)
              → Seen last first'
              → Returns (probe t mask k f (step_to mask (home mask k) (d + 1)) first') (Lands last)

          further :
              (first' : Option ℕ)
              → rest
              → Misses k (on_path d)
              → Seen last first'
              → Returns (probe t mask k f (step_to mask (home mask k) (d + 1)) first') (Lands last)
          further first' ih m s' =
              ih first' (missed_before_last d a m) (omega arith) (Passed-suc d p m) s'

          go :
              (e : Entry K V)
              → on_path d ≡ e
              → rest
              → Returns (probe t mask k (suc f) (step_to mask (home mask k) d) first) (Lands last)
          go empty e ih = land f d first a p s e
          go tomb e ih =
              move_on f d first _ (probe-tomb f _ first e)
                (further _ ih (rw e tt) (Seen-remember d first a p e s))
          go (filled j v) e ih = elim (Bool-cases (key.beq j k)) [
            | inl same ↦
                let e' : on_path d ≡ filled k v =
                  e ∙ ap (λ i. filled i v) ((key.beq_iff j k).0 same) in
                (taken _, probe-holds f _ v first e', (v, e'))
            | inr other ↦
                move_on f d first _ (probe-other f _ j v first e other)
                  (further _ ih (rw e other) s)
          ]
