-- ===== src/Simulator/Worker/Keeps.antt =====
-- An iteration ends, and it keeps the books of a thread and its counters.
use pmr_market_simulator.Prelude.{
  ℕ, zero, suc, ◌+◌, ◌^◌, ◌^◌, ◌<◌, ◌≤◌, ◌≡◌, ◌≢◌, ◌⊎◌, inl, inr, refl, sym, ◌∙◌, Bool, true, false,
  Option, none, some, List, [], ◌∷◌, arith, length, get_elem?, set, ltb, ◌==◌, ◌&&◌, if◌then◌else◌,
  Bool-cases, Option-cases,
}
use mathlib.Core.Path.{subst}
use pmr_market_simulator.Prelude.Int.{ℤ}
use pmr_market_simulator.Prelude.Run.{Run, Returns}
use pmr_market_simulator.Float.{Float}
use pmr_market_simulator.Event.{Event, Side}
use pmr_market_simulator.FlatHash.Keys.{tick_key, id_key}
use pmr_market_simulator.FlatHash.Laws.{contents}
use pmr_market_simulator.FlatHash.Insert.{HasRoom}
use pmr_market_simulator.OrderBook.{Order, OrderRef, Book, half}
use pmr_market_simulator.OrderBook.Fill.{among}
use pmr_market_simulator.OrderBook.Round.{IsBook}
use pmr_market_simulator.OrderBook.Add.{Added}
use pmr_market_simulator.OrderBook.Spread.{IsUncrossed, Added-IsUncrossed}
use pmr_market_simulator.Rng.{Xoroshiro}
use pmr_market_simulator.Rng.Sample.{NormalBm, rand_bool, rand_index, find_point, draw_normal}
use pmr_market_simulator.Simulator.Config.{SimConfig}
use pmr_market_simulator.Simulator.Worker.{Desk, Worker, Numbering}

get_elem?-set {ℓ} :
    {A : Type ℓ} (xs : List A) (i j : ℕ) (v d : A)
    → get_elem? (set xs i v) j ≡ some d
    → (d ≡ v) ⊎ (get_elem? xs j ≡ some d)
get_elem?-set [] i j v d e = inr e
get_elem?-set (x ∷ xs) zero zero v d e = inl (cc)
get_elem?-set (x ∷ xs) zero (suc j) v d e = inr e
get_elem?-set (x ∷ xs) (suc i) zero v d e = inr e
get_elem?-set (x ∷ xs) (suc i) (suc j) v d e = get_elem?-set xs i j v d e

pub get_elem?-lt {ℓ} :
    {A : Type ℓ} (xs : List A) (i : ℕ) → i < length xs → (x : A) × (get_elem? xs i ≡ some x)
get_elem?-lt [] i h = absurd (omega arith)
get_elem?-lt (x ∷ xs) zero h = (x, refl)
get_elem?-lt (x ∷ xs) (suc i) h = get_elem?-lt xs i (omega arith)

-- Room for one more level on either side, for one more order, and for one more live id
pub record HasSpace {Double : Type 0} (d : Desk Double) : Type 0 where
  pub levels : (s : Side) → HasRoom (half s d.book).levels
  pub index : HasRoom d.book.index
  pub live : length d.live < 2 ^ 53

module _ {Double : Type 0} (numbers : Numbering) where
  -- A desk between two iterations, where the counter stands at `n`: its book is sound and uncrossed,
  -- and every id in its index was issued.
  pub record IsDesk (n : ℕ) (d : Desk Double) : Type 0 where
    pub book : IsBook d.book
    pub uncrossed : IsUncrossed d.book
    pub issued :
        (id : ℕ) → contents d.book.index id ≢ none → (k : ℕ) × (k < n) × (id ≡ numbers.id_of k)

  abbrev pub AllDesks : ℕ → List (Desk Double) → Type 0
  AllDesks n desks = (si : ℕ) (d : Desk Double) → get_elem? desks si ≡ some d → IsDesk n d

  pub later-IsDesk : (n : ℕ) (d : Desk Double) → IsDesk n d → IsDesk (n + 1) d
  later-IsDesk n d h = record {
    book = h.book;
    uncrossed = h.uncrossed;
    issued = λ id e. (let (k, lt, same) = h.issued id e in (k, omega arith, same));
  }

  pub set-AllDesks :
      (n : ℕ) (desks : List (Desk Double)) (si : ℕ) (d : Desk Double)
      → AllDesks n desks
      → IsDesk n d
      → AllDesks n (set desks si d)
  set-AllDesks n desks si d all h j d' e = elim (get_elem?-set desks si j d d' e) [
    | inl same ↦ subst (IsDesk n) (sym same) h
    | inr old ↦ all j d' old
  ]

  -- No id that is still to come is in the index.
  pub fresh :
      (n limit : ℕ) (d : Desk Double)
      → ((j k : ℕ) → j < limit → k < limit → numbers.id_of j ≡ numbers.id_of k → j ≡ k)
      → n < limit
      → IsDesk n d
      → contents d.book.index (numbers.id_of n) ≡ none
  fresh n limit d differ lt h = elim (Option-cases (contents d.book.index (numbers.id_of n))) [
    | inl absent ↦ absent
    | inr (ref, at) ↦
        let (k, earlier, same) =
          h.issued (numbers.id_of n) (λ e. (let bad : some ref ≡ none = sym at ∙ e in cc)) in
        let equal = differ k n (omega arith) lt (sym same) in absurd (omega arith)
  ]

-- What every iteration relies on: a random index below a bound that a double holds exactly is in
-- range; ids from counters below the limit differ, and the counter does not wrap below it.
pub record Assumed (fp : Float) (numbers : Numbering) (limit : ℕ) : Type 0 where
  pub in_range : (n : ℕ) (g : Xoroshiro) → 0 < n → n < 2 ^ 53 → (rand_index fp n g).0 < n
  pub differ : (j k : ℕ) → j < limit → k < limit → numbers.id_of j ≡ numbers.id_of k → j ≡ k
  pub small : limit < 2 ^ 64

-- Without a spare value, the loop of `NormalBM` ends on the fuel from this one state of the generator.
abbrev pub Finds : (fp : Float) → ℕ → NormalBm fp.Double → Xoroshiro → Type 0
Finds fp fuel normal g = normal.has_spare ≡ false → Returns (find_point fp fuel g) λ r. Unit {0}

-- The sink, as it is, accepts every event.
abbrev pub Accepts : {Sink : Type 0} → (Event → Sink → Run Sink) → Sink → Type 0
Accepts emit s = (e : Event) → Returns (emit e s) λ r. Unit {0}

-- The state of the generator in which an iteration draws a price.
abbrev pub price_rng : (fp : Float) {Sink : Type 0} → Worker fp.Double Sink → Xoroshiro
price_rng fp w =
    let after_add_drawn =
      (rand_bool fp (fp.decimal 5 1) (rand_index fp (length w.desks) w.rng).1).1 in
    (rand_bool fp (fp.decimal 5 1) after_add_drawn).1

pub draw_normal-Returns :
    (fp : Float) (fuel : ℕ) (normal : NormalBm fp.Double) (mean sigma : fp.Double) (g : Xoroshiro)
    → Finds fp fuel normal g
    → Returns (draw_normal fp fuel normal mean sigma g) λ r. Unit {0}
unfolding draw_normal
draw_normal-Returns fp fuel normal mean sigma g finds = elim (Bool-cases normal.has_spare) [
  | inl spare ↦ rw spare (_, refl, tt)
  | inr none_spare ↦ let (r, run, done) = finds none_spare in rw (none_spare, run) (_, refl, tt)
]

module _ (fp : Float) (cfg : SimConfig fp.Double) {Sink : Type 0} (emit : Event → Sink → Run Sink)
    (fuel : ℕ) (numbers : Numbering) where
  open fp use {Double}

  abbrev pub counts : Worker Double Sink → ℕ
  counts w = w.adds + w.cancels + w.trades

  -- What an iteration leaves
  pub record Turned (w w' : Worker Double Sink) : Type 0 where
    pub desks : AllDesks numbers w'.counter w'.desks
    pub same_number : length w'.desks ≡ length w.desks
    pub counter : w.counter ≤ w'.counter
    pub counter_step : w'.counter ≤ w.counter + 1
    pub counted : counts w' ≤ counts w + 1

  -- The desk after an order.
  pub Added-IsDesk :
      (i n : ℕ) (d : Desk Double) (mid : Double) (live : List ℕ) (o snapped : Order Double)
      (tick : ℤ) (r : ℕ × Double × Book Double)
      → o.id ≡ numbers.id_of n
      → IsDesk numbers n d
      → Added o snapped tick d.book r
      → IsDesk numbers (n + 1) (record { symbol = d.symbol; book = r.2; mid = mid; live = live })
  Added-IsDesk i n d mid live o snapped tick r id h a = record {
    book = a.book;
    uncrossed = Added-IsUncrossed o snapped tick d.book r a h.uncrossed;
    issued = λ x e. elim (Bool-cases (o.id == x)) [
      | inl same ↦ (n, omega arith, sym (ground (arith, same)) ∙ id)
      | inr other ↦ elim (Option-cases (contents d.book.index x)) [
        | inr (ref, at) ↦
            let (k, lt, same) =
              h.issued x (λ gone. (let bad : some ref ≡ none = sym at ∙ gone in cc)) in
            (k, omega arith, same)
        | inl absent ↦
            absurd (e (a.indexed x ∙ rw (other, absent) (nothing (ltb 0 a.left) (among x a.ids))))
      ]
    ];
  }
    where
      nothing :
          (p q : Bool)
          → (if◌then◌else◌ {A = Option OrderRef}
              (p && false)
              (some (record { side = o.side; tick = tick }))
              (if q then none else none))
            ≡ none
      nothing true true = refl
      nothing true false = refl
      nothing false true = refl
      nothing false false = refl
