-- ===== src/FlatHash/Probe.antt =====
-- Linear probing: the path of a key goes round the whole table, and the loops that walk it end.
use Prim.Native.Nat.{bit_and}
use native.Mathlib.Nat.{mod-add-mod, mod-eq_of_lt, add-mod_right}
use native.Mathlib.Decide.{dec_lt}
use pmr_market_simulator.Prelude.{ℕ, ◌+◌, ◌-◌, ◌%◌, ◌^◌, ◌<◌, ◌≡◌, sym, ap, ◌∙◌, arith}
use pmr_market_simulator.Prelude.Mask.{mask-eq-mod}
use pmr_market_simulator.FlatHash.{Key, home, next_index}

-- A mask is one below a power of two.
abbrev pub IsMask : ℕ → Type 0
IsMask mask = (k : ℕ) × (mask + 1 ≡ 2 ^ k)

pub masked : (mask x : ℕ) → IsMask mask → bit_and x mask ≡ x % (mask + 1)
masked mask x (k, e) = mask-eq-mod k x mask e ∙ ap (λ (t : ℕ). x % t) (sym e)

-- The slot that the probe from slot `h` reads after `d` steps.
abbrev pub step_to : ℕ → ℕ → ℕ → ℕ
step_to mask h d = (h + d) % (mask + 1)

pub step_to-lt : (mask h d : ℕ) → step_to mask h d < mask + 1
step_to-lt mask h d = omega arith

pub next_index-step_to :
    (mask h d : ℕ) → IsMask mask → next_index mask (step_to mask h d) ≡ step_to mask h (d + 1)
unfolding next_index
next_index-step_to mask h d m =
    masked mask (step_to mask h d + 1) m
    ∙ mod-add-mod (h + d) (mask + 1) 1
    ∙ ap (λ (t : ℕ). t % (mask + 1)) (omega arith)

pub home-lt {ℓ} :
    {K : Type ℓ} ⦃key : Key K⦄ (mask : ℕ) (k : K) → IsMask mask → home mask k < mask + 1
home-lt ⦃key⦄ mask k m = omega (arith, masked mask (key.hash k) m)

-- Every path starts at the key's home.
pub home_step {ℓ} :
    {K : Type ℓ} ⦃key : Key K⦄ (mask : ℕ) (k : K)
    → IsMask mask
    → step_to mask (home mask k) 0 ≡ home mask k
home_step mask k is_mask = grind (arith, home-lt mask k is_mask)

-- Every slot lies on every path.
pub step_to_onto :
    (mask h i : ℕ) → h < mask + 1 → i < mask + 1 → (d : ℕ) × (d < mask + 1) × (step_to mask h d ≡ i)
step_to_onto mask h i hh hi = elim (dec_lt i h) [
  | yes p ↦ (
    i + (mask + 1) - h,
    omega arith,
    (let e : h + (i + (mask + 1) - h) ≡ i + (mask + 1) = omega arith in
        ap (λ (t : ℕ). t % (mask + 1)) e ∙ add-mod_right i (mask + 1) ∙ mod-eq_of_lt hi),
  )
  | no p ↦
      let e : h + (i - h) ≡ i = omega arith in
      (i - h, omega arith, ap (λ (t : ℕ). t % (mask + 1)) e ∙ mod-eq_of_lt hi)
]

-- Within one lap no slot comes twice.
pub step_to_injective :
    (mask h d e : ℕ)
    → h < mask + 1
    → d < mask + 1
    → e < mask + 1
    → step_to mask h d ≡ step_to mask h e
    → d ≡ e
step_to_injective mask h d e hh hd he p = grind arith
