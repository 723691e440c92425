-- ===== src/Rng/Sample.antt =====
-- include/msim/rng.hpp: the samplers; include/msim/box_muller.hpp: the normal distribution.
use pmr_market_simulator.Prelude.{
  ℕ, zero, suc, ◌+◌, ◌-◌, ◌/◌, ◌^◌, ◌≤◌, ◌≡◌, Bool, true, false, arith, ◌||◌, not, if◌then◌else◌,
  Bool-cases, inl, inr,
}
use pmr_market_simulator.Prelude.Int.{ℤ, pos}
use pmr_market_simulator.Prelude.Run.{Run, ok, spin, ◌>>=◌}
use pmr_market_simulator.Rng.{Xoroshiro, next_u64}
use pmr_market_simulator.Float.{Float}

-- `NormalBM`
pub record NormalBm (Double : Type 0) : Type 0 where
  pub has_spare : Bool
  pub spare : Double

-- The point that the loop of `NormalBM` accepts: `u`, `v` and `s`.
pub record Point (Double : Type 0) : Type 0 where
  pub u : Double
  pub v : Double
  pub s : Double

module _ (fp : Float) where
  open fp use {
    Double, add, sub, mul, div, reciprocal, lt, eq, sqrt, log, of_nat, of_int, to_int, to_size,
    decimal,
  }

  unfoldable pub next_uniform01 : Xoroshiro → Double × Xoroshiro
  unfolding next_u64
  next_uniform01 g =
      let (r, g') = next_u64 g in
      (mul (of_nat (r / 2 ^ 11)) (reciprocal (of_nat 9007199254740992)), g')

  unfoldable pub rand_bool : Double → Xoroshiro → Bool × Xoroshiro
  unfolding next_uniform01
  rand_bool p g = (let (x, g') = next_uniform01 g in (lt x p, g'))

  -- `rand_int`, for bounds of which the second is no smaller
  unfoldable pub rand_int : ℕ → ℕ → Xoroshiro → ℤ × Xoroshiro
  unfolding next_uniform01
  rand_int least greatest g =
      let (x, g') = next_uniform01 g in
      (to_int (add (of_int (pos least)) (mul (of_int (pos (greatest - least + 1))) x)), g')

  unfoldable pub rand_index : ℕ → Xoroshiro → ℕ × Xoroshiro
  unfolding next_uniform01
  rand_index max_exclusive g =
      let (x, g') = next_uniform01 g in (to_size (mul x (of_nat max_exclusive)), g')

  -- One round of the loop
  abbrev candidate : Xoroshiro → Point Double × Xoroshiro
  candidate g =
      let (x, g') = next_uniform01 g in
      let (y, g'') = next_uniform01 g' in
      let u = sub (mul (decimal 2 0) x) (decimal 1 0) in
      let v = sub (mul (decimal 2 0) y) (decimal 1 0) in
      (record { u = u; v = v; s = add (mul u u) (mul v v) }, g'')

  -- `s == 0.0 || s >= 1.0`; a sum of squares in this range is never a NaN
  abbrev rejected : Double → Bool
  rejected s = eq s (decimal 0 0) || not (lt s (decimal 1 0))

  -- The loop, on fuel: how often it rejects a point depends on the generator.
  unfoldable pub find_point : ℕ → Xoroshiro → Run (Point Double × Xoroshiro)
  unfolding next_uniform01
  find_point zero g = spin
  find_point (suc fuel) g =
      let r = candidate g in
      let again = find_point fuel r.1 in if rejected r.0.s then again else ok r

  -- `NormalBM::operator()`
  unfoldable pub draw_normal :
      ℕ → NormalBm Double → Double → Double → Xoroshiro → Run (Double × NormalBm Double × Xoroshiro)
  unfolding find_point
  draw_normal fuel normal mean sigma g =
      if normal.has_spare
      then ok (add mean (mul sigma normal.spare), record normal { has_spare = false }, g)
      else do
        (p, g') ← find_point fuel g
        let m = sqrt (div (mul (sub (decimal 0 0) (decimal 2 0)) (log p.s)) p.s)
        ok (add mean (mul sigma (mul p.u m)), record { has_spare = true; spare = mul p.v m }, g')

  -- More fuel does not change the point that is found.
  pub find_point_more :
      (fuel fuel' : ℕ) (g : Xoroshiro) (r : Point Double × Xoroshiro)
      → fuel ≤ fuel'
      → find_point fuel g ≡ ok r
      → find_point fuel' g ≡ ok r
  unfolding find_point
  find_point_more zero fuel' g r le found = absurd (let bad : spin ≡ ok r = found in cc)
  find_point_more (suc fuel) zero g r le found = absurd (omega arith)
  find_point_more (suc fuel) (suc fuel') g r le found =
      elim (Bool-cases (rejected (candidate g).0.s)) [
        | inl again ↦
            rw again
              (find_point_more fuel fuel' (candidate g).1 r (omega arith) (rw again at found))
        | inr done ↦ rw done (rw done at found)
      ]
