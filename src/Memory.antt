-- ===== src/Memory.antt =====
-- include/msim/pmr_utils.hpp: `CountingResource`, which counts the bytes asked of a resource.
mod Tests
use pmr_market_simulator.Prelude.{
  ℕ, zero, suc, ◌+◌, ◌%◌, ◌^◌, ◌≡◌, refl, ap, ◌∙◌, List, [], ◌∷◌, arith,
}

-- The resource behind, a parameter over its state: `allocate` gives an address for a size and an
-- alignment.
pub record Upstream : Type 1 where
  pub State : Type 0
  pub allocate : ℕ → ℕ → State → ℕ × State
  pub deallocate : ℕ → ℕ → ℕ → State → State

pub record CountingResource (State : Type 0) : Type 0 where
  pub upstream : State
  pub allocated : ℕ

-- A call of the resource
pub data Request : Type 0 where
  allocation : ℕ → ℕ → Request
  deallocation : ℕ → ℕ → ℕ → Request

module _ (up : Upstream) where
  open up use {State, allocate, deallocate}

  abbrev pub new_resource : State → CountingResource State
  new_resource s = record { upstream = s; allocated = 0 }

  abbrev pub bytes_allocated : CountingResource State → ℕ
  bytes_allocated r = r.allocated

  unfoldable pub do_allocate : ℕ → ℕ → CountingResource State → ℕ × CountingResource State
  do_allocate bytes align r =
      let (p, s) = allocate bytes align r.upstream in
      (p, record { upstream = s; allocated = (r.allocated + bytes) % 2 ^ 64 })

  unfoldable pub do_deallocate : ℕ → ℕ → ℕ → CountingResource State → CountingResource State
  do_deallocate p bytes align r = record r { upstream = deallocate p bytes align r.upstream }

  -- The resource after calls, one after the other.
  unfoldable pub serve : List Request → CountingResource State → CountingResource State
  unfolding do_allocate do_deallocate
  serve [] r = r
  serve (allocation bytes align ∷ calls) r = serve calls (do_allocate bytes align r).1
  serve (deallocation p bytes align ∷ calls) r = serve calls (do_deallocate p bytes align r)

-- All the bytes that the calls ask for.
abbrev pub requested : List Request → ℕ
requested [] = 0
requested (allocation bytes align ∷ calls) = bytes + requested calls
requested (deallocation p bytes align ∷ calls) = requested calls

-- For a counter below 2 ^ 64: it is what it was and all the bytes asked for since, modulo 2 ^ 64,
-- whatever was given back.
pub serve-allocated :
    (up : Upstream) (calls : List Request) (r : CountingResource up.State)
    → r.allocated % 2 ^ 64 ≡ r.allocated
    → bytes_allocated up (serve up calls r) ≡ (r.allocated + requested calls) % 2 ^ 64
unfolding serve do_allocate do_deallocate
serve-allocated up [] r small = omega (arith, small)
serve-allocated up (allocation bytes align ∷ calls) r small =
    serve-allocated up calls (do_allocate up bytes align r).1 (omega arith) ∙ omega arith
serve-allocated up (deallocation p bytes align ∷ calls) r small =
    serve-allocated up calls (do_deallocate up p bytes align r) small
