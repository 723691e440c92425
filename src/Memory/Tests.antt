-- ===== src/Memory/Tests.antt =====
-- The counter of a resource at concrete calls.
use pmr_market_simulator.Prelude.{ℕ, ◌+◌, ◌≡◌, refl, List, [], ◌∷◌}
use pmr_market_simulator.Memory.{
  Upstream, Request, allocation, deallocation, new_resource, bytes_allocated, serve,
  serve-allocated,
}

-- A resource that gives addresses from the bottom up and takes nothing back.
abbrev bump : Upstream
bump = record {
  State = ℕ;
  allocate = λ bytes align s. (s, s + bytes);
  deallocate = λ p bytes align s. s;
}

abbrev calls : List Request
calls = allocation 64 8 ∷ deallocation 0 64 8 ∷ allocation 100 16 ∷ []

three_calls : bytes_allocated bump (serve bump calls (new_resource bump 0)) ≡ 164
three_calls = serve-allocated bump calls (new_resource bump 0) refl
