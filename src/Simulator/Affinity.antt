-- ===== src/Simulator/Affinity.antt =====
-- src/simulator.cpp: `bind_to_core` on Linux.
use pmr_market_simulator.Prelude.{ℕ, [], ◌∷◌, ◌==◌, if◌then◌else◌}
use pmr_market_simulator.Prelude.Int.{ℤ}
use pmr_market_simulator.Prelude.Output.{literal, number, integer, Output}

-- `pthread_setaffinity_np` for the set of one core, and `numa_node_of_cpu`, which are parameters: a
-- return code, and for the second the node too.
pub record Cores : Type 0 where
  pub set_affinity : ℕ → ℕ
  pub numa_node : ℕ → ℕ × ℤ

-- What it puts into `std::cerr` and into `std::cout`
unfoldable pub bind_to_core : {Double : Type 0} → Cores → ℕ → Output Double × Output Double
bind_to_core os core_id =
    let rc = os.set_affinity core_id in
    let (found, node) = os.numa_node core_id in
    (
      if rc == 0
          then []
          else literal "[WARN] pthread_setaffinity_np failed for core "
            ∷ number core_id
            ∷ literal "(errno="
            ∷ number rc
            ∷ literal ")\n"
            ∷ [],
      literal "[Affinity] Thread pinned to core "
          ∷ number core_id
          ∷ (if found == 0
              then literal " on NUMA node " ∷ integer node ∷ literal "\n" ∷ []
              else literal " (NUMA node unknown)\n" ∷ []),
    )
