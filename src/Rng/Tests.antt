-- ===== src/Rng/Tests.antt =====
-- The generators against published values: SplitMix64 from the seed 0.
use pmr_market_simulator.Prelude.{◌≡◌, refl}
use pmr_market_simulator.Rng.{splitmix_next, seeded}

first_words :
    (splitmix_next 0 ≡ (0xE220A8397B1DCDAF, 0x9E3779B97F4A7C15))
    × (seeded 0 ≡ record { s0 = 0xE220A8397B1DCDAF; s1 = 0x6E789E6AA1B965F4 })
unfolding splitmix_next seeded
first_words = (refl, refl)
