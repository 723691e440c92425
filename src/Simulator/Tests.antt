-- ===== src/Simulator/Tests.antt =====
-- The partition at concrete numbers of symbols and threads.
use pmr_market_simulator.Prelude.{ℕ, ◌≡◌, refl, List, [], ◌∷◌, arith, All, concat}
use pmr_market_simulator.Simulator.{thread_count, partition, performed, make_ts, thread_order_id}
use pmr_market_simulator.Simulator.Partition.{
  concat-partition, NonEmpty, performed-partition, iterations_below, iterations_below-total,
}

abbrev five : List ℕ
five = 10 ∷ 11 ∷ 12 ∷ 13 ∷ 14 ∷ []

thread_counts :
    (thread_count 4 8 5 ≡ 4)
    × (thread_count 9 8 5 ≡ 5)
    × (thread_count 0 3 5 ≡ 3)
    × (thread_count 0 0 5 ≡ 1)
unfolding thread_count
thread_counts = (refl, refl, refl, refl)

-- Five symbols on four threads: the last one gets none, and the share of iterations that is dealt to
-- it, with the remainder, is not performed.
five_on_four :
    (partition 4 five ≡ (10 ∷ 11 ∷ []) ∷ (12 ∷ 13 ∷ []) ∷ (14 ∷ []) ∷ [] ∷ [])
    × (performed 103 4 0 (partition 4 five) ≡ 75)
unfolding partition performed
five_on_four = (refl, refl)

stamps : (make_ts 7 3 ≡ 844424930131975) × (thread_order_id 1 5 ≡ 72057594037927941)
unfolding make_ts thread_order_id
stamps = (refl, refl)

concat-partition_example : concat (partition 4 five) ≡ five
concat-partition_example = concat-partition 4 five (omega arith)

iterations_below-total_example : iterations_below 103 4 4 ≡ 103
iterations_below-total_example = iterations_below-total 103 4 (omega arith)

three_full : All NonEmpty (partition 3 five)
unfolding partition
three_full = (tt, (tt, (tt, tt)))

performed-partition_example : performed 103 3 0 (partition 3 five) ≡ 103
performed-partition_example = performed-partition 103 3 five (omega arith) three_full
