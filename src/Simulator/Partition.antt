-- ===== src/Simulator/Partition.antt =====
-- Every symbol goes to one thread, in order, and the iterations of the threads add up.
use pmr_market_simulator.Prelude.{
  ℕ, zero, suc, ◌+◌, ◌-◌, ◌*◌, ◌/◌, ◌<◌, ◌≤◌, ◌≡◌, refl, sym, ap, ◌∙◌, List, [], ◌∷◌, ◌++◌, length,
  take, drop, concat, min, All, arith,
}
use pmr_market_simulator.Simulator.{per_thread, slices, partition, iterations, performed}

module _ {ℓ} {A : Type ℓ} where
  take_whole : (xs : List A) (n : ℕ) → length xs ≤ n → take n xs ≡ xs
  take_whole [] zero h = refl
  take_whole [] (suc n) h = refl
  take_whole (x ∷ xs) zero h = absurd (omega arith)
  take_whole (x ∷ xs) (suc n) h = ap (λ ys. x ∷ ys) (take_whole xs n (omega arith))

  drop_all : (xs : List A) (n : ℕ) → length xs ≤ n → drop n xs ≡ []
  drop_all [] zero h = refl
  drop_all [] (suc n) h = refl
  drop_all (x ∷ xs) zero h = absurd (omega arith)
  drop_all (x ∷ xs) (suc n) h = drop_all xs n (omega arith)

  take-drop : (n : ℕ) (xs : List A) → take n xs ++ drop n xs ≡ xs
  take-drop zero xs = refl
  take-drop (suc n) [] = refl
  take-drop (suc n) (x ∷ xs) = ap (λ ys. x ∷ ys) (take-drop n xs)

  drop-drop : (i n : ℕ) (xs : List A) → drop n (drop i xs) ≡ drop (i + n) xs
  drop-drop zero n xs = ap (λ (m : ℕ). drop m xs) (omega arith)
  drop-drop (suc i) n [] = drop_all [] n (omega arith) ∙ sym (drop_all [] (suc i + n) (omega arith))
  drop-drop (suc i) n (x ∷ xs) =
      let e : suc (i + n) ≡ suc i + n = omega arith in
      drop-drop i n xs ∙ ap (λ (m : ℕ). drop m (x ∷ xs)) e

  -- A slice, and what is behind it.
  take_then_drop :
      (xs : List A) (i j : ℕ) → i ≤ j → take (j - i) (drop i xs) ++ drop j xs ≡ drop i xs
  take_then_drop xs i j h =
      let e : j ≡ i + (j - i) = omega arith in
      ap (λ ys. take (j - i) (drop i xs) ++ ys)
        (ap (λ (m : ℕ). drop m xs) e ∙ sym (drop-drop i (j - i) xs))
      ∙ take-drop (j - i) (drop i xs)

  slices-all :
      (threads per idx : ℕ) (all : List A)
      → length all ≤ idx + threads * per
      → idx ≤ length all
      → concat (slices threads per idx all) ≡ drop idx all
  unfolding slices
  slices-all zero per idx all enough le = sym (drop_all all idx (omega arith))
  slices-all (suc threads) per idx all enough le =
      let end = min (idx + per) (length all) in
      ap (λ ys. take (end - idx) (drop idx all) ++ ys)
        (slices-all threads per end all (grind arith) (omega arith))
      ∙ take_then_drop all idx end (omega arith)

  -- With at least one thread, the symbols of the threads, one thread after the other, are all the
  -- symbols in their order.
  pub concat-partition :
      (n_threads : ℕ) (all : List A) → 0 < n_threads → concat (partition n_threads all) ≡ all
  unfolding partition per_thread
  concat-partition n_threads all h =
      slices-all n_threads (per_thread (length all) n_threads) 0 all
        (unfold per_thread in grind arith) (omega arith)

-- The iterations of the first `t` threads.
unfoldable pub iterations_below : ℕ → ℕ → ℕ → ℕ
iterations_below total_events n_threads zero = 0
iterations_below total_events n_threads (suc t) =
    iterations_below total_events n_threads t + iterations total_events n_threads t

below_last :
    (total_events n_threads t : ℕ)
    → t < n_threads
    → iterations_below total_events n_threads t ≡ t * (total_events / n_threads)
unfolding iterations_below iterations
below_last total_events n_threads zero h = omega arith
below_last total_events n_threads (suc t) h =
    grind (arith, below_last total_events n_threads t (omega arith))

-- With at least one thread, the iterations that the threads are given add up to the total.
pub iterations_below-total :
    (total_events n_threads : ℕ)
    → 0 < n_threads
    → iterations_below total_events n_threads n_threads ≡ total_events
unfolding iterations_below iterations
iterations_below-total total_events zero h = absurd (omega arith)
iterations_below-total total_events (suc t) h =
    grind (arith, below_last total_events (suc t) t (omega arith))

module _ {ℓ} {A : Type ℓ} where
  abbrev pub NonEmpty : List A → Type 0
  NonEmpty [] = ⊥
  NonEmpty (x ∷ xs) = Unit {0}

  length-slices :
      (threads per idx : ℕ) (all : List A) → length (slices threads per idx all) ≡ threads
  unfolding slices
  length-slices zero per idx all = refl
  length-slices (suc threads) per idx all =
      ap suc (length-slices threads per (min (idx + per) (length all)) all)

  performed-below :
      (total_events n_threads t : ℕ) (threads : List (List A))
      → All NonEmpty threads
      → iterations_below total_events n_threads t + performed total_events n_threads t threads
        ≡ iterations_below total_events n_threads (t + length threads)
  unfolding performed iterations_below
  performed-below total_events n_threads t [] h =
      let e : t ≡ t + 0 = omega arith in
      omega (arith, ap (iterations_below total_events n_threads) e)
  performed-below total_events n_threads t ([] ∷ threads) (h, hs) = absurd h
  performed-below total_events n_threads t ((s ∷ symbols) ∷ threads) (h, hs) =
      let e : t + 1 + length threads ≡ t + suc (length threads) = omega arith in
      let e' : suc t ≡ t + 1 = omega arith in
      omega (
        arith,
        performed-below total_events n_threads (t + 1) threads hs,
        ap (iterations_below total_events n_threads) e,
        ap (iterations_below total_events n_threads) e',
      )

  -- With at least one thread, if the partition leaves no thread without symbols, the threads perform
  -- all the iterations.
  pub performed-partition :
      (total_events n_threads : ℕ) (all : List A)
      → 0 < n_threads
      → All NonEmpty (partition n_threads all)
      → performed total_events n_threads 0 (partition n_threads all) ≡ total_events
  unfolding partition iterations_below
  performed-partition total_events n_threads all h full =
      let per = per_thread (length all) n_threads in
      let count : 0 + length (slices n_threads per 0 all) ≡ n_threads =
        omega (arith, length-slices n_threads per 0 all) in
      omega (
        arith,
        performed-below total_events n_threads 0 (slices n_threads per 0 all) full,
        ap (iterations_below total_events n_threads) count,
        iterations_below-total total_events n_threads h,
      )
