-- ===== src/OrderBook/Tests.antt =====
-- tests/order_book_test.cpp, run on the model. Doubles are whole prices, the tick size is 1.
use pmr_market_simulator.Prelude.{
  ℕ, ◌+◌, ◌-◌, ◌*◌, ◌/◌, ◌^◌, ◌==◌, ◌≡◌, refl, Bool, true, false, Option, none, some, [], ltb,
}
use pmr_market_simulator.Prelude.Int.{pos, pos_part}
use pmr_market_simulator.Prelude.Run.{Run, ok, ◌>>=◌}
use pmr_market_simulator.Event.{Side, buy, sell}
use pmr_market_simulator.FlatHash.{hash32, hash64}
use pmr_market_simulator.Float.{Float}
use pmr_market_simulator.OrderBook.{
  Order, Book, create_with, add_order, cancel_order, best_ask, index_size,
}

abbrev pub whole : Float
whole = record {
  Double = ℕ;
  mul = ◌*◌;
  reciprocal = λ x. 1;
  positive = λ x. ltb 0 x;
  of_int = pos_part;
  llround = pos;
  add = ◌+◌;
  sub = ◌-◌;
  div = ◌/◌;
  lt = ltb;
  eq = ◌==◌;
  sqrt = λ x. x;
  log = λ x. x;
  sin = λ x. x;
  pi = 3;
  of_nat = λ n. n;
  to_int = pos;
  to_size = λ x. x;
  decimal = λ m e. m / 10 ^ e;
  bits = λ x. x;
  of_bits = λ x. x;
}

abbrev pub order : ℕ → ℕ → ℕ → Side → ℕ → Order ℕ
order id price qty side ts = record { id = id; price = price; qty = qty; side = side; ts_ns = ts }

abbrev add : Order ℕ → ℕ → Book ℕ → Run (ℕ × ℕ × Book ℕ)
add = add_order whole

-- `test_basic_match_and_cancel`
abbrev basic : Run (ℕ × Option ℕ × ℕ × ℕ × Option ℕ × Bool × Bool × Option ℕ)
basic = do
  b₀ ← create_with whole 8 8 [] 1
  (m₀, tp₀, b₁) ← add (order 1 101 10 sell 0) 0 b₀
  let ask₀ = best_ask whole b₁
  (m₁, tp₁, b₂) ← add (order 2 102 6 buy 0) tp₀ b₁
  let ask₁ = best_ask whole b₂
  (filled, b₃) ← cancel_order 2 b₂
  (live, b₄) ← cancel_order 1 b₃
  ok (m₀, ask₀, m₁, tp₁, ask₁, filled, live, best_ask whole b₄)

basic_match_and_cancel : basic ≡ ok (0, some 101, 6, 101, some 101, false, true, none)
unfolding create_with add_order cancel_order best_ask hash32 hash64
basic_match_and_cancel = refl

-- `test_price_time_priority_same_level`
abbrev priority : Run (ℕ × ℕ × ℕ × ℕ × ℕ × ℕ × Bool × Bool × ℕ × Option ℕ)
priority = do
  b₀ ← create_with whole 8 8 [] 1
  (m₁, tp₁, b₁) ← add (order 1 100 5 sell 0) 0 b₀
  (m₂, tp₂, b₂) ← add (order 2 100 5 sell 1) tp₁ b₁
  (m₃, tp₃, b₃) ← add (order 3 100 6 buy 2) tp₂ b₂
  (gone, b₄) ← cancel_order 1 b₃
  (live, b₅) ← cancel_order 2 b₄
  ok (m₁, m₂, index_size b₂, m₃, tp₃, index_size b₃, gone, live, index_size b₅, best_ask whole b₅)

price_time_priority : priority ≡ ok (0, 0, 2, 6, 100, 1, false, true, 0, none)
unfolding create_with add_order cancel_order best_ask hash32 hash64 index_size
price_time_priority = refl
