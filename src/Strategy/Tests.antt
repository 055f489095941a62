-- ===== src/Strategy/Tests.antt =====
-- Orders of a concrete engine.
use hft_learning.Prelude.{ℕ, ◌≡◌, arith, length}
use hft_learning.Strategy.{order_token}
use hft_learning.Strategy.Token.{order_token_unique}

order_token_unique_example :
    (length (order_token 1000) ≡ 14) × (order_token 1000 ≡ order_token 1001 → ◌≡◌ {A = ℕ} 1000 1001)
order_token_unique_example = order_token_unique 1000 1001 (omega arith) (omega arith)
