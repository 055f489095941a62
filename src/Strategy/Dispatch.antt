-- ===== src/Strategy/Dispatch.antt =====
-- include/IStrategy.hpp and src/StrategyEngine.cpp: the strategies of an engine, and how a message
-- reaches them.
use hft_learning.Prelude.{◌≡◌, Option, some, List, [], ◌∷◌, ◌++◌}
use hft_learning.Prelude.Loops.{◌>>=◌}
use hft_learning.Book.Types.{LimitOrderBook}
use hft_learning.Itch.{InternalMessage}
use hft_learning.Risk.{Doubles}
use hft_learning.Prelude.Int.{ℤ}
use hft_learning.Egress.{set_socket_fd}
use hft_learning.Strategy.{StrategyEngine}

-- What a strategy is to the engine: an object with one method, which may call the engine. `none` is
-- a call that does not return.
pub record IStrategy (doubles : Doubles) (S : Type 0) : Type 1 where
  pub Object : Type 0
  pub on_market_data_update :
      Object
      → InternalMessage
      → LimitOrderBook
      → StrategyEngine doubles S
      → Option (Object × StrategyEngine doubles S)

module _ {doubles : Doubles} {S : Type 0} (strategy : IStrategy doubles S) where
  abbrev pub add_strategy : List strategy.Object → strategy.Object → List strategy.Object
  add_strategy strategies object = strategies ++ object ∷ []

  -- `StrategyEngine::onMarketDataUpdate`, with `strategies_` as an argument.
  unfoldable pub update_strategies :
      List strategy.Object
      → InternalMessage
      → LimitOrderBook
      → StrategyEngine doubles S
      → Option (List strategy.Object × StrategyEngine doubles S)
  update_strategies [] msg lob engine = some ([], engine)
  update_strategies (object ∷ objects) msg lob engine = do
    (object', engine') ← strategy.on_market_data_update object msg lob engine
    (objects', engine'') ← update_strategies objects msg lob engine'
    some (object' ∷ objects', engine'')

  -- What keeps the strategies and the engine in order: with it an update returns and keeps it, and
  -- so does a new descriptor of the gateway.
  pub record IsSafe (I : List strategy.Object → StrategyEngine doubles S → Type 0) : Type 0 where
    pub update :
        (objects : List strategy.Object) (msg : InternalMessage) (lob : LimitOrderBook)
        (engine : StrategyEngine doubles S)
        → I objects engine
        → (objects' : List strategy.Object) × (engine' : StrategyEngine doubles S)
          × (update_strategies objects msg lob engine ≡ some (objects', engine'))
          × I objects' engine'
    pub connect :
        (objects : List strategy.Object) (engine : StrategyEngine doubles S) (fd : ℤ)
        → I objects engine
        → I objects (record engine { tcp_egress = set_socket_fd engine.tcp_egress fd })
