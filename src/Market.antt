-- ===== src/Market.antt =====
-- include/MarketMakerStrategy.hpp and src/MarketMakerStrategy.cpp: the strategy that sells once to a
-- buyer who pays enough. `none` is a run that does not return.
pub mod Once
pub mod Safe
mod Tests
use hft_learning.Prelude.{
  ℕ, ◌%◌, ◌^◌, Bool, true, false, ◌&&◌, Option, none, some, List, [], ◌∷◌, ◌==◌, leb, if◌then◌else◌,
  take,
}
use hft_learning.Prelude.Loops.{◌>>=◌}
use hft_learning.Wire.{Buffer}
use hft_learning.Book.Types.{Side, buy, sell}
use hft_learning.Itch.{InternalMessage}
use hft_learning.Risk.{Doubles}
use hft_learning.Strategy.{StrategyEngine, send_order}

pub record MarketMakerStrategy : Type 0 where
  pub threshold_price : ℕ
  pub order_qty : ℕ
  pub symbol : List ℕ
  pub position_taken : Bool

-- The constructor: seven characters of the symbol, and a terminating zero.
abbrev pub market_maker_strategy : ℕ → ℕ → List ℕ → MarketMakerStrategy
market_maker_strategy threshold_price order_qty symbol = record {
  threshold_price = threshold_price;
  order_qty = order_qty;
  symbol = take 7 symbol;
  position_taken = false;
}

abbrev pub is_buy : Side → Bool
is_buy buy = true
is_buy sell = false

-- Someone adds a buy order that pays the threshold; 65 is 'A'.
abbrev pub is_wanted : MarketMakerStrategy → InternalMessage → Bool
is_wanted strategy msg = msg.type == 65 && is_buy msg.side && leb strategy.threshold_price msg.price

module _ {doubles : Doubles} {S : Type 0} (send_bytes : S → List ℕ → Option ℕ × S)
    (scratch : Buffer) where
  -- What follows `sendOrder`.
  note_success :
      MarketMakerStrategy
      → Bool × StrategyEngine doubles S
      → MarketMakerStrategy × StrategyEngine doubles S
  note_success strategy (success, engine) =
      (if success then record strategy { position_taken = true } else strategy, engine)

  -- `onMarketDataUpdate`; 83 is 'S', and the price is cut to the 32 bits of the parameter.
  unfoldable pub on_market_data_update :
      MarketMakerStrategy
      → InternalMessage
      → StrategyEngine doubles S
      → Option (MarketMakerStrategy × StrategyEngine doubles S)
  unfolding note_success
  on_market_data_update strategy msg engine =
      let price = msg.price % 2 ^ 32 in
      let selling =
        send_order send_bytes engine scratch 83 strategy.order_qty price strategy.symbol price in
      if strategy.position_taken
      then some (strategy, engine)
      else if is_wanted strategy msg
      then (do reply ← selling; some (note_success strategy reply))
      else some (strategy, engine)
