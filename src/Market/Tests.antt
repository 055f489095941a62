-- ===== src/Market/Tests.antt =====
-- A concrete market maker.
use hft_learning.Prelude.{refl, List, [], ◌∷◌, arith}
use hft_learning.Book.Types.{buy}
use hft_learning.Itch.{InternalMessage}
use hft_learning.Market.{MarketMakerStrategy, market_maker_strategy}
use hft_learning.Market.Once.{SellsOnce, on_all-SellsOnce}
use hft_learning.Strategy.Fixture.{wide, wide-IsSocket, ems-Models, engine, scratch, apple}

-- as src/Main.cpp sets it up
abbrev strategy : MarketMakerStrategy
strategy = market_maker_strategy 15000 100 apple

-- a bid below the threshold, and two that reach it
abbrev messages : List InternalMessage
messages =
    record { type = 65; id = 1; price = 14000; quantity = 10; side = buy }
    ∷ record { type = 65; id = 2; price = 15000; quantity = 10; side = buy }
    ∷ record { type = 65; id = 3; price = 16000; quantity = 10; side = buy }
    ∷ []

on_all-SellsOnce_example : SellsOnce wide (λ s. s) scratch strategy engine messages
on_all-SellsOnce_example =
    on_all-SellsOnce wide (λ s. s) scratch strategy engine refl wide-IsSocket ems-Models.0 refl
      (rw ems-Models.1 (omega arith)) messages
