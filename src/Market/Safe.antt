-- ===== src/Market/Safe.antt =====
-- The market maker as a strategy of the engine: its updates return, and leave what they rely on.
use hft_learning.Prelude.{
  ℕ, ◌%◌, ◌^◌, ◌<◌, ◌≡◌, ◌⊎◌, inl, inr, refl, true, false, Option, none, some, List, [], ◌∷◌,
  Bool-cases,
}
use hft_learning.Wire.{Buffer}
use hft_learning.Itch.{InternalMessage}
use hft_learning.Ems.{EmsOrder}
use hft_learning.Ems.Lookup.{room, Models}
use hft_learning.Risk.{Doubles, check_order}
use hft_learning.Egress.Stream.{IsSocket}
use hft_learning.Strategy.{StrategyEngine}
use hft_learning.Strategy.Sending.{send_order-Sent, send_order-refused}
use hft_learning.Strategy.Dispatch.{IStrategy, IsSafe, update_strategies}
use hft_learning.Market.{MarketMakerStrategy, is_wanted, on_market_data_update}
use hft_learning.Market.Once.{approved-cases, holding, ignoring, selling}

module _ {doubles : Doubles} {S : Type 0} (send_bytes : S → List ℕ → Option ℕ × S)
    (scratch : Buffer) where
  -- The implementation of the interface; it does not look at the book.
  abbrev pub market_maker : IStrategy doubles S
  market_maker = record {
    Object = MarketMakerStrategy;
    on_market_data_update =
        λ strategy msg lob engine. on_market_data_update send_bytes scratch strategy msg engine;
  }

-- The engine can send one order more.
pub record CanSend {doubles : Doubles} {S : Type 0} (engine : StrategyEngine doubles S)
    : Type 0 where
  pub orders : ℕ → Option EmsOrder
  pub models : Models engine.ems orders
  pub fresh : orders engine.order_id_counter ≡ none
  pub vacancy : 0 < room engine.ems

-- One market maker, which has its position or can take it.
pub record IsCalm {doubles : Doubles} {S : Type 0} (objects : List MarketMakerStrategy)
    (engine : StrategyEngine doubles S) : Type 0 where
  pub strategy : MarketMakerStrategy
  pub only : objects ≡ strategy ∷ []
  pub calm : (strategy.position_taken ≡ true) ⊎ ((strategy.position_taken ≡ false) × CanSend engine)

module _ {doubles : Doubles} {S : Type 0} {send_bytes : S → List ℕ → Option ℕ × S}
    {stream : S → List ℕ} (lawful : IsSocket send_bytes stream) (scratch : Buffer) where
  -- A call that returns, and leaves a calm market maker.
  record Returns (run : Option (MarketMakerStrategy × StrategyEngine doubles S)) : Type 0 where
    strategy' : MarketMakerStrategy
    engine' : StrategyEngine doubles S
    returns : run ≡ some (strategy', engine')
    calm :
        (strategy'.position_taken ≡ true) ⊎ ((strategy'.position_taken ≡ false) × CanSend engine')

  module _ (strategy : MarketMakerStrategy) (msg : InternalMessage)
      (engine : StrategyEngine doubles S) where
    wanted-Returns :
        strategy.position_taken ≡ false
        → is_wanted strategy msg ≡ true
        → CanSend engine
        → Returns (on_market_data_update send_bytes scratch strategy msg engine)
    wanted-Returns idle wants c =
        let price = msg.price % 2 ^ 32 in
        elim (approved-cases (check_order engine.risk_engine 83 strategy.order_qty price price)) [
          | inl ok ↦
              let s =
                send_order-Sent send_bytes engine scratch 83 strategy.order_qty price
                  strategy.symbol price lawful c.models ok c.fresh c.vacancy in
              record {
                strategy' = record strategy { position_taken = true };
                engine' = s.after;
                returns =
                    selling send_bytes scratch strategy msg engine true s.after idle wants
                      s.returns;
                calm = inl refl;
              }
          | inr refused ↦ record {
            strategy' = strategy;
            engine' = engine;
            returns = selling send_bytes scratch strategy msg engine false engine idle wants (
                send_order-refused send_bytes engine scratch 83 strategy.order_qty price
                  strategy.symbol price refused);
            calm = inr (idle, c);
          }
        ]

    on_market_data_update-Returns :
        (strategy.position_taken ≡ true) ⊎ ((strategy.position_taken ≡ false) × CanSend engine)
        → Returns (on_market_data_update send_bytes scratch strategy msg engine)
    on_market_data_update-Returns (inl taken) = record {
      strategy' = strategy;
      engine' = engine;
      returns = holding send_bytes scratch strategy msg engine taken;
      calm = inl taken;
    }
    on_market_data_update-Returns (inr (idle, c)) = elim (Bool-cases (is_wanted strategy msg)) [
      | inl wants ↦ wanted-Returns idle wants c
      | inr unwanted ↦ record {
        strategy' = strategy;
        engine' = engine;
        returns = ignoring send_bytes scratch strategy msg engine idle unwanted;
        calm = inr (idle, c);
      }
    ]

  -- With a socket whose `::send` does what is documented, every update of an engine with one market
  -- maker returns, whatever the message and the book, and leaves one that is calm again: it has its
  -- position, or can still send its order. So does a new descriptor of the gateway.
  pub market_maker-IsSafe : IsSafe {doubles = doubles} (market_maker send_bytes scratch) IsCalm
  unfolding update_strategies
  market_maker-IsSafe = record {
    update = λ objects msg lob engine c.
        let r = on_market_data_update-Returns c.strategy msg engine c.calm in
        (
          r.strategy' ∷ [],
          r.engine',
          rw (c.only, r.returns) refl,
          record { strategy = r.strategy'; only = refl; calm = r.calm },
        );
    connect = λ objects engine fd c. record {
      strategy = c.strategy;
      only = c.only;
      calm = elim c.calm [
        | inl taken ↦ inl taken
        | inr (idle, can) ↦ inr (
          idle,
          record {
            orders = can.orders;
            models = can.models;
            fresh = can.fresh;
            vacancy = can.vacancy;
          },
        )
      ];
    };
  }
