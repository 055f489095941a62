-- ===== src/Main/Start.antt =====
-- src/Main.cpp: what the strategy thread starts with.
use hft_learning.Prelude.{none, ℕ, Bool, Option, some, List, [], ◌∷◌}
use hft_learning.Prelude.Int.{pos}
use hft_learning.Prelude.Loops.{◌>>=◌}
use hft_learning.Wire.{Buffer}
use hft_learning.Spsc.{spsc_queue}
use hft_learning.Book.Pool
use hft_learning.Ems
use hft_learning.Itch.{InternalMessage}
use hft_learning.Risk.{Doubles, RiskConfig, pre_trade_risk_engine}
use hft_learning.Egress.{no_socket}
use hft_learning.Strategy.{strategy_engine}
use hft_learning.Strategy.Dispatch.{add_strategy}
use hft_learning.Market.{market_maker_strategy}
use hft_learning.Market.Safe.{market_maker}
use hft_learning.Main.{System, Datagram}

-- "AAPL"
abbrev pub symbol : List ℕ
symbol = 65 ∷ 65 ∷ 80 ∷ 76 ∷ []

-- `max_price_deviation_pct` is the value of the literal 0.05.
abbrev pub risk_config : (doubles : Doubles) → doubles.Double → RiskConfig doubles
risk_config doubles max_price_deviation_pct = record {
  max_order_size = 500;
  max_position = pos 10000;
  max_price_deviation_pct = max_price_deviation_pct;
}

module _ (doubles : Doubles) {S : Type 0} (send_bytes : S → List ℕ → Option ℕ × S)
    (scratch : Buffer) where
  -- The queue and the variables of the strategy thread before its loop: `items` is what the slots of
  -- the queue hold, `msg` what the message does, and `incoming` what will come over the feed. `none`
  -- is an exception, where the memory of the book or of the EMS could not be mapped.
  unfoldable pub start :
      Bool
      → Bool
      → (ℕ → InternalMessage)
      → InternalMessage
      → doubles.Double
      → S
      → List Datagram
      → Option (System (market_maker {doubles = doubles} send_bytes scratch))
  start book_mapped ems_mapped items msg pct socket incoming = do
    lob ← Pool.new book_mapped 1000000 100000
    ems ← Ems.new ems_mapped 10000
    some (record {
      queue = spsc_queue items;
      msg = msg;
      lob = lob;
      strategies =
          add_strategy (market_maker {doubles = doubles} send_bytes scratch) []
            (market_maker_strategy 15000 100 symbol);
      strategy_engine =
          strategy_engine ems (pre_trade_risk_engine (risk_config doubles pct)) no_socket socket;
      incoming = incoming;
      pushing = none;
    })
