-- ===== src/Strategy.antt =====
-- include/StrategyEngine.hpp and src/StrategyEngine.cpp: `sendOrder`, which takes an order of a
-- strategy through the risk check, the execution management system and the OUCH builder out to the
-- exchange. `none` is a run that does not return.
pub mod Sending
pub mod Token
pub mod Dispatch
pub mod Fixture
mod Tests
use hft_learning.Prelude.{
  ℕ, zero, suc, ◌+◌, ◌-◌, ◌*◌, ◌/◌, ◌%◌, ◌^◌, Bool, true, false, Option, none, some, List, [], ◌∷◌,
  ◌++◌, ◌==◌, if◌then◌else◌, take, length, replicate,
}
use hft_learning.Prelude.Decimal.{decimal}
use hft_learning.Prelude.Loops.{◌>>=◌}
use hft_learning.Wire.{Buffer, read}
use hft_learning.Ems.{ExecutionManagementSystem, on_order_sent}
use hft_learning.Risk.{
  RiskCheckStatus, approved, Doubles, PreTradeRiskEngine, check_order, update_position,
}
use hft_learning.Risk.Check.{signed_shares}
use hft_learning.Ouch.{EnterOrder, build_enter_order}
use hft_learning.Egress.{TcpEgressGateway, send}

-- The engine with what it refers to: the EMS, the risk engine, the gateway and its socket. The
-- strategies are left to the callers.
pub record StrategyEngine (doubles : Doubles) (S : Type 0) : Type 0 where
  pub ems : ExecutionManagementSystem
  pub risk_engine : PreTradeRiskEngine doubles
  pub tcp_egress : TcpEgressGateway
  pub socket : S
  pub order_id_counter : ℕ

-- The constructor; `socket` is the stream behind the gateway's descriptor.
abbrev pub strategy_engine :
    {doubles : Doubles} {S : Type 0}
    → ExecutionManagementSystem
    → PreTradeRiskEngine doubles
    → TcpEgressGateway
    → S
    → StrategyEngine doubles S
strategy_engine ems risk_engine tcp_egress socket = record {
  ems = ems;
  risk_engine = risk_engine;
  tcp_egress = tcp_egress;
  socket = socket;
  order_id_counter = 1000;
}

-- `std::snprintf(token, 15, "ORD%011lu", my_order_id)`
unfoldable pub order_token : ℕ → List ℕ
order_token my_order_id =
    let digits = decimal 20 my_order_id [] in
    take 14 (79 ∷ 82 ∷ 68 ∷ replicate (11 - length digits) 48 ++ digits)

-- The order that is built, with the default arguments of the builder.
abbrev pub enter_order : ℕ → ℕ → ℕ → ℕ → List ℕ → EnterOrder
enter_order my_order_id side shares price symbol = record {
  order_token = order_token my_order_id;
  buy_sell = side;
  shares = shares;
  stock = symbol;
  price = price;
  time_in_force = 99998;
  firm = 84 ∷ 69 ∷ 83 ∷ 84 ∷ [];
  display = 89;
  capacity = 79;
  iso = 78;
  min_qty = 0;
  cross_type = 78;
  customer_type = 78;
}

abbrev pub is_approved : RiskCheckStatus → Bool
is_approved approved = true
is_approved _ = false

module _ {doubles : Doubles} {S : Type 0} (send_bytes : S → List ℕ → Option ℕ × S) where
  -- What follows the EMS's note of the order. What `send` answers is not used.
  send_encoded :
      StrategyEngine doubles S → ℕ → ℕ → Bool × Buffer → Option (Bool × StrategyEngine doubles S)
  send_encoded engine side shares (false, ouch_buffer) = some (false, engine)
  send_encoded engine side shares (true, ouch_buffer) = do
    (sent, socket) ← send send_bytes engine.tcp_egress engine.socket (read ouch_buffer 0 49) 49
    some (
      true,
      record engine {
        risk_engine = update_position engine.risk_engine (signed_shares side shares);
        socket = socket;
      },
    )

  -- `sendOrder`; `scratch` is what the 64 bytes of `ouch_buffer` hold before they are written.
  unfoldable pub send_order :
      StrategyEngine doubles S
      → Buffer
      → ℕ
      → ℕ
      → ℕ
      → List ℕ
      → ℕ
      → Option (Bool × StrategyEngine doubles S)
  unfolding send_encoded
  send_order engine scratch side shares price symbol reference_price =
      let status = check_order engine.risk_engine side shares price reference_price in
      let my_order_id = engine.order_id_counter in
      let approved_run = on_order_sent engine.ems my_order_id price shares >>= λ (tracked, ems).
      send_encoded (record engine { ems = ems; order_id_counter = (my_order_id + 1) % 2 ^ 64 }) side
        shares (build_enter_order scratch 64 (enter_order my_order_id side shares price symbol)) in
      if is_approved status then approved_run else some (false, engine)
