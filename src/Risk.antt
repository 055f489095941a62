-- ===== src/Risk.antt =====
-- include/PreTradeRisk.hpp and src/PreTradeRisk.cpp: the check that every order passes before it is
-- sent. The arithmetic of `double` is a parameter. Sums of `int64_t` are written with their wrap.
pub mod Check
mod Tests
use hft_learning.Prelude.{ℕ, ◌+◌, ◌-◌, ◌%◌, ◌^◌, Bool, true, false, ◌==◌, ltb, ◌&&◌, if◌then◌else◌}
use hft_learning.Prelude.Int.{ℤ, pos, negsuc, pos_part, neg_part, ◌+ℤ◌, ◌-ℤ◌, ltb_ℤ, abs}

pub data RiskCheckStatus : Type 0 where
  approved rejected_fat_finger rejected_max_order_size rejected_max_position : RiskCheckStatus

-- `double`, with what the check does with it.
pub record Doubles : Type 1 where
  pub Double : Type 0
  pub of_uint32 : ℕ → Double
  pub minus : Double → Double → Double
  pub divide : Double → Double → Double
  pub absolute : Double → Double
  pub greater : Double → Double → Bool

-- `int64_t`: the value with the same residue modulo 2^64
unfoldable pub wrap64 : ℤ → ℤ
wrap64 n =
    let word = (pos_part n + (2 ^ 64 - neg_part n % 2 ^ 64)) % 2 ^ 64 in
    if ltb word (2 ^ 63) then pos word else negsuc (2 ^ 64 - word - 1)

module _ (doubles : Doubles) where
  pub record RiskConfig : Type 0 where
    pub max_order_size : ℕ
    pub max_position : ℤ
    pub max_price_deviation_pct : doubles.Double

  pub record PreTradeRiskEngine : Type 0 where
    pub config : RiskConfig
    pub current_position : ℤ

-- how far the price is from the reference, which is not 0
abbrev pub deviation : (doubles : Doubles) → ℕ → ℕ → doubles.Double
deviation doubles price reference_price =
    let reference = doubles.of_uint32 reference_price in
    doubles.divide (doubles.absolute (doubles.minus (doubles.of_uint32 price) reference)) reference

-- the position once the order is filled; 66 is 'B'
abbrev pub new_position : ℤ → ℕ → ℕ → ℤ
new_position current_pos side shares =
    if side == 66 then wrap64 (current_pos +ℤ pos shares) else wrap64 (current_pos -ℤ pos shares)

module _ {doubles : Doubles} where
  unfoldable pub check_order : PreTradeRiskEngine doubles → ℕ → ℕ → ℕ → ℕ → RiskCheckStatus
  check_order engine side shares price reference_price =
      let config = engine.config in
      let new_pos = new_position engine.current_position side shares in
      if ltb config.max_order_size shares
      then rejected_max_order_size
      else if ltb 0 reference_price
          && doubles.greater (deviation doubles price reference_price)
              config.max_price_deviation_pct
      then rejected_fat_finger
      else if ltb_ℤ config.max_position (wrap64 (abs new_pos))
      then rejected_max_position
      else approved

  -- The constructor.
  abbrev pub pre_trade_risk_engine : RiskConfig doubles → PreTradeRiskEngine doubles
  pre_trade_risk_engine config = record { config = config; current_position = pos 0 }

  unfoldable pub update_position : PreTradeRiskEngine doubles → ℤ → PreTradeRiskEngine doubles
  update_position engine executed_qty = record engine {
    current_position = wrap64 (engine.current_position +ℤ executed_qty);
  }

  abbrev pub get_current_position : PreTradeRiskEngine doubles → ℤ
  get_current_position engine = engine.current_position

  abbrev pub reset_position : PreTradeRiskEngine doubles → PreTradeRiskEngine doubles
  reset_position engine = record engine { current_position = pos 0 }
