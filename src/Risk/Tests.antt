-- ===== src/Risk/Tests.antt =====
-- Concrete checks, with numbers in hundredths for `double`.
use hft_learning.Prelude.{◌*◌, ◌/◌, ◌≡◌, ◌↔◌, refl, arith, ltb}
use hft_learning.Prelude.Int.{ℤ, pos, ◌+ℤ◌, ◌-ℤ◌, ◌≤ℤ◌, abs}
use hft_learning.Risk.{Doubles, PreTradeRiskEngine, approved, check_order, update_position, wrap64}
use hft_learning.Risk.Check.{
  signed_shares, size, IsAcceptable, check_order-approved, update_position-check_order,
}

abbrev hundredths : Doubles
hundredths = record {
  Double = ℤ;
  of_uint32 = λ n. pos (n * 100);
  minus = λ a b. a -ℤ b;
  divide = λ a b. pos (size a * 100 / size b);
  absolute = λ a. pos (size a);
  greater = λ a b. ltb (size b) (size a);
}

-- the limits of src/Main.cpp
abbrev engine : PreTradeRiskEngine hundredths
engine = record {
  config = record {
    max_order_size = 500;
    max_position = pos 10000;
    max_price_deviation_pct = pos 5;
  };
  current_position = pos 0;
}

engine-approved : check_order engine 83 100 15000 15000 ≡ approved
unfolding check_order wrap64 ◌-ℤ◌ abs
engine-approved = refl

check_order-approved_example :
    (check_order engine 83 100 15000 15000 ≡ approved) ↔ IsAcceptable engine 83 100 15000 15000
check_order-approved_example = check_order-approved engine 83 100 15000 15000 (omega arith)

update_position-check_order_example :
    ((update_position engine (signed_shares 83 100)).current_position
      ≡ pos 0 +ℤ signed_shares 83 100)
    × (pos (size (update_position engine (signed_shares 83 100)).current_position) ≤ℤ pos 10000)
update_position-check_order_example =
    update_position-check_order engine 83 100 15000 15000 (omega arith) engine-approved
