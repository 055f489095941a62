-- ===== src/Ouch/Roundtrip.antt =====
-- What the parser makes of an order that the builder wrote.
use hft_learning.Prelude.{ℕ, ◌^◌, ◌<◌, ◌≤◌, ◌≡◌, refl, true, arith, ltb-eq-false}
use hft_learning.Wire.{Buffer, bswap, padded, from_bytes, to_bytes}
use hft_learning.Wire.Words.{word}
use hft_learning.Ouch.{
  EnterOrder, EnterOrderMsg, build_enter_order, write_enter_order, parse_enter_order,
}

-- The integers of an order fit their fields.
pub record Fits (order : EnterOrder) : Type 0 where
  pub shares : order.shares < 2 ^ 32
  pub price : order.price < 2 ^ 32
  pub time_in_force : order.time_in_force < 2 ^ 32
  pub min_qty : order.min_qty < 2 ^ 32

-- The message that says the same as the order: its strings cut or padded to their fields.
abbrev pub message : EnterOrder → EnterOrderMsg
message order = record {
  msg_type = 79;
  order_token = padded 14 order.order_token;
  buy_sell_indicator = order.buy_sell;
  shares = order.shares;
  stock = padded 8 order.stock;
  price = order.price;
  time_in_force = order.time_in_force;
  firm = padded 4 order.firm;
  display = order.display;
  capacity = order.capacity;
  intermarket_sweep_eligibility = order.iso;
  minimum_quantity = order.min_qty;
  cross_type = order.cross_type;
  customer_type = order.customer_type;
}

pub build_enter_order-written :
    (buffer : Buffer) (length : ℕ) (order : EnterOrder)
    → 49 ≤ length
    → build_enter_order buffer length order ≡ (true, write_enter_order buffer order)
unfolding build_enter_order
build_enter_order-written buffer length order long = rw (ltb-eq-false length 49 long) refl

word32 : (x : ℕ) → x < 2 ^ 32 → bswap 4 (from_bytes (to_bytes 4 (bswap 4 x))) ≡ x
word32 x h = word 4 x (omega (arith, h))

pub parse-written :
    (buffer : Buffer) (length : ℕ) (order : EnterOrder) (out_msg : EnterOrderMsg)
    → 49 ≤ length
    → Fits order
    → parse_enter_order (write_enter_order buffer order) length out_msg ≡ (true, message order)
unfolding parse_enter_order
parse-written buffer length order out_msg long f = rw (ltb-eq-false length 49 long) (λ k. (
  true,
  record (message order) {
    shares = word32 order.shares f.shares k;
    price = word32 order.price f.price k;
    time_in_force = word32 order.time_in_force f.time_in_force k;
    minimum_quantity = word32 order.min_qty f.min_qty k;
  },
))

-- Where the length is at least the 49 bytes of the message and the integers fit 32 bits,
-- `build_enter_order` returns true, and `parse_enter_order` of what it wrote returns true and a
-- message with the fields of the order, its strings cut or padded with spaces to their fields,
-- whatever the buffer and the result variable held before.
pub parse_enter_order-build_enter_order :
    (buffer : Buffer) (length : ℕ) (order : EnterOrder) (out_msg : EnterOrderMsg)
    → 49 ≤ length
    → Fits order
    → let (built, sent) = build_enter_order buffer length order in
      (built ≡ true) × (parse_enter_order sent length out_msg ≡ (true, message order))
parse_enter_order-build_enter_order buffer length order out_msg long f =
    rw (build_enter_order-written buffer length order long)
      (refl, parse-written buffer length order out_msg long f)
