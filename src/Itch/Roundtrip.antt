-- ===== src/Itch/Roundtrip.antt =====
-- What the parser makes of a message that the builder wrote.
use hft_learning.Prelude.{
  ℕ, ◌%◌, ◌^◌, ◌<◌, ◌≤◌, ◌≡◌, refl, true, List, arith, ◌==◌, ltb-eq-false, ==-eq-false,
  if◌then◌else◌,
}
use hft_learning.Book.Types.{buy, sell}
use hft_learning.Wire.{Buffer, load, bswap}
use hft_learning.Wire.Words.{word}
use hft_learning.Itch.{
  InternalMessage, parse, build_add_order, write_add_order, parse_timestamp, write_timestamp,
}

module _ (buffer : Buffer)
    (stock_locate tracking_number timestamp order_ref_number buy_sell shares : ℕ) (stock : List ℕ)
    (price : ℕ) where
  abbrev written : Buffer
  written =
      write_add_order buffer stock_locate tracking_number timestamp order_ref_number buy_sell shares
        stock price

  id_field : order_ref_number < 2 ^ 64 → bswap 8 (load 8 written 11) ≡ order_ref_number
  id_field h = word 8 order_ref_number (omega (arith, h))

  shares_field : shares < 2 ^ 32 → bswap 4 (load 4 written 20) ≡ shares
  shares_field h = word 4 shares (omega (arith, h))

  price_field : price < 2 ^ 32 → bswap 4 (load 4 written 32) ≡ price
  price_field h = word 4 price (omega (arith, h))

  abbrev message : InternalMessage
  message = record {
    type = 65;
    id = order_ref_number;
    price = price;
    quantity = shares;
    side = if buy_sell == 66 then buy else sell;
  }

  pub parse-written :
      (length : ℕ) (out_msg : InternalMessage)
      → 36 ≤ length
      → order_ref_number < 2 ^ 64
      → shares < 2 ^ 32
      → price < 2 ^ 32
      → parse written length out_msg ≡ (true, message)
  unfolding parse
  parse-written length out_msg long id_in shares_in price_in =
      rw (==-eq-false length 0 (λ e. absurd (omega arith)), ltb-eq-false length 36 long)
        (λ k. (
          true,
          record {
            type = 65;
            id = id_field id_in k;
            price = price_field price_in k;
            quantity = shares_field shares_in k;
            side = if buy_sell == 66 then buy else sell;
          },
        ))

  pub build_add_order-written :
      (length : ℕ)
      → 36 ≤ length
      → build_add_order buffer length stock_locate tracking_number timestamp order_ref_number
          buy_sell shares stock price
        ≡ (true, written)
  unfolding build_add_order
  build_add_order-written length long = rw (ltb-eq-false length 36 long) refl

  -- Where the length is at least the 36 bytes of the message, the id fits 64 bits and shares and
  -- price fit 32 bits, `build_add_order` returns true, and `parse` of what it wrote returns true and
  -- an add of this id, price and quantity, a buy if the indicator is 'B' and else a sell, whatever
  -- the buffer and the result variable held before.
  pub parse-build_add_order :
      (length : ℕ) (out_msg : InternalMessage)
      → 36 ≤ length
      → order_ref_number < 2 ^ 64
      → shares < 2 ^ 32
      → price < 2 ^ 32
      → let (built, sent) =
          build_add_order buffer length stock_locate tracking_number timestamp order_ref_number
            buy_sell shares stock price in
        (built ≡ true)
        × (parse sent length out_msg ≡ (
          true,
          record {
            type = 65;
            id = order_ref_number;
            price = price;
            quantity = shares;
            side = if buy_sell == 66 then buy else sell;
          },
        ))
  parse-build_add_order length out_msg long id_in shares_in price_in =
      rw (build_add_order-written length long)
        (refl, parse-written length out_msg long id_in shares_in price_in)

-- The timestamp that is written reads back, modulo 2^48.
pub parse_timestamp-write_timestamp :
    (buffer : Buffer) (timestamp : ℕ)
    → parse_timestamp (write_timestamp buffer 5 timestamp) 5 ≡ timestamp % 2 ^ 48
unfolding parse_timestamp
parse_timestamp-write_timestamp buffer timestamp = omega arith
