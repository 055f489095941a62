-- ===== src/Itch.antt =====
-- include/ITCH5Parser.hpp and src/ITCH5Parser.cpp: the market data messages. A character is its
-- code; the offsets are those of the packed structs.
pub mod Roundtrip
pub mod Bounds
mod Tests
use hft_learning.Prelude.{
  ℕ, ◌+◌, ◌*◌, ◌/◌, ◌%◌, ◌^◌, Bool, true, false, List, [], ◌∷◌, ◌==◌, ltb, if◌then◌else◌,
}
use hft_learning.Book.Types.{Side, buy, sell}
use hft_learning.Wire.{Buffer, write, load, store, bswap, padded}

-- `Parser::InternalMessage`
pub record InternalMessage : Type 0 where
  pub type : ℕ
  pub id : ℕ
  pub price : ℕ
  pub quantity : ℕ
  pub side : Side

-- sizes of the packed structs
abbrev pub add_order_size : ℕ
add_order_size = 36

abbrev pub order_cancel_size : ℕ
order_cancel_size = 23

abbrev pub order_delete_size : ℕ
order_delete_size = 19

abbrev pub order_executed_size : ℕ
order_executed_size = 31

abbrev pub order_executed_with_price_size : ℕ
order_executed_with_price_size = 36

-- `Parser::parse`; the log of an unsupported message is left out. What `out_msg` held is an argument,
-- since the cases set only some of its fields.
unfoldable pub parse : Buffer → ℕ → InternalMessage → Bool × InternalMessage
parse buffer length out_msg =
    let type = buffer 0 in
    let id = bswap 8 (load 8 buffer 11) in
    let typed = record out_msg { type = type } in
    if length == 0
    then (false, out_msg)
    else if type == 65  -- 'A'
    then if ltb length add_order_size then (false, typed) else (
      true,
      record typed {
        id = id;
        quantity = bswap 4 (load 4 buffer 20);
        price = bswap 4 (load 4 buffer 32);
        side = if buffer 19 == 66 then buy else sell;  -- 'B'
      },
    )
    else if type == 88  -- 'X'
    then if ltb length order_cancel_size
      then (false, typed)
      else (true, record typed { id = id; quantity = bswap 4 (load 4 buffer 19) })
    else if type == 68  -- 'D'
    then if ltb length order_delete_size then (false, typed) else (true, record typed { id = id })
    else if type == 69  -- 'E'
    then if ltb length order_executed_size
      then (false, typed)
      else (true, record typed { id = id; quantity = bswap 4 (load 4 buffer 19) })
    else if type == 67  -- 'C'
    then if ltb length order_executed_with_price_size then (false, typed) else (
      true,
      record typed {
        id = id;
        quantity = bswap 4 (load 4 buffer 19);
        price = bswap 4 (load 4 buffer 32);
      },
    )
    else (false, typed)

unfoldable pub parse_timestamp : Buffer → ℕ → ℕ
parse_timestamp ts offset =
    ts offset * 2 ^ 40
    + ts (offset + 1) * 2 ^ 32
    + ts (offset + 2) * 2 ^ 24
    + ts (offset + 3) * 2 ^ 16
    + ts (offset + 4) * 2 ^ 8
    + ts (offset + 5)

abbrev pub timestamp_bytes : ℕ → List ℕ
timestamp_bytes ts =
    ts / 2 ^ 40 % 256
    ∷ ts / 2 ^ 32 % 256
    ∷ ts / 2 ^ 24 % 256
    ∷ ts / 2 ^ 16 % 256
    ∷ ts / 2 ^ 8 % 256
    ∷ ts % 256
    ∷ []

abbrev pub write_timestamp : Buffer → ℕ → ℕ → Buffer
write_timestamp dest offset ts = write dest offset (timestamp_bytes ts)

-- What is written once the length is known to suffice. A null `stock` counts as the empty string.
abbrev pub write_add_order : Buffer → ℕ → ℕ → ℕ → ℕ → ℕ → ℕ → List ℕ → ℕ → Buffer
write_add_order buffer stock_locate tracking_number timestamp order_ref_number buy_sell shares stock
      price =
    let buffer₁ = write buffer 0 (65 ∷ []) in
    let buffer₂ = store 2 buffer₁ 1 (bswap 2 stock_locate) in
    let buffer₃ = store 2 buffer₂ 3 (bswap 2 tracking_number) in
    let buffer₄ = write_timestamp buffer₃ 5 timestamp in
    let buffer₅ = store 8 buffer₄ 11 (bswap 8 order_ref_number) in
    let buffer₆ = write buffer₅ 19 (buy_sell ∷ []) in
    let buffer₇ = store 4 buffer₆ 20 (bswap 4 shares) in
    let buffer₈ = write buffer₇ 24 (padded 8 stock) in store 4 buffer₈ 32 (bswap 4 price)

-- `ITCH5Builder::build_add_order`
unfoldable pub build_add_order : Buffer → ℕ → ℕ → ℕ → ℕ → ℕ → ℕ → ℕ → List ℕ → ℕ → Bool × Buffer
build_add_order buffer length stock_locate tracking_number timestamp order_ref_number buy_sell
      shares stock price =
    if ltb length add_order_size then (false, buffer) else (
      true,
      write_add_order buffer stock_locate tracking_number timestamp order_ref_number buy_sell shares
          stock price,
    )
