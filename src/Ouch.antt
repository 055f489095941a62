-- ===== src/Ouch.antt =====
-- include/OUCH42.hpp and src/OUCH42.cpp: the order entry messages. A character is its code, a string
-- the list of its characters before the terminating zero, with a null pointer as the empty list; the
-- offsets are those of the packed structs. The default arguments of the builders are arguments here.
pub mod Roundtrip
pub mod Images
pub mod Bounds
mod Tests
use hft_learning.Prelude.{ℕ, Bool, true, false, not, List, [], ◌∷◌, ◌==◌, ltb, if◌then◌else◌}
use hft_learning.Wire.{Buffer, write, read, load, store, bswap, padded}

pub record EnterOrderMsg : Type 0 where
  pub msg_type : ℕ
  pub order_token : List ℕ
  pub buy_sell_indicator : ℕ
  pub shares : ℕ
  pub stock : List ℕ
  pub price : ℕ
  pub time_in_force : ℕ
  pub firm : List ℕ
  pub display : ℕ
  pub capacity : ℕ
  pub intermarket_sweep_eligibility : ℕ
  pub minimum_quantity : ℕ
  pub cross_type : ℕ
  pub customer_type : ℕ

-- The arguments of `build_enter_order` besides the buffer and its length.
pub record EnterOrder : Type 0 where
  pub order_token : List ℕ
  pub buy_sell : ℕ
  pub shares : ℕ
  pub stock : List ℕ
  pub price : ℕ
  pub time_in_force : ℕ
  pub firm : List ℕ
  pub display : ℕ
  pub capacity : ℕ
  pub iso : ℕ
  pub min_qty : ℕ
  pub cross_type : ℕ
  pub customer_type : ℕ

-- `sizeof` of the packed structs
abbrev pub enter_order_size : ℕ
enter_order_size = 49

abbrev pub replace_order_size : ℕ
replace_order_size = 47

abbrev pub cancel_order_size : ℕ
cancel_order_size = 19

-- What is written once the length is known to suffice.
abbrev pub write_enter_order : Buffer → EnterOrder → Buffer
write_enter_order buffer order =
    let buffer₁ = write buffer 0 (79 ∷ []) in
    let buffer₂ = write buffer₁ 1 (padded 14 order.order_token) in
    let buffer₃ = write buffer₂ 15 (order.buy_sell ∷ []) in
    let buffer₄ = store 4 buffer₃ 16 (bswap 4 order.shares) in
    let buffer₅ = write buffer₄ 20 (padded 8 order.stock) in
    let buffer₆ = store 4 buffer₅ 28 (bswap 4 order.price) in
    let buffer₇ = store 4 buffer₆ 32 (bswap 4 order.time_in_force) in
    let buffer₈ = write buffer₇ 36 (padded 4 order.firm) in
    let buffer₉ = write buffer₈ 40 (order.display ∷ []) in
    let buffer₁₀ = write buffer₉ 41 (order.capacity ∷ []) in
    let buffer₁₁ = write buffer₁₀ 42 (order.iso ∷ []) in
    let buffer₁₂ = store 4 buffer₁₁ 43 (bswap 4 order.min_qty) in
    let buffer₁₃ = write buffer₁₂ 47 (order.cross_type ∷ []) in
    write buffer₁₃ 48 (order.customer_type ∷ [])

unfoldable pub build_enter_order : Buffer → ℕ → EnterOrder → Bool × Buffer
build_enter_order buffer length order =
    if ltb length enter_order_size then (false, buffer) else (true, write_enter_order buffer order)

abbrev pub write_replace_order : Buffer → List ℕ → List ℕ → ℕ → ℕ → ℕ → ℕ → ℕ → ℕ → Buffer
write_replace_order buffer existing_token replacement_token shares price time_in_force display iso
      min_qty =
    let buffer₁ = write buffer 0 (85 ∷ []) in
    let buffer₂ = write buffer₁ 1 (padded 14 existing_token) in
    let buffer₃ = write buffer₂ 15 (padded 14 replacement_token) in
    let buffer₄ = store 4 buffer₃ 29 (bswap 4 shares) in
    let buffer₅ = store 4 buffer₄ 33 (bswap 4 price) in
    let buffer₆ = store 4 buffer₅ 37 (bswap 4 time_in_force) in
    let buffer₇ = write buffer₆ 41 (display ∷ []) in
    let buffer₈ = write buffer₇ 42 (iso ∷ []) in store 4 buffer₈ 43 (bswap 4 min_qty)

unfoldable pub build_replace_order :
    Buffer → ℕ → List ℕ → List ℕ → ℕ → ℕ → ℕ → ℕ → ℕ → ℕ → Bool × Buffer
build_replace_order buffer length existing_token replacement_token shares price time_in_force
      display iso min_qty =
    if ltb length replace_order_size then (false, buffer) else (
      true,
      write_replace_order buffer existing_token replacement_token shares price time_in_force display
          iso min_qty,
    )

abbrev pub write_cancel_order : Buffer → List ℕ → ℕ → Buffer
write_cancel_order buffer order_token shares =
    let buffer₁ = write buffer 0 (88 ∷ []) in
    let buffer₂ = write buffer₁ 1 (padded 14 order_token) in store 4 buffer₂ 15 (bswap 4 shares)

unfoldable pub build_cancel_order : Buffer → ℕ → List ℕ → ℕ → Bool × Buffer
build_cancel_order buffer length order_token shares =
    if ltb length cancel_order_size
    then (false, buffer)
    else (true, write_cancel_order buffer order_token shares)

-- `std::memcpy(&out_msg, in_msg, sizeof(EnterOrderMsg))`
abbrev pub copied : Buffer → EnterOrderMsg
copied buffer = record {
  msg_type = buffer 0;
  order_token = read buffer 1 14;
  buy_sell_indicator = buffer 15;
  shares = load 4 buffer 16;
  stock = read buffer 20 8;
  price = load 4 buffer 28;
  time_in_force = load 4 buffer 32;
  firm = read buffer 36 4;
  display = buffer 40;
  capacity = buffer 41;
  intermarket_sweep_eligibility = buffer 42;
  minimum_quantity = load 4 buffer 43;
  cross_type = buffer 47;
  customer_type = buffer 48;
}

-- `OUCHParser::parse_enter_order`; `out_msg` is what the caller's variable held.
unfoldable pub parse_enter_order : Buffer → ℕ → EnterOrderMsg → Bool × EnterOrderMsg
parse_enter_order buffer length out_msg =
    let in_msg = copied buffer in
    if ltb length enter_order_size
    then (false, out_msg)
    else if not (in_msg.msg_type == 79)
    then (false, out_msg)
    else (
      true,
      record in_msg {
        shares = bswap 4 in_msg.shares;
        price = bswap 4 in_msg.price;
        time_in_force = bswap 4 in_msg.time_in_force;
        minimum_quantity = bswap 4 in_msg.minimum_quantity;
      },
    )
