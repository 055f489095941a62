-- ===== src/Book/Types.antt =====
-- include/OrderBook.hpp: the structs of the order book and its constructor. A pointer to an order is
-- its index in the pool, `nullptr` is `none`.
use hft_learning.Prelude.{ℕ, ◌+◌, ◌-◌, ◌%◌, ◌^◌, Option, none}

pub data Side : Type 0 where
  buy sell : Side

pub record Order : Type 0 where
  pub id : ℕ
  pub price : ℕ
  pub quantity : ℕ
  pub side : Side
  pub prev : Option ℕ
  pub next : Option ℕ

pub record PriceLevel : Type 0 where
  pub head : Option ℕ
  pub tail : Option ℕ
  pub total_volume : ℕ

-- What an entry of the hash map points to. `tombstone` is the special pointer of an erased entry.
pub data Target : Type 0 where
  null : Target
  tombstone : Target
  order : ℕ → Target

pub record HashEntry : Type 0 where
  pub key : ℕ
  pub value : Target

pub record LimitOrderBook : Type 0 where
  pub max_orders : ℕ
  pub max_price : ℕ
  pub bids : ℕ → PriceLevel
  pub asks : ℕ → PriceLevel
  pub order_pool : ℕ → Order
  pub free_list_head : Option ℕ
  pub order_map : ℕ → HashEntry
  pub map_capacity : ℕ

-- zeroed memory
abbrev pub zeroed_level : PriceLevel
zeroed_level = record { head = none; tail = none; total_volume = 0 }

abbrev pub zeroed_order : Order
zeroed_order = record { id = 0; price = 0; quantity = 0; side = buy; prev = none; next = none }

abbrev pub zeroed_entry : HashEntry
zeroed_entry = record { key = 0; value = null }

-- `uint64_t` addition and subtraction
abbrev pub add64 : ℕ → ℕ → ℕ
add64 a b = (a + b) % 2 ^ 64

abbrev pub sub64 : ℕ → ℕ → ℕ
sub64 a b = (a + 2 ^ 64 - b) % 2 ^ 64
