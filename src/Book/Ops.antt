-- ===== src/Book/Ops.antt =====
-- src/OrderBook.cpp: the public operations of the book. The outer `none` is a loop of the hash map
-- that does not end. The log lines change nothing of the book and are left out.
use mathlib.Core.Option
use hft_learning.Prelude.{
  ℕ, ◌-◌, Bool, true, false, Option, none, some, ◌==◌, leb, ltb, if◌then◌else◌,
}
use hft_learning.Prelude.Arrays.{update}
use hft_learning.Prelude.Loops.{◌>>=◌}
use hft_learning.Book.Types.{Side, Order, LimitOrderBook, sub64}
use hft_learning.Book.Pool.{allocate_order, deallocate_order}
use hft_learning.Book.Index.{map_insert, map_find, map_erase}
use hft_learning.Book.Levels.{level_at, set_level, insert_order, remove_order}

abbrev pub Reply : Type 0
Reply = Bool × LimitOrderBook

-- Writing the fields of an order; its links stay.
abbrev pub fill_order : LimitOrderBook → ℕ → ℕ → Side → ℕ → ℕ → LimitOrderBook
fill_order book order id side price quantity = record book {
  order_pool =
      update book.order_pool order (record (book.order_pool order) {
        id = id;
        side = side;
        price = price;
        quantity = quantity;
      });
}

-- `add` once the allocator has answered.
add_allocated : ℕ → Side → ℕ → ℕ → Option ℕ × LimitOrderBook → Option Reply
add_allocated id side price quantity (none, book) = some (false, book)
add_allocated id side price quantity (some order, book) = do
  book' ← map_insert (insert_order (fill_order book order id side price quantity) order) id order
  some (true, book')

-- `add` once `map_find` has answered.
add_at : LimitOrderBook → ℕ → Side → ℕ → ℕ → Option ℕ → Option Reply
unfolding add_allocated
add_at book id side price quantity (some order) = some (false, book)
add_at book id side price quantity none = add_allocated id side price quantity (allocate_order book)

unfoldable pub add : LimitOrderBook → ℕ → Side → ℕ → ℕ → Option Reply
unfolding add_at
add book id side price quantity =
    if leb book.max_price price
    then some (false, book)
    else map_find book id >>= add_at book id side price quantity

cancel_at : LimitOrderBook → ℕ → Option ℕ → Option Reply
cancel_at book id none = some (false, book)
cancel_at book id (some order) = do
  book' ← map_erase (remove_order book order) id
  some (true, deallocate_order book' order)

unfoldable pub cancel : LimitOrderBook → ℕ → Option Reply
unfolding cancel_at
cancel book id = map_find book id >>= cancel_at book id

abbrev pub set_quantity : LimitOrderBook → ℕ → ℕ → LimitOrderBook
set_quantity book order quantity = record book {
  order_pool =
      update book.order_pool order (record (book.order_pool order) { quantity = quantity });
}

-- A smaller quantity keeps the order's place in its level.
unfoldable pub reduce : LimitOrderBook → ℕ → ℕ → LimitOrderBook
reduce book order new_quantity =
    let side = (book.order_pool order).side in
    let price = (book.order_pool order).price in
    let quantity = (book.order_pool order).quantity in
    let level = level_at book side price in
    let book' =
      set_level book side price
        (record level { total_volume = sub64 level.total_volume (quantity - new_quantity) }) in
    set_quantity book' order new_quantity

modify_at : LimitOrderBook → ℕ → ℕ → Option ℕ → Option Reply
modify_at book id new_quantity none = some (false, book)
modify_at book id new_quantity (some order) =
    if new_quantity == 0
    then cancel book id
    else if ltb (book.order_pool order).quantity new_quantity
    then some (true, insert_order (set_quantity (remove_order book order) order new_quantity) order)
    else some (true, reduce book order new_quantity)

unfoldable pub modify : LimitOrderBook → ℕ → ℕ → Option Reply
unfolding modify_at
modify book id new_quantity = map_find book id >>= modify_at book id new_quantity

unfoldable pub get_volume_at_price : LimitOrderBook → Side → ℕ → ℕ
get_volume_at_price book side price =
    if leb book.max_price price then 0 else (level_at book side price).total_volume

-- What `get_order` points to.
unfoldable pub get_order : LimitOrderBook → ℕ → Option (Option Order)
get_order book id = do found ← map_find book id; some (Option.map book.order_pool found)
