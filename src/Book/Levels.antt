-- ===== src/Book/Levels.antt =====
-- src/OrderBook.cpp: the intrusive doubly linked list of a price level.
use hft_learning.Prelude.{ℕ, Option, none, some}
use hft_learning.Prelude.Arrays.{update}
use hft_learning.Book.Types.{Side, buy, sell, Order, PriceLevel, LimitOrderBook, add64, sub64}

-- `bids_[price]` or `asks_[price]`
abbrev pub level_at : LimitOrderBook → Side → ℕ → PriceLevel
level_at book buy price = book.bids price
level_at book sell price = book.asks price

abbrev pub set_level : LimitOrderBook → Side → ℕ → PriceLevel → LimitOrderBook
set_level book buy price level = record book { bids = update book.bids price level }
set_level book sell price level = record book { asks = update book.asks price level }

-- `order->next = target` and `order->prev = target`
abbrev pub set_next : (ℕ → Order) → ℕ → Option ℕ → ℕ → Order
set_next pool order target = update pool order (record (pool order) { next = target })

abbrev pub set_prev : (ℕ → Order) → ℕ → Option ℕ → ℕ → Order
set_prev pool order target = update pool order (record (pool order) { prev = target })

-- The neighbours' pointers on insertion behind `tail`.
unfoldable pub link_tail : (ℕ → Order) → ℕ → Option ℕ → ℕ → Order
link_tail pool order none = pool
link_tail pool order (some tail) = set_next pool tail (some order)

unfoldable pub head_behind : Option ℕ → Option ℕ → ℕ → Option ℕ
head_behind none head order = some order
head_behind (some tail) head order = head

unfoldable pub insert_order : LimitOrderBook → ℕ → LimitOrderBook
unfolding link_tail head_behind
insert_order book order =
    let side = (book.order_pool order).side in
    let price = (book.order_pool order).price in
    let level = level_at book side price in
    let pool = set_next (set_prev book.order_pool order level.tail) order none in
    let book' = record book { order_pool = link_tail pool order level.tail } in
    set_level book' side price (record {
      head = head_behind level.tail level.head order;
      tail = some order;
      total_volume = add64 level.total_volume (pool order).quantity;
    })

-- `order->prev->next = order->next`, unless `prev` is null
unfoldable pub unlink_prev : (ℕ → Order) → Option ℕ → Option ℕ → ℕ → Order
unlink_prev pool none next = pool
unlink_prev pool (some prev) next = set_next pool prev next

-- `order->next->prev = order->prev`, unless `next` is null
unfoldable pub unlink_next : (ℕ → Order) → Option ℕ → Option ℕ → ℕ → Order
unlink_next pool none prev = pool
unlink_next pool (some next) prev = set_prev pool next prev

-- The level's pointer moves where the order had no neighbour.
unfoldable pub end_without : Option ℕ → Option ℕ → Option ℕ → Option ℕ
end_without none old other = other
end_without (some neighbour) old other = old

unfoldable pub remove_order : LimitOrderBook → ℕ → LimitOrderBook
unfolding unlink_prev unlink_next end_without
remove_order book order =
    let side = (book.order_pool order).side in
    let price = (book.order_pool order).price in
    let level = level_at book side price in
    let prev = (book.order_pool order).prev in
    let next = (book.order_pool order).next in
    let pool = unlink_next (unlink_prev book.order_pool prev next) next prev in
    let book' = record book { order_pool = pool } in
    set_level book' side price (record {
      head = end_without prev level.head next;
      tail = end_without next level.tail prev;
      total_volume = sub64 level.total_volume (pool order).quantity;
    })
