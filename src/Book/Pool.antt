-- ===== src/Book/Pool.antt =====
-- src/OrderBook.cpp: the constructor with its memory pool, and the allocator over the free list.
use hft_learning.Prelude.{ℕ, zero, suc, ◌+◌, ◌*◌, ◌%◌, ◌^◌, Bool, Option, none, some, if◌then◌else◌}
use hft_learning.Prelude.Arrays.{update}
use hft_learning.Book.Types.{Order, LimitOrderBook, zeroed_level, zeroed_order, zeroed_entry}

-- The loop that threads the pool on the free list: `count` rounds are left, the next is `i`.
unfoldable pub link_free : ℕ → ℕ → (ℕ → Order) × Option ℕ → (ℕ → Order) × Option ℕ
link_free zero i (pool, free_list_head) = (pool, free_list_head)
link_free (suc count) i (pool, free_list_head) =
    link_free count (i + 1) (update pool i (record (pool i) { next = free_list_head }), some i)

-- `LimitOrderBook` and `init_memory_pool`; `mapped` says whether `mmap` gave the memory. `none` is
-- the exception.
unfoldable pub new : Bool → ℕ → ℕ → Option LimitOrderBook
new mapped max_orders max_price =
    let (pool, free_list_head) = link_free max_orders 0 ((λ _. zeroed_order), none) in
    if mapped
    then some (record {
      max_orders = max_orders;
      max_price = max_price;
      bids = λ _. zeroed_level;
      asks = λ _. zeroed_level;
      order_pool = pool;
      free_list_head = free_list_head;
      order_map = λ _. zeroed_entry;
      map_capacity = max_orders * 2 % 2 ^ 64;
    })
    else none

take_head : LimitOrderBook → Option ℕ → Option ℕ × LimitOrderBook
take_head book none = (none, book)
take_head book (some order) =
    (some order, record book { free_list_head = (book.order_pool order).next })

-- `none` is `nullptr`: the pool is exhausted.
unfoldable pub allocate_order : LimitOrderBook → Option ℕ × LimitOrderBook
unfolding take_head
allocate_order book = take_head book book.free_list_head

unfoldable pub deallocate_order : LimitOrderBook → ℕ → LimitOrderBook
deallocate_order book order = record book {
  order_pool =
      update book.order_pool order (record (book.order_pool order) { next = book.free_list_head });
  free_list_head = some order;
}
