-- ===== src/Book/Index.antt =====
-- src/OrderBook.cpp: the hash map from order ids to orders, by open addressing with linear probing.
-- The loops return `none` when they have gone once round the table: they change nothing before they
-- stop, so a loop that has come back to its first slot runs for ever.
use hft_learning.Prelude.{
  ℕ, zero, suc, ◌%◌, Bool, true, false, ◌&&◌, ◌||◌, not, Option, none, some, ◌==◌, if◌then◌else◌,
}
use hft_learning.Prelude.Arrays.{update}
use hft_learning.Prelude.Cycle.{next_index}
use hft_learning.Book.Types.{Target, null, tombstone, order, LimitOrderBook}

abbrev pub is_null : Target → Bool
is_null null = true
is_null _ = false

abbrev pub is_tombstone : Target → Bool
is_tombstone tombstone = true
is_tombstone _ = false

unfoldable pub map_insert_from : LimitOrderBook → ℕ → ℕ → ℕ → ℕ → Option LimitOrderBook
map_insert_from book id pointer zero index = none
map_insert_from book id pointer (suc fuel) index =
    let entry = book.order_map index in
    let rest = map_insert_from book id pointer fuel (next_index book.map_capacity index) in
    if is_null entry.value || is_tombstone entry.value
    then some (record book {
      order_map = update book.order_map index (record { key = id; value = order pointer });
    })
    else if entry.key == id
    then some (record book {
      order_map = update book.order_map index (record entry { value = order pointer });
    })
    else rest

unfoldable pub map_insert : LimitOrderBook → ℕ → ℕ → Option LimitOrderBook
map_insert book id pointer =
    map_insert_from book id pointer book.map_capacity (id % book.map_capacity)

-- The pointer in an entry; the inner `none` is `nullptr`.
abbrev pub pointer_of : Target → Option ℕ
pointer_of null = none
pointer_of tombstone = none
pointer_of (order pointer) = some pointer

unfoldable pub map_find_from : LimitOrderBook → ℕ → ℕ → ℕ → Option (Option ℕ)
map_find_from book id zero index = none
map_find_from book id (suc fuel) index =
    let entry = book.order_map index in
    let rest = map_find_from book id fuel (next_index book.map_capacity index) in
    if is_null entry.value
    then some none
    else if entry.key == id && not (is_tombstone entry.value)
    then some (pointer_of entry.value)
    else rest

unfoldable pub map_find : LimitOrderBook → ℕ → Option (Option ℕ)
map_find book id = map_find_from book id book.map_capacity (id % book.map_capacity)

unfoldable pub map_erase_from : LimitOrderBook → ℕ → ℕ → ℕ → Option LimitOrderBook
map_erase_from book id zero index = none
map_erase_from book id (suc fuel) index =
    let entry = book.order_map index in
    let rest = map_erase_from book id fuel (next_index book.map_capacity index) in
    if is_null entry.value
    then some book
    else if entry.key == id && not (is_tombstone entry.value)
    then some (record book {
      order_map = update book.order_map index (record entry { value = tombstone });
    })
    else rest

unfoldable pub map_erase : LimitOrderBook → ℕ → Option LimitOrderBook
map_erase book id = map_erase_from book id book.map_capacity (id % book.map_capacity)
