-- ===== src/Book/Quantity.antt =====
-- What writing the quantity of an order changes, in `LimitOrderBook::modify`.
use hft_learning.Prelude.{ℕ, ◌-◌, ◌≡◌, ◌≢◌, refl, ap, ◌∙◌, arith}
use hft_learning.Prelude.Arrays.{update}
use hft_learning.Book.Types.{Order, LimitOrderBook, sub64}
use hft_learning.Book.Levels.{level_at, set_level}
use hft_learning.Book.Ops.{set_quantity, reduce}
use hft_learning.Book.Links.{SameRest, item}
use hft_learning.Book.Stored.{set_levels}
use hft_learning.Book.Whole.{written, level_at-same}

pub item-set_quantity :
    (book : LimitOrderBook) (i quantity j : ℕ)
    → j ≢ i
    → item ((set_quantity book i quantity).order_pool j) ≡ item (book.order_pool j)
item-set_quantity book i quantity j ne = ground arith

pub id-set_quantity :
    (book : LimitOrderBook) (i quantity j : ℕ)
    → ((set_quantity book i quantity).order_pool j).id ≡ (book.order_pool j).id
id-set_quantity book i quantity j = ground arith

pub item-resized :
    (book : LimitOrderBook) (i quantity : ℕ)
    → item ((set_quantity book i quantity).order_pool i)
      ≡ ((book.order_pool i).id, quantity, (book.order_pool i).side, (book.order_pool i).price)
item-resized book i quantity = ground arith

-- What `reduce` writes.
pub reduced :
    (book : LimitOrderBook) (i quantity : ℕ)
    → let o = book.order_pool i in
      let level = level_at book o.side o.price in
      ((reduce book i quantity).order_pool
        ≡ update book.order_pool i (record (book.order_pool i) { quantity = quantity }))
      × (level_at (reduce book i quantity)
          ≡ set_levels
              (level_at book)
              o.side
              o.price
              (record level { total_volume = sub64 level.total_volume (o.quantity - quantity) }))
      × SameRest book (reduce book i quantity)
unfolding reduce
reduced book i quantity =
    let o = book.order_pool i in
    let level = level_at book o.side o.price in
    let less = record level { total_volume = sub64 level.total_volume (o.quantity - quantity) } in
    let (same_pool, same_levels, same) = written book book.order_pool o.side o.price less in
    (
      ap (λ (pool : ℕ → Order). update pool i (record (pool i) { quantity = quantity })) same_pool,
      level_at-same (set_level book o.side o.price less) (reduce book i quantity) refl refl
          ∙ same_levels,
      record {
        max_orders = same.max_orders;
        max_price = same.max_price;
        free_list_head = same.free_list_head;
        order_map = same.order_map;
        map_capacity = same.map_capacity;
      },
    )
