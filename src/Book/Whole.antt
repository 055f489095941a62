-- ===== src/Book/Whole.antt =====
-- What it means that a book is well formed, and what `insert_order`, `remove_order` and the allocator
-- do to such a book.
use mathlib.Core.Path.{fun_ext, subst, subst₂}
use hft_learning.Prelude.{
  ℕ, ◌^◌, ◌<◌, ◌≡◌, inl, refl, sym, ap, ◌∙◌, Option, none, List, [], ◌∷◌, ◌++◌, arith,
}
use hft_learning.Book.Types.{Side, buy, sell, Order, PriceLevel, LimitOrderBook}
use hft_learning.Book.Levels.{level_at, set_level, set_next, set_prev, insert_order, remove_order}
use hft_learning.Book.Chain.{In, In-append_right}
use hft_learning.Book.Store.{Queues, set_queue}
use hft_learning.Book.Links.{
  level_at-set_level, SameRest, set_level-SameRest, linked_in, linked_out, item, item-linked_in,
  item-linked_out, linked_out-fields,
}
use hft_learning.Book.Stored.{Levels, set_levels, IsStored, IsLoose}
use hft_learning.Book.Stored.Moves.{enqueue-IsStored, dequeue-IsStored}
use hft_learning.Book.Indexed.{IsIndexed}

-- the orders that stand in some level
abbrev pub Queued : Queues → ℕ → Type 0
Queued q i = (s : Side) × (p : ℕ) × In i (q s p)

abbrev pub Stored : LimitOrderBook → Queues → List ℕ → Type 0
Stored book q free =
    IsStored book.order_pool (level_at book) book.free_list_head book.max_orders book.max_price q
      free

-- A well-formed book whose levels are `q` and whose free orders are `free`.
pub record IsBook (book : LimitOrderBook) (q : Queues) (free : List ℕ) : Type 0 where
  pub stored : Stored book q free
  pub indexed : IsIndexed book (Queued q)

pub level_at-same :
    (book book' : LimitOrderBook)
    → book'.bids ≡ book.bids
    → book'.asks ≡ book.asks
    → level_at book' ≡ level_at book
level_at-same book book' b a = fun_ext λ s. fun_ext λ p.
    elim s as (λ s. level_at book' s p ≡ level_at book s p) [
      | buy ↦ ap (λ (levels : ℕ → PriceLevel). levels p) b
      | sell ↦ ap (λ (levels : ℕ → PriceLevel). levels p) a
    ]

pub Stored-as :
    (book book' : LimitOrderBook) {pool : ℕ → Order} {levels : Levels} {q : Queues} {free : List ℕ}
    → book'.order_pool ≡ pool
    → level_at book' ≡ levels
    → SameRest book book'
    → IsStored pool levels book.free_list_head book.max_orders book.max_price q free
    → Stored book' q free
Stored-as book book' same_pool same_levels same st =
    rw (same_pool, same_levels, same.free_list_head, same.max_orders, same.max_price) st

-- Writing a level after a change of the pool.
pub written :
    (book : LimitOrderBook) (pool : ℕ → Order) (s : Side) (p : ℕ) (level : PriceLevel)
    → let book' = set_level (record book { order_pool = pool }) s p level in
      (book'.order_pool ≡ pool)
      × (level_at book' ≡ set_levels (level_at book) s p level)
      × SameRest book book'
written book pool s p level =
    let book' = record book { order_pool = pool } in
    let (same, same_pool) = set_level-SameRest book' s p level in
    (
      same_pool,
      (fun_ext λ t. fun_ext λ r. level_at-set_level book' s t p r level)
          ∙ ap (λ levels. set_levels levels s p level) (level_at-same book book' refl refl),
      record {
        max_orders = same.max_orders;
        max_price = same.max_price;
        free_list_head = same.free_list_head;
        order_map = same.order_map;
        map_capacity = same.map_capacity;
      },
    )

module _ (book : LimitOrderBook) (i : ℕ) where
  abbrev o : Order
  o = book.order_pool i

  abbrev level : PriceLevel
  level = level_at book o.side o.price

  kept_quantity :
      (tail : Option ℕ)
      → o.quantity ≡ (set_next (set_prev book.order_pool i tail) i none i).quantity
  kept_quantity tail = ground arith

  insert_own :
      {q : Queues} {free : List ℕ}
      → Stored book q free
      → IsLoose book.max_orders q free i
      → o.quantity < 2 ^ 64
      → o.price < book.max_price
      → Stored (insert_order book i) (set_queue q o.side o.price (q o.side o.price ++ i ∷ [])) free
  unfolding insert_order
  insert_own st loose small in_price =
      let (same_pool, same_levels, same) =
        written book (linked_in book.order_pool i level.tail) o.side o.price _ in
      Stored-as book (insert_order book i) same_pool same_levels same (
        enqueue-IsStored st o.side o.price i _ loose refl refl (kept_quantity level.tail)
          (subst (λ n. n < 2 ^ 64) (kept_quantity level.tail) small) in_price)

  pub insert_order-Stored :
      {q : Queues} {free : List ℕ} (s : Side) (p : ℕ)
      → Stored book q free
      → IsLoose book.max_orders q free i
      → o.side ≡ s
      → o.price ≡ p
      → o.quantity < 2 ^ 64
      → p < book.max_price
      → Stored (insert_order book i) (set_queue q s p (q s p ++ i ∷ [])) free
  insert_order-Stored {q} {free} s p st loose side_i price_i small in_price =
      subst₂ (λ s p. Stored (insert_order book i) (set_queue q s p (q s p ++ i ∷ [])) free) side_i
        price_i (insert_own st loose small (rw price_i in_price))

  pub insert_order-same :
      SameRest book (insert_order book i)
      × ((j : ℕ) → item ((insert_order book i).order_pool j) ≡ item (book.order_pool j))
  unfolding insert_order
  insert_order-same =
      let (same_pool, same_levels, same) =
        written book (linked_in book.order_pool i level.tail) o.side o.price _ in
      (
        same,
        λ j.
            ap (λ (pool : ℕ → Order). item (pool j)) same_pool
            ∙ item-linked_in book.order_pool i level.tail j,
      )

  remove_own :
      {q : Queues} {free : List ℕ} (xs ys : List ℕ)
      → Stored book q free
      → q o.side o.price ≡ xs ++ i ∷ ys
      → Stored (remove_order book i) (set_queue q o.side o.price (xs ++ ys)) free
        × IsLoose book.max_orders (set_queue q o.side o.price (xs ++ ys)) free i
  unfolding remove_order
  remove_own xs ys st split =
      let (same_pool, same_levels, same) =
        written book (linked_out book.order_pool o.prev o.next) o.side o.price _ in
      let kept = (linked_out-fields book.order_pool o.prev o.next i).2 in
      let (dequeued, loose) = dequeue-IsStored st o.side o.price xs i ys split in
      (Stored-as book (remove_order book i) same_pool same_levels same (rw kept dequeued), loose)

  pub remove_order-Stored :
      {q : Queues} {free : List ℕ} (s : Side) (p : ℕ) (xs ys : List ℕ)
      → Stored book q free
      → q s p ≡ xs ++ i ∷ ys
      → Stored (remove_order book i) (set_queue q s p (xs ++ ys)) free
        × IsLoose book.max_orders (set_queue q s p (xs ++ ys)) free i
  remove_order-Stored {q} {free} s p xs ys st split =
      let inside = In-append_right i xs (i ∷ ys) (inl refl) in
      let side_i = (st.queue s p).side_of i (rw split inside) in
      let price_i = (st.queue s p).price_of i (rw split inside) in
      subst₂
        (λ s p.
          Stored (remove_order book i) (set_queue q s p (xs ++ ys)) free
          × IsLoose book.max_orders (set_queue q s p (xs ++ ys)) free i)
        side_i price_i
        (remove_own xs ys st
          (subst₂ (λ s p. q s p ≡ xs ++ i ∷ ys) (sym side_i) (sym price_i) split))

  pub remove_order-same :
      SameRest book (remove_order book i)
      × ((j : ℕ) → item ((remove_order book i).order_pool j) ≡ item (book.order_pool j))
  unfolding remove_order
  remove_order-same =
      let (same_pool, same_levels, same) =
        written book (linked_out book.order_pool o.prev o.next) o.side o.price _ in
      (
        same,
        λ j.
            ap (λ (pool : ℕ → Order). item (pool j)) same_pool
            ∙ item-linked_out book.order_pool o.prev o.next j,
      )
