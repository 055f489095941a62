-- ===== src/Book/Links.antt =====
-- What `insert_order` and `remove_order` write into the pool, and into which level.
use hft_learning.Prelude.{ℕ, ◌≡◌, ◌≢◌, refl, ◌&&◌, Option, none, some, arith, ◌==◌, if◌then◌else◌}
use hft_learning.Book.Types.{Side, buy, sell, Order, PriceLevel, LimitOrderBook}
use hft_learning.Book.Levels.{
  level_at, set_level, set_next, set_prev, link_tail, unlink_prev, unlink_next,
}
use hft_learning.Book.Store.{same_side}

-- `set_level` writes one level, and nothing else.
pub level_at-set_level :
    (book : LimitOrderBook) (s t : Side) (p r : ℕ) (level : PriceLevel)
    → level_at (set_level book s p level) t r
      ≡ (if same_side t s && r == p then level else level_at book t r)
level_at-set_level book buy buy p r level = refl
level_at-set_level book buy sell p r level = refl
level_at-set_level book sell buy p r level = refl
level_at-set_level book sell sell p r level = refl

-- The rest of the book under `set_level`.
pub record SameRest (book book' : LimitOrderBook) : Type 0 where
  pub max_orders : book'.max_orders ≡ book.max_orders
  pub max_price : book'.max_price ≡ book.max_price
  pub free_list_head : book'.free_list_head ≡ book.free_list_head
  pub order_map : book'.order_map ≡ book.order_map
  pub map_capacity : book'.map_capacity ≡ book.map_capacity

pub set_level-SameRest :
    (book : LimitOrderBook) (s : Side) (p : ℕ) (level : PriceLevel)
    → SameRest book (set_level book s p level)
      × ((set_level book s p level).order_pool ≡ book.order_pool)
set_level-SameRest book buy p level = (
  record {
    max_orders = refl;
    max_price = refl;
    free_list_head = refl;
    order_map = refl;
    map_capacity = refl;
  },
  refl,
)
set_level-SameRest book sell p level = (
  record {
    max_orders = refl;
    max_price = refl;
    free_list_head = refl;
    order_map = refl;
    map_capacity = refl;
  },
  refl,
)

-- The pool that `insert_order` leaves.
abbrev pub linked_in : (ℕ → Order) → ℕ → Option ℕ → ℕ → Order
linked_in pool i tail = link_tail (set_next (set_prev pool i tail) i none) i tail

-- The pool that `remove_order` leaves.
abbrev pub linked_out : (ℕ → Order) → Option ℕ → Option ℕ → ℕ → Order
linked_out pool prev next = unlink_next (unlink_prev pool prev next) next prev

module _ (pool : ℕ → Order) (i : ℕ) where
  pub linked_in_new :
      (tail : Option ℕ)
      → tail ≢ some i
      → linked_in pool i tail i ≡ record (pool i) { prev = tail; next = none }
  unfolding link_tail
  linked_in_new none ne = ground arith
  linked_in_new (some t) ne = ground arith

  pub linked_in_tail :
      (t : ℕ) → t ≢ i → linked_in pool i (some t) t ≡ record (pool t) { next = some i }
  unfolding link_tail
  linked_in_tail t ne = ground arith

  pub linked_in_other :
      (tail : Option ℕ) (j : ℕ) → j ≢ i → tail ≢ some j → linked_in pool i tail j ≡ pool j
  unfolding link_tail
  linked_in_other none j ne out = ground arith
  linked_in_other (some t) j ne out = ground arith

module _ (pool : ℕ → Order) (prev next : Option ℕ) where
  pub linked_out_other :
      (j : ℕ) → prev ≢ some j → next ≢ some j → linked_out pool prev next j ≡ pool j
  unfolding unlink_prev unlink_next
  linked_out_other j p n = ground arith

  pub linked_out_prev : (j : ℕ) → next ≢ some j → (linked_out pool prev next j).prev ≡ (pool j).prev
  unfolding unlink_prev unlink_next
  linked_out_prev j n = ground arith

  pub linked_out_next : (j : ℕ) → prev ≢ some j → (linked_out pool prev next j).next ≡ (pool j).next
  unfolding unlink_prev unlink_next
  linked_out_next j p = ground arith

  pub linked_out-next_prev : (j : ℕ) → next ≡ some j → (linked_out pool prev next j).prev ≡ prev
  unfolding unlink_prev unlink_next
  linked_out-next_prev j n = ground arith

  pub linked_out-prev_next : (j : ℕ) → prev ≡ some j → (linked_out pool prev next j).next ≡ next
  unfolding unlink_prev unlink_next
  linked_out-prev_next j p = ground arith

  -- What an order says of itself stays.
  pub linked_out-fields :
      (j : ℕ)
      → ((linked_out pool prev next j).id ≡ (pool j).id)
        × ((linked_out pool prev next j).price ≡ (pool j).price)
        × ((linked_out pool prev next j).quantity ≡ (pool j).quantity)
        × ((linked_out pool prev next j).side ≡ (pool j).side)
  unfolding unlink_prev unlink_next
  linked_out-fields j = ground arith

-- What an order says of itself; the rest of it is links.
abbrev pub item : Order → ℕ × ℕ × Side × ℕ
item o = (o.id, o.quantity, o.side, o.price)

pub item-linked_in :
    (pool : ℕ → Order) (i : ℕ) (tail : Option ℕ) (j : ℕ)
    → item (linked_in pool i tail j) ≡ item (pool j)
unfolding link_tail
item-linked_in pool i none j = ground arith
item-linked_in pool i (some t) j = ground arith

pub item-linked_out :
    (pool : ℕ → Order) (prev next : Option ℕ) (j : ℕ)
    → item (linked_out pool prev next j) ≡ item (pool j)
item-linked_out pool prev next j =
    let (a, b, c, d) = linked_out-fields pool prev next j in λ k. (a k, c k, d k, b k)
