-- ===== src/Book/Start.antt =====
-- The constructor of the order book: the loop that threads the pool on the free list, and the book
-- that it leaves.
use mathlib.Core.Path.{subst}
use mathlib.Core.Option.{some-injective}
use hft_learning.Prelude.{
  ℕ, zero, suc, ◌+◌, ◌*◌, ◌%◌, ◌^◌, ◌<◌, ◌≡◌, inl, inr, refl, ap, ◌∙◌, true, Option, none, some,
  List, [], ◌∷◌, arith,
}
use hft_learning.Prelude.Arrays.{update, update_self, update_ne}
use hft_learning.Probe.Vacancy.{vacancies-all}
use hft_learning.Book.Types.{
  Side, buy, sell, Order, LimitOrderBook, zeroed_level, zeroed_order, zeroed_entry,
}
use hft_learning.Book.Pool.{link_free, new}
use hft_learning.Book.Levels.{level_at}
use hft_learning.Book.Lookup.{cells}
use hft_learning.Book.Splice.{FreeLinked-same}
use hft_learning.Book.Store.{Queues, IsFreeList}
use hft_learning.Book.Whole.{IsBook}
use hft_learning.Book.Add.{room}

-- the first `n` indices, the last one first
abbrev pub stack : ℕ → List ℕ
stack zero = []
stack (suc n) = n ∷ stack n

-- One round of the loop.
free_one :
    (pool : ℕ → Order) (head : Option ℕ) (i : ℕ)
    → IsFreeList pool i head (stack i)
    → IsFreeList (update pool i (record (pool i) { next = head })) (suc i) (some i) (stack (suc i))
free_one pool head i f = record {
  free_linked = (
    ap (λ (o : Order). o.next) (update_self pool i (record (pool i) { next = head })) ∙ f.free_head,
    FreeLinked-same pool (update pool i (record (pool i) { next = head })) (stack i)
        (λ j h.
          ap (λ (o : Order). o.next)
            (update_ne pool i (record (pool i) { next = head }) j
              (λ e. absurd (omega (arith, f.free_pooled j h)))))
        f.free_linked,
  );
  free_head = refl;
  free_distinct = (λ h. absurd (omega (arith, f.free_pooled i h)), f.free_distinct);
  free_pooled = λ j h. elim h [ inl e ↦ omega arith | inr k ↦ omega (arith, f.free_pooled j k) ];
}

link_free-IsFreeList :
    (count i m : ℕ) (pool : ℕ → Order) (head : Option ℕ)
    → i + count ≡ m
    → IsFreeList pool i head (stack i)
    → let (pool', head') = link_free count i (pool, head) in IsFreeList pool' m head' (stack m)
unfolding link_free
link_free-IsFreeList zero i m pool head e f =
    subst (λ n. IsFreeList pool n head (stack n)) (omega (arith, e)) f
link_free-IsFreeList (suc count) i m pool head e f =
    link_free-IsFreeList count (i + 1) m _ (some i) (omega (arith, e)) (
      subst (λ n. IsFreeList (update pool i (record (pool i) { next = head })) n (some i) (stack n))
        (omega arith) (free_one pool head i f))

abbrev pub empty_book : ℕ → ℕ → LimitOrderBook
empty_book max_orders max_price =
    let (pool, free_list_head) = link_free max_orders 0 ((λ _. zeroed_order), none) in
    record {
      max_orders = max_orders;
      max_price = max_price;
      bids = λ _. zeroed_level;
      asks = λ _. zeroed_level;
      order_pool = pool;
      free_list_head = free_list_head;
      order_map = λ _. zeroed_entry;
      map_capacity = max_orders * 2 % 2 ^ 64;
    }

abbrev pub no_queues : Queues
no_queues s p = []

empty_level :
    (max_orders max_price : ℕ) (s : Side) (p : ℕ)
    → level_at (empty_book max_orders max_price) s p ≡ zeroed_level
empty_level max_orders max_price buy p = refl
empty_level max_orders max_price sell p = refl

pub empty_book-IsBook :
    (max_orders max_price : ℕ)
    → 0 < max_orders
    → max_orders * 2 < 2 ^ 64
    → IsBook (empty_book max_orders max_price) no_queues (stack max_orders)
      × (room (empty_book max_orders max_price) ≡ max_orders * 2)
empty_book-IsBook max_orders max_price pos small = (
  record {
    stored = record {
      queue = λ s p. rw (empty_level max_orders max_price s p) (record {
        linked = tt;
        head = refl;
        tail = refl;
        total = refl;
        distinct = tt;
        side_of = λ i h. absurd h;
        price_of = λ i h. absurd h;
        pooled = λ i h. absurd h;
        fits = λ i h. absurd h;
      });
      priced = λ s p i h. absurd h;
      free_list =
          link_free-IsFreeList max_orders 0 max_orders (λ _. zeroed_order) none (omega arith)
            (record {
              free_linked = tt;
              free_head = refl;
              free_distinct = tt;
              free_pooled = λ i h. absurd h;
            });
      apart = λ i s p f h. h;
    };
    indexed = record {
      sized = omega arith;
      table = record { once = λ k i j hi hj. cc (hi.1); reachable = λ k i d h lt. cc (h.1) };
      held = λ i (s, p, h). absurd h;
      listed = λ slot pointer lt e. cc (e);
    };
  },
  vacancies-all (cells (empty_book max_orders max_price)) (max_orders * 2 % 2 ^ 64) (λ i lt. refl)
      ∙ omega arith,
)

-- The constructor, for a number of orders above 0 and below 2^63 and memory that could be mapped,
-- gives a well-formed book: no order stands in it, all orders of the pool are free, the last one
-- first, and its index has two vacant slots for each of them.
pub new-IsBook :
    (max_orders max_price : ℕ) {book : LimitOrderBook}
    → 0 < max_orders
    → max_orders * 2 < 2 ^ 64
    → new true max_orders max_price ≡ some book
    → IsBook book no_queues (stack max_orders)
      × (room book ≡ max_orders * 2)
      × (book.max_price ≡ max_price)
unfolding new
new-IsBook max_orders max_price {book} pos small e =
    subst
      (λ book.
        IsBook book no_queues (stack max_orders)
        × (room book ≡ max_orders * 2)
        × (book.max_price ≡ max_price))
      (some-injective (empty_book max_orders max_price) book e)
      (
        (empty_book-IsBook max_orders max_price pos small).0,
        (empty_book-IsBook max_orders max_price pos small).1,
        refl,
      )
