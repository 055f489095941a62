-- ===== src/Book/Add.antt =====
-- `LimitOrderBook::add`.
use mathlib.Core.Path.{subst}
use hft_learning.Prelude.{
  ℕ, ◌+◌, ◌^◌, ◌<◌, ◌≤◌, ◌≡◌, ◌≢◌, ◌⊎◌, inl, inr, refl, sym, ap, ◌∙◌, true, false, Option, none,
  some, List, [], ◌∷◌, ◌++◌, arith, leb, leb-eq-false, leb-eq-true, Bool-cases,
}
use hft_learning.Probe.Table.{live}
use hft_learning.Probe.Vacancy.{vacancies, vacancies_pos, vacancies-update}
use hft_learning.Book.Types.{Side, Order, LimitOrderBook}
use hft_learning.Book.Pool.{allocate_order}
use hft_learning.Book.Index.{map_insert, map_find}
use hft_learning.Book.Levels.{insert_order}
use hft_learning.Book.Ops.{Reply, fill_order, add}
use hft_learning.Book.Lookup.{
  cells, entered, map_find-Holds, map_find-IsAbsent, map_insert-IsAbsent, cells-entered,
}
use hft_learning.Book.Indexed.{IsIndexed, IsUnused, IsIndexed-same, IsIndexed-put, unused-IsAbsent}
use hft_learning.Book.Chain.{head_of}
use hft_learning.Book.Store.{Queues, set_queue}
use hft_learning.Book.Links.{item}
use hft_learning.Book.Stored.{IsLoose, loose-write}
use hft_learning.Book.Stored.Moves.{take-IsStored}
use hft_learning.Book.Whole.{
  Queued, Stored, IsBook, level_at-same, insert_order-Stored, insert_order-same,
}
use hft_learning.Book.Members.{Queued-behind-new, Queued-behind-old, Queued-behind-cases}

-- vacant slots of the index
abbrev pub room : LimitOrderBook → ℕ
room book = vacancies (cells book) book.map_capacity

pub room-same :
    (book book' : LimitOrderBook)
    → book'.order_map ≡ book.order_map
    → book'.map_capacity ≡ book.map_capacity
    → room book ≤ room book' + 0
room-same book book' same_map same_capacity = rw (same_map, same_capacity) (omega arith)

-- The run returns true and leaves a well-formed book with these levels and free orders, in which
-- order `i` says `said` and the others say what they said.
pub record Succeeds (run : Option Reply) (book : LimitOrderBook) (q : Queues) (free : List ℕ)
    (i : ℕ) (said : ℕ × ℕ × Side × ℕ) (cost : ℕ) : Type 0 where
  pub after : LimitOrderBook
  pub returns : run ≡ some (true, after)
  pub is_book : IsBook after q free
  pub there : item (after.order_pool i) ≡ said
  pub others : (j : ℕ) → j ≢ i → item (after.order_pool j) ≡ item (book.order_pool j)
  pub same_orders : after.max_orders ≡ book.max_orders
  pub same_price : after.max_price ≡ book.max_price
  pub same_capacity : after.map_capacity ≡ book.map_capacity
  pub space : room book ≤ room after + cost

abbrev taken : LimitOrderBook → ℕ → LimitOrderBook
taken book i = record book { free_list_head = (book.order_pool i).next }

pub not_found :
    {book : LimitOrderBook} {q : Queues} {free : List ℕ}
    → IsBook book q free
    → (id : ℕ) → IsUnused book (Queued q) id
    → 0 < room book
    → map_find book id ≡ some none
not_found {book} b id unused more =
    let (vacant_slot, lt, e) = vacancies_pos (cells book) book.map_capacity more in
    map_find-IsAbsent book b.indexed.sized id vacant_slot (unused-IsAbsent b.indexed id unused) lt e

allocate_order-some :
    (book : LimitOrderBook) (i : ℕ)
    → book.free_list_head ≡ some i
    → allocate_order book ≡ (some i, taken book i)
unfolding allocate_order
allocate_order-some book i e = rw e refl

-- The fields are written while the order stands in no list.
fill_order-Stored :
    (book : LimitOrderBook) {q : Queues} {free : List ℕ} (i id : ℕ) (side : Side)
    (price quantity : ℕ)
    → Stored book q free
    → IsLoose book.max_orders q free i
    → Stored (fill_order book i id side price quantity) q free
fill_order-Stored book i id side price quantity st loose =
    rw (level_at-same book (fill_order book i id side price quantity) refl refl) (
      loose-write st i
        (record (book.order_pool i) { id = id; side = side; price = price; quantity = quantity })
        loose)

-- Linking an order that stands in no list, and entering it in the index.
module _ {book : LimitOrderBook} {q : Queues} {free : List ℕ} (id i : ℕ) (side : Side)
    (price quantity : ℕ) (said : item (book.order_pool i) ≡ (id, quantity, side, price))
    (stored : Stored book q free) (loose : IsLoose book.max_orders q free i)
    (indexed : IsIndexed book (Queued q)) (unused : IsUnused book (Queued q) id)
    (small : quantity < 2 ^ 64) (in_price : price < book.max_price) (more : 0 < room book) where
  abbrev linked : LimitOrderBook
  linked = insert_order book i

  linked-Stored : Stored linked (set_queue q side price (q side price ++ i ∷ [])) free
  linked-Stored =
      insert_order-Stored book i side price stored loose (λ k. (said k).2) (λ k. (said k).3)
        (rw (ap (λ (n : ℕ × ℕ × Side × ℕ). n.1) said) small) in_price

  same_id : (j : ℕ) → (linked.order_pool j).id ≡ (book.order_pool j).id
  same_id j = λ k. ((insert_order-same book i).1 j k).0

  linked-IsIndexed : IsIndexed linked (Queued q)
  linked-IsIndexed =
      let same = (insert_order-same book i).0 in
      IsIndexed-same same.order_map same.map_capacity (λ j h. same_id j) (λ j h. h) (λ j h. h)
        indexed

  linked-IsUnused : IsUnused linked (Queued q) id
  linked-IsUnused j h e = unused j h (sym (same_id j) ∙ e)

  room-linked : room linked ≡ room book
  room-linked =
      let same = (insert_order-same book i).0 in rw (same.order_map, same.map_capacity) refl

  -- The index takes the new order in, and uses at most one vacant slot.
  pub enter :
      (after : LimitOrderBook) × (map_insert linked id i ≡ some after)
      × IsBook after (set_queue q side price (q side price ++ i ∷ [])) free
      × ((j : ℕ) → item (after.order_pool j) ≡ item (book.order_pool j))
      × (after.max_orders ≡ book.max_orders)
      × (after.max_price ≡ book.max_price)
      × (after.map_capacity ≡ book.map_capacity)
      × (room book ≤ room after + 1)
  enter =
      let x = linked-IsIndexed in
      let (vacant_slot, lt, e) =
        vacancies_pos (cells linked) linked.map_capacity (rw room-linked more) in
      let (slot, run, slot_in, open_slot, open_path) =
        map_insert-IsAbsent linked x.sized id i vacant_slot (unused-IsAbsent x id linked-IsUnused)
          lt e in
      (
        entered linked id i slot,
        run,
        record {
          stored = rw (level_at-same linked (entered linked id i slot) refl refl) linked-Stored;
          indexed =
              IsIndexed-put x id i slot (same_id i ∙ (λ k. (said k).0)) slot_in open_slot open_path
                linked-IsUnused (Queued-behind-new q side price i)
                (Queued-behind-old q side price i) (Queued-behind-cases q side price i);
        },
        (insert_order-same book i).1,
        (insert_order-same book i).0.max_orders,
        (insert_order-same book i).0.max_price,
        (insert_order-same book i).0.map_capacity,
        rw (sym room-linked, cells-entered linked id i slot)
            (vacancies-update (cells linked) slot (live id) linked.map_capacity),
      )

module _ {book : LimitOrderBook} {q : Queues} {free : List ℕ} {i : ℕ} (b : IsBook book q (i ∷ free))
    (id : ℕ) (side : Side) (price quantity : ℕ) (unused : IsUnused book (Queued q) id)
    (more : 0 < room book) where
  abbrev filled : LimitOrderBook
  filled = fill_order (taken book i) i id side price quantity

  item-filled : item (filled.order_pool i) ≡ (id, quantity, side, price)
  item-filled = ground arith

  filled_other : (j : ℕ) → j ≢ i → filled.order_pool j ≡ book.order_pool j
  filled_other j ne = ground arith

  module _ (small : quantity < 2 ^ 64) (in_price : price < book.max_price) where
    -- On a well-formed book with a free order and a vacant slot in its index, `add` of an order
    -- whose id is not in the book, whose price is in range and whose quantity fits 64 bits returns
    -- true. The order stands at the end of its level with the fields that were given, every other
    -- level and every other order is as before, the first free order is taken, the book is well
    -- formed again, and its index has lost at most one vacant slot.
    pub add-Succeeds :
        Succeeds
          (add book id side price quantity)
          book
          (set_queue q side price (q side price ++ i ∷ []))
          free
          i
          (id, quantity, side, price)
          1
    unfolding add
    add-Succeeds =
        let (st, loose) = take-IsStored i free b.stored in
        let in_list : ¬ Queued q i = λ (t, r, h). loose.unqueued t r h in
        let taken_stored : Stored (taken book i) q free =
          rw (level_at-same book (taken book i) refl refl) st in
        let keep : (j : ℕ) → Queued q j → (filled.order_pool j).id ≡ (book.order_pool j).id =
          λ j h. ap (λ (o : Order). o.id) (filled_other j (λ e. in_list (subst (Queued q) e h))) in
        let (after, run, whole, items, same_orders, same_price, same_capacity, space) =
          enter {book = filled} id i side price quantity item-filled
            (fill_order-Stored (taken book i) i id side price quantity taken_stored loose) loose
            (IsIndexed-same refl refl keep (λ j h. h) (λ j h. h) b.indexed)
            (λ j h e. unused j h (sym (keep j h) ∙ e)) small in_price more in
        record {
          after = after;
          returns =
              rw
                (
                  leb-eq-false book.max_price price in_price,
                  not_found b id unused more,
                  allocate_order-some book i b.stored.free_list.free_head,
                  run,
                )
                refl;
          is_book = whole;
          there = items i ∙ item-filled;
          others = λ j ne. items j ∙ ap item (filled_other j ne);
          same_orders = same_orders;
          same_price = same_price;
          same_capacity = same_capacity;
          space = space;
        }

-- A lookup of an order's id points to the order.
pub found :
    {book : LimitOrderBook} {q : Queues} {free : List ℕ} (i : ℕ)
    → IsBook book q free
    → Queued q i
    → map_find book (book.order_pool i).id ≡ some (some i)
found {book} i b h =
    let (slot, held, target) = b.indexed.held i h in
    map_find-Holds book b.indexed.sized (book.order_pool i).id slot i b.indexed.table held target

allocate_order-none :
    (book : LimitOrderBook) → book.free_list_head ≡ none → allocate_order book ≡ (none, book)
unfolding allocate_order
allocate_order-none book e = rw e refl

-- On a well-formed book `add` returns false and leaves the book alone where the price is out of
-- range, where an order of the book has the id, and where the id is new but no order is free, in the
-- last case while a slot of the index is vacant.
pub add_refused :
    {book : LimitOrderBook} {q : Queues} {free : List ℕ} (id : ℕ) (side : Side) (price quantity : ℕ)
    → IsBook book q free
    → (book.max_price ≤ price)
      ⊎ (((i : ℕ) × Queued q i × ((book.order_pool i).id ≡ id))
          ⊎ ((free ≡ []) × IsUnused book (Queued q) id × (0 < room book)))
    → add book id side price quantity ≡ some (false, book)
unfolding add
add_refused id side price quantity b (inl out) = rw (leb-eq-true _ price out) refl
add_refused {book} id side price quantity b (inr (inl (i, h, e))) =
    elim (Bool-cases (leb book.max_price price)) [
      | inl out ↦ rw out refl
      | inr in_price ↦ rw (in_price, sym e, found i b h) refl
    ]
add_refused {book} id side price quantity b (inr (inr (no_free, unused, more))) =
    elim (Bool-cases (leb book.max_price price)) [
      | inl out ↦ rw out refl
      | inr in_price ↦
          rw
            (
              in_price,
              not_found b id unused more,
              allocate_order-none book (b.stored.free_list.free_head ∙ ap head_of no_free),
            )
            refl
    ]
