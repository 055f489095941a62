-- ===== src/Book/Tests.antt =====
-- Concrete books and what the operations do to them.
use hft_learning.Prelude.{
  ℕ, ◌%◌, ◌<◌, ◌≡◌, ◌≢◌, inl, inr, refl, sym, ap, ◌∙◌, false, none, some, [], ◌∷◌, arith,
}
use hft_learning.Book.Types.{buy, sell, LimitOrderBook, tombstone}
use hft_learning.Book.Pool.{link_free, allocate_order, deallocate_order}
use hft_learning.Prelude.Cycle.{next_index}
use hft_learning.Prelude.Loops.{◌>>=◌}
use hft_learning.Book.Levels.{
  insert_order, remove_order, link_tail, head_behind, unlink_prev, unlink_next, end_without,
}
use hft_learning.Book.Index.{
  map_find, map_find_from, map_insert, map_insert_from, map_erase, map_erase_from,
}
use hft_learning.Book.Ops.{add, cancel, modify, get_order}
use hft_learning.Book.Indexed.{IsUnused}
use hft_learning.Book.Store.{Queues, set_queue}
use hft_learning.Book.Links.{item}
use hft_learning.Book.Whole.{Queued, IsBook, level_at-same}
use hft_learning.Probe.Vacancy.{vacancies}
use hft_learning.Book.Members.{queued-cases}
use hft_learning.Book.Add.{room, Succeeds, add-Succeeds, add_refused}
use hft_learning.Book.Cancel.{cancel-Succeeds}
use hft_learning.Book.Modify.{modify_larger-Succeeds, modify_smaller-Succeeds}
use hft_learning.Book.Total.{unknown_id}
use hft_learning.Book.Start.{empty_book, empty_book-IsBook, no_queues, stack}
use hft_learning.Book.Answers.{get_order-found, find_never}

-- two orders, prices below 10
abbrev empty : LimitOrderBook
empty = empty_book 2 10

empty-IsBook : IsBook empty no_queues (stack 2)
empty-IsBook = (empty_book-IsBook 2 10 (omega arith) (omega arith)).0

IsUnused-empty : (id : ℕ) → IsUnused empty (Queued no_queues) id
IsUnused-empty id i (s, p, h) e = h

empty-room : 0 < room empty
empty-room = omega (arith, (empty_book-IsBook 2 10 (omega arith) (omega arith)).1)

add-Succeeds_example :
    Succeeds
      (add empty 7 buy 5 100)
      empty
      (set_queue no_queues buy 5 (1 ∷ []))
      (0 ∷ [])
      1
      (7, 100, buy, 5)
      1
add-Succeeds_example =
    add-Succeeds empty-IsBook 7 buy 5 100 (IsUnused-empty 7) empty-room (omega arith) (omega arith)

-- the book with order 7
abbrev one_queue : Queues
one_queue = set_queue no_queues buy 5 (1 ∷ [])

first_add : Succeeds (add empty 7 buy 5 100) empty one_queue (0 ∷ []) 1 (7, 100, buy, 5) 1
first_add =
    add-Succeeds empty-IsBook 7 buy 5 100 (IsUnused-empty 7) empty-room (omega arith) (omega arith)

abbrev one : LimitOrderBook
one = first_add.after

one_order : (i : ℕ) → Queued one_queue i → i ≡ 1
one_order i (t, r, h) = elim (queued-cases no_queues buy 5 (1 ∷ []) t r i h) [
  | inl mine ↦ elim mine [ inl e ↦ e | inr none_left ↦ absurd none_left ]
  | inr (other, there) ↦ absurd there
]

one-room : 0 < room one
one-room = omega (arith, first_add.space, (empty_book-IsBook 2 10 (omega arith) (omega arith)).1)

IsUnused-one : (id : ℕ) → id ≢ 7 → IsUnused one (Queued one_queue) id
IsUnused-one id ne i h e =
    ne (sym e ∙ ap (λ k. (one.order_pool k).id) (one_order i h) ∙ (λ k. (first_add.there k).0))

-- the book with order 8 behind it
abbrev two_queue : Queues
two_queue = set_queue one_queue buy 5 (1 ∷ 0 ∷ [])

second_add : Succeeds (add one 8 buy 5 50) one two_queue [] 0 (8, 50, buy, 5) 1
second_add =
    add-Succeeds first_add.is_book 8 buy 5 50 (IsUnused-one 8 (omega arith)) one-room (omega arith)
      (rw first_add.same_price (omega arith))

abbrev two : LimitOrderBook
two = second_add.after

in_two : Queued two_queue 1
in_two = (buy, 5, inl refl)

id_two : (two.order_pool 1).id ≡ 7
id_two = (λ k. (second_add.others 1 (λ e. absurd (omega arith)) k).0) ∙ (λ k. (first_add.there k).0)

quantity_two : (two.order_pool 1).quantity ≡ 100
quantity_two =
    (λ k. (second_add.others 1 (λ e. absurd (omega arith)) k).1) ∙ (λ k. (first_add.there k).1)

cancel-Succeeds_example :
    Succeeds
      (cancel two (two.order_pool 1).id)
      two
      (set_queue two_queue buy 5 (0 ∷ []))
      (1 ∷ [])
      1
      (item (two.order_pool 1))
      0
cancel-Succeeds_example = cancel-Succeeds second_add.is_book buy 5 [] 1 (0 ∷ []) refl

modify_larger-Succeeds_example :
    Succeeds
      (modify two (two.order_pool 1).id 300)
      two
      (set_queue two_queue buy 5 (0 ∷ 1 ∷ []))
      []
      1
      ((two.order_pool 1).id, 300, (two.order_pool 1).side, (two.order_pool 1).price)
      0
modify_larger-Succeeds_example =
    modify_larger-Succeeds second_add.is_book buy 5 [] 1 (0 ∷ []) refl 300 (omega arith)
      (rw quantity_two (omega arith)) (omega arith)

modify_smaller-Succeeds_example :
    Succeeds
      (modify two (two.order_pool 1).id 40)
      two
      two_queue
      []
      1
      ((two.order_pool 1).id, 40, (two.order_pool 1).side, (two.order_pool 1).price)
      0
modify_smaller-Succeeds_example =
    modify_smaller-Succeeds second_add.is_book buy 5 [] 1 (0 ∷ []) refl 40 (omega arith)
      (rw quantity_two (omega arith))

add_refused_example : add two 7 sell 6 10 ≡ some (false, two)
add_refused_example = add_refused 7 sell 6 10 second_add.is_book (inr (inl (1, in_two, id_two)))

get_order-found_example : get_order two (two.order_pool 1).id ≡ some (some (two.order_pool 1))
get_order-found_example = get_order-found second_add.is_book 1 in_two

unknown_id_example :
    (get_order one 9 ≡ some none)
    × (cancel one 9 ≡ some (false, one))
    × ((quantity : ℕ) → modify one 9 quantity ≡ some (false, one))
unknown_id_example = unknown_id 9 first_add.is_book one-room (IsUnused-one 9 (omega arith))

-- A book with no order, both slots of whose index hold erased entries.
abbrev worn : LimitOrderBook
worn = record (empty_book 1 10) { order_map = λ _. record { key = 0; value = tombstone } }

worn-IsBook : IsBook worn no_queues (stack 1)
worn-IsBook = record {
  stored =
      rw (level_at-same (empty_book 1 10) worn refl refl)
        (empty_book-IsBook 1 10 (omega arith) (omega arith)).0.stored;
  indexed = record {
    sized = omega arith;
    table = record { once = λ k i j hi hj. cc (hi.1); reachable = λ k i d h lt. cc (h.1) };
    held = λ i (s, p, h). absurd h;
    listed = λ slot pointer lt e. cc (e);
  };
}

find_never_example : map_find_from worn 3 1000 (3 % worn.map_capacity) ≡ none
unfolding vacancies
find_never_example = find_never worn-IsBook 3 1000 (λ i (s, p, h) e. h) refl

-- Two orders that come and go wear a book for one order out: a lookup of a third id does not end.
worn_run :
    (do
      (added, book₁) ← add (empty_book 1 10) 0 buy 5 100
      (canceled, book₂) ← cancel book₁ 0
      (added₂, book₃) ← add book₂ 1 sell 6 100
      (canceled₂, book₄) ← cancel book₃ 1
      get_order book₄ 3)
    ≡ none
unfolding add cancel get_order map_find map_find_from map_insert map_insert_from map_erase
    map_erase_from link_free allocate_order deallocate_order insert_order remove_order link_tail
    head_behind unlink_prev unlink_next end_without next_index
worn_run = refl
