-- ===== src/Book/Cancel.antt =====
-- `LimitOrderBook::cancel`.
use hft_learning.Prelude.{
  ℕ, ◌<◌, ◌≡◌, inl, refl, sym, ap, ◌∙◌, false, Option, some, List, ◌∷◌, ◌++◌, arith,
}
use hft_learning.Prelude.Arrays.{update}
use hft_learning.Probe.Table.{dead, is_vacant}
use hft_learning.Probe.Vacancy.{vacancies-update_used}
use hft_learning.Book.Types.{Side, Order, LimitOrderBook}
use hft_learning.Book.Pool.{deallocate_order}
use hft_learning.Book.Index.{map_erase}
use hft_learning.Book.Levels.{remove_order}
use hft_learning.Book.Ops.{cancel}
use hft_learning.Book.Lookup.{cells, erased, map_erase-Holds, cells-erased}
use hft_learning.Book.Indexed.{IsIndexed, IsUnused, IsIndexed-same, IsIndexed-erase}
use hft_learning.Book.Chain.{In-append_right}
use hft_learning.Book.Store.{Queues, set_queue}
use hft_learning.Book.Links.{SameRest, item}
use hft_learning.Book.Stored.Moves.{give-IsStored}
use hft_learning.Book.Whole.{
  Queued, Stored, IsBook, level_at-same, remove_order-Stored, remove_order-same,
}
use hft_learning.Book.Members.{Queued-without-old, Queued-without-rest}
use hft_learning.Book.Add.{room, Succeeds, found, not_found}

item-next :
    (pool : ℕ → Order) (i : ℕ) (head : Option ℕ) (j : ℕ)
    → item (update pool i (record (pool i) { next = head }) j) ≡ item (pool j)
item-next pool i head j = ground arith

module _ {book : LimitOrderBook} {q : Queues} {free : List ℕ} (b : IsBook book q free) (s : Side)
    (p : ℕ) (xs : List ℕ) (i : ℕ) (ys : List ℕ) (split : q s p ≡ xs ++ i ∷ ys) where
  abbrev id : ℕ
  id = (book.order_pool i).id

  here : Queued q i
  here = (s, p, rw split (In-append_right i xs (i ∷ ys) (inl refl)))

  abbrev unlinked : LimitOrderBook
  unlinked = remove_order book i

  same : SameRest book unlinked
  same = (remove_order-same book i).0

  same_id : (j : ℕ) → (unlinked.order_pool j).id ≡ (book.order_pool j).id
  same_id j = λ k. ((remove_order-same book i).1 j k).0

  unlinked-IsIndexed : IsIndexed unlinked (Queued q)
  unlinked-IsIndexed =
      IsIndexed-same same.order_map same.map_capacity (λ j h. same_id j) (λ j h. h) (λ j h. h)
        b.indexed

  room-unlinked : room unlinked ≡ room book
  room-unlinked = rw (same.order_map, same.map_capacity) refl

  gone : ¬ Queued (set_queue q s p (xs ++ ys)) i
  gone (t, r, h) = (remove_order-Stored book i s p xs ys b.stored split).1.unqueued t r h

  -- The index gives the order's slot up.
  erase :
      (slot : ℕ) × (map_erase unlinked id ≡ some (erased unlinked slot))
      × IsIndexed (erased unlinked slot) (Queued (set_queue q s p (xs ++ ys)))
      × (room (erased unlinked slot) ≡ room book)
  erase =
      let (slot, held, target) = unlinked-IsIndexed.held i here in
      (
        slot,
        map_erase-Holds unlinked unlinked-IsIndexed.sized id slot i unlinked-IsIndexed.table
            (rw (sym (same_id i)) held) target,
        IsIndexed-erase unlinked-IsIndexed i slot here held
            (λ j h. (Queued-without-old q s p xs i ys split j h, λ e. gone (rw e at h)))
            (Queued-without-rest q s p xs i ys split),
        rw (cells-erased unlinked slot) (
            vacancies-update_used (cells unlinked) slot dead unlinked.map_capacity
              (ap is_vacant held.1) refl
            ∙ room-unlinked),
      )

  abbrev freed : ℕ → LimitOrderBook
  freed slot = deallocate_order (erased unlinked slot) i

  freed-Stored : (slot : ℕ) → Stored (freed slot) (set_queue q s p (xs ++ ys)) (i ∷ free)
  unfolding deallocate_order
  freed-Stored slot =
      let (st, loose) = remove_order-Stored book i s p xs ys b.stored split in
      rw (level_at-same unlinked (freed slot) refl refl)
        (give-IsStored i st (rw same.max_orders loose))

  item-freed : (slot j : ℕ) → item ((freed slot).order_pool j) ≡ item (book.order_pool j)
  unfolding deallocate_order
  item-freed slot j =
      item-next unlinked.order_pool i unlinked.free_list_head j ∙ (remove_order-same book i).1 j

  freed-IsIndexed :
      (slot : ℕ)
      → IsIndexed (erased unlinked slot) (Queued (set_queue q s p (xs ++ ys)))
      → IsIndexed (freed slot) (Queued (set_queue q s p (xs ++ ys)))
  unfolding deallocate_order
  freed-IsIndexed slot x =
      IsIndexed-same refl refl
        (λ j h k. (item-next unlinked.order_pool i unlinked.free_list_head j k).0) (λ j h. h)
        (λ j h. h) x

  -- On a well-formed book `cancel` of the id of an order that stands in it returns true. The order
  -- leaves its level, wherever it stood there, and the rest of the level keeps its sequence; every
  -- other level is as before, all orders say what they said, the order is the first free one, the
  -- book is well formed again, and its index has no fewer vacant slots.
  pub cancel-Succeeds :
      Succeeds
        (cancel book id)
        book
        (set_queue q s p (xs ++ ys))
        (i ∷ free)
        i
        (item (book.order_pool i))
        0
  unfolding cancel deallocate_order
  cancel-Succeeds =
      let (slot, run, x, space) = erase in
      record {
        after = freed slot;
        returns = rw (found i b here, run) refl;
        is_book = record { stored = freed-Stored slot; indexed = freed-IsIndexed slot x };
        there = item-freed slot i;
        others = λ j ne. item-freed slot j;
        same_orders = same.max_orders;
        same_price = same.max_price;
        same_capacity = same.map_capacity;
        space = omega (arith, space);
      }

-- On a well-formed book whose index has a vacant slot, `cancel` of an id that no order of the book
-- has returns false and leaves the book alone.
pub cancel_unknown :
    {book : LimitOrderBook} {q : Queues} {free : List ℕ} (id : ℕ)
    → IsBook book q free
    → IsUnused book (Queued q) id
    → 0 < room book
    → cancel book id ≡ some (false, book)
unfolding cancel
cancel_unknown {book} id b unused more = rw (not_found b id unused more) refl
