-- ===== src/Book/Answers.antt =====
-- What a well-formed order book answers: the volume of a level, and the order with an id.
use hft_learning.Prelude.{
  ℕ, ◌%◌, ◌^◌, ◌<◌, ◌≡◌, inl, inr, refl, ◌∙◌, none, some, List, [], ◌∷◌, arith, leb, leb→le,
  Bool-cases,
}
use hft_learning.Probe.{probe_never}
use hft_learning.Probe.Table.{stops_find, stops_find-used, home-lt}
use hft_learning.Probe.Vacancy.{vacancies_zero}
use hft_learning.Book.Types.{Side, Order, LimitOrderBook}
use hft_learning.Book.Index.{map_find_from}
use hft_learning.Book.Ops.{get_order, get_volume_at_price}
use hft_learning.Book.Lookup.{cells, find-probe}
use hft_learning.Book.Indexed.{IsUnused, unused-IsAbsent}
use hft_learning.Book.Chain.{In}
use hft_learning.Book.Store.{volume}
use hft_learning.Book.Whole.{Queued, IsBook}
use hft_learning.Book.Add.{room, found, not_found}

-- A list with no member has no volume.
volume-none : (pool : ℕ → Order) (is : List ℕ) → ((i : ℕ) → ¬ In i is) → volume pool is ≡ 0
volume-none pool [] none_in = refl
volume-none pool (i ∷ is) none_in = absurd (none_in i (inl refl))

module _ {book : LimitOrderBook} {q : Side → ℕ → List ℕ} {free : List ℕ}
    (b : IsBook book q free) where
  -- On a well-formed book `get_volume_at_price` is the sum of the quantities of the orders at that
  -- side and price, modulo 2^64, for every price, in range or not.
  pub get_volume_at_price-volume :
      (side : Side) (price : ℕ)
      → get_volume_at_price book side price ≡ volume book.order_pool (q side price) % 2 ^ 64
  unfolding get_volume_at_price
  get_volume_at_price-volume side price = elim (Bool-cases (leb book.max_price price)) [
    | inl out ↦
        let beyond = leb→le book.max_price price out in
        rw
          (
            out,
            volume-none book.order_pool (q side price)
                (λ i h. absurd (omega (arith, b.stored.priced side price i h))),
          )
          refl
    | inr in_price ↦ rw in_price (b.stored.queue side price).total
  ]

  -- On a well-formed book `get_order` returns for the id of any order that stands in it, and gives
  -- that order.
  pub get_order-found :
      (i : ℕ) → Queued q i → get_order book (book.order_pool i).id ≡ some (some (book.order_pool i))
  unfolding get_order
  get_order-found i h = rw (found i b h) refl

  -- On a well-formed book whose index has a vacant slot, `get_order` of an id that no order of the
  -- book has returns `nullptr`.
  pub get_order-unused :
      (id : ℕ) → IsUnused book (Queued q) id → 0 < room book → get_order book id ≡ some none
  unfolding get_order
  get_order-unused id unused more = rw (not_found b id unused more) refl

  -- On a well-formed book whose index has no vacant slot, the loop of `map_find` for an id that no
  -- order of the book has runs for ever: no number of rounds ends it. Erased entries do not count as
  -- vacant.
  pub find_never :
      (id fuel : ℕ)
      → IsUnused book (Queued q) id
      → room book ≡ 0
      → map_find_from book id fuel (id % book.map_capacity) ≡ none
  find_never id fuel unused full =
      find-probe book id fuel (id % book.map_capacity)
      ∙ rw
          (probe_never b.indexed.sized (λ j. stops_find id (cells book j))
            (λ slot lt.
              stops_find-used id (cells book slot)
                (vacancies_zero (cells book) book.map_capacity full slot lt)
                (unused-IsAbsent b.indexed id unused slot lt))
            fuel (id % book.map_capacity) (home-lt b.indexed.sized (cells book) id))
          refl
