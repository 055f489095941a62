-- ===== src/Book/Total.antt =====
-- Every call on a well-formed book whose index has a vacant slot returns, and leaves a well-formed
-- book, whatever its arguments.
use hft_learning.Prelude.{
  ℕ, ◌+◌, ◌%◌, ◌^◌, ◌<◌, ◌≤◌, ◌≡◌, ◌⊎◌, inl, inr, refl, ◌∙◌, Bool, true, false, Option, none, some,
  List, [], ◌∷◌, arith,
}
use mathlib.Core.Path.{subst}
use native.Mathlib.Decide.{dec_lt, ℕ_discrete}
use hft_learning.Probe.{probe-some}
use hft_learning.Probe.Table.{stops_find, stops_find-cases, home-lt, vacant, find_path}
use hft_learning.Probe.Vacancy.{vacancies_pos}
use hft_learning.Book.Types.{Side, LimitOrderBook, HashEntry}
use hft_learning.Book.Index.{map_find, pointer_of}
use hft_learning.Book.Ops.{Reply, add, cancel, modify, get_order}
use hft_learning.Book.Lookup.{cells, find_ends, find-probe, live-target, cell_of}
use hft_learning.Book.Indexed.{IsUnused}
use hft_learning.Book.Chain.{In-split}
use hft_learning.Book.Store.{Queues}
use hft_learning.Book.Whole.{Queued, IsBook}
use hft_learning.Book.Add.{room, Succeeds, found, add-Succeeds, add_refused}
use hft_learning.Book.Answers.{get_order-unused}
use hft_learning.Book.Cancel.{cancel-Succeeds, cancel_unknown}
use hft_learning.Book.Modify.{
  modify_larger-Succeeds, modify_smaller-Succeeds, modify_zero, modify_unknown,
}

pointer_of-vacant : (entry : HashEntry) → cell_of entry ≡ vacant → pointer_of entry.value ≡ none
pointer_of-vacant entry e = ground arith

module _ {book : LimitOrderBook} {q : Queues} {free : List ℕ} (b : IsBook book q free)
    (more : 0 < room book) where
  -- Whether an order of the book has the id.
  dec_id :
      (id : ℕ)
      → ((i : ℕ) × Queued q i × ((book.order_pool i).id ≡ id)) ⊎ IsUnused book (Queued q) id
  dec_id id =
      let (vacant_slot, lt, v) = vacancies_pos (cells book) book.map_capacity more in
      let (slot, walk) = find_ends book b.indexed.sized id vacant_slot lt v in
      let run : map_find book id ≡ some (pointer_of (book.order_map slot).value) =
        unfold map_find in
        (find-probe book id book.map_capacity (id % book.map_capacity) ∙ rw walk refl) in
      let (slot_in, open_path) = find_path b.indexed.sized (cells book) id walk in
      let (steps, _, at, stop) =
        probe-some b.indexed.sized (λ j. stops_find id (cells book j)) book.map_capacity
          (id % book.map_capacity) (home-lt b.indexed.sized (cells book) id) (omega arith) walk in
      let stopped : stops_find id (cells book slot) ≡ true = rw at stop.stops in
      elim (stops_find-cases id (cells book slot) stopped) [
        | inl empty ↦ inr (λ i h e. cc (
          subst (λ id. map_find book id ≡ some (some i)) e (found i b h),
          run,
          pointer_of-vacant (book.order_map slot) empty,
        ))
        | inr held ↦
            let entry : HashEntry = book.order_map slot in
            let (pointer, target, key) = live-target entry.key entry.value id held in
            let (m, own) = b.indexed.listed slot pointer slot_in target in
            inl (pointer, m, own ∙ key)
      ]

-- The run returns, and leaves a well-formed book whose index has lost `cost` vacant slots at most.
pub record Keeps (run : Option Reply) (book : LimitOrderBook) (cost : ℕ) : Type 0 where
  pub answer : Bool
  pub after : LimitOrderBook
  pub levels : Queues
  pub free_orders : List ℕ
  pub returns : run ≡ some (answer, after)
  pub is_book : IsBook after levels free_orders
  pub space : room book ≤ room after + cost

Keeps-Succeeds :
    {run : Option Reply} {book : LimitOrderBook} {q : Queues} {free : List ℕ} {i : ℕ}
    {said : ℕ × ℕ × Side × ℕ} {cost : ℕ}
    → Succeeds run book q free i said cost
    → Keeps run book cost
Keeps-Succeeds {q = q} {free = free} s = record {
  answer = true;
  after = s.after;
  levels = q;
  free_orders = free;
  returns = s.returns;
  is_book = s.is_book;
  space = s.space;
}

List-cases : (xs : List ℕ) → (xs ≡ []) ⊎ ((i : ℕ) × (rest : List ℕ) × (xs ≡ i ∷ rest))
List-cases [] = inl refl
List-cases (i ∷ rest) = inr (i, rest, refl)

Keeps-refused :
    {run : Option Reply} {book : LimitOrderBook} {q : Queues} {free : List ℕ} (cost : ℕ)
    → IsBook book q free
    → run ≡ some (false, book)
    → Keeps run book cost
Keeps-refused {book = book} {q = q} {free = free} cost b e = record {
  answer = false;
  after = book;
  levels = q;
  free_orders = free;
  returns = e;
  is_book = b;
  space = omega arith;
}

module _ {book : LimitOrderBook} {q : Queues} {free : List ℕ} (b : IsBook book q free)
    (more : 0 < room book) where
  pub add-Keeps :
      (id : ℕ) (side : Side) (price quantity : ℕ)
      → quantity < 2 ^ 64
      → Keeps (add book id side price quantity) book 1
  add-Keeps id side price quantity small = elim (dec_lt price book.max_price) [
    | no out ↦ Keeps-refused 1 b (add_refused id side price quantity b (inl (omega (arith, out))))
    | yes in_price ↦ elim (dec_id b more id) [
      | inl used ↦ Keeps-refused 1 b (add_refused id side price quantity b (inr (inl used)))
      | inr unused ↦ elim (List-cases free) [
        | inl full ↦
            Keeps-refused 1 b
              (add_refused id side price quantity b (inr (inr (full, unused, more))))
        | inr (i, rest, e) ↦ Keeps-Succeeds (
            add-Succeeds (subst (IsBook book q) e b) id side price quantity unused more small
              in_price)
      ]
    ]
  ]

  pub cancel-Keeps : (id : ℕ) → Keeps (cancel book id) book 0
  cancel-Keeps id = elim (dec_id b more id) [
    | inl (i, (s, p, h), e) ↦
        let (xs, ys, split) = In-split i (q s p) h in
        subst (λ id. Keeps (cancel book id) book 0) e
          (Keeps-Succeeds (cancel-Succeeds b s p xs i ys split))
    | inr unused ↦ Keeps-refused 0 b (cancel_unknown id b unused more)
  ]

  pub modify-Keeps : (id quantity : ℕ) → quantity < 2 ^ 64 → Keeps (modify book id quantity) book 0
  modify-Keeps id quantity small = elim (dec_id b more id) [
    | inl (i, (s, p, h), e) ↦
        let (xs, ys, split) = In-split i (q s p) h in
        subst (λ id. Keeps (modify book id quantity) book 0) e
          (elim (ℕ_discrete quantity 0) [
            | yes zero_quantity ↦
                rw (zero_quantity, modify_zero i b (s, p, h))
                  (Keeps-Succeeds (cancel-Succeeds b s p xs i ys split))
            | no other ↦ elim (dec_lt (book.order_pool i).quantity quantity) [
              | yes larger ↦
                  Keeps-Succeeds
                    (modify_larger-Succeeds b s p xs i ys split quantity (omega arith) larger small)
              | no smaller ↦ Keeps-Succeeds (
                  modify_smaller-Succeeds b s p xs i ys split quantity (omega arith)
                    (omega (arith, smaller)))
            ]
          ])
    | inr unused ↦ Keeps-refused 0 b (modify_unknown id quantity b unused more)
  ]

-- On a well-formed book whose index has a vacant slot, an id that no order of the book has is unknown
-- to every call: `get_order` returns `nullptr`, and `cancel` and `modify`, to any quantity, return
-- false and leave the book alone.
pub unknown_id :
    {book : LimitOrderBook} {q : Queues} {free : List ℕ} (id : ℕ)
    → IsBook book q free
    → 0 < room book
    → IsUnused book (Queued q) id
    → (get_order book id ≡ some none)
      × (cancel book id ≡ some (false, book))
      × ((quantity : ℕ) → modify book id quantity ≡ some (false, book))
unknown_id id b more unused = (
  get_order-unused b id unused more,
  cancel_unknown id b unused more,
  λ quantity. modify_unknown id quantity b unused more,
)
