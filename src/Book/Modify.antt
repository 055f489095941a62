-- ===== src/Book/Modify.antt =====
-- `LimitOrderBook::modify`.
use mathlib.Core.Path.{subst, subst₂}
use hft_learning.Prelude.{
  ℕ, ◌^◌, ◌<◌, ◌≤◌, ◌≡◌, inl, inr, refl, sym, ap, ◌∙◌, false, some, List, [], ◌∷◌, ◌++◌, arith,
  ==-eq-false, ltb-eq-true, ltb-eq-false,
}
use hft_learning.Prelude.Arrays.{update, update_ne}
use hft_learning.Book.Types.{Side, Order, LimitOrderBook}
use hft_learning.Book.Levels.{level_at, insert_order, remove_order}
use hft_learning.Book.Ops.{set_quantity, reduce, modify, cancel}
use hft_learning.Book.Indexed.{IsUnused, IsIndexed-same}
use hft_learning.Book.Chain.{In, In-append, In-append_left, In-append_right}
use hft_learning.Book.Store.{Queues, set_queue, IsQueue}
use hft_learning.Book.Links.{item}
use hft_learning.Book.Stored.{IsLoose, loose-write, replace, one_level}
use hft_learning.Book.Whole.{
  Queued, Stored, IsBook, Stored-as, level_at-same, remove_order-Stored, remove_order-same,
  insert_order-Stored, insert_order-same,
}
use hft_learning.Book.Members.{
  queued-cases, queued-there, set_queue_self, set_queue-twice, set_queue-same,
}
use hft_learning.Book.Resize.{IsQueue-resize}
use hft_learning.Book.Add.{room, room-same, Succeeds, found, not_found}
use hft_learning.Book.Quantity.{item-set_quantity, id-set_quantity, item-resized, reduced}

module _ {book : LimitOrderBook} {q : Queues} {free : List ℕ} (b : IsBook book q free) (s : Side)
    (p : ℕ) (xs : List ℕ) (i : ℕ) (ys : List ℕ) (split : q s p ≡ xs ++ i ∷ ys) (quantity : ℕ)
    (positive : 0 < quantity) where
  abbrev o : Order
  o = book.order_pool i

  inside : In i (q s p)
  inside = rw split (In-append_right i xs (i ∷ ys) (inl refl))

  side_i : o.side ≡ s
  side_i = (b.stored.queue s p).side_of i inside

  price_i : o.price ≡ p
  price_i = (b.stored.queue s p).price_of i inside

  module _ (larger : o.quantity < quantity) (small : quantity < 2 ^ 64) where
    abbrev moved : LimitOrderBook
    moved = set_quantity (remove_order book i) i quantity

    moved-Stored :
        Stored moved (set_queue q s p (xs ++ ys)) free
        × IsLoose moved.max_orders (set_queue q s p (xs ++ ys)) free i
    moved-Stored =
        let (st, loose) = remove_order-Stored book i s p xs ys b.stored split in
        let loose' : IsLoose moved.max_orders (set_queue q s p (xs ++ ys)) free i =
          rw (remove_order-same book i).0.max_orders loose in
        (
          rw (level_at-same (remove_order book i) moved refl refl) (
              loose-write st i (record ((remove_order book i).order_pool i) { quantity = quantity })
                loose'),
          loose',
        )

    item-moved : item (moved.order_pool i) ≡ (o.id, quantity, o.side, o.price)
    item-moved =
        item-resized (remove_order book i) i quantity
        ∙ (λ k. let said = (remove_order-same book i).1 i k in (said.0, quantity, said.2, said.3))

    placed-Stored : Stored (insert_order moved i) (set_queue q s p ((xs ++ ys) ++ i ∷ [])) free
    placed-Stored =
        let placed =
          insert_order-Stored moved i s p moved-Stored.0 moved-Stored.1
            ((λ k. (item-moved k).2) ∙ side_i) ((λ k. (item-moved k).3) ∙ price_i)
            (rw (ap (λ (n : ℕ × ℕ × Side × ℕ). n.1) item-moved) small)
            (rw (remove_order-same book i).0.max_price (b.stored.priced s p i inside)) in
        subst (λ q. Stored (insert_order moved i) q free)
          (set_queue-twice q s p (xs ++ ys) _
            ∙ ap (λ is. set_queue q s p (is ++ i ∷ [])) (set_queue_self q s p (xs ++ ys)))
          placed

    same_id : (j : ℕ) → ((insert_order moved i).order_pool j).id ≡ (book.order_pool j).id
    same_id j =
        (λ k. ((insert_order-same moved i).1 j k).0)
        ∙ id-set_quantity (remove_order book i) i quantity j
        ∙ (λ k. ((remove_order-same book i).1 j k).0)

    back : (j : ℕ) → Queued (set_queue q s p ((xs ++ ys) ++ i ∷ [])) j → Queued q j
    back j (t, r, h) = elim (queued-cases q s p _ t r j h) [
      | inl mine ↦ (
        s,
        p,
        rw split (elim (In-append j (xs ++ ys) (i ∷ []) mine) [
          | inl rest ↦ elim (In-append j xs ys rest) [
            | inl a ↦ In-append_left j xs (i ∷ ys) a
            | inr c ↦ In-append_right j xs (i ∷ ys) (inr c)
          ]
          | inr last ↦ elim last [
            | inl e ↦ rw e (In-append_right i xs (i ∷ ys) (inl refl))
            | inr none_left ↦ absurd none_left
          ]
        ]),
      )
      | inr (other, there) ↦ (t, r, there)
    ]

    forth : (j : ℕ) → Queued q j → Queued (set_queue q s p ((xs ++ ys) ++ i ∷ [])) j
    forth j (t, r, h) = (
      t,
      r,
      queued-there q s p _ t r j
          (λ ts rp.
            move (rw split at (subst (λ r. In j (q s r)) rp (subst (λ t. In j (q t r)) ts h))))
          h,
    )
      where
        move : In j (xs ++ i ∷ ys) → In j ((xs ++ ys) ++ i ∷ [])
        move k = elim (In-append j xs (i ∷ ys) k) [
          | inl a ↦ In-append_left j (xs ++ ys) (i ∷ []) (In-append_left j xs ys a)
          | inr c ↦ elim c [
            | inl e ↦ In-append_right j (xs ++ ys) (i ∷ []) (inl e)
            | inr d ↦ In-append_left j (xs ++ ys) (i ∷ []) (In-append_right j xs ys d)
          ]
        ]

    -- On a well-formed book `modify` of an order that stands in it to a larger quantity, which
    -- fits 64 bits, returns true. The order moves to the end of its level with its new quantity and
    -- is else the same, the others of the level keep their sequence, every other level, every other
    -- order and the free ones are as before, and the book is well formed again.
    pub modify_larger-Succeeds :
        Succeeds
          (modify book o.id quantity)
          book
          (set_queue q s p ((xs ++ ys) ++ i ∷ []))
          free
          i
          (o.id, quantity, o.side, o.price)
          0
    unfolding modify
    modify_larger-Succeeds =
        let out = (remove_order-same book i).0 in
        let in_again = (insert_order-same moved i).0 in
        record {
          after = insert_order moved i;
          returns =
              rw
                (
                  found i b (s, p, inside),
                  ==-eq-false quantity 0 (λ e. absurd (omega arith)),
                  ltb-eq-true o.quantity quantity larger,
                )
                refl;
          is_book = record {
            stored = placed-Stored;
            indexed =
                IsIndexed-same (in_again.order_map ∙ out.order_map)
                  (in_again.map_capacity ∙ out.map_capacity) (λ j h. same_id j) forth back
                  b.indexed;
          };
          there = (insert_order-same moved i).1 i ∙ item-moved;
          others = λ j ne.
              (insert_order-same moved i).1 j
              ∙ item-set_quantity (remove_order book i) i quantity j ne
              ∙ (remove_order-same book i).1 j;
          same_orders = in_again.max_orders ∙ out.max_orders;
          same_price = in_again.max_price ∙ out.max_price;
          same_capacity = in_again.map_capacity ∙ out.map_capacity;
          space =
              room-same book (insert_order moved i) (in_again.order_map ∙ out.order_map)
                (in_again.map_capacity ∙ out.map_capacity);
        }

  module _ (smaller : quantity ≤ o.quantity) where
    own_split : q o.side o.price ≡ xs ++ i ∷ ys
    own_split = subst₂ (λ s p. q s p ≡ xs ++ i ∷ ys) (sym side_i) (sym price_i) split

    abbrev resized_pool : ℕ → Order
    resized_pool = update book.order_pool i (record (book.order_pool i) { quantity = quantity })

    elsewhere : (j : ℕ) → ¬ In j (q o.side o.price) → resized_pool j ≡ book.order_pool j
    elsewhere j out =
        update_ne book.order_pool i (record (book.order_pool i) { quantity = quantity }) j
          (λ e. out (rw (e, own_split) (In-append_right i xs (i ∷ ys) (inl refl))))

    reduced-Stored : Stored (reduce book i quantity) q free
    reduced-Stored =
        let st = b.stored in
        let (same_pool, same_levels, same) = reduced book i quantity in
        let whole =
          subst
            (IsQueue book.order_pool book.max_orders o.side o.price (level_at book o.side o.price))
            own_split (st.queue o.side o.price) in
        subst (λ q. Stored (reduce book i quantity) q free)
          (ap (set_queue q o.side o.price) (sym own_split) ∙ set_queue-same q o.side o.price)
          (Stored-as book (reduce book i quantity) same_pool same_levels same (
            replace st resized_pool o.side o.price _ (xs ++ i ∷ ys)
              (IsQueue-resize xs i ys whole quantity smaller)
              (λ j h. st.priced o.side o.price j (rw own_split h))
              (λ j f h. st.apart j o.side o.price f (rw own_split h))
              (λ t r j other h. elsewhere j (one_level st o.side t o.price r j other h))
              (λ j f. elsewhere j (st.apart j o.side o.price f))))

    same_ids : (j : ℕ) → ((reduce book i quantity).order_pool j).id ≡ (book.order_pool j).id
    same_ids j =
        ap (λ (pool : ℕ → Order). (pool j).id) (reduced book i quantity).0
        ∙ id-set_quantity book i quantity j

    -- On a well-formed book `modify` of an order that stands in it to a quantity that is not larger,
    -- and not zero, returns true. The order has its new quantity, it and all others keep their
    -- places, the other orders are the same, and the book is well formed again, so that its level's
    -- volume is reduced by the difference.
    pub modify_smaller-Succeeds :
        Succeeds (modify book o.id quantity) book q free i (o.id, quantity, o.side, o.price) 0
    unfolding modify
    modify_smaller-Succeeds =
        let (same_pool, same_levels, same) = reduced book i quantity in
        record {
          after = reduce book i quantity;
          returns =
              rw
                (
                  found i b (s, p, inside),
                  ==-eq-false quantity 0 (λ e. absurd (omega arith)),
                  ltb-eq-false o.quantity quantity smaller,
                )
                refl;
          is_book = record {
            stored = reduced-Stored;
            indexed =
                IsIndexed-same same.order_map same.map_capacity (λ j h. same_ids j) (λ j h. h)
                  (λ j h. h) b.indexed;
          };
          there = ap (λ (pool : ℕ → Order). item (pool i)) same_pool ∙ item-resized book i quantity;
          others = λ j ne.
              ap (λ (pool : ℕ → Order). item (pool j)) same_pool
              ∙ item-set_quantity book i quantity j ne;
          same_orders = same.max_orders;
          same_price = same.max_price;
          same_capacity = same.map_capacity;
          space = room-same book (reduce book i quantity) same.order_map same.map_capacity;
        }

-- On a well-formed book `modify` of an order that stands in it to quantity zero is its `cancel`.
pub modify_zero :
    {book : LimitOrderBook} {q : Queues} {free : List ℕ} (i : ℕ)
    → IsBook book q free
    → Queued q i
    → modify book (book.order_pool i).id 0 ≡ cancel book (book.order_pool i).id
unfolding modify
modify_zero i b h = rw (found i b h) refl

-- On a well-formed book whose index has a vacant slot, `modify` of an id that no order of the book
-- has returns false and leaves the book alone.
pub modify_unknown :
    {book : LimitOrderBook} {q : Queues} {free : List ℕ} (id quantity : ℕ)
    → IsBook book q free
    → IsUnused book (Queued q) id
    → 0 < room book
    → modify book id quantity ≡ some (false, book)
unfolding modify
modify_unknown id quantity b unused more = rw (not_found b id unused more) refl
