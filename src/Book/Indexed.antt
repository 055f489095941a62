-- ===== src/Book/Indexed.antt =====
-- What it means that the hash map of src/OrderBook.cpp is an index of the orders in the book: it
-- holds each of them under its id, and nothing else.
use native.Mathlib.Decide.{ℕ_discrete}
use hft_learning.Prelude.{ℕ, ◌%◌, ◌<◌, ◌≡◌, ◌≢◌, ◌⊎◌, inl, inr, sym, ap, ◌∙◌, arith}
use hft_learning.Prelude.Arrays.{update_self, update_ne}
use hft_learning.Prelude.Cycle.{IsCapacity, ahead, distance}
use hft_learning.Probe.Table.{Cell, vacant, live, Holds, IsAbsent, IsTable}
use hft_learning.Probe.Writes.{
  IsFree, put-IsTable, erase-IsTable, Holds-put_ne, Holds-erase, not-live_of_free,
}
use hft_learning.Book.Types.{tombstone, order, HashEntry, LimitOrderBook}
use hft_learning.Book.Lookup.{
  cell_at, cells, cells-entered, cells-erased, entered, erased, live-target,
}

pub record IsIndexed (book : LimitOrderBook) (member : ℕ → Type 0) : Type 0 where
  pub sized : IsCapacity book.map_capacity
  pub table : IsTable book.map_capacity (cells book)
  pub held :
      (i : ℕ)
      → member i
      → (slot : ℕ) × Holds book.map_capacity (cells book) (book.order_pool i).id slot
        × ((book.order_map slot).value ≡ order i)
  pub listed :
      (slot pointer : ℕ)
      → slot < book.map_capacity
      → (book.order_map slot).value ≡ order pointer
      → member pointer × ((book.order_pool pointer).id ≡ (book.order_map slot).key)

-- No order of the book has the id.
abbrev pub IsUnused : LimitOrderBook → (ℕ → Type 0) → ℕ → Type 0
IsUnused book member id = (i : ℕ) → member i → (book.order_pool i).id ≢ id

-- The index of a book whose lists change, but not the ids in them.
pub IsIndexed-same :
    {book book' : LimitOrderBook} {member member' : ℕ → Type 0}
    → book'.order_map ≡ book.order_map
    → book'.map_capacity ≡ book.map_capacity
    → ((i : ℕ) → member i → (book'.order_pool i).id ≡ (book.order_pool i).id)
    → ((i : ℕ) → member i → member' i)
    → ((i : ℕ) → member' i → member i)
    → IsIndexed book member
    → IsIndexed book' member'
IsIndexed-same {book} {book'} same_map same_capacity same_id wider narrower x = record {
  sized = rw same_capacity x.sized;
  table = rw (same_capacity, same_map) x.table;
  held = λ i h. rw (same_capacity, same_map, same_id i (narrower i h)) (x.held i (narrower i h));
  listed = λ slot pointer lt e.
      let (m, key) = x.listed slot pointer (rw same_capacity at lt) (rw same_map at e) in
      (wider pointer m, same_id pointer m ∙ rw same_map key);
}

order-injective : {i j : ℕ} → order i ≡ order j → i ≡ j
order-injective e = ground arith

module _ {book : LimitOrderBook} {member : ℕ → Type 0} (x : IsIndexed book member) where
  pub unused-IsAbsent :
      (id : ℕ) → IsUnused book member id → IsAbsent book.map_capacity (cells book) id
  unused-IsAbsent id unused slot lt e =
      let entry : HashEntry = book.order_map slot in
      let (pointer, target, key) = live-target entry.key entry.value id e in
      let (m, own) = x.listed slot pointer lt target in unused pointer m (own ∙ key)

  -- Two orders of the book have different ids.
  pub one_order :
      (i j : ℕ) → member i → member j → (book.order_pool i).id ≡ (book.order_pool j).id → i ≡ j
  one_order i j mi mj e =
      let (a, ha, va) = x.held i mi in
      let (b, hb, vb) = x.held j mj in
      let same : a ≡ b = x.table.once (book.order_pool j).id a b (rw e at ha) hb in
      order-injective (sym va ∙ ap (λ k. (book.order_map k).value) same ∙ vb)

  module _ (id i slot : ℕ) (own : (book.order_pool i).id ≡ id) (slot_in : slot < book.map_capacity)
      (free : IsFree book.map_capacity (cells book) slot)
      (open_path : (d : ℕ)
        → d < distance book.map_capacity (id % book.map_capacity) slot
        → cells book (ahead book.map_capacity (id % book.map_capacity) d) ≢ vacant)
      (unused : IsUnused book member id) {member' : ℕ → Type 0} (newest : member' i)
      (wider : (j : ℕ) → member j → member' j)
      (split : (j : ℕ) → member' j → member j ⊎ (j ≡ i)) where
    held_put :
        (j : ℕ)
        → member' j
        → (a : ℕ) × Holds book.map_capacity
            (cells (entered book id i slot))
            (book.order_pool j).id
            a
          × (((entered book id i slot).order_map a).value ≡ order j)
    held_put j h = elim (split j h) [
      | inl old ↦
          let (a, held, value) = x.held j old in
          let kept =
            (Holds-put_ne book.map_capacity (cells book) slot id (book.order_pool j).id a free
                (unused j old)).1
              held in
          (
            a,
            (kept.0, ap (λ (c : ℕ → Cell). c a) (cells-entered book id i slot) ∙ kept.1),
            ap (λ (entry : HashEntry). entry.value)
                  (update_ne book.order_map slot (record { key = id; value = order i }) a
                    (λ e.
                      not-live_of_free book.map_capacity (cells book) slot _ free (rw e at held.1)))
                ∙ value,
          )
      | inr here ↦ (
        slot,
        rw (ap (λ k. (book.order_pool k).id) here ∙ own) (
          slot_in,
          ap (λ (c : ℕ → Cell). c slot) (cells-entered book id i slot)
              ∙ update_self (cells book) slot (live id),
        ),
        ap (λ (entry : HashEntry). entry.value)
              (update_self book.order_map slot (record { key = id; value = order i }))
            ∙ ap order (sym here),
      )
    ]

    listed_put :
        (a pointer : ℕ)
        → a < book.map_capacity
        → ((entered book id i slot).order_map a).value ≡ order pointer
        → member' pointer
          × ((book.order_pool pointer).id ≡ ((entered book id i slot).order_map a).key)
    listed_put a pointer lt e = elim (ℕ_discrete a slot) [
      | yes same ↦
          let here = update_self book.order_map slot (record { key = id; value = order i }) in
          let same_pointer : i ≡ pointer = order-injective (rw (same, here) at e) in
          rw (same, here, sym same_pointer) (newest, own)
      | no other ↦
          let there =
            update_ne book.order_map slot (record { key = id; value = order i }) a other in
          let (m, key) = x.listed a pointer lt (rw there at e) in (wider pointer m, rw there key)
    ]

    pub IsIndexed-put : IsIndexed (entered book id i slot) member'
    IsIndexed-put = record {
      sized = x.sized;
      table = rw (cells-entered book id i slot) (
          put-IsTable (cells book) slot slot_in id x.table (unused-IsAbsent id unused) free
            open_path);
      held = held_put;
      listed = listed_put;
    }

  module _ (i slot : ℕ) (here : member i)
      (at : Holds book.map_capacity (cells book) (book.order_pool i).id slot) {member' : ℕ → Type 0}
      (narrower : (j : ℕ) → member' j → member j × (j ≢ i))
      (rest : (j : ℕ) → member j → j ≢ i → member' j) where
    other_slot : (a j : ℕ) → j ≢ i → (book.order_map a).value ≡ order j → a ≢ slot
    other_slot a j ne e same =
        let (b, held, value) = x.held i here in
        let same_slot : b ≡ slot = x.table.once (book.order_pool i).id b slot held at in
        ne (
          order-injective
            (sym e ∙ ap (λ k. (book.order_map k).value) (same ∙ sym same_slot) ∙ value))

    -- The entries that stay are those of other orders.
    kept_entry : (a : ℕ) → a ≢ slot → (erased book slot).order_map a ≡ book.order_map a
    kept_entry a ne =
        update_ne book.order_map slot (record (book.order_map slot) { value = tombstone }) a ne

    listed_erased :
        (a pointer : ℕ)
        → a < book.map_capacity
        → ((erased book slot).order_map a).value ≡ order pointer
        → member' pointer × ((book.order_pool pointer).id ≡ ((erased book slot).order_map a).key)
    listed_erased a pointer lt e = elim (ℕ_discrete a slot) [
      | yes same ↦
          let gone =
            update_self book.order_map slot (record (book.order_map slot) { value = tombstone }) in
          cc (rw (same, gone) at e)
      | no other ↦
          let there = sym (ap (λ (entry : HashEntry). entry.value) (kept_entry a other)) ∙ e in
          let (m, key) = x.listed a pointer lt there in
          (
            rest pointer m (λ same_order. other (
                x.table.once (book.order_pool i).id a slot
                  (
                    lt,
                    ap (cell_at (book.order_map a).key) there
                        ∙ ap live (sym key ∙ ap (λ k. (book.order_pool k).id) same_order),
                  )
                  at)),
            rw (kept_entry a other) key,
          )
    ]

    pub IsIndexed-erase : IsIndexed (erased book slot) member'
    IsIndexed-erase = record {
      sized = x.sized;
      table = rw (cells-erased book slot) (erase-IsTable (cells book) slot at.0 x.table);
      held = λ j h.
          let (old, ne) = narrower j h in
          let (a, held, value) = x.held j old in
          let kept =
            (Holds-erase (cells book) slot at.0 (book.order_pool i).id (book.order_pool j).id a at
                (λ e. ne (one_order j i old here e))).1
              held in
          (
            a,
            (kept.0, ap (λ (c : ℕ → Cell). c a) (cells-erased book slot) ∙ kept.1),
            ap (λ (entry : HashEntry). entry.value) (kept_entry a (other_slot a j ne value))
                ∙ value,
          );
      listed = listed_erased;
    }
