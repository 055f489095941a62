-- ===== src/Book/Lookup.antt =====
-- The hash map of src/OrderBook.cpp as a table of cells: its three loops are walks of `Probe`.
use mathlib.Core.Option
use mathlib.Core.Path.{fun_ext}
use native.Mathlib.Decide.{ℕ_discrete}
use hft_learning.Prelude.{
  ℕ, zero, suc, ◌%◌, ◌<◌, ◌≡◌, ◌≢◌, refl, sym, ap, ◌∙◌, Option, none, some, arith, if◌then◌else◌,
}
use hft_learning.Prelude.Arrays.{update, update_self, update_ne}
use hft_learning.Prelude.Cycle.{IsCapacity, ahead, distance, next_index}
use hft_learning.Probe.{probe, probe_total}
use hft_learning.Probe.Table.{
  Cell, vacant, dead, live, stops_find, stops_insert, Holds, IsAbsent, IsTable, home-lt, find-Holds,
  find-IsAbsent, insert-IsAbsent,
}
use hft_learning.Probe.Writes.{IsFree}
use hft_learning.Book.Types.{Target, null, tombstone, order, HashEntry, LimitOrderBook}
use hft_learning.Book.Index.{
  is_null, pointer_of, map_insert_from, map_insert, map_find_from, map_find, map_erase_from,
  map_erase,
}

abbrev pub cell_at : ℕ → Target → Cell
cell_at key null = vacant
cell_at key tombstone = dead
cell_at key (order pointer) = live key

abbrev pub cell_of : HashEntry → Cell
cell_of entry = cell_at entry.key entry.value

abbrev pub cells : LimitOrderBook → ℕ → Cell
cells book slot = cell_of (book.order_map slot)

-- what a lookup makes of the slot that stops it
abbrev answer : LimitOrderBook → ℕ → Option ℕ
answer book slot = pointer_of (book.order_map slot).value

abbrev pub entered : LimitOrderBook → ℕ → ℕ → ℕ → LimitOrderBook
entered book id pointer slot = record book {
  order_map = update book.order_map slot (record { key = id; value = order pointer });
}

abbrev pub erased : LimitOrderBook → ℕ → LimitOrderBook
erased book slot = record book {
  order_map = update book.order_map slot (record (book.order_map slot) { value = tombstone });
}

abbrev erase_answer : LimitOrderBook → ℕ → LimitOrderBook
erase_answer book slot = if is_null (book.order_map slot).value then book else erased book slot

pub find-probe :
    (book : LimitOrderBook) (id fuel index : ℕ)
    → map_find_from book id fuel index
      ≡ Option.map
          (answer book)
          (probe book.map_capacity (λ j. stops_find id (cells book j)) fuel index)
unfolding map_find_from probe
find-probe book id zero index = refl
find-probe book id (suc fuel) index =
    ground (arith, find-probe book id fuel (next_index book.map_capacity index))

insert-probe :
    (book : LimitOrderBook) (id pointer fuel index : ℕ)
    → map_insert_from book id pointer fuel index
      ≡ Option.map
          (entered book id pointer)
          (probe book.map_capacity (λ j. stops_insert id (cells book j)) fuel index)
unfolding map_insert_from probe
insert-probe book id pointer zero index = refl
insert-probe book id pointer (suc fuel) index =
    ground (arith, insert-probe book id pointer fuel (next_index book.map_capacity index))

erase-probe :
    (book : LimitOrderBook) (id fuel index : ℕ)
    → map_erase_from book id fuel index
      ≡ Option.map
          (erase_answer book)
          (probe book.map_capacity (λ j. stops_find id (cells book j)) fuel index)
unfolding map_erase_from probe
erase-probe book id zero index = refl
erase-probe book id (suc fuel) index =
    ground (arith, erase-probe book id fuel (next_index book.map_capacity index))

pub live-target :
    (key : ℕ) (target : Target) (id : ℕ)
    → cell_at key target ≡ live id
    → (pointer : ℕ) × (target ≡ order pointer) × (key ≡ id)
live-target key null id e = cc
live-target key tombstone id e = cc
live-target key (order pointer) id e = (pointer, refl, ground arith)

module _ (book : LimitOrderBook) (sized : IsCapacity book.map_capacity) (id : ℕ) where
  -- A search that some vacant slot would stop ends.
  pub find_ends :
      (free : ℕ)
      → free < book.map_capacity
      → cells book free ≡ vacant
      → (slot : ℕ) × (probe book.map_capacity
            (λ j. stops_find id (cells book j))
            book.map_capacity
            (id % book.map_capacity)
          ≡ some slot)
  find_ends free lt e =
      probe_total sized (λ j. stops_find id (cells book j)) (id % book.map_capacity) free
        (home-lt sized (cells book) id) lt (ap (stops_find id) e)

  pub map_find-Holds :
      (slot pointer : ℕ)
      → IsTable book.map_capacity (cells book)
      → Holds book.map_capacity (cells book) id slot
      → (book.order_map slot).value ≡ order pointer
      → map_find book id ≡ some (some pointer)
  unfolding map_find
  map_find-Holds slot pointer t h target =
      find-probe book id book.map_capacity (id % book.map_capacity)
      ∙ rw (find-Holds sized (cells book) id slot t h) (ap (λ t. some (pointer_of t)) target)

  pub map_find-IsAbsent :
      (free : ℕ)
      → IsAbsent book.map_capacity (cells book) id
      → free < book.map_capacity
      → cells book free ≡ vacant
      → map_find book id ≡ some none
  unfolding map_find
  map_find-IsAbsent free absent lt e =
      let (slot, walk) = find_ends free lt e in
      find-probe book id book.map_capacity (id % book.map_capacity)
      ∙ rw walk (
          ap some (
            pointer_of-vacant (book.order_map slot)
              (find-IsAbsent sized (cells book) id absent walk)))
    where
      pointer_of-vacant :
          (entry : HashEntry) → cell_of entry ≡ vacant → pointer_of entry.value ≡ none
      pointer_of-vacant entry e = ground arith

  pub map_insert-IsAbsent :
      (pointer free : ℕ)
      → IsAbsent book.map_capacity (cells book) id
      → free < book.map_capacity
      → cells book free ≡ vacant
      → (slot : ℕ) × (map_insert book id pointer ≡ some (entered book id pointer slot))
        × (slot < book.map_capacity)
        × IsFree book.map_capacity (cells book) slot
        × ((d : ℕ)
            → d < distance book.map_capacity (id % book.map_capacity) slot
            → cells book (ahead book.map_capacity (id % book.map_capacity) d) ≢ vacant)
  unfolding map_insert
  map_insert-IsAbsent pointer free absent lt e =
      let (slot, walk) =
        probe_total sized (λ j. stops_insert id (cells book j)) (id % book.map_capacity) free
          (home-lt sized (cells book) id) lt (ap (stops_insert id) e) in
      let (slot_in, open_slot, open_path) = insert-IsAbsent sized (cells book) id absent walk in
      (
        slot,
        insert-probe book id pointer book.map_capacity (id % book.map_capacity)
            ∙ ap (Option.map (entered book id pointer)) walk,
        slot_in,
        open_slot,
        open_path,
      )

  pub map_erase-Holds :
      (slot pointer : ℕ)
      → IsTable book.map_capacity (cells book)
      → Holds book.map_capacity (cells book) id slot
      → (book.order_map slot).value ≡ order pointer
      → map_erase book id ≡ some (erased book slot)
  unfolding map_erase
  map_erase-Holds slot pointer t h target =
      erase-probe book id book.map_capacity (id % book.map_capacity)
      ∙ rw (find-Holds sized (cells book) id slot t h)
          (ap some (used (book.order_map slot).value target))
    where
      used :
          (t : Target)
          → t ≡ order pointer
          → (if is_null t then book else erased book slot) ≡ erased book slot
      used t e = rw e

pub cells-entered :
    (book : LimitOrderBook) (id pointer slot : ℕ)
    → cells (entered book id pointer slot) ≡ update (cells book) slot (live id)
cells-entered book id pointer slot = fun_ext λ j. elim (ℕ_discrete j slot) [
  | yes same ↦ rw same (
      ap cell_of (update_self book.order_map slot (record { key = id; value = order pointer }))
      ∙ sym (update_self (cells book) slot (live id)))
  | no other ↦
      ap cell_of
        (update_ne book.order_map slot (record { key = id; value = order pointer }) j other)
      ∙ sym (update_ne (cells book) slot (live id) j other)
]

pub cells-erased :
    (book : LimitOrderBook) (slot : ℕ) → cells (erased book slot) ≡ update (cells book) slot dead
cells-erased book slot = fun_ext λ j. elim (ℕ_discrete j slot) [
  | yes same ↦ rw same (
      ap cell_of
        (update_self book.order_map slot (record (book.order_map slot) { value = tombstone }))
      ∙ sym (update_self (cells book) slot dead))
  | no other ↦
      ap cell_of
        (update_ne book.order_map slot (record (book.order_map slot) { value = tombstone }) j other)
      ∙ sym (update_ne (cells book) slot dead j other)
]
