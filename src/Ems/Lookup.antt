-- ===== src/Ems/Lookup.antt =====
-- The hash table of src/EMS.cpp as a table of cells: its two loops are walks of `Probe`, so a lookup
-- in a table with a vacant slot ends, and finds exactly the orders that are held.
use mathlib.Core.Option
use hft_learning.Prelude.{
  ℕ, zero, suc, ◌%◌, ◌<◌, ◌≡◌, ◌⊎◌, inl, inr, refl, sym, ap, ◌∙◌, true, false, Option, none, some,
  arith, if◌then◌else◌, Bool-cases, Option-cases,
}
use hft_learning.Prelude.Arrays.{update}
use hft_learning.Prelude.Cycle.{IsCapacity, next_index}
use hft_learning.Probe.{probe, probe_total}
use hft_learning.Probe.Table.{
  Cell, vacant, live, stops_find, Holds, IsAbsent, IsTable, home-lt, find-Holds, find-IsAbsent,
}
use hft_learning.Probe.Vacancy.{vacancies, vacancies_pos}
use hft_learning.Ems.Status.{is_none}
use hft_learning.Ems.{
  EmsOrder, HashEntry, ExecutionManagementSystem, is_empty, map_insert_from, map_find_from,
  map_find, get_order,
}

abbrev pub cell_of : HashEntry → Cell
cell_of entry = if is_empty entry then vacant else live entry.key

abbrev pub cells : ExecutionManagementSystem → ℕ → Cell
cells ems slot = cell_of (ems.order_map slot)

-- a held order's state is not NONE, and it stands under its own id
abbrev pub IsEntry : HashEntry → Type 0
IsEntry entry =
    (is_empty entry ≡ true)
    ⊎ ((is_none entry.value.state ≡ false) × (entry.value.order_id ≡ entry.key))

pub record IsValid (ems : ExecutionManagementSystem) : Type 0 where
  pub sized : IsCapacity ems.map_capacity
  pub table : IsTable ems.map_capacity (cells ems)
  pub entries : (slot : ℕ) → slot < ems.map_capacity → IsEntry (ems.order_map slot)

-- vacant slots of the table
abbrev pub room : ExecutionManagementSystem → ℕ
room ems = vacancies (cells ems) ems.map_capacity

-- what a lookup makes of the slot that stops it
abbrev answer : ExecutionManagementSystem → ℕ → Option ℕ
answer ems slot = if is_empty (ems.order_map slot) then none else some slot

pub find-probe :
    (ems : ExecutionManagementSystem) (id fuel index : ℕ)
    → map_find_from ems id fuel index
      ≡ Option.map
          (answer ems)
          (probe ems.map_capacity (λ j. stops_find id (cells ems j)) fuel index)
unfolding map_find_from probe
find-probe ems id zero index = refl
find-probe ems id (suc fuel) index =
    ground (arith, find-probe ems id fuel (next_index ems.map_capacity index))

pub insert-probe :
    (ems : ExecutionManagementSystem) (order : EmsOrder) (fuel index : ℕ)
    → map_insert_from ems order fuel index
      ≡ Option.map
          (λ j. record ems {
            order_map = update ems.order_map j (record { key = order.order_id; value = order });
          })
          (probe ems.map_capacity (λ j. stops_find order.order_id (cells ems j)) fuel index)
unfolding map_insert_from probe
insert-probe ems order zero index = refl
insert-probe ems order (suc fuel) index =
    ground (arith, insert-probe ems order fuel (next_index ems.map_capacity index))

-- The table stands for a map from ids to orders.
pub record Models (ems : ExecutionManagementSystem) (orders : ℕ → Option EmsOrder) : Type 0 where
  pub valid : IsValid ems
  pub absent : (id : ℕ) → orders id ≡ none → IsAbsent ems.map_capacity (cells ems) id
  pub present :
      (id : ℕ) (order : EmsOrder)
      → orders id ≡ some order
      → (slot : ℕ) × Holds ems.map_capacity (cells ems) id slot
        × ((ems.order_map slot).value ≡ order)

module _ (ems : ExecutionManagementSystem) where
  answer-live : (id slot : ℕ) → cells ems slot ≡ live id → answer ems slot ≡ some slot
  answer-live id slot e = elim (Bool-cases (is_empty (ems.order_map slot))) [
    | inl empty ↦ cc (rw empty at e)
    | inr used ↦ rw used
  ]

  answer-vacant : (slot : ℕ) → cells ems slot ≡ vacant → answer ems slot ≡ none
  answer-vacant slot e = elim (Bool-cases (is_empty (ems.order_map slot))) [
    | inl empty ↦ rw empty
    | inr used ↦ cc (rw used at e)
  ]

  -- A lookup of a held order points to its slot.
  pub map_find-Holds :
      (id slot : ℕ)
      → IsValid ems
      → Holds ems.map_capacity (cells ems) id slot
      → map_find ems id ≡ some (some slot)
  unfolding map_find
  map_find-Holds id slot v h =
      find-probe ems id ems.map_capacity (id % ems.map_capacity)
      ∙ rw (find-Holds v.sized (cells ems) id slot v.table h) (ap some (answer-live id slot h.1))

  -- A lookup of any other id says so, if a slot is vacant.
  pub map_find-IsAbsent :
      (id : ℕ)
      → IsValid ems
      → IsAbsent ems.map_capacity (cells ems) id
      → 0 < room ems
      → map_find ems id ≡ some none
  unfolding map_find
  map_find-IsAbsent id v absent more =
      let (free, lt, e) = vacancies_pos (cells ems) ems.map_capacity more in
      let home = id % ems.map_capacity in
      let (slot, walk) =
        probe_total v.sized (λ j. stops_find id (cells ems j)) home free
          (home-lt v.sized (cells ems) id) lt (ap (stops_find id) e) in
      find-probe ems id ems.map_capacity home
      ∙ rw walk (ap some (answer-vacant slot (find-IsAbsent v.sized (cells ems) id absent walk)))

module _ {ems : ExecutionManagementSystem} {orders : ℕ → Option EmsOrder}
    (m : Models ems orders) where
  -- A lookup of a held order ends and reads the map, even where no slot is vacant.
  pub get_order-present :
      (id : ℕ) {order : EmsOrder} → orders id ≡ some order → get_order ems id ≡ some (some order)
  unfolding get_order
  get_order-present id {order} e =
      let (slot, held, value) = m.present id order e in
      rw (map_find-Holds ems id slot m.valid held) (ap (λ o. some (some o)) value)

  -- With a vacant slot every lookup ends, and reads the map.
  pub get_order-Models : (id : ℕ) → 0 < room ems → get_order ems id ≡ some (orders id)
  unfolding get_order
  get_order-Models id more = elim (Option-cases (orders id)) [
    | inl e ↦ rw (map_find-IsAbsent ems id m.valid (m.absent id e) more, e)
    | inr (order, e) ↦ get_order-present id e ∙ ap some (sym e)
  ]

-- A held order carries its id, and its state is not NONE.
pub Holds-entry :
    (ems : ExecutionManagementSystem) (id slot : ℕ)
    → IsValid ems
    → Holds ems.map_capacity (cells ems) id slot
    → ((ems.order_map slot).value.order_id ≡ id)
      × (is_none (ems.order_map slot).value.state ≡ false)
Holds-entry ems id slot v h = ground (arith, v.entries slot h.0)
