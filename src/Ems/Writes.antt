-- ===== src/Ems/Writes.antt =====
-- The two writes of the EMS's table: a store through a pointer to a held order, and the insertion of
-- a new one. Each changes the map that the table stands for at one id.
use mathlib.Core.Option
use mathlib.Core.Path.{fun_ext, subst}
use native.Mathlib.Decide.{ℕ_discrete}
use hft_learning.Prelude.{
  ℕ, ◌+◌, ◌%◌, ◌<◌, ◌≤◌, ◌≡◌, ◌≢◌, inl, inr, refl, sym, ap, ◌∙◌, false, Option, none, some, arith,
}
use hft_learning.Prelude.Arrays.{update, update_self, update_ne}
use hft_learning.Prelude.Cycle.{ahead, distance}
use hft_learning.Probe.{probe, probe_total}
use hft_learning.Probe.Table.{
  Cell, vacant, live, stops_find, Holds, IsAbsent, home-lt, find-IsAbsent, find_path,
}
use hft_learning.Probe.Vacancy.{vacancies, vacancies_pos, vacancies-update}
use hft_learning.Probe.Writes.{put-IsTable, Holds-put_ne, live-injective}
use hft_learning.Ems.Status.{is_none}
use hft_learning.Ems.{EmsOrder, HashEntry, ExecutionManagementSystem, store, map_insert}
use hft_learning.Ems.Lookup.{cell_of, cells, IsEntry, room, Models, insert-probe}

abbrev pub Orders : Type 0
Orders = ℕ → Option EmsOrder

cell_of-used :
    (entry : HashEntry) → is_none entry.value.state ≡ false → cell_of entry ≡ live entry.key
cell_of-used entry e = ground arith

cell_of-live : (entry : HashEntry) (id : ℕ) → cell_of entry ≡ live id → entry.key ≡ id
cell_of-live entry id e = ground arith

-- A store leaves every cell as it was.
cells-store :
    (ems : ExecutionManagementSystem) (slot id : ℕ) (order : EmsOrder)
    → cells ems slot ≡ live id
    → is_none order.state ≡ false
    → cells (store ems slot order) ≡ cells ems
cells-store ems slot id order held used = fun_ext λ j. elim (ℕ_discrete j slot) [
  | yes same ↦
      let entry = ems.order_map slot in
      rw same (
        ap cell_of (update_self ems.order_map slot (record entry { value = order }))
        ∙ cell_of-used (record entry { value = order }) used
        ∙ ap live (cell_of-live entry id held)
        ∙ sym held)
  | no other ↦ ap cell_of (update_ne ems.order_map slot _ j other)
]

vacant≢live : {k : ℕ} → vacant ≢ live k
vacant≢live e = cc

update_orders-none :
    (orders : Orders) (id j : ℕ) (order : EmsOrder)
    → update orders id (some order) j ≡ none
    → (j ≢ id) × (orders j ≡ none)
update_orders-none orders id j order e = ground arith

update_orders-some :
    (orders : Orders) (id j : ℕ) (order : EmsOrder) {o : EmsOrder}
    → update orders id (some order) j ≡ some o
    → j ≡ id
    → order ≡ o
update_orders-some orders id j order e same = ground arith

module _ {ems : ExecutionManagementSystem} {orders : Orders} (m : Models ems orders) (id : ℕ)
    (order : EmsOrder) (own : order.order_id ≡ id) (used : is_none order.state ≡ false) where
  module _ (slot : ℕ) (held : Holds ems.map_capacity (cells ems) id slot) where
    same_cells : cells (store ems slot order) ≡ cells ems
    same_cells = cells-store ems slot id order held.1 used

    store-entries : (j : ℕ) → j < ems.map_capacity → IsEntry ((store ems slot order).order_map j)
    store-entries j lt = elim (ℕ_discrete j slot) [
      | yes same ↦
          rw (same, update_self ems.order_map slot (record (ems.order_map slot) { value = order }))
            (inr (used, own ∙ sym (cell_of-live (ems.order_map slot) id held.1)))
      | no other ↦
          rw (update_ne ems.order_map slot (record (ems.order_map slot) { value = order }) j other)
            (m.valid.entries j lt)
    ]

    store-present :
        (j : ℕ) (o : EmsOrder)
        → update orders id (some order) j ≡ some o
        → (i : ℕ) × Holds ems.map_capacity (cells (store ems slot order)) j i
          × (((store ems slot order).order_map i).value ≡ o)
    store-present j o e = elim (ℕ_discrete j id) [
      | yes same ↦ (
        slot,
        subst (λ c. Holds ems.map_capacity c j slot) (sym same_cells) (rw same held),
        ap (λ (entry : HashEntry). entry.value)
              (update_self ems.order_map slot (record (ems.order_map slot) { value = order }))
            ∙ update_orders-some orders id j order e same,
      )
      | no other ↦
          let (i, h, v) = m.present j o (sym (update_ne orders id (some order) j other) ∙ e) in
          (
            i,
            subst (λ c. Holds ems.map_capacity c j i) (sym same_cells) h,
            ap (λ (entry : HashEntry). entry.value)
                  (update_ne ems.order_map slot (record (ems.order_map slot) { value = order }) i
                    (λ at. other (live-injective (sym h.1 ∙ rw at held.1))))
                ∙ v,
          )
    ]

    -- A store through the pointer to a held order.
    pub store-Models : Models (store ems slot order) (update orders id (some order))
    store-Models = record {
      valid = record {
        sized = m.valid.sized;
        table = rw same_cells m.valid.table;
        entries = store-entries;
      };
      absent = λ j e.
          subst (λ c. IsAbsent ems.map_capacity c j) (sym same_cells)
            (m.absent j (update_orders-none orders id j order e).1);
      present = store-present;
    }

    pub room-store : room (store ems slot order) ≡ room ems
    room-store = ap (λ c. vacancies c ems.map_capacity) same_cells

  abbrev put : ℕ → ExecutionManagementSystem
  put slot = record ems {
    order_map = update ems.order_map slot (record { key = order.order_id; value = order });
  }

  module _ (slot : ℕ) (slot_in : slot < ems.map_capacity) (empty : cells ems slot ≡ vacant)
      (absent : IsAbsent ems.map_capacity (cells ems) id)
      (open_path : (d : ℕ)
        → d < distance ems.map_capacity (id % ems.map_capacity) slot
        → cells ems (ahead ems.map_capacity (id % ems.map_capacity) d) ≢ vacant) where
    cells-put : cells (put slot) ≡ update (cells ems) slot (live id)
    cells-put = fun_ext λ j. elim (ℕ_discrete j slot) [
      | yes same ↦
          let entry : HashEntry = record { key = order.order_id; value = order } in
          rw same (
            ap cell_of (update_self ems.order_map slot entry)
            ∙ cell_of-used entry used
            ∙ ap live own
            ∙ sym (update_self (cells ems) slot (live id)))
      | no other ↦
          ap cell_of
            (update_ne ems.order_map slot (record { key = order.order_id; value = order }) j other)
          ∙ sym (update_ne (cells ems) slot (live id) j other)
    ]

    put-entries : (j : ℕ) → j < ems.map_capacity → IsEntry ((put slot).order_map j)
    put-entries j lt = elim (ℕ_discrete j slot) [
      | yes same ↦
          rw (same, update_self ems.order_map slot (record { key = order.order_id; value = order }))
            (inr (used, refl))
      | no other ↦
          rw (update_ne ems.order_map slot (record { key = order.order_id; value = order }) j other)
            (m.valid.entries j lt)
    ]

    put-present :
        (j : ℕ) (o : EmsOrder)
        → update orders id (some order) j ≡ some o
        → (i : ℕ) × Holds ems.map_capacity (cells (put slot)) j i
          × (((put slot).order_map i).value ≡ o)
    put-present j o e = elim (ℕ_discrete j id) [
      | yes same ↦ (
        slot,
        (
          slot_in,
          ap (λ (c : ℕ → Cell). c slot) cells-put
              ∙ update_self (cells ems) slot (live id)
              ∙ ap live (sym same),
        ),
        ap (λ (entry : HashEntry). entry.value)
              (update_self ems.order_map slot (record { key = order.order_id; value = order }))
            ∙ update_orders-some orders id j order e same,
      )
      | no other ↦
          let (i, h, v) = m.present j o (sym (update_ne orders id (some order) j other) ∙ e) in
          (
            i,
            (
              h.0,
              ap (λ (c : ℕ → Cell). c i) cells-put
                  ∙ ((Holds-put_ne ems.map_capacity (cells ems) slot id j i (inl empty) other).1
                      h).1,
            ),
            ap (λ (entry : HashEntry). entry.value)
                  (update_ne ems.order_map slot (record { key = order.order_id; value = order }) i
                    (λ at_slot. absurd (vacant≢live (sym empty ∙ rw at_slot at h.1))))
                ∙ v,
          )
    ]

    -- An insertion into the vacant slot at which the walk for its id stops.
    put-Models : Models (put slot) (update orders id (some order))
    put-Models = record {
      valid = record {
        sized = m.valid.sized;
        table =
            rw cells-put
              (put-IsTable (cells ems) slot slot_in id m.valid.table absent (inl empty) open_path);
        entries = put-entries;
      };
      absent = λ j e i lt h.
          let (other, gone) = update_orders-none orders id j order e in
          m.absent j gone i lt
            ((Holds-put_ne ems.map_capacity (cells ems) slot id j i (inl empty) other).0
              (lt, sym (ap (λ (c : ℕ → Cell). c i) cells-put) ∙ h)).1;
      present = put-present;
    }

    room-put : room ems ≤ room (put slot) + 1
    room-put = rw cells-put (vacancies-update (cells ems) slot (live id) ems.map_capacity)

  -- Inserting an order under a new id: the loop ends, and takes at most one vacant slot.
  pub map_insert-Models :
      orders id ≡ none
      → 0 < room ems
      → (ems' : ExecutionManagementSystem) × (map_insert ems order ≡ some ems')
        × Models ems' (update orders id (some order))
        × (ems'.map_capacity ≡ ems.map_capacity)
        × (room ems ≤ room ems' + 1)
  unfolding map_insert
  map_insert-Models fresh more =
      let absent = m.absent id fresh in
      let (free, lt, e) = vacancies_pos (cells ems) ems.map_capacity more in
      let home = id % ems.map_capacity in
      let (slot, walk) =
        probe_total m.valid.sized (λ j. stops_find id (cells ems j)) home free
          (home-lt m.valid.sized (cells ems) id) lt (ap (stops_find id) e) in
      let walk' =
        subst
          (λ k.
            probe ems.map_capacity (λ j. stops_find k (cells ems j)) ems.map_capacity
              (k % ems.map_capacity)
            ≡ some slot)
          (sym own) walk in
      let empty = find-IsAbsent m.valid.sized (cells ems) id absent walk in
      let (slot_in, open_path) = find_path m.valid.sized (cells ems) id walk in
      (
        put slot,
        insert-probe ems order ems.map_capacity (order.order_id % ems.map_capacity)
            ∙ ap (Option.map put) walk',
        put-Models slot slot_in empty absent open_path,
        refl,
        room-put slot slot_in empty absent open_path,
      )
