-- ===== src/Ems.antt =====
-- include/EMS.hpp and src/EMS.cpp: the execution management system, which tracks the state of each
-- order sent. Its orders live in an open-addressing hash table that never gives a slot back.
-- The log lines of the handlers change nothing of this state and are left out.
pub mod Status
pub mod Ledger
pub mod Lookup
mod Writes
pub mod Refine
pub mod Capacity
pub mod Lifecycle
mod Tests
use hft_learning.Prelude.{
  ℕ, zero, suc, ◌+◌, ◌*◌, ◌%◌, ◌^◌, Bool, true, false, not, ◌&&◌, ◌||◌, Option, none, some, ◌==◌,
  leb, if◌then◌else◌,
}
use hft_learning.Prelude.Arrays.{update}
use hft_learning.Prelude.Cycle.{next_index}
use hft_learning.Prelude.Loops.{◌>>=◌}
use mathlib.Core.Option
use hft_learning.Ems.Status.{OrderState, is_none, is_pending_new, is_canceled, is_rejected}

pub record EmsOrder : Type 0 where
  pub order_id : ℕ  -- uint64_t
  pub price : ℕ  -- uint32_t
  pub original_quantity : ℕ  -- uint32_t
  pub executed_quantity : ℕ  -- uint32_t
  pub state : OrderState

pub record HashEntry : Type 0 where
  pub key : ℕ
  pub value : EmsOrder

pub record ExecutionManagementSystem : Type 0 where
  pub max_orders : ℕ
  pub order_map : ℕ → HashEntry
  pub map_capacity : ℕ

-- an entry of zeroed memory
abbrev pub zeroed : HashEntry
zeroed = record {
  key = 0;
  value = record {
    order_id = 0;
    price = 0;
    original_quantity = 0;
    executed_quantity = 0;
    state = OrderState.none;
  };
}

-- The constructor; `mapped` says whether `mmap` gave the memory. `none` is its exception.
unfoldable pub new : Bool → ℕ → Option ExecutionManagementSystem
new mapped max_orders =
    if mapped
    then some (record {
      max_orders = max_orders;
      order_map = λ _. zeroed;
      map_capacity = max_orders * 2 % 2 ^ 64;
    })
    else none

abbrev pub is_empty : HashEntry → Bool
is_empty entry = entry.key == 0 && is_none entry.value.state

-- The loops below return `none` when they have gone once round the table: they change nothing
-- before they stop, so a loop that has come back to its first slot runs for ever.
pub map_insert_from :
    ExecutionManagementSystem → EmsOrder → ℕ → ℕ → Option ExecutionManagementSystem
map_insert_from ems order zero index = none
map_insert_from ems order (suc fuel) index =
    let entry = ems.order_map index in
    let rest = map_insert_from ems order fuel (next_index ems.map_capacity index) in
    if is_empty entry
    then some (record ems {
      order_map = update ems.order_map index (record { key = order.order_id; value = order });
    })
    else if entry.key == order.order_id
    then some
        (record ems { order_map = update ems.order_map index (record entry { value = order }) })
    else rest

pub map_insert : ExecutionManagementSystem → EmsOrder → Option ExecutionManagementSystem
map_insert ems order =
    map_insert_from ems order ems.map_capacity (order.order_id % ems.map_capacity)

-- The pointer that is found is the slot's index; the inner `none` is `nullptr`.
unfoldable pub map_find_from : ExecutionManagementSystem → ℕ → ℕ → ℕ → Option (Option ℕ)
map_find_from ems id zero index = none
map_find_from ems id (suc fuel) index =
    let entry = ems.order_map index in
    let rest = map_find_from ems id fuel (next_index ems.map_capacity index) in
    if is_empty entry then some none else if entry.key == id then some (some index) else rest

pub map_find : ExecutionManagementSystem → ℕ → Option (Option ℕ)
map_find ems id = map_find_from ems id ems.map_capacity (id % ems.map_capacity)

-- `*order = value` through a pointer into the table
abbrev pub store : ExecutionManagementSystem → ℕ → EmsOrder → ExecutionManagementSystem
store ems slot order = record ems {
  order_map = update ems.order_map slot (record (ems.order_map slot) { value = order });
}

-- What a handler does once `map_find` has answered: each returns its result and the new state.
abbrev pub Reply : Type 0
Reply = Bool × ExecutionManagementSystem

on_order_sent_at : ExecutionManagementSystem → ℕ → ℕ → ℕ → Option ℕ → Option Reply
on_order_sent_at ems order_id price quantity (some slot) = some (false, ems)
on_order_sent_at ems order_id price quantity none = do
  ems' ← map_insert ems (record {
    order_id = order_id;
    price = price;
    original_quantity = quantity;
    executed_quantity = 0;
    state = OrderState.pending_new;
  })
  some (true, ems')

pub on_order_sent : ExecutionManagementSystem → ℕ → ℕ → ℕ → Option Reply
unfolding on_order_sent_at
on_order_sent ems order_id price quantity =
    map_find ems order_id >>= on_order_sent_at ems order_id price quantity

on_order_accepted_at : ExecutionManagementSystem → Option ℕ → Reply
on_order_accepted_at ems none = (false, ems)
on_order_accepted_at ems (some slot) =
    let order = (ems.order_map slot).value in
    if not (is_pending_new order.state)
    then (false, ems)
    else (true, store ems slot (record order { state = OrderState.new }))

pub on_order_accepted : ExecutionManagementSystem → ℕ → Option Reply
unfolding on_order_accepted_at
on_order_accepted ems order_id = do
  found ← map_find ems order_id
  some (on_order_accepted_at ems found)

on_order_rejected_at : ExecutionManagementSystem → Option ℕ → Reply
on_order_rejected_at ems none = (false, ems)
on_order_rejected_at ems (some slot) =
    (true, store ems slot (record ((ems.order_map slot).value) { state = OrderState.rejected }))

pub on_order_rejected : ExecutionManagementSystem → ℕ → Option Reply
unfolding on_order_rejected_at
on_order_rejected ems order_id = do
  found ← map_find ems order_id
  some (on_order_rejected_at ems found)

on_order_executed_at : ExecutionManagementSystem → ℕ → Option ℕ → Reply
on_order_executed_at ems fill_quantity none = (false, ems)
on_order_executed_at ems fill_quantity (some slot) =
    let order = (ems.order_map slot).value in
    let executed = (order.executed_quantity + fill_quantity) % 2 ^ 32 in
    if is_canceled order.state || is_rejected order.state
    then (false, ems)
    else if leb order.original_quantity executed
    then (
      true,
      store ems slot (record order { executed_quantity = executed; state = OrderState.filled }),
    )
    else (
      true,
      store ems slot
          (record order { executed_quantity = executed; state = OrderState.partially_filled }),
    )

-- The fill price is not used.
pub on_order_executed : ExecutionManagementSystem → ℕ → ℕ → ℕ → Option Reply
unfolding on_order_executed_at
on_order_executed ems order_id fill_quantity fill_price = do
  found ← map_find ems order_id
  some (on_order_executed_at ems fill_quantity found)

on_order_canceled_at : ExecutionManagementSystem → Option ℕ → Reply
on_order_canceled_at ems none = (false, ems)
on_order_canceled_at ems (some slot) =
    (true, store ems slot (record ((ems.order_map slot).value) { state = OrderState.canceled }))

pub on_order_canceled : ExecutionManagementSystem → ℕ → Option Reply
unfolding on_order_canceled_at
on_order_canceled ems order_id = do
  found ← map_find ems order_id
  some (on_order_canceled_at ems found)

-- What `getOrder` points to.
pub get_order : ExecutionManagementSystem → ℕ → Option (Option EmsOrder)
get_order ems order_id = do
  found ← map_find ems order_id
  some (Option.map (λ slot. (ems.order_map slot).value) found)

state_of : Option EmsOrder → OrderState
state_of none = OrderState.none
state_of (some order) = order.state

pub get_order_state : ExecutionManagementSystem → ℕ → Option OrderState
unfolding state_of
get_order_state ems order_id = do found ← get_order ems order_id; some (state_of found)
