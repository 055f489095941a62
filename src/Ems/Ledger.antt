-- ===== src/Ems/Ledger.antt =====
-- What the EMS promises: a map from order ids to orders, in which each event concerns one order.
-- There is no table, no capacity and no search here.
use hft_learning.Prelude.{
  ℕ, ◌+◌, ◌%◌, ◌^◌, Bool, true, false, ◌||◌, Option, none, some, List, [], ◌∷◌, leb, if◌then◌else◌,
}
use hft_learning.Prelude.Arrays.{update}
use hft_learning.Ems.Status.{OrderState, is_pending_new, is_canceled, is_rejected}
use hft_learning.Ems.{EmsOrder}

-- What an order goes through.
pub data Event : Type 0 where
  sent : (price quantity : ℕ) → Event
  accepted : Event
  rejected : Event
  executed : (quantity price : ℕ) → Event
  canceled : Event

abbrev pub fresh_order : ℕ → ℕ → ℕ → EmsOrder
fresh_order id price quantity = record {
  order_id = id;
  price = price;
  original_quantity = quantity;
  executed_quantity = 0;
  state = OrderState.pending_new;
}

-- A fill that reaches the original quantity completes the order.
abbrev pub fill : EmsOrder → ℕ → EmsOrder
fill order quantity =
    let executed = (order.executed_quantity + quantity) % 2 ^ 32 in
    record order {
      executed_quantity = executed;
      state =
          if leb order.original_quantity executed
          then OrderState.filled
          else OrderState.partially_filled;
    }

-- Whether the event is taken, and the order after it.
unfoldable pub step_order : ℕ → Event → Option EmsOrder → Bool × Option EmsOrder
step_order id (sent price quantity) none = (true, some (fresh_order id price quantity))
step_order id accepted none = (false, none)
step_order id rejected none = (false, none)
step_order id (executed quantity price) none = (false, none)
step_order id canceled none = (false, none)
step_order id (sent price quantity) (some order) = (false, some order)
step_order id accepted (some order) =
    if is_pending_new order.state
    then (true, some (record order { state = OrderState.new }))
    else (false, some order)
step_order id rejected (some order) = (true, some (record order { state = OrderState.rejected }))
step_order id (executed quantity price) (some order) =
    if is_canceled order.state || is_rejected order.state
    then (false, some order)
    else (true, some (fill order quantity))
step_order id canceled (some order) = (true, some (record order { state = OrderState.canceled }))

abbrev pub Orders : Type 0
Orders = ℕ → Option EmsOrder

unfoldable pub step : ℕ → Event → Orders → Bool × Orders
step id event orders =
    let (taken, order) = step_order id event (orders id) in (taken, update orders id order)

-- The replies to a sequence of events.
unfoldable pub run : Orders → List (ℕ × Event) → List Bool
run orders [] = []
run orders ((id, event) ∷ events) =
    let (taken, orders') = step id event orders in taken ∷ run orders' events

-- how many of them ask for a new order
unfoldable pub sends : List (ℕ × Event) → ℕ
sends [] = 0
sends ((id, sent price quantity) ∷ events) = 1 + sends events
sends ((id, _) ∷ events) = sends events

-- The orders after a sequence of events.
unfoldable pub final : Orders → List (ℕ × Event) → Orders
final orders [] = orders
final orders ((id, event) ∷ events) = final (step id event orders).1 events
