-- ===== src/Ems/Refine.antt =====
-- The EMS keeps its promise: while a slot is vacant its handlers return, and answer as the ledger.
use mathlib.Core.Path.{fun_ext, subst}
use native.Mathlib.Decide.{ℕ_discrete}
use hft_learning.Prelude.{
  ℕ, ◌+◌, ◌%◌, ◌^◌, ◌<◌, ◌≤◌, ◌≡◌, inl, inr, refl, sym, ap, ◌∙◌, Bool, true, false, ◌||◌, Option,
  none, some, arith, leb, List, [], ◌∷◌, Bool-cases, Option-cases,
}
use hft_learning.Prelude.Arrays.{update, update_self, update_ne}
use hft_learning.Prelude.Loops.{◌>>=◌}
use hft_learning.Probe.Table.{Holds}
use hft_learning.Ems.Status.{OrderState, is_none, is_pending_new, is_canceled, is_rejected}
use hft_learning.Ems.Ledger
use hft_learning.Ems.Ledger.{
  Event, sent, accepted, rejected, executed, canceled, Orders, fill, fresh_order,
}
use hft_learning.Ems.Lookup.{cells, room, Models, map_find-Holds, map_find-IsAbsent, Holds-entry}
use hft_learning.Ems.Writes.{store-Models, room-store, map_insert-Models}
use hft_learning.Ems.{
  EmsOrder, ExecutionManagementSystem, Reply, store, map_find, on_order_sent, on_order_accepted,
  on_order_rejected, on_order_executed, on_order_canceled,
}

-- The handler that an event calls.
unfoldable pub handle : ExecutionManagementSystem → ℕ → Event → Option Reply
handle ems id (sent price quantity) = on_order_sent ems id price quantity
handle ems id accepted = on_order_accepted ems id
handle ems id rejected = on_order_rejected ems id
handle ems id (executed quantity price) = on_order_executed ems id quantity price
handle ems id canceled = on_order_canceled ems id

-- the slots that an event may take
abbrev pub takes : Event → ℕ
takes (sent price quantity) = 1
takes _ = 0

update-same :
    (orders : Orders) (id : ℕ) (o : Option EmsOrder) → orders id ≡ o → update orders id o ≡ orders
update-same orders id o e = fun_ext λ j. elim (ℕ_discrete j id) [
  | yes same ↦ rw same (update_self orders id o ∙ sym e)
  | no other ↦ update_ne orders id o j other
]

-- A handler returned as the ledger says, from a table that stood for `orders`.
pub record Handled (ems : ExecutionManagementSystem) (orders : Orders) (id : ℕ) (event : Event)
    : Type 0 where
  pub after : ExecutionManagementSystem
  pub returns : handle ems id event ≡ some ((Ledger.step id event orders).0, after)
  pub models : Models after (Ledger.step id event orders).1
  pub capacity : after.map_capacity ≡ ems.map_capacity
  pub space : room ems ≤ room after + takes event

module _ {ems : ExecutionManagementSystem} {orders : Orders} (m : Models ems orders) (id : ℕ) where
  unchanged : (o : Option EmsOrder) → orders id ≡ o → Models ems (update orders id o)
  unchanged o e = subst (Models ems) (sym (update-same orders id o e)) m

  -- A handler that refuses an event.
  refused :
      (event : Event) (o : Option EmsOrder)
      → orders id ≡ o
      → Ledger.step id event orders ≡ (false, update orders id o)
      → handle ems id event ≡ some (false, ems)
      → Handled ems orders id event
  refused event o e spec run = record {
    after = ems;
    returns = rw spec run;
    models = rw spec (unchanged o e);
    capacity = refl;
    space = omega arith;
  }

  -- A handler that stores a new version of a held order.
  stored :
      (event : Event) (slot : ℕ) (order : EmsOrder)
      → Holds ems.map_capacity (cells ems) id slot
      → order.order_id ≡ id
      → is_none order.state ≡ false
      → Ledger.step id event orders ≡ (true, update orders id (some order))
      → handle ems id event ≡ some (true, store ems slot order)
      → Handled ems orders id event
  stored event slot order held own used spec run = record {
    after = store ems slot order;
    returns = rw spec run;
    models = rw spec (store-Models m id order own used slot held);
    capacity = refl;
    space = rw (room-store m id order own used slot held) (omega arith);
  }

  -- An event for an id that is not held.
  handle-absent : (event : Event) → orders id ≡ none → 0 < room ems → Handled ems orders id event
  unfolding handle Ledger.step Ledger.step_order on_order_sent on_order_accepted on_order_rejected
      on_order_executed on_order_canceled
  handle-absent (sent price quantity) e more =
      let (after, run, models, capacity, space) =
        map_insert-Models m id (fresh_order id price quantity) refl refl e (omega arith) in
      record {
        after = after;
        returns = rw (e, map_find-IsAbsent ems id m.valid (m.absent id e) (omega arith), run);
        models = rw e models;
        capacity = capacity;
        space = space;
      }
  handle-absent accepted e more =
      refused accepted none e (rw e) (rw (map_find-IsAbsent ems id m.valid (m.absent id e) more))
  handle-absent rejected e more =
      refused rejected none e (rw e) (rw (map_find-IsAbsent ems id m.valid (m.absent id e) more))
  handle-absent (executed quantity price) e more =
      refused (executed quantity price) none e (rw e)
        (rw (map_find-IsAbsent ems id m.valid (m.absent id e) more))
  handle-absent canceled e more =
      refused canceled none e (rw e) (rw (map_find-IsAbsent ems id m.valid (m.absent id e) more))

  module _ (slot : ℕ) (order : EmsOrder) (held : Holds ems.map_capacity (cells ems) id slot)
      (value : (ems.order_map slot).value ≡ order) (e : orders id ≡ some order) where
    found : map_find ems id ≡ some (some slot)
    found = map_find-Holds ems id slot m.valid held

    own : order.order_id ≡ id
    own = ap (λ (o : EmsOrder). o.order_id) (sym value) ∙ (Holds-entry ems id slot m.valid held).0

    used : is_none order.state ≡ false
    used =
        ap (λ (o : EmsOrder). is_none o.state) (sym value)
        ∙ (Holds-entry ems id slot m.valid held).1

    held-accepted : Handled ems orders id accepted
    unfolding handle Ledger.step Ledger.step_order on_order_accepted
    held-accepted = elim (Bool-cases (is_pending_new order.state)) [
      | inl pending ↦
          stored accepted slot (record order { state = OrderState.new }) held own refl
            (rw (e, pending)) (rw (found, value, pending))
      | inr other ↦ refused accepted (some order) e (rw (e, other)) (rw (found, value, other))
    ]

    held-executed : (quantity price : ℕ) → Handled ems orders id (executed quantity price)
    unfolding handle Ledger.step Ledger.step_order on_order_executed
    held-executed quantity price =
        elim (Bool-cases (is_canceled order.state || is_rejected order.state)) [
          | inl over ↦
              refused (executed quantity price) (some order) e (rw (e, over))
                (rw (found, value, over))
          | inr going ↦
              let enough =
                leb order.original_quantity ((order.executed_quantity + quantity) % 2 ^ 32) in
              elim (Bool-cases enough) [
                | inl full ↦
                    stored (executed quantity price) slot (fill order quantity) held own (rw full)
                      (rw (e, going)) (rw (found, value, going, full))
                | inr short ↦
                    stored (executed quantity price) slot (fill order quantity) held own (rw short)
                      (rw (e, going)) (rw (found, value, going, short))
              ]
        ]

    -- An event for an order that is held.
    handle-held : (event : Event) → Handled ems orders id event
    unfolding handle Ledger.step Ledger.step_order on_order_sent on_order_rejected on_order_canceled
    handle-held (sent price quantity) =
        refused (sent price quantity) (some order) e (rw e) (rw found)
    handle-held accepted = held-accepted
    handle-held rejected =
        stored rejected slot (record order { state = OrderState.rejected }) held own refl (rw e)
          (rw (found, value))
    handle-held (executed quantity price) = held-executed quantity price
    handle-held canceled =
        stored canceled slot (record order { state = OrderState.canceled }) held own refl (rw e)
          (rw (found, value))

module _ {ems : ExecutionManagementSystem} {orders : Orders} (m : Models ems orders) (id : ℕ) where
  -- For an order that is held every handler returns, even where no slot is vacant.
  pub handle_held_refines :
      {order : EmsOrder} (event : Event) → orders id ≡ some order → Handled ems orders id event
  handle_held_refines {order} event e =
      let (slot, held, value) = m.present id order e in
      handle-held m id slot order held value e event

  -- While a slot stays vacant, every handler returns, accepts or refuses the event as the ledger
  -- does, and leaves a table that stands for the ledger's next map. Only a new order takes a slot.
  pub handle_refines : (event : Event) → 0 < room ems → Handled ems orders id event
  handle_refines event more = elim (Option-cases (orders id)) [
    | inl e ↦ handle-absent m id event e more
    | inr (order, e) ↦ handle_held_refines event e
  ]

pub sends-cons :
    (id : ℕ) (event : Event) (events : List (ℕ × Event))
    → Ledger.sends ((id, event) ∷ events) ≡ takes event + Ledger.sends events
unfolding Ledger.sends
sends-cons id (sent price quantity) events = refl
sends-cons id accepted events = omega arith
sends-cons id rejected events = omega arith
sends-cons id (executed quantity price) events = omega arith
sends-cons id canceled events = omega arith

-- The replies to a sequence of events; `none` if some handler does not return.
unfoldable pub handle_all : ExecutionManagementSystem → List (ℕ × Event) → Option (List Bool)
handle_all ems [] = some []
handle_all ems ((id, event) ∷ events) = handle ems id event >>= λ reply.
    handle_all reply.1 events >>= λ replies. some (reply.0 ∷ replies)

-- A sequence of events that asks for fewer new orders than there are vacant slots is handled to its
-- end, with the replies of the ledger.
pub handle_all_refines :
    (events : List (ℕ × Event)) {ems : ExecutionManagementSystem} {orders : Orders}
    → Models ems orders
    → Ledger.sends events < room ems
    → handle_all ems events ≡ some (Ledger.run orders events)
unfolding handle_all Ledger.run Ledger.sends
handle_all_refines [] m more = refl
handle_all_refines ((id, event) ∷ events) {ems} {orders} m more =
    let h = handle_refines m id event (omega (arith, sends-cons id event events)) in
    rw (
      h.returns,
      handle_all_refines events h.models (omega (arith, sends-cons id event events, h.space)),
    )
