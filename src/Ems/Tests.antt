-- ===== src/Ems/Tests.antt =====
-- Runs of the EMS, and its theorems at concrete tables.
use hft_learning.Prelude.{
  ℕ, ◌+◌, ◌*◌, ◌%◌, ◌^◌, ◌≡◌, refl, true, false, Option, none, some, List, [], ◌∷◌, arith, leb,
  if◌then◌else◌,
}
use hft_learning.Prelude.Cycle.{next_index}
use hft_learning.Probe.Vacancy.{vacancies}
use hft_learning.Ems.Status.{OrderState}
use hft_learning.Ems.Ledger
use hft_learning.Ems.Ledger.{Event, sent, accepted, rejected, executed, canceled, Orders}
use hft_learning.Ems.Lookup.{room, Models}
use hft_learning.Ems.Refine.{Handled, handle, handle_refines, handle_all, handle_all_refines}
use hft_learning.Ems.Capacity.{new-Models, lookup_never}
use hft_learning.Ems.Lifecycle.{run_state, IsDeadAs, dead_stays_dead, fills, total, fills_lem}
use hft_learning.Ems.{
  ExecutionManagementSystem, EmsOrder, Reply, zeroed, new, map_find, map_find_from, map_insert,
  map_insert_from, on_order_sent, on_order_accepted, on_order_executed, on_order_canceled,
  get_order,
}

-- a new EMS, with room for `n` orders
abbrev fresh : ℕ → ExecutionManagementSystem
fresh n = record { max_orders = n; order_map = λ _. zeroed; map_capacity = n * 2 % 2 ^ 64 }

abbrev no_orders : Orders
no_orders _ = none

fresh-Models : Models (fresh 1) no_orders × (room (fresh 1) ≡ 2)
unfolding new
fresh-Models = new-Models 1 (omega arith) (omega arith) refl

abbrev events : List (ℕ × Event)
events =
    (7, sent 100 50)
    ∷ (7, accepted)
    ∷ (7, accepted)
    ∷ (7, executed 20 100)
    ∷ (9, executed 20 100)
    ∷ (7, canceled)
    ∷ (7, executed 30 100)
    ∷ []

handle_all-events :
    handle_all (fresh 1) events ≡ some (true ∷ true ∷ false ∷ true ∷ false ∷ true ∷ false ∷ [])
unfolding handle_all handle on_order_sent on_order_accepted on_order_executed on_order_canceled
    map_find map_find_from map_insert map_insert_from next_index
handle_all-events = refl

handle_all_refines_example : handle_all (fresh 1) events ≡ some (Ledger.run no_orders events)
handle_all_refines_example =
    handle_all_refines events fresh-Models.0
      (rw fresh-Models.1 (unfold Ledger.sends in omega arith))

first : Handled (fresh 1) no_orders 7 (sent 100 50)
first = handle_refines fresh-Models.0 7 (sent 100 50) (rw fresh-Models.1 (omega arith))

handle_refines_example : Handled (fresh 1) no_orders 7 (sent 100 50)
handle_refines_example =
    handle_refines fresh-Models.0 7 (sent 100 50) (rw fresh-Models.1 (omega arith))

-- The state in a handler's reply.
abbrev state_in : Option Reply → ExecutionManagementSystem
state_in none = fresh 1
state_in (some reply) = reply.1

abbrev sent_7 : ExecutionManagementSystem
sent_7 = state_in (handle (fresh 1) 7 (sent 100 50))

abbrev orders_7 : Orders
orders_7 = (Ledger.step 7 (sent 100 50) no_orders).1

sent_7-Models : Models sent_7 orders_7
sent_7-Models = rw first.returns first.models

room-sent_7 : room sent_7 ≡ 1
unfolding handle on_order_sent map_find map_find_from map_insert map_insert_from next_index
    vacancies
room-sent_7 = refl

abbrev order_7 : EmsOrder
order_7 = Ledger.fresh_order 7 100 50

orders_7-held : orders_7 7 ≡ some order_7
unfolding Ledger.step Ledger.step_order
orders_7-held = refl

fills_lem_example :
    (after : ExecutionManagementSystem) × (run_state sent_7 (fills 7 ((20, 100) ∷ (30, 101) ∷ []))
      ≡ some after)
    × (get_order after 7
        ≡ some (
            some (record order_7 {
              executed_quantity = 0 + total ((20, 100) ∷ (30, 101) ∷ []);
              state =
                  if leb 50 (0 + total ((20, 100) ∷ (30, 101) ∷ []))
                  then OrderState.filled
                  else OrderState.partially_filled;
            })))
fills_lem_example =
    fills_lem 20 100 ((30, 101) ∷ []) 7 order_7 sent_7-Models orders_7-held refl
      (unfold total in omega arith)

second : Handled sent_7 orders_7 7 canceled
second = handle_refines sent_7-Models 7 canceled (rw room-sent_7 (omega arith))

abbrev canceled_7 : ExecutionManagementSystem
canceled_7 = state_in (handle sent_7 7 canceled)

abbrev orders_canceled : Orders
orders_canceled = (Ledger.step 7 canceled orders_7).1

canceled_7-Models : Models canceled_7 orders_canceled
canceled_7-Models = rw second.returns second.models

room-canceled_7 : room canceled_7 ≡ 1
unfolding handle on_order_sent on_order_canceled map_find map_find_from map_insert map_insert_from
    next_index vacancies
room-canceled_7 = refl

orders_canceled-held : orders_canceled 7 ≡ some (record order_7 { state = OrderState.canceled })
unfolding Ledger.step Ledger.step_order
orders_canceled-held = refl

dead_stays_dead_example :
    (after : ExecutionManagementSystem) × (o' : EmsOrder) × (run_state canceled_7
        ((7, executed 30 100) ∷ (7, rejected) ∷ [])
      ≡ some after)
    × (get_order after 7 ≡ some (some o'))
    × IsDeadAs 0 50 o'
dead_stays_dead_example =
    dead_stays_dead ((7, executed 30 100) ∷ (7, rejected) ∷ []) 7
      (record order_7 { state = OrderState.canceled }) canceled_7-Models
      (rw room-canceled_7 (unfold Ledger.sends in omega arith)) orders_canceled-held refl

-- A second order fills the table of an EMS that was built for one, and an order is not forgotten.
third : Handled canceled_7 orders_canceled 8 (sent 100 50)
third = handle_refines canceled_7-Models 8 (sent 100 50) (rw room-canceled_7 (omega arith))

abbrev full : ExecutionManagementSystem
full = state_in (handle canceled_7 8 (sent 100 50))

abbrev orders_full : Orders
orders_full = (Ledger.step 8 (sent 100 50) orders_canceled).1

full-Models : Models full orders_full
full-Models = rw third.returns third.models

room-full : room full ≡ 0
unfolding handle on_order_sent on_order_canceled map_find map_find_from map_insert map_insert_from
    next_index vacancies
room-full = refl

orders_full-fresh : orders_full 9 ≡ none
unfolding Ledger.step Ledger.step_order
orders_full-fresh = refl

lookup_never_example : map_find_from full 9 1000 (9 % full.map_capacity) ≡ none
lookup_never_example = lookup_never 9 1000 full-Models orders_full-fresh room-full
