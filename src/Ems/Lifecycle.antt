-- ===== src/Ems/Lifecycle.antt =====
-- What an order goes through under its handlers, whatever events come and in whatever order.
use hft_learning.Prelude.{
  ℕ, ◌+◌, ◌%◌, ◌^◌, ◌<◌, ◌≡◌, refl, sym, ap, ◌∙◌, Bool, true, false, ◌||◌, Option, none, some,
  arith, List, [], ◌∷◌, leb, if◌then◌else◌,
}
use mathlib.Core.Path.{subst}
use native.Mathlib.Decide.{ℕ_discrete}
use hft_learning.Prelude.Arrays.{update_self, update_ne}
use hft_learning.Prelude.Loops.{◌>>=◌}
use hft_learning.Ems.Status.{OrderState, is_pending_new, is_canceled, is_rejected}
use hft_learning.Ems.Ledger
use hft_learning.Ems.Ledger.{Event, sent, accepted, rejected, executed, canceled, Orders, fill}
use hft_learning.Ems.Lookup.{room, Models, get_order-Models, get_order-present}
use hft_learning.Ems.Refine.{handle, handle_refines, handle_held_refines, sends-cons}
use hft_learning.Ems.{EmsOrder, ExecutionManagementSystem, get_order}

-- The state after a sequence of events; `none` if some handler does not return.
unfoldable pub run_state :
    ExecutionManagementSystem → List (ℕ × Event) → Option ExecutionManagementSystem
run_state ems [] = some ems
run_state ems ((id, event) ∷ events) = handle ems id event >>= λ reply. run_state reply.1 events

pub run_state-Models :
    (events : List (ℕ × Event)) {ems : ExecutionManagementSystem} {orders : Orders}
    → Models ems orders
    → Ledger.sends events < room ems
    → (after : ExecutionManagementSystem) × (run_state ems events ≡ some after)
      × Models after (Ledger.final orders events)
      × (0 < room after)
unfolding run_state Ledger.final Ledger.sends
run_state-Models [] {ems} m more = (ems, refl, m, more)
run_state-Models ((id, event) ∷ events) {ems} {orders} m more =
    let h = handle_refines m id event (omega (arith, sends-cons id event events)) in
    let (after, run, models, space) =
      run_state-Models events h.models (omega (arith, sends-cons id event events, h.space)) in
    (after, rw h.returns run, models, space)

-- Canceled or rejected: no fill is taken any more.
abbrev pub is_dead : OrderState → Bool
is_dead state = is_canceled state || is_rejected state

-- `o` is a dead order with what it had executed when it died.
pub record IsDeadAs (executed_quantity original_quantity : ℕ) (o : EmsOrder) : Type 0 where
  pub over : is_dead o.state ≡ true
  pub executed : o.executed_quantity ≡ executed_quantity
  pub original : o.original_quantity ≡ original_quantity

abbrev DeadAt : ℕ → ℕ → Option EmsOrder → Type 0
DeadAt x y none = ⊥
DeadAt x y (some o) = IsDeadAs x y o

dead-not-pending : (state : OrderState) → is_dead state ≡ true → is_pending_new state ≡ false
dead-not-pending state h = ground arith

step-DeadAt :
    (id x y : ℕ) (event : Event) (o : Option EmsOrder)
    → DeadAt x y o
    → DeadAt x y (Ledger.step_order id event o).1
unfolding Ledger.step_order
step-DeadAt id x y (sent p q) (some o) h = h
step-DeadAt id x y accepted (some o) h = rw (dead-not-pending o.state h.over) h
step-DeadAt id x y rejected (some o) h = ground arith
step-DeadAt id x y (executed q p) (some o) h = rw h.over h
step-DeadAt id x y canceled (some o) h = ground arith
step-DeadAt id x y event none h = absurd h

final-DeadAt :
    (events : List (ℕ × Event)) (orders : Orders) (id x y : ℕ)
    → DeadAt x y (orders id)
    → DeadAt x y (Ledger.final orders events id)
unfolding Ledger.final Ledger.step
final-DeadAt [] orders id x y h = h
final-DeadAt ((j, event) ∷ events) orders id x y h =
    final-DeadAt events (Ledger.step j event orders).1 id x y (elim (ℕ_discrete id j) [
      | yes same ↦
          subst (DeadAt x y)
            (sym (rw same (update_self orders j (Ledger.step_order j event (orders j)).1)))
            (step-DeadAt j x y event (orders j) (rw same at h))
      | no other ↦
          subst (DeadAt x y)
            (sym (update_ne orders j (Ledger.step_order j event (orders j)).1 id other)) h
    ])

DeadAt-some :
    (x y : ℕ) (o : Option EmsOrder)
    → DeadAt x y o
    → (o' : EmsOrder) × (o ≡ some o') × IsDeadAs x y o'
DeadAt-some x y none h = absurd h
DeadAt-some x y (some o) h = (o, refl, h)

-- Once an order is canceled or rejected, it stays canceled or rejected, with the quantity that it had
-- executed, under every further sequence of events for it and for other orders that asks for fewer
-- new orders than there are vacant slots, so that all its handlers return.
pub dead_stays_dead :
    (events : List (ℕ × Event)) (id : ℕ) (o : EmsOrder) {ems : ExecutionManagementSystem}
    {orders : Orders}
    → Models ems orders
    → Ledger.sends events < room ems
    → orders id ≡ some o
    → is_dead o.state ≡ true
    → (after : ExecutionManagementSystem) × (o' : EmsOrder) × (run_state ems events ≡ some after)
      × (get_order after id ≡ some (some o'))
      × IsDeadAs o.executed_quantity o.original_quantity o'
dead_stays_dead events id o {ems} {orders} m more e over =
    let (after, run, models, space) = run_state-Models events m more in
    let start : DeadAt o.executed_quantity o.original_quantity (orders id) =
      rw e (record { over = over; executed = refl; original = refl }) in
    let (o', held, dead) =
      DeadAt-some o.executed_quantity o.original_quantity (Ledger.final orders events id)
        (final-DeadAt events orders id o.executed_quantity o.original_quantity start) in
    (after, o', run, get_order-Models models id space ∙ ap some held, dead)

-- fills of one order, each at any price
unfoldable pub fills : ℕ → List (ℕ × ℕ) → List (ℕ × Event)
fills id [] = []
fills id ((quantity, price) ∷ qs) = (id, executed quantity price) ∷ fills id qs

unfoldable pub total : List (ℕ × ℕ) → ℕ
total [] = 0
total ((quantity, price) ∷ qs) = quantity + total qs

fill-fill :
    (o : EmsOrder) (a b : ℕ)
    → o.executed_quantity + (a + b) < 2 ^ 32
    → fill (fill o a) b ≡ fill o (a + b)
fill-fill o a b h =
    let small : ((o.executed_quantity + a) % 2 ^ 32 + b) % 2 ^ 32
        ≡ (o.executed_quantity + (a + b)) % 2 ^ 32 =
      omega arith in
    rw small

fill-alive : (o : EmsOrder) (a : ℕ) → is_dead (fill o a).state ≡ false
fill-alive o a = ground arith

step-fill :
    (q p : ℕ) (orders : Orders) (id : ℕ) (o : EmsOrder)
    → orders id ≡ some o
    → is_dead o.state ≡ false
    → (Ledger.step id (executed q p) orders).1 id ≡ some (fill o q)
unfolding Ledger.step Ledger.step_order
step-fill q p orders id o e alive =
    update_self orders id (Ledger.step_order id (executed q p) (orders id)).1 ∙ rw (e, alive)

-- Fills of a held order are handled to the last one, even where no slot is vacant.
run_state-fills :
    (q p : ℕ) (qs : List (ℕ × ℕ)) (id : ℕ) (o : EmsOrder) {ems : ExecutionManagementSystem}
    {orders : Orders}
    → Models ems orders
    → orders id ≡ some o
    → is_dead o.state ≡ false
    → o.executed_quantity + total ((q, p) ∷ qs) < 2 ^ 32
    → (after : ExecutionManagementSystem) × (run_state ems (fills id ((q, p) ∷ qs)) ≡ some after)
      × (get_order after id ≡ some (some (fill o (total ((q, p) ∷ qs)))))
unfolding run_state fills total
run_state-fills q p [] id o m e alive small =
    let h = handle_held_refines m id (executed q p) e in
    (
      h.after,
      rw h.returns refl,
      get_order-present h.models id (step-fill q p _ id o e alive)
          ∙ ap (λ (n : ℕ). some (some (fill o n))) (omega arith),
    )
run_state-fills q p ((r, s) ∷ qs) id o m e alive small =
    let h = handle_held_refines m id (executed q p) e in
    let (after, run, held) =
      run_state-fills r s qs id (fill o q) h.models (step-fill q p _ id o e alive) (fill-alive o q)
        (omega arith) in
    (after, rw h.returns run, held ∙ ap (λ o. some (some o)) (fill-fill o q (r + total qs) small))

-- A live order that receives one or more fills, with a total that a uint32_t can hold, has executed
-- that total on top of what it had, and is FILLED if that reaches its quantity, else
-- PARTIALLY_FILLED. Its other fields stay. So it is in a full table too.
pub fills_lem :
    (q p : ℕ) (qs : List (ℕ × ℕ)) (id : ℕ) (o : EmsOrder) {ems : ExecutionManagementSystem}
    {orders : Orders}
    → Models ems orders
    → orders id ≡ some o
    → is_dead o.state ≡ false
    → o.executed_quantity + total ((q, p) ∷ qs) < 2 ^ 32
    → let executed_quantity = o.executed_quantity + total ((q, p) ∷ qs) in
      (after : ExecutionManagementSystem) × (run_state ems (fills id ((q, p) ∷ qs)) ≡ some after)
      × (get_order after id
          ≡ some (
              some (record o {
                executed_quantity = executed_quantity;
                state =
                    if leb o.original_quantity executed_quantity
                    then OrderState.filled
                    else OrderState.partially_filled;
              })))
fills_lem q p qs id o m e alive small =
    let (after, run, held) = run_state-fills q p qs id o m e alive small in
    let exact : (o.executed_quantity + total ((q, p) ∷ qs)) % 2 ^ 32
        ≡ o.executed_quantity + total ((q, p) ∷ qs) =
      omega arith in
    (after, run, held ∙ rw exact)
