-- ===== src/Strategy/Sending.antt =====
-- What `sendOrder` does with an order, refused or approved.
use hft_learning.Prelude.{
  Bool, ℕ, ◌+◌, ◌%◌, ◌^◌, ◌<◌, ◌≡◌, ◌≢◌, refl, ap, true, false, Option, none, some, List, ◌++◌,
  arith, take,
}
use hft_learning.Prelude.Arrays.{update}
use hft_learning.Wire.{Buffer}
use hft_learning.Ems.{EmsOrder}
use hft_learning.Ems.Ledger
use hft_learning.Ems.Ledger.{fresh_order}
use hft_learning.Ems.Lookup.{room, Models}
use hft_learning.Ems.Refine.{handle, handle_refines}
use hft_learning.Risk.{RiskCheckStatus, approved, Doubles, check_order, update_position}
use hft_learning.Risk.Check.{signed_shares}
use hft_learning.Ouch.{build_enter_order}
use hft_learning.Ouch.Images.{enter_order_image, build_enter_order-image}
use hft_learning.Egress.{send}
use hft_learning.Egress.Stream.{IsSocket, send-Sends}
use hft_learning.Strategy.{StrategyEngine, is_approved, enter_order, send_order}

is_approved-ne : (status : RiskCheckStatus) → status ≢ approved → is_approved status ≡ false
is_approved-ne status ne = ground arith

module _ {doubles : Doubles} {S : Type 0} (send_bytes : S → List ℕ → Option ℕ × S)
    (engine : StrategyEngine doubles S) (scratch : Buffer) (side shares price : ℕ) (symbol : List ℕ)
    (reference_price : ℕ) where
  -- An order that the risk check does not approve is not sent: `sendOrder` returns false, and the
  -- EMS, the position, the order id counter and the socket are as before.
  pub send_order-refused :
      check_order engine.risk_engine side shares price reference_price ≢ approved
      → send_order send_bytes engine scratch side shares price symbol reference_price
        ≡ some (false, engine)
  unfolding send_order
  send_order-refused ne = rw (is_approved-ne _ ne) refl

  -- The engine after an order: the EMS holds it as new, the position counts it, the next id is free,
  -- its socket is what the gateway's `send` of the 49 bytes of its message left, and the first `sent`
  -- bytes of the message are on the stream, all of them if that `send` has answered true.
  pub record Sent (stream : S → List ℕ) (orders : ℕ → Option EmsOrder) : Type 0 where
    pub after : StrategyEngine doubles S
    pub sent : ℕ
    pub answer : Bool
    pub returns :
        send_order send_bytes engine scratch side shares price symbol reference_price
        ≡ some (true, after)
    pub tracked : Models after.ems (
        update orders engine.order_id_counter
          (some (fresh_order engine.order_id_counter price shares)))
    pub counted : after.risk_engine ≡ update_position engine.risk_engine (signed_shares side shares)
    pub next_id : after.order_id_counter ≡ (engine.order_id_counter + 1) % 2 ^ 64
    pub sends :
        send send_bytes engine.tcp_egress engine.socket
          (enter_order_image (enter_order engine.order_id_counter side shares price symbol))
          49
        ≡ some (answer, after.socket)
    pub all_sent : answer ≡ true → sent ≡ 49
    pub streamed :
        stream after.socket
        ≡ stream engine.socket
          ++ take sent
              (enter_order_image (enter_order engine.order_id_counter side shares price symbol))

  module _ {stream : S → List ℕ} {orders : ℕ → Option EmsOrder}
      (lawful : IsSocket send_bytes stream) (m : Models engine.ems orders) where
    pub send_order-Sent :
        check_order engine.risk_engine side shares price reference_price ≡ approved
        → orders engine.order_id_counter ≡ none
        → 0 < room engine.ems
        → Sent stream orders
    unfolding send_order handle Ledger.step Ledger.step_order build_enter_order
    send_order-Sent ok fresh more =
        let h = handle_refines m engine.order_id_counter (Ledger.sent price shares) more in
        let order = enter_order engine.order_id_counter side shares price symbol in
        let (built, image) = build_enter_order-image scratch 64 order (omega arith) in
        let s =
          send-Sends lawful engine.tcp_egress engine.socket (enter_order_image order)
            (omega arith) in
        record {
          after = record engine {
            ems = h.after;
            order_id_counter = (engine.order_id_counter + 1) % 2 ^ 64;
            risk_engine = update_position engine.risk_engine (signed_shares side shares);
            socket = s.after;
          };
          sent = s.sent;
          answer = s.answer;
          returns = rw (ap is_approved ok, h.returns, image, s.returns) refl;
          tracked = rw fresh at h.models;
          counted = refl;
          next_id = refl;
          sends = s.returns;
          all_sent = s.all_sent;
          streamed = s.appended;
        }
