-- ===== src/Emulator/Echo.antt =====
-- An order that the strategy engine sends comes back as market data.
use mathlib.Core.Path.{subst}
use hft_learning.Prelude.{
  ℕ, zero, suc, ◌+◌, ◌%◌, ◌^◌, ◌≤◌, ◌<◌, ◌≡◌, refl, sym, ap, ◌∙◌, true, List, [], ◌∷◌, ◌++◌, arith,
  ◌==◌, if◌then◌else◌,
}
use hft_learning.Prelude.Int.{pos}
use hft_learning.Wire.{Buffer, read, first_or, rest_of}
use hft_learning.Book.Types.{buy, sell}
use hft_learning.Itch.{InternalMessage, parse, write_add_order}
use hft_learning.Itch.Bounds.{parse-agree}
use hft_learning.Itch.Roundtrip.{build_add_order-written, parse-written}
use hft_learning.Ouch.{
  EnterOrder, EnterOrderMsg, build_enter_order, write_enter_order, parse_enter_order,
}
use hft_learning.Ouch.Bounds.{parse_enter_order-agree}
use hft_learning.Ouch.Roundtrip
use hft_learning.Ouch.Roundtrip.{Fits, message, build_enter_order-written}
use hft_learning.Emulator.{ExchangeEmulator, c_string, on_parsed, on_client}

-- What bytes alike say of the buffers.
agree-read :
    (b b' : Buffer) (offset n : ℕ)
    → read b' offset n ≡ read b offset n
    → (i : ℕ) → i < n
    → b' (offset + i) ≡ b (offset + i)
agree-read b b' offset zero e i lt = absurd (omega arith)
agree-read b b' offset (suc n) e zero lt =
    let here : offset + 0 ≡ offset = omega arith in rw here (ap (λ bs. first_or 0 bs) e)
agree-read b b' offset (suc n) e (suc i) lt =
    let on : offset + suc i ≡ offset + 1 + i = omega arith in
    rw on (agree-read b b' (offset + 1) n (ap rest_of e) i (omega (arith, lt)))

agree_at : (b b' : Buffer) (n : ℕ) → read b' 0 n ≡ read b 0 n → (i : ℕ) → i < n → b' i ≡ b i
agree_at b b' n e i lt =
    let here : 0 + i ≡ i = omega arith in subst (λ i. b' i ≡ b i) here (agree-read b b' 0 n e i lt)

-- The emulator has broadcast one datagram more, in which the feed of the trading system finds this
-- message.
pub record Echoes {S : Type 0} (broadcasts : S → List (List ℕ)) (before after : ExchangeEmulator S)
    (buy_sell shares price : ℕ) : Type 0 where
  pub datagram : List ℕ
  pub sent : broadcasts after.system ≡ broadcasts before.system ++ datagram ∷ []
  pub counted : after.order_ref_counter ≡ (before.order_ref_counter + 1) % 2 ^ 64
  pub received :
      (buffer : Buffer) (stale : InternalMessage)
      → read buffer 0 36 ≡ datagram
      → parse buffer 36 stale ≡ (
        true,
        record {
          type = 65;
          id = before.order_ref_counter;
          price = price;
          quantity = shares;
          side = if buy_sell == 66 then buy else sell;
        },
      )

module _ {S : Type 0} (send_to : S → List ℕ → S) (close : S → S) {broadcasts : S → List (List ℕ)}
    (sends : (s : S) (bytes : List ℕ) → broadcasts (send_to s bytes) ≡ broadcasts s ++ bytes ∷ [])
    (emulator : ExchangeEmulator S) (counter_fits : emulator.order_ref_counter < 2 ^ 64)
    (itch_buffer : Buffer) (ts_ns : ℕ) (behind : List ℕ) where
  on_parsed-Echoes :
      (msg : EnterOrderMsg)
      → msg.shares < 2 ^ 32
      → msg.price < 2 ^ 32
      → Echoes broadcasts emulator
          (on_parsed send_to close emulator itch_buffer ts_ns behind (true, msg))
          msg.buy_sell_indicator
          msg.shares
          msg.price
  on_parsed-Echoes msg shares_fit price_fit =
      let stock = c_string (msg.stock ++ behind) in
      let id = emulator.order_ref_counter in
      let built =
        build_add_order-written itch_buffer 1 1 ts_ns id msg.buy_sell_indicator msg.shares stock
          msg.price 128 (omega arith) in
      let sent =
        write_add_order itch_buffer 1 1 ts_ns id msg.buy_sell_indicator msg.shares stock
          msg.price in
      rw built (record {
        datagram = read sent 0 36;
        sent = sends emulator.system (read sent 0 36);
        counted = refl;
        received = λ buffer stale same.
            parse-agree sent buffer 36 (λ i lt. agree_at sent buffer 36 same i lt) stale
            ∙ parse-written itch_buffer 1 1 ts_ns id msg.buy_sell_indicator msg.shares stock
                msg.price 36 stale (omega arith) counter_fits shares_fit price_fit;
      })

  -- Where an enter order, whose integers fit 32 bits, was built in a buffer that is long enough, the
  -- emulator has read exactly its 49 bytes and its counter fits 64 bits, it broadcasts one datagram;
  -- what the feed of the trading system parses from it is an add of the next reference number, with
  -- the shares and the price of the order, a buy if the order is one and else a sell.
  pub on_client-Echoes :
      (order : EnterOrder) (scratch buffer : Buffer) (room : ℕ) (stale : EnterOrderMsg)
      → Fits order
      → 49 ≤ room
      → read buffer 0 49 ≡ read (build_enter_order scratch room order).1 0 49
      → Echoes broadcasts emulator
          (on_client send_to close emulator buffer (pos 49) stale itch_buffer ts_ns behind)
          order.buy_sell
          order.shares
          order.price
  unfolding on_client
  on_client-Echoes order scratch buffer room stale f long same =
      let out = write_enter_order scratch order in
      let parsed : parse_enter_order buffer 49 stale ≡ (true, message order) =
        parse_enter_order-agree out buffer 49 stale (λ i lt.
          agree_at out buffer 49
            (same ∙ ap (λ r. read r.1 0 49) (build_enter_order-written scratch room order long)) i
            lt)
        ∙ Roundtrip.parse-written scratch 49 order stale (omega arith) f in
      subst
        (λ reply.
          Echoes broadcasts emulator
            (on_parsed send_to close emulator itch_buffer ts_ns behind reply) order.buy_sell
            order.shares order.price)
        (sym parsed) (on_parsed-Echoes (message order) f.shares f.price)
