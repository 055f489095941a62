-- ===== src/Emulator.antt =====
-- src/ExchangeEmulator.cpp: the test exchange, which takes enter orders over TCP and broadcasts each
-- as an add order over UDP. `sendto` and `close` are parameters, as are the time, what the buffers
-- hold before and the bytes that follow the stock in memory.
pub mod Echo
mod Tests
use hft_learning.Prelude.{
  ℕ, zero, suc, ◌+◌, ◌%◌, ◌^◌, Bool, true, false, Option, none, some, List, [], ◌∷◌, ◌++◌, ◌==◌,
  if◌then◌else◌,
}
use hft_learning.Prelude.Int.{ℤ, pos, negsuc}
use hft_learning.Wire.{Buffer, read}
use hft_learning.Itch.{build_add_order, add_order_size}
use hft_learning.Ouch.{EnterOrderMsg, parse_enter_order}
use hft_learning.EventLoop.{Network, NetworkEventLoop, add_tcp_client}

-- What the callbacks share; `system` is the state of the operating system.
pub record ExchangeEmulator (S : Type 0) : Type 0 where
  pub order_ref_counter : ℕ
  pub system : S

-- the emulator as `main` starts it
abbrev pub exchange_emulator : {S : Type 0} → S → ExchangeEmulator S
exchange_emulator system = record { order_ref_counter = 500000; system = system }

-- A `const char*` into memory: the characters before the first zero.
abbrev pub c_string : List ℕ → List ℕ
c_string [] = []
c_string (c ∷ cs) = if c == 0 then [] else c ∷ c_string cs

module _ {S : Type 0} (send_to : S → List ℕ → S) (close : S → S) where
  -- `sendto`, if the message was built
  abbrev pub broadcast : ExchangeEmulator S → Bool × Buffer → ExchangeEmulator S
  broadcast emulator (false, itch_buffer) = emulator
  broadcast emulator (true, itch_buffer) = record emulator {
    system = send_to emulator.system (read itch_buffer 0 add_order_size);
  }

  -- What the parser made of the bytes; `behind` is what stands behind `ouch_msg.stock`, an array
  -- without a terminating zero that is used as a string.
  abbrev pub on_parsed :
      ExchangeEmulator S → Buffer → ℕ → List ℕ → Bool × EnterOrderMsg → ExchangeEmulator S
  on_parsed emulator itch_buffer ts_ns behind (false, ouch_msg) = emulator
  on_parsed emulator itch_buffer ts_ns behind (true, ouch_msg) =
      let counted = record emulator {
        order_ref_counter = (emulator.order_ref_counter + 1) % 2 ^ 64;
      } in
      broadcast counted (
        build_add_order itch_buffer 128 1 1 ts_ns emulator.order_ref_counter
          ouch_msg.buy_sell_indicator ouch_msg.shares (c_string (ouch_msg.stock ++ behind))
          ouch_msg.price)

  -- The callback of a client's socket, behind `recv`.
  unfoldable pub on_client :
      ExchangeEmulator S → Buffer → ℤ → EnterOrderMsg → Buffer → ℕ → List ℕ → ExchangeEmulator S
  on_client emulator buffer (negsuc n) stale itch_buffer ts_ns behind = emulator
  on_client emulator buffer (pos bytes_read) stale itch_buffer ts_ns behind =
      if bytes_read == 0
      then record emulator { system = close emulator.system }
      else on_parsed emulator itch_buffer ts_ns behind (parse_enter_order buffer bytes_read stale)

-- "0.0.0.0"
abbrev pub any_address : List ℕ
any_address = 48 ∷ 46 ∷ 48 ∷ 46 ∷ 48 ∷ 46 ∷ 48 ∷ []

-- The callback of the listener, behind `accept`, whose descriptor goes into the closure only.
unfoldable pub on_connection :
    {C S : Type 0} → Network S → NetworkEventLoop C S → Option ℕ → (ℕ → C) → NetworkEventLoop C S
on_connection net loop none client = loop
on_connection net loop (some client_fd) client =
    (add_tcp_client net loop any_address 0 (client client_fd)).1
