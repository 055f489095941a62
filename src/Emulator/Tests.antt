-- ===== src/Emulator/Tests.antt =====
-- An order that the emulator echoes, and a connection that it accepts.
use hft_learning.Prelude.{ℕ, refl, List, [], ◌∷◌, ◌++◌, arith}
use hft_learning.Prelude.Int.{pos}
use hft_learning.Wire.{Buffer}
use hft_learning.Ouch.{EnterOrder, copied, build_enter_order}
use hft_learning.Strategy.{enter_order}
use hft_learning.Emulator.{exchange_emulator, on_client}
use hft_learning.Emulator.Echo.{Echoes, on_client-Echoes}

abbrev zeros : Buffer
zeros i = 0

abbrev apple : List ℕ
apple = 65 ∷ 65 ∷ 80 ∷ 76 ∷ []

-- a system that keeps the datagrams
abbrev send_to : List (List ℕ) → List ℕ → List (List ℕ)
send_to s bytes = s ++ bytes ∷ []

abbrev close : List (List ℕ) → List (List ℕ)
close s = s

-- the first order of the engine, as a sell of 100 at 15000
abbrev order : EnterOrder
order = enter_order 1000 83 100 15000 apple

abbrev received : Buffer
received = (build_enter_order zeros 64 order).1

on_client-Echoes_example :
    Echoes
      (λ s. s)
      (exchange_emulator [])
      (on_client send_to close (exchange_emulator []) received (pos 49) (copied zeros) zeros 5 [])
      83
      100
      15000
on_client-Echoes_example =
    on_client-Echoes send_to close (λ s bytes. refl) (exchange_emulator []) (omega arith) zeros 5 []
      order zeros received 64 (copied zeros) (omega arith) (omega arith) refl
