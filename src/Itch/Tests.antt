-- ===== src/Itch/Tests.antt =====
-- Concrete messages.
use hft_learning.Prelude.{ℕ, ◌≡◌, true, List, [], ◌∷◌, arith}
use hft_learning.Prelude.Arrays.{update, update_ne}
use hft_learning.Book.Types.{buy, sell}
use hft_learning.Wire.{Buffer}
use hft_learning.Itch.{InternalMessage, parse, build_add_order, write_add_order}
use hft_learning.Itch.Roundtrip.{parse-build_add_order}
use hft_learning.Itch.Bounds.{parse-agree}

abbrev zeros : Buffer
zeros i = 0

abbrev unset : InternalMessage
unset = record { type = 0; id = 0; price = 0; quantity = 0; side = sell }

-- "AAPL"
abbrev apple : List ℕ
apple = 65 ∷ 65 ∷ 80 ∷ 76 ∷ []

parse-build_add_order_example :
    ((build_add_order zeros 40 1 2 3 77 66 100 apple 15000).0 ≡ true)
    × (parse (build_add_order zeros 40 1 2 3 77 66 100 apple 15000).1 40 unset
        ≡ (true, record { type = 65; id = 77; price = 15000; quantity = 100; side = buy }))
parse-build_add_order_example =
    parse-build_add_order zeros 1 2 3 77 66 100 apple 15000 40 unset (omega arith) (omega arith)
      (omega arith) (omega arith)

-- a buffer with other bytes from 36 on
abbrev longer : Buffer
longer = update (write_add_order zeros 1 2 3 77 66 100 apple 15000) 36 9

parse-agree_example :
    parse longer 36 unset ≡ parse (write_add_order zeros 1 2 3 77 66 100 apple 15000) 36 unset
parse-agree_example =
    parse-agree (write_add_order zeros 1 2 3 77 66 100 apple 15000) longer 36
      (λ i lt.
        update_ne (write_add_order zeros 1 2 3 77 66 100 apple 15000) 36 9 i
          (λ e. absurd (omega arith)))
      unset
