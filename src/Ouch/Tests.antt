-- ===== src/Ouch/Tests.antt =====
-- Concrete orders.
use hft_learning.Prelude.{◌≡◌, true, [], ◌∷◌, arith}
use hft_learning.Wire.{Buffer, read}
use hft_learning.Ouch.{
  EnterOrder, build_enter_order, build_replace_order, build_cancel_order, parse_enter_order, copied,
}
use hft_learning.Ouch.Roundtrip.{Fits, message, parse_enter_order-build_enter_order}
use hft_learning.Ouch.Images.{
  enter_order_image, replace_order_image, cancel_order_image, build_enter_order-image,
  amendment_images,
}

abbrev zeros : Buffer
zeros i = 0

-- "ORD00000001000", "AAPL" and "TEST"
abbrev order : EnterOrder
order = record {
  order_token = 79 ∷ 82 ∷ 68 ∷ 48 ∷ 48 ∷ 48 ∷ 48 ∷ 48 ∷ 48 ∷ 48 ∷ 49 ∷ 48 ∷ 48 ∷ 48 ∷ [];
  buy_sell = 83;
  shares = 100;
  stock = 65 ∷ 65 ∷ 80 ∷ 76 ∷ [];
  price = 15000;
  time_in_force = 99998;
  firm = 84 ∷ 69 ∷ 83 ∷ 84 ∷ [];
  display = 89;
  capacity = 79;
  iso = 78;
  min_qty = 0;
  cross_type = 78;
  customer_type = 78;
}

order-Fits : Fits order
order-Fits = record {
  shares = omega arith;
  price = omega arith;
  time_in_force = omega arith;
  min_qty = omega arith;
}

parse_enter_order-build_enter_order_example :
    ((build_enter_order zeros 64 order).0 ≡ true)
    × (parse_enter_order (build_enter_order zeros 64 order).1 64 (copied zeros)
        ≡ (true, message order))
parse_enter_order-build_enter_order_example =
    parse_enter_order-build_enter_order zeros 64 order (copied zeros) (omega arith) order-Fits

build_enter_order-image_example :
    ((build_enter_order zeros 64 order).0 ≡ true)
    × (read (build_enter_order zeros 64 order).1 0 49 ≡ enter_order_image order)
build_enter_order-image_example = build_enter_order-image zeros 64 order (omega arith)

amendment_images_example :
    let (replaced, replacement) =
      build_replace_order zeros 64 (79 ∷ []) (80 ∷ []) 100 15000 99998 89 78 0 in
    let (canceled, cancellation) = build_cancel_order zeros 19 (79 ∷ []) 100 in
    ((replaced ≡ true)
      × (read replacement 0 47 ≡ replace_order_image (79 ∷ []) (80 ∷ []) 100 15000 99998 89 78 0))
    × ((canceled ≡ true) × (read cancellation 0 19 ≡ cancel_order_image (79 ∷ []) 100))
amendment_images_example =
    amendment_images zeros 64 19 (79 ∷ []) (80 ∷ []) 100 15000 99998 89 78 0 (omega arith)
      (omega arith)
