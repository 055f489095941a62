-- ===== src/Ouch/Images.antt =====
-- The bytes of the messages on the wire: strings padded to their fields, integers with the most
-- significant byte first.
use hft_learning.Prelude.{ℕ, ◌≤◌, ◌≡◌, refl, true, List, [], ◌∷◌, ◌++◌, ltb-eq-false}
use hft_learning.Wire.{Buffer, read, to_bytes, reversed, padded}
use hft_learning.Wire.Words.{swapped}
use hft_learning.Ouch.{
  EnterOrder, build_enter_order, build_replace_order, build_cancel_order, write_enter_order,
}

abbrev pub big_endian : ℕ → ℕ → List ℕ
big_endian w x = reversed (to_bytes w x)

-- The 49 bytes of an enter order.
abbrev pub enter_order_image : EnterOrder → List ℕ
enter_order_image order =
    79 ∷ padded 14 order.order_token
    ++ order.buy_sell ∷ big_endian 4 order.shares
    ++ padded 8 order.stock
    ++ big_endian 4 order.price
    ++ big_endian 4 order.time_in_force
    ++ padded 4 order.firm
    ++ order.display ∷ order.capacity ∷ order.iso ∷ big_endian 4 order.min_qty
    ++ order.cross_type ∷ order.customer_type ∷ []

-- The 47 bytes of a replace order.
abbrev pub replace_order_image : List ℕ → List ℕ → ℕ → ℕ → ℕ → ℕ → ℕ → ℕ → List ℕ
replace_order_image existing_token replacement_token shares price time_in_force display iso
      min_qty =
    85 ∷ padded 14 existing_token
    ++ padded 14 replacement_token
    ++ big_endian 4 shares
    ++ big_endian 4 price
    ++ big_endian 4 time_in_force
    ++ display ∷ iso ∷ big_endian 4 min_qty

-- The 19 bytes of a cancel order.
abbrev pub cancel_order_image : List ℕ → ℕ → List ℕ
cancel_order_image order_token shares = 88 ∷ padded 14 order_token ++ big_endian 4 shares

-- Where the length is at least 49, `build_enter_order` returns true and leaves the image of the
-- order at the start of the buffer.
pub build_enter_order-image :
    (buffer : Buffer) (length : ℕ) (order : EnterOrder)
    → 49 ≤ length
    → let (built, sent) = build_enter_order buffer length order in
      (built ≡ true) × (read sent 0 49 ≡ enter_order_image order)
unfolding build_enter_order
build_enter_order-image buffer length order long = rw (ltb-eq-false length 49 long) (refl, image)
  where
    image : read (write_enter_order buffer order) 0 49 ≡ enter_order_image order
    image k =
        79 ∷ padded 14 order.order_token
        ++ order.buy_sell ∷ swapped 4 order.shares k
        ++ padded 8 order.stock
        ++ swapped 4 order.price k
        ++ swapped 4 order.time_in_force k
        ++ padded 4 order.firm
        ++ order.display ∷ order.capacity ∷ order.iso ∷ swapped 4 order.min_qty k
        ++ order.cross_type ∷ order.customer_type ∷ []

-- Where the length is at least 47, `build_replace_order` returns true and leaves the image of the
-- replacement at the start of the buffer.
build_replace_order-image :
    (buffer : Buffer) (length : ℕ) (existing_token replacement_token : List ℕ)
    (shares price time_in_force display iso min_qty : ℕ)
    → 47 ≤ length
    → let (built, sent) =
        build_replace_order buffer length existing_token replacement_token shares price
          time_in_force display iso min_qty in
      (built ≡ true)
      × (read sent 0 47
          ≡ replace_order_image existing_token replacement_token shares price time_in_force display
              iso min_qty)
unfolding build_replace_order
build_replace_order-image buffer length existing_token replacement_token shares price time_in_force
      display iso min_qty long =
    rw (ltb-eq-false length 47 long) (
      refl,
      λ k.
          85 ∷ padded 14 existing_token
          ++ padded 14 replacement_token
          ++ swapped 4 shares k
          ++ swapped 4 price k
          ++ swapped 4 time_in_force k
          ++ display ∷ iso ∷ swapped 4 min_qty k,
    )

-- Where the length is at least 19, `build_cancel_order` returns true and leaves the image of the
-- cancel at the start of the buffer.
build_cancel_order-image :
    (buffer : Buffer) (length : ℕ) (order_token : List ℕ) (shares : ℕ)
    → 19 ≤ length
    → let (built, sent) = build_cancel_order buffer length order_token shares in
      (built ≡ true) × (read sent 0 19 ≡ cancel_order_image order_token shares)
unfolding build_cancel_order
build_cancel_order-image buffer length order_token shares long =
    rw (ltb-eq-false length 19 long) (refl, λ k. 88 ∷ padded 14 order_token ++ swapped 4 shares k)

-- Where the length of its buffer is at least 47, `build_replace_order` returns true and leaves the
-- image of the replacement at the start of the buffer; where the length of its buffer is at least
-- 19, `build_cancel_order` returns true and leaves the image of the cancel there.
pub amendment_images :
    (buffer : Buffer) (replace_length cancel_length : ℕ) (token replacement_token : List ℕ)
    (shares price time_in_force display iso min_qty : ℕ)
    → 47 ≤ replace_length
    → 19 ≤ cancel_length
    → let (replaced, replacement) =
        build_replace_order buffer replace_length token replacement_token shares price time_in_force
          display iso min_qty in
      let (canceled, cancellation) = build_cancel_order buffer cancel_length token shares in
      ((replaced ≡ true)
        × (read replacement 0 47
            ≡ replace_order_image token replacement_token shares price time_in_force display iso
                min_qty))
      × ((canceled ≡ true) × (read cancellation 0 19 ≡ cancel_order_image token shares))
amendment_images buffer replace_length cancel_length token replacement_token shares price
      time_in_force display iso min_qty long long' =
    (
      build_replace_order-image buffer replace_length token replacement_token shares price
          time_in_force display iso min_qty long,
      build_cancel_order-image buffer cancel_length token shares long',
    )
