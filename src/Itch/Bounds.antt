-- ===== src/Itch/Bounds.antt =====
-- The parser and the builder stay within the buffer that they are given.
use hft_learning.Prelude.{
  ℕ, ◌+◌, ◌<◌, ◌≤◌, ◌≡◌, inl, inr, refl, ap, ◌∙◌, true, List, [], ◌∷◌, arith, ◌==◌, ltb,
  if◌then◌else◌, Bool-cases,
}
use hft_learning.Book.Types.{buy, sell}
use hft_learning.Wire.{Buffer, write, load, store, bswap, padded, to_bytes, from_bytes}
use hft_learning.Wire.Windows.{write-behind, read-agree, if-agree, le_of_ltb}
use hft_learning.Itch.{
  InternalMessage, parse, build_add_order, write_add_order, write_timestamp, timestamp_bytes,
}

module _ (buffer buffer' : Buffer) (length : ℕ)
    (same : (i : ℕ) → i < length → buffer' i ≡ buffer i) where
  load-agree : (w offset : ℕ) → offset + w ≤ length → load w buffer' offset ≡ load w buffer offset
  load-agree w offset h = ap from_bytes (read-agree buffer buffer' offset w length h same)

  field :
      (w offset : ℕ)
      → offset + w ≤ length
      → bswap w (load w buffer' offset) ≡ bswap w (load w buffer offset)
  field w offset h = ap (bswap w) (load-agree w offset h)

  -- `parse` reads no byte behind the length that it is given: for two buffers that agree up to it,
  -- it gives the same answer and the same message.
  pub parse-agree :
      (out_msg : InternalMessage) → parse buffer' length out_msg ≡ parse buffer length out_msg
  unfolding parse
  parse-agree out_msg =
      if-agree (length == 0) (λ _. refl)
        (λ some_length. rw (same 0 (ground arith)) (
          if-agree (buffer 0 == 65)
            (λ _.
              if-agree (ltb length 36) (λ _. refl)
                (λ long. λ k. (
                  true,
                  record out_msg {
                    type = buffer 0;
                    id = field 8 11 (omega (arith, le_of_ltb length 36 long)) k;
                    quantity = field 4 20 (omega (arith, le_of_ltb length 36 long)) k;
                    price = field 4 32 (le_of_ltb length 36 long) k;
                    side =
                        ap (λ b. if b == 66 then buy else sell)
                          (same 19 (omega (arith, le_of_ltb length 36 long))) k;
                  },
                )))
            (λ _.
              if-agree (buffer 0 == 88)
                (λ _.
                  if-agree (ltb length 23) (λ _. refl)
                    (λ long. λ k. (
                      true,
                      record out_msg {
                        type = buffer 0;
                        id = field 8 11 (omega (arith, le_of_ltb length 23 long)) k;
                        quantity = field 4 19 (le_of_ltb length 23 long) k;
                      },
                    )))
                (λ _.
                  if-agree (buffer 0 == 68)
                    (λ _.
                      if-agree (ltb length 19) (λ _. refl)
                        (λ long. λ k. (
                          true,
                          record out_msg {
                            type = buffer 0;
                            id = field 8 11 (le_of_ltb length 19 long) k;
                          },
                        )))
                    (λ _.
                      if-agree (buffer 0 == 69)
                        (λ _.
                          if-agree (ltb length 31) (λ _. refl)
                            (λ long. λ k. (
                              true,
                              record out_msg {
                                type = buffer 0;
                                id = field 8 11 (omega (arith, le_of_ltb length 31 long)) k;
                                quantity = field 4 19 (omega (arith, le_of_ltb length 31 long)) k;
                              },
                            )))
                        (λ _.
                          if-agree (buffer 0 == 67)
                            (λ _.
                              if-agree (ltb length 36) (λ _. refl)
                                (λ long. λ k. (
                                  true,
                                  record out_msg {
                                    type = buffer 0;
                                    id = field 8 11 (omega (arith, le_of_ltb length 36 long)) k;
                                    quantity =
                                        field 4 19 (omega (arith, le_of_ltb length 36 long)) k;
                                    price = field 4 32 (le_of_ltb length 36 long) k;
                                  },
                                )))
                            (λ _. refl)))))))

module _ (buffer : Buffer)
    (stock_locate tracking_number timestamp order_ref_number buy_sell shares : ℕ) (stock : List ℕ)
    (price : ℕ) where
  write_add_order-behind :
      (i : ℕ)
      → 36 ≤ i
      → write_add_order buffer stock_locate tracking_number timestamp order_ref_number buy_sell
          shares stock price i
        ≡ buffer i
  write_add_order-behind i h =
      let buffer₁ = write buffer 0 (65 ∷ []) in
      let buffer₂ = store 2 buffer₁ 1 (bswap 2 stock_locate) in
      let buffer₃ = store 2 buffer₂ 3 (bswap 2 tracking_number) in
      let buffer₄ = write_timestamp buffer₃ 5 timestamp in
      let buffer₅ = store 8 buffer₄ 11 (bswap 8 order_ref_number) in
      let buffer₆ = write buffer₅ 19 (buy_sell ∷ []) in
      let buffer₇ = store 4 buffer₆ 20 (bswap 4 shares) in
      let buffer₈ = write buffer₇ 24 (padded 8 stock) in
      write-behind buffer₈ 32 (to_bytes 4 (bswap 4 price)) i h
      ∙ write-behind buffer₇ 24 (padded 8 stock) i (omega arith)
      ∙ write-behind buffer₆ 20 (to_bytes 4 (bswap 4 shares)) i (omega arith)
      ∙ write-behind buffer₅ 19 (buy_sell ∷ []) i (omega arith)
      ∙ write-behind buffer₄ 11 (to_bytes 8 (bswap 8 order_ref_number)) i (omega arith)
      ∙ write-behind buffer₃ 5 (timestamp_bytes timestamp) i (omega arith)
      ∙ write-behind buffer₂ 3 (to_bytes 2 (bswap 2 tracking_number)) i (omega arith)
      ∙ write-behind buffer₁ 1 (to_bytes 2 (bswap 2 stock_locate)) i (omega arith)
      ∙ write-behind buffer 0 (65 ∷ []) i (omega arith)

  -- `build_add_order` writes no byte behind the length that it is given.
  pub build_add_order-behind :
      (length i : ℕ)
      → length ≤ i
      → (build_add_order buffer length stock_locate tracking_number timestamp order_ref_number
            buy_sell shares stock price).1
          i
        ≡ buffer i
  unfolding build_add_order
  build_add_order-behind length i h = elim (Bool-cases (ltb length 36)) [
    | inl short ↦ rw short refl
    | inr long ↦ rw long (write_add_order-behind i (omega (arith, le_of_ltb length 36 long)))
  ]
