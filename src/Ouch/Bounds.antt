-- ===== src/Ouch/Bounds.antt =====
-- The builders and the parser stay within the buffer that they are given.
use hft_learning.Prelude.{
  ℕ, ◌+◌, ◌<◌, ◌≤◌, ◌≡◌, inl, inr, refl, ap, ◌∙◌, true, not, [], ◌∷◌, arith, ltb, ◌==◌, Bool-cases,
}
use hft_learning.Wire.{Buffer, write, load, store, bswap, padded, to_bytes, from_bytes}
use hft_learning.Wire.Windows.{write-behind, read-agree, if-agree, le_of_ltb}
use hft_learning.Ouch.{
  EnterOrder, EnterOrderMsg, build_enter_order, write_enter_order, parse_enter_order,
}

write_enter_order-behind :
    (buffer : Buffer) (order : EnterOrder) (i : ℕ)
    → 49 ≤ i
    → write_enter_order buffer order i ≡ buffer i
write_enter_order-behind buffer order i h =
    let buffer₁ = write buffer 0 (79 ∷ []) in
    let buffer₂ = write buffer₁ 1 (padded 14 order.order_token) in
    let buffer₃ = write buffer₂ 15 (order.buy_sell ∷ []) in
    let buffer₄ = store 4 buffer₃ 16 (bswap 4 order.shares) in
    let buffer₅ = write buffer₄ 20 (padded 8 order.stock) in
    let buffer₆ = store 4 buffer₅ 28 (bswap 4 order.price) in
    let buffer₇ = store 4 buffer₆ 32 (bswap 4 order.time_in_force) in
    let buffer₈ = write buffer₇ 36 (padded 4 order.firm) in
    let buffer₉ = write buffer₈ 40 (order.display ∷ []) in
    let buffer₁₀ = write buffer₉ 41 (order.capacity ∷ []) in
    let buffer₁₁ = write buffer₁₀ 42 (order.iso ∷ []) in
    let buffer₁₂ = store 4 buffer₁₁ 43 (bswap 4 order.min_qty) in
    let buffer₁₃ = write buffer₁₂ 47 (order.cross_type ∷ []) in
    write-behind buffer₁₃ 48 (order.customer_type ∷ []) i h
    ∙ write-behind buffer₁₂ 47 (order.cross_type ∷ []) i (omega arith)
    ∙ write-behind buffer₁₁ 43 (to_bytes 4 (bswap 4 order.min_qty)) i (omega arith)
    ∙ write-behind buffer₁₀ 42 (order.iso ∷ []) i (omega arith)
    ∙ write-behind buffer₉ 41 (order.capacity ∷ []) i (omega arith)
    ∙ write-behind buffer₈ 40 (order.display ∷ []) i (omega arith)
    ∙ write-behind buffer₇ 36 (padded 4 order.firm) i (omega arith)
    ∙ write-behind buffer₆ 32 (to_bytes 4 (bswap 4 order.time_in_force)) i (omega arith)
    ∙ write-behind buffer₅ 28 (to_bytes 4 (bswap 4 order.price)) i (omega arith)
    ∙ write-behind buffer₄ 20 (padded 8 order.stock) i (omega arith)
    ∙ write-behind buffer₃ 16 (to_bytes 4 (bswap 4 order.shares)) i (omega arith)
    ∙ write-behind buffer₂ 15 (order.buy_sell ∷ []) i (omega arith)
    ∙ write-behind buffer₁ 1 (padded 14 order.order_token) i (omega arith)
    ∙ write-behind buffer 0 (79 ∷ []) i (omega arith)

-- `build_enter_order` writes no byte behind the length that it is given.
pub build_enter_order-behind :
    (buffer : Buffer) (length : ℕ) (order : EnterOrder) (i : ℕ)
    → length ≤ i
    → (build_enter_order buffer length order).1 i ≡ buffer i
unfolding build_enter_order
build_enter_order-behind buffer length order i h = elim (Bool-cases (ltb length 49)) [
  | inl short ↦ rw short refl
  | inr long ↦
      rw long (write_enter_order-behind buffer order i (omega (arith, le_of_ltb length 49 long)))
]

-- `parse_enter_order` reads no byte behind the length that it is given: for two buffers that agree up
-- to it, it gives the same answer and the same message.
pub parse_enter_order-agree :
    (buffer buffer' : Buffer) (length : ℕ) (out_msg : EnterOrderMsg)
    → ((i : ℕ) → i < length → buffer' i ≡ buffer i)
    → parse_enter_order buffer' length out_msg ≡ parse_enter_order buffer length out_msg
unfolding parse_enter_order
parse_enter_order-agree buffer buffer' length out_msg same =
    if-agree (ltb length 49) (λ _. refl)
      (λ long.
        let n : 49 ≤ length = le_of_ltb length 49 long in
        let word : (offset : ℕ)
            → offset + 4 ≤ length
            → bswap 4 (load 4 buffer' offset) ≡ bswap 4 (load 4 buffer offset) =
          λ offset h.
            ap (λ bs. bswap 4 (from_bytes bs)) (read-agree buffer buffer' offset 4 length h same) in
        rw (same 0 (omega arith)) (
          if-agree (not (buffer 0 == 79)) (λ _. refl)
            (λ _. λ k. (
              true,
              record {
                msg_type = buffer 0;
                order_token = read-agree buffer buffer' 1 14 length (omega arith) same k;
                buy_sell_indicator = same 15 (omega arith) k;
                shares = word 16 (omega arith) k;
                stock = read-agree buffer buffer' 20 8 length (omega arith) same k;
                price = word 28 (omega arith) k;
                time_in_force = word 32 (omega arith) k;
                firm = read-agree buffer buffer' 36 4 length (omega arith) same k;
                display = same 40 (omega arith) k;
                capacity = same 41 (omega arith) k;
                intermarket_sweep_eligibility = same 42 (omega arith) k;
                minimum_quantity = word 43 (omega arith) k;
                cross_type = same 47 (omega arith) k;
                customer_type = same 48 (omega arith) k;
              },
            ))))
