-- ===== src/Strategy/Token.antt =====
-- The tokens under which the exchange knows the orders.
use hft_learning.Prelude.{
  ℕ, ◌-◌, ◌^◌, ◌≤◌, ◌<◌, ◌≡◌, sym, ap, ◌∙◌, List, [], ◌∷◌, ◌++◌, arith, length, length-append,
  length-replicate, drop, replicate,
}
use hft_learning.Prelude.Decimal.{
  decimal, value_from, value_from-decimal, value_from-zeros, length-decimal-few,
}
use hft_learning.Egress.Stream.{take_all}
use hft_learning.Strategy.{order_token}

digits_few : (id : ℕ) → id < 10 ^ 11 → length (decimal 20 id []) ≤ 11
digits_few id h = omega (arith, length-decimal-few 20 10 id [] h)

-- `%011lu` of such an id has 11 characters.
length-number :
    (id : ℕ)
    → id < 10 ^ 11
    → let digits = decimal 20 id [] in length (replicate (11 - length digits) 48 ++ digits) ≡ 11
length-number id h =
    let digits = decimal 20 id [] in
    let zeros : List ℕ = replicate (11 - length digits) 48 in
    omega (
      arith,
      digits_few id h,
      length-append zeros digits,
      length-replicate {A = ℕ} (11 - length digits) 48,
    )

-- The token of an id of 11 digits is not cut.
order_token-whole :
    (id : ℕ)
    → id < 10 ^ 11
    → let digits = decimal 20 id [] in
      order_token id ≡ 79 ∷ 82 ∷ 68 ∷ replicate (11 - length digits) 48 ++ digits
unfolding order_token
order_token-whole id h =
    let digits = decimal 20 id [] in
    take_all 14 (79 ∷ 82 ∷ 68 ∷ replicate (11 - length digits) 48 ++ digits)
      (omega (arith, length-number id h))

value-order_token : (id : ℕ) → id < 10 ^ 11 → value_from 0 (drop 3 (order_token id)) ≡ id
value-order_token id h =
    let digits = decimal 20 id [] in
    ap (λ token. value_from 0 (drop 3 token)) (order_token-whole id h)
    ∙ value_from-zeros (11 - length digits) digits
    ∙ value_from-decimal 20 id [] (omega (arith, h))

-- Two orders whose ids are below 10^11 have the same token only if they have the same id, and every
-- such token fills the 14 characters of its field.
pub order_token_unique :
    (id id' : ℕ)
    → id < 10 ^ 11
    → id' < 10 ^ 11
    → (length (order_token id) ≡ 14) × (order_token id ≡ order_token id' → id ≡ id')
order_token_unique id id' h h' =
    let digits = decimal 20 id [] in
    (
      rw (order_token-whole id h) (omega (arith, length-number id h)),
      λ same.
          sym (value-order_token id h)
          ∙ ap (λ token. value_from 0 (drop 3 token)) same
          ∙ value-order_token id' h',
    )
