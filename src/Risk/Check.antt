-- ===== src/Risk/Check.antt =====
-- What an approval means, and that the position stays within its limit.
use mathlib.Core.Path.{subst}
use native.Mathlib.Decide.{ℕ_discrete}
use hft_learning.Prelude.{
  sym, ◌≢◌, ==-eq-true, ==-eq-false, ℕ, ◌+◌, ◌^◌, ◌<◌, ◌≤◌, ◌≡◌, ◌↔◌, ◌⊎◌, inl, inr, refl, ap, ◌∙◌,
  Bool, false, arith, ◌==◌, ltb, ltb-eq-false, Bool-cases, ◌&&◌, if◌then◌else◌,
}
use hft_learning.Prelude.Int.{ℤ, pos, pos_part, neg_part, ◌+ℤ◌, ◌-ℤ◌, ◌≤ℤ◌, abs, int_laws}
use hft_learning.Risk.{
  RiskCheckStatus, approved, rejected_fat_finger, rejected_max_order_size, rejected_max_position,
  Doubles, wrap64, PreTradeRiskEngine, deviation, new_position, check_order, update_position,
}

-- What `sendOrder` adds to the position for an order.
abbrev pub signed_shares : ℕ → ℕ → ℤ
signed_shares side shares = if side == 66 then pos shares else pos 0 -ℤ pos shares

abbrev pub size : ℤ → ℕ
size n = pos_part n + neg_part n

wrap64_small : (n : ℤ) → size n < 2 ^ 63 → wrap64 n ≡ n
unfolding wrap64
wrap64_small n h = ground arith

abs-size : (n : ℤ) → abs n ≡ pos (size n)
unfolding abs ◌-ℤ◌
abs-size n = ground arith

-- The three tests in their order.
abbrev verdict : Bool → Bool → Bool → RiskCheckStatus
verdict too_many too_far too_much =
    if too_many
    then rejected_max_order_size
    else if too_far
    then rejected_fat_finger
    else if too_much
    then rejected_max_position
    else approved

verdict-approved :
    (a b c : Bool) → verdict a b c ≡ approved → (a ≡ false) × (b ≡ false) × (c ≡ false)
verdict-approved a b c e = ground arith

in_range :
    (reference_price : ℕ) (far : Bool)
    → (ltb 0 reference_price && far) ≡ false
    → (reference_price ≡ 0) ⊎ (far ≡ false)
in_range reference_price far e = ground arith

far_enough :
    (reference_price : ℕ) (far : Bool)
    → (reference_price ≡ 0) ⊎ (far ≡ false)
    → (ltb 0 reference_price && far) ≡ false
far_enough reference_price far e = ground arith

-- The position of the check is that of the update.
moved :
    (current : ℤ) (side shares : ℕ)
    → new_position current side shares ≡ wrap64 (current +ℤ signed_shares side shares)
moved current side shares = elim (Bool-cases (side == 66)) [
  | inl buying ↦ rw buying refl
  | inr selling ↦ rw selling (ap wrap64 (omega int_laws))
]

size_bound :
    (current : ℤ) (side shares : ℕ)
    → size (current +ℤ signed_shares side shares) ≤ size current + shares
unfolding ◌+ℤ◌ ◌-ℤ◌
size_bound current side shares = ground arith

signed_buy : (side shares : ℕ) → side ≡ 66 → signed_shares side shares ≡ pos shares
signed_buy side shares buys = rw (==-eq-true side 66 buys) refl

signed_sell :
    (current : ℤ) (side shares : ℕ)
    → side ≢ 66
    → current +ℤ signed_shares side shares ≡ current -ℤ pos shares
signed_sell current side shares sells = rw (==-eq-false side 66 sells) (omega int_laws)

module _ {doubles : Doubles} (engine : PreTradeRiskEngine doubles)
    (side shares price reference_price : ℕ) where
  -- The three tests of the code are passed.
  record Passes : Type 0 where
    order_size : shares ≤ engine.config.max_order_size
    fat_finger :
        (reference_price ≡ 0)
        ⊎ (doubles.greater
              (deviation doubles price reference_price)
              engine.config.max_price_deviation_pct
            ≡ false)
    position :
        wrap64 (abs (new_position engine.current_position side shares))
        ≤ℤ engine.config.max_position

  check_order-Passes : (check_order engine side shares price reference_price ≡ approved) ↔ Passes
  unfolding check_order
  check_order-Passes =
      let far =
        doubles.greater (deviation doubles price reference_price)
          engine.config.max_price_deviation_pct in
      let new_pos = new_position engine.current_position side shares in
      (
        λ e.
            let (few, near, little) = verdict-approved _ _ _ e in
            record {
              order_size = ground (arith, few);
              fat_finger = in_range reference_price far near;
              position = ground (arith, little);
            },
        λ ok.
            rw
              (
                ltb-eq-false engine.config.max_order_size shares ok.order_size,
                far_enough reference_price far ok.fat_finger,
                ltb-eq-false _ _ ok.position,
              )
              refl,
      )

  -- The test of the position is that of the sum without wrap.
  unwrapped :
      size engine.current_position + shares < 2 ^ 63
      → wrap64 (abs (new_position engine.current_position side shares))
        ≡ pos (size (engine.current_position +ℤ signed_shares side shares))
  unwrapped small =
      let sum = engine.current_position +ℤ signed_shares side shares in
      let fits : size sum < 2 ^ 63 =
        omega (arith, small, size_bound engine.current_position side shares) in
      ap (λ n. wrap64 (abs n)) (moved engine.current_position side shares ∙ wrap64_small sum fits)
      ∙ ap wrap64 (abs-size sum)
      ∙ wrap64_small (pos (size sum)) (omega (arith, fits))

  -- What the limits promise of an order: 66 is 'B', which adds its shares to the position, any other
  -- side takes them off; the price deviates by |price - reference| / reference.
  pub record IsAcceptable : Type 0 where
    pub order_size : shares ≤ engine.config.max_order_size
    pub fat_finger :
        let reference = doubles.of_uint32 reference_price in
        (reference_price ≡ 0)
        ⊎ (doubles.greater
              (doubles.divide
                (doubles.absolute (doubles.minus (doubles.of_uint32 price) reference))
                reference)
              engine.config.max_price_deviation_pct
            ≡ false)
    pub position :
        ((side ≡ 66)
          × (pos (size (engine.current_position +ℤ pos shares)) ≤ℤ engine.config.max_position))
        ⊎ ((side ≢ 66)
            × (pos (size (engine.current_position -ℤ pos shares)) ≤ℤ engine.config.max_position))

  -- Where the size of the position and the shares add up to less than 2^63, `check_order` approves an
  -- order exactly where its size is at most the limit, the reference price is 0 or the price deviates
  -- from it, relative to it, by no more than the limit, and the absolute value of the position after
  -- a buy, or after a sell, is at most the limit, in integers that do not wrap.
  pub check_order-approved :
      size engine.current_position + shares < 2 ^ 63
      → (check_order engine side shares price reference_price ≡ approved) ↔ IsAcceptable
  check_order-approved small =
      let limit = engine.config.max_position in
      let current = engine.current_position in
      let exact = unwrapped small in
      (
        λ e.
            let passed = check_order-Passes.0 e in
            let within = subst (λ n. n ≤ℤ limit) exact passed.position in
            record {
              order_size = passed.order_size;
              fat_finger = passed.fat_finger;
              position = elim (ℕ_discrete side 66) [
                | yes buys ↦ inl (
                  buys,
                  subst (λ n. pos (size (current +ℤ n)) ≤ℤ limit) (signed_buy side shares buys)
                      within,
                )
                | no sells ↦ inr (
                  sells,
                  subst (λ n. pos (size n) ≤ℤ limit) (signed_sell current side shares sells) within,
                )
              ];
            },
        λ ok. check_order-Passes.1 (record {
          order_size = ok.order_size;
          fat_finger = ok.fat_finger;
          position =
              subst (λ n. n ≤ℤ limit) (sym exact)
                (elim (ok.position) [
                  | inl (buys, within) ↦
                      subst (λ n. pos (size (current +ℤ n)) ≤ℤ limit)
                        (sym (signed_buy side shares buys)) within
                  | inr (sells, within) ↦
                      subst (λ n. pos (size n) ≤ℤ limit)
                        (sym (signed_sell current side shares sells)) within
                ]);
        }),
      )

  -- Where the size of the position and the shares add up to less than 2^63 and `check_order` has
  -- approved, the position after `update_position` with what `sendOrder` adds is the sum without
  -- wrap, and its absolute value is at most the limit.
  pub update_position-check_order :
      size engine.current_position + shares < 2 ^ 63
      → check_order engine side shares price reference_price ≡ approved
      → let after = update_position engine (signed_shares side shares) in
        (after.current_position ≡ engine.current_position +ℤ signed_shares side shares)
        × (pos (size after.current_position) ≤ℤ engine.config.max_position)
  unfolding update_position
  update_position-check_order small e =
      let sum = engine.current_position +ℤ signed_shares side shares in
      let exact =
        wrap64_small sum (omega (arith, small, size_bound engine.current_position side shares)) in
      (
        exact,
        rw exact (
            subst (λ n. n ≤ℤ engine.config.max_position) (unwrapped small)
              (check_order-Passes.0 e).position),
      )
