-- ===== src/Prelude/Decimal.antt =====
-- Numbers as `printf` writes them.
use Prim.Native.Nat.{ℕ, zero, suc, ◌+◌, ◌-◌, ◌*◌, ◌/◌, ◌%◌, ◌^◌, ◌≤◌, ◌<◌}
use mathlib.Core.Path.{◌≡◌, refl, ap, ◌∙◌}
use mathlib.Core.List.{List, [], ◌∷◌, ◌++◌}
use mathlib.Core.Logic.{inl, inr}
use native.Mathlib.Omega.{arith}
use hft_learning.Prelude.Tests.{◌==◌, ==_iff, Bool-cases, if_true, if_false, if◌then◌else◌}
use hft_learning.Prelude.Lists.{length, replicate}

-- The decimal digits of a number in front of `tail`, at most `fuel` of them; 20 are enough for 64
-- bits, and 10 for 32.
abbrev pub decimal : ℕ → ℕ → List ℕ → List ℕ
decimal zero n tail = tail
decimal (suc fuel) n tail =
    let rest = decimal fuel (n / 10) ((n % 10 + 48) ∷ tail) in
    if n / 10 == 0 then (n % 10 + 48) ∷ tail else rest

pub length-decimal :
    (fuel n : ℕ) (tail : List ℕ) → length (decimal fuel n tail) ≤ fuel + length tail
length-decimal zero n tail = omega arith
length-decimal (suc fuel) n tail =
    ground (arith, length-decimal fuel (n / 10) ((n % 10 + 48) ∷ tail))

-- the number that digits say, behind those of `acc`
abbrev pub value_from : ℕ → List ℕ → ℕ
value_from acc [] = acc
value_from acc (c ∷ cs) = value_from (10 * acc + (c - 48)) cs

-- The digits say the number.
pub value_from-decimal :
    (fuel n : ℕ) (tail : List ℕ)
    → n < 10 ^ fuel
    → value_from 0 (decimal fuel n tail) ≡ value_from n tail
value_from-decimal zero n tail h = let none_left : n ≡ 0 = omega arith in rw none_left
value_from-decimal (suc fuel) n tail h =
    let digit : 10 * (n / 10) + (n % 10 + 48 - 48) ≡ n = omega arith in
    let only : n / 10 ≡ 0 → 10 * 0 + (n % 10 + 48 - 48) ≡ n = λ e. omega (arith, e) in
    let rest = value_from-decimal fuel (n / 10) ((n % 10 + 48) ∷ tail) (omega (arith, h)) in
    elim (Bool-cases (n / 10 == 0)) [
      | inl last ↦
          ap (value_from 0) (if_true (n / 10 == 0) _ _ last)
          ∙ ap (λ v. value_from v tail) (only ((==_iff (n / 10) 0).0 last))
      | inr more ↦
          ap (value_from 0) (if_false (n / 10 == 0) _ _ more)
          ∙ rest
          ∙ ap (λ v. value_from v tail) digit
    ]

-- Leading zeros say nothing.
pub value_from-zeros :
    (k : ℕ) (digits : List ℕ) → value_from 0 (replicate k 48 ++ digits) ≡ value_from 0 digits
value_from-zeros zero digits = refl
value_from-zeros (suc k) digits = value_from-zeros k digits

-- A number of few digits is short, whatever the fuel.
pub length-decimal-few :
    (fuel k n : ℕ) (tail : List ℕ)
    → n < 10 ^ suc k
    → length (decimal fuel n tail) ≤ suc k + length tail
length-decimal-few zero k n tail h = omega arith
length-decimal-few (suc fuel) zero n tail h =
    let last : n / 10 ≡ 0 = omega (arith, h) in rw last (omega arith)
length-decimal-few (suc fuel) (suc k) n tail h =
    ground (arith, length-decimal-few fuel k (n / 10) ((n % 10 + 48) ∷ tail) (omega (arith, h)))
