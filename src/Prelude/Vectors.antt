-- ===== src/Prelude/Vectors.antt =====
-- `std::vector` as a list: `resize`, and the assignment to one element.
use Prim.Native.Nat.{ℕ, zero, suc, ◌≤◌, ◌<◌}
use mathlib.Core.Path.{◌≡◌, refl, ap}
use mathlib.Core.Logic.{◌≢◌}
use mathlib.Core.List.{List, [], ◌∷◌}
use native.Mathlib.Omega.{arith}
use hft_learning.Prelude.Lists.{length, get_or}

module _ {ℓ} {A : Type ℓ} where
  -- `resize`, where new elements are `empty`
  abbrev pub resized : A → ℕ → List A → List A
  resized empty zero xs = []
  resized empty (suc n) [] = empty ∷ resized empty n []
  resized empty (suc n) (x ∷ xs) = x ∷ resized empty n xs

  -- `xs[i] = x`, for an index in range
  abbrev pub set_at : List A → ℕ → A → List A
  set_at [] i x = []
  set_at (y ∷ ys) zero x = x ∷ ys
  set_at (y ∷ ys) (suc i) x = y ∷ set_at ys i x

  pub length-resized : (empty : A) (n : ℕ) (xs : List A) → length (resized empty n xs) ≡ n
  length-resized empty zero xs = refl
  length-resized empty (suc n) [] = ap suc (length-resized empty n [])
  length-resized empty (suc n) (x ∷ xs) = ap suc (length-resized empty n xs)

  -- A vector that grows keeps its elements.
  pub get_or-resized :
      (empty : A) (n : ℕ) (xs : List A) (i : ℕ)
      → length xs ≤ n
      → get_or (resized empty n xs) i empty ≡ get_or xs i empty
  get_or-resized empty zero [] i h = refl
  get_or-resized empty zero (x ∷ xs) i h = absurd (omega arith)
  get_or-resized empty (suc n) [] zero h = refl
  get_or-resized empty (suc n) [] (suc i) h = get_or-resized empty n [] i (omega arith)
  get_or-resized empty (suc n) (x ∷ xs) zero h = refl
  get_or-resized empty (suc n) (x ∷ xs) (suc i) h = get_or-resized empty n xs i (omega (arith, h))

  pub length-set_at : (xs : List A) (i : ℕ) (x : A) → length (set_at xs i x) ≡ length xs
  length-set_at [] i x = refl
  length-set_at (y ∷ ys) zero x = refl
  length-set_at (y ∷ ys) (suc i) x = ap suc (length-set_at ys i x)

  pub get_or-set_at :
      (xs : List A) (i : ℕ) (x d : A) → i < length xs → get_or (set_at xs i x) i d ≡ x
  get_or-set_at [] i x d h = absurd (omega arith)
  get_or-set_at (y ∷ ys) zero x d h = refl
  get_or-set_at (y ∷ ys) (suc i) x d h = get_or-set_at ys i x d (omega (arith, h))

  pub get_or-set_other :
      (xs : List A) (i j : ℕ) (x d : A) → j ≢ i → get_or (set_at xs i x) j d ≡ get_or xs j d
  get_or-set_other [] i j x d ne = refl
  get_or-set_other (y ∷ ys) zero zero x d ne = absurd (ne refl)
  get_or-set_other (y ∷ ys) zero (suc j) x d ne = refl
  get_or-set_other (y ∷ ys) (suc i) zero x d ne = refl
  get_or-set_other (y ∷ ys) (suc i) (suc j) x d ne =
      get_or-set_other ys i j x d (λ e. ne (ap suc e))
