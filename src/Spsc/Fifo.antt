-- ===== src/Spsc/Fifo.antt =====
-- A queue of at most `room` items, oldest first: what the ring promises to its two threads.
use hft_learning.Prelude.{ℕ, Bool, true, false, ltb, if◌then◌else◌, List, [], ◌∷◌, ◌++◌, length}

-- One call of either side, with what the consumer's variable held before a `get`.
pub data Call {ℓ} (A : Type ℓ) : Type ℓ where
  put : A → Call A
  get : A → Call A

module _ {ℓ} {A : Type ℓ} where
  unfoldable pub push : ℕ → List A → A → Bool × List A
  push room xs x = if ltb (length xs) room then (true, xs ++ x ∷ []) else (false, xs)

  unfoldable pub pop : List A → A → Bool × A × List A
  pop [] y = (false, y, [])
  pop (x ∷ xs) y = (true, x, xs)

  -- What the callers see of a sequence of calls: whether each succeeded, and the consumer's variable.
  unfoldable pub run : ℕ → List A → List (Call A) → List (Bool × A)
  run room xs [] = []
  run room xs (put x ∷ calls) = let (done, ys) = push room xs x in (done, x) ∷ run room ys calls
  run room xs (get y ∷ calls) = let (done, z, ys) = pop xs y in (done, z) ∷ run room ys calls
