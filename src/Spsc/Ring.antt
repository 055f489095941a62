-- ===== src/Spsc/Ring.antt =====
-- The items that lie between the two indices of the ring.
use hft_learning.Prelude.{ℕ, zero, suc, ◌<◌, ◌≡◌, refl, ap, List, [], ◌∷◌, ◌++◌, arith, length}
use hft_learning.Prelude.Arrays.{update}
use hft_learning.Prelude.Cycle.{IsCapacity, ahead, next_index, next_index-cases}

module _ {ℓ} {A : Type ℓ} (capacity : ℕ) where
  -- the `n` items from index `r` on
  unfoldable pub window : (ℕ → A) → ℕ → ℕ → List A
  window items r zero = []
  window items r (suc n) = items r ∷ window items (next_index capacity r) n

  -- Writing the slot behind a window leaves the window alone.
  pub window-update :
      (items : ℕ → A) (n r w : ℕ) (x : A)
      → IsCapacity capacity
      → r < capacity
      → n < capacity
      → w ≡ ahead capacity r n
      → window (update items w x) r n ≡ window items r n
  unfolding window
  window-update items zero r w x sized hr hn e = refl
  window-update items (suc n) r w x sized hr hn e = ground (
    arith,
    next_index-cases capacity r sized hr,
    window-update items n (next_index capacity r) w x sized,
  )

  pub window-snoc :
      (items : ℕ → A) (n r w : ℕ)
      → IsCapacity capacity
      → r < capacity
      → n < capacity
      → w ≡ ahead capacity r n
      → window items r (suc n) ≡ window items r n ++ items w ∷ []
  unfolding window
  window-snoc items zero r w sized hr hn e = let e' : w ≡ r = ground arith in rw e'
  window-snoc items (suc n) r w sized hr hn e =
      ap (λ xs. items r ∷ xs)
        (window-snoc items n (next_index capacity r) w sized
          (ground (arith, next_index-cases capacity r sized hr)) (omega arith)
          (ground (arith, next_index-cases capacity r sized hr)))

  pub length-window : (items : ℕ → A) (n r : ℕ) → length (window items r n) ≡ n
  unfolding window
  length-window items zero r = refl
  length-window items (suc n) r = ap suc (length-window items n (next_index capacity r))
