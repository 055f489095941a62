-- ===== src/Spsc/Calls.antt =====
-- Single calls on a valid ring, for the clients: what `push` and `pop` answer and leave.
use hft_learning.Prelude.{
  ℕ, ◌-◌, ◌<◌, ◌≤◌, ◌≡◌, refl, ap, ◌∙◌, true, false, List, [], ◌∷◌, ◌++◌, arith, length,
  ltb-eq-true, ltb-eq-false,
}
use hft_learning.Prelude.Cycle.{IsCapacity}
use hft_learning.Spsc.{SpscQueue, push, pop}
use hft_learning.Spsc.Fifo
use hft_learning.Spsc.Ring.{length-window}
use hft_learning.Spsc.Refine.{IsValid, contents, push_refines, pop_refines}

module _ {ℓ} {A : Type ℓ} {capacity : ℕ} (sized : IsCapacity capacity) (q : SpscQueue A)
    (v : IsValid capacity q) where
  pub push_room :
      (x : A)
      → length (contents capacity q) < capacity - 1
      → ((push capacity q x).0 ≡ true)
        × (contents capacity (push capacity q x).1 ≡ contents capacity q ++ x ∷ [])
  unfolding Fifo.push
  push_room x room =
      let same = push_refines sized q x v in
      (
        ap (λ t. t.0) same ∙ rw (ltb-eq-true _ _ room) refl,
        ap (λ t. t.1) same ∙ rw (ltb-eq-true _ _ room) refl,
      )

  pub push_full :
      (x : A)
      → capacity - 1 ≤ length (contents capacity q)
      → ((push capacity q x).0 ≡ false)
        × (contents capacity (push capacity q x).1 ≡ contents capacity q)
  unfolding Fifo.push
  push_full x full =
      let same = push_refines sized q x v in
      (
        ap (λ t. t.0) same ∙ rw (ltb-eq-false _ _ full) refl,
        ap (λ t. t.1) same ∙ rw (ltb-eq-false _ _ full) refl,
      )

  pub pop_empty : (y : A) → contents capacity q ≡ [] → (pop capacity q y).0 ≡ false
  unfolding Fifo.pop
  pop_empty y e = ap (λ t. t.0) (pop_refines sized q y v) ∙ rw e refl

  pub pop_first :
      (y : A) {x : A} {xs : List A}
      → contents capacity q ≡ x ∷ xs
      → ((pop capacity q y).0 ≡ true)
        × ((pop capacity q y).1 ≡ x)
        × (contents capacity (pop capacity q y).2 ≡ xs)
  unfolding Fifo.pop
  pop_first y e =
      let same = pop_refines sized q y v in
      (
        ap (λ t. t.0) same ∙ rw e refl,
        ap (λ t. t.1) same ∙ rw e refl,
        ap (λ t. t.2) same ∙ rw e refl,
      )

  -- A ring holds fewer items than it has slots.
  pub length-contents : length (contents capacity q) < capacity
  length-contents = rw (length-window capacity q.items _ q.read_index) (ground (arith, v))
