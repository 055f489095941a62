-- ===== src/Spsc/Refine.antt =====
-- A valid ring behaves as the bounded queue of the items that it holds.
use hft_learning.Prelude.Cycle.{IsCapacity, distance, ahead, next_index-cases, next_index}
use hft_learning.Prelude.{
  ℕ, suc, ◌-◌, ◌<◌, ◌≡◌, refl, Bool, List, [], ◌∷◌, ◌++◌, arith, length, ◌≢◌, ==-eq-true,
  ==-eq-false, ltb-eq-true, ltb-eq-false, ◌≤◌,
}
use native.Mathlib.Decide.{ℕ_discrete}
use hft_learning.Prelude.Arrays.{update, update_self}
use hft_learning.Spsc.{SpscQueue, push, pop}
use hft_learning.Spsc.Fifo
use hft_learning.Spsc.Fifo.{Call, put, get}
use hft_learning.Spsc.Ring.{window, window-update, window-snoc, length-window}

module _ {ℓ} {A : Type ℓ} (capacity : ℕ) where
  pub record IsValid (q : SpscQueue A) : Type 0 where
    pub write_in : q.write_index < capacity
    pub read_in : q.read_index < capacity

  abbrev pub contents : SpscQueue A → List A
  contents q = window capacity q.items q.read_index (distance capacity q.read_index q.write_index)

  -- A client's calls in order, with what each returns.
  unfoldable pub run : SpscQueue A → List (Call A) → List (Bool × A)
  run q [] = []
  run q (put x ∷ calls) = let (done, q') = push capacity q x in (done, x) ∷ run q' calls
  run q (get y ∷ calls) = let (done, z, q') = pop capacity q y in (done, z) ∷ run q' calls

module _ {ℓ} {A : Type ℓ} {capacity : ℕ} (sized : IsCapacity capacity) (q : SpscQueue A) where
  pub push-IsValid : (x : A) → IsValid capacity q → IsValid capacity (push capacity q x).1
  unfolding push
  push-IsValid x v = ground (arith, next_index-cases capacity q.write_index sized)

  pub pop-IsValid : (y : A) → IsValid capacity q → IsValid capacity (pop capacity q y).2
  unfolding pop
  pop-IsValid y v = ground (arith, next_index-cases capacity q.read_index sized)

  contents-push :
      (x : A)
      → IsValid capacity q
      → next_index capacity q.write_index ≢ q.read_index
      → contents capacity (record q {
        items = update q.items q.write_index x;
        write_index = next_index capacity q.write_index;
      })
        ≡ contents capacity q ++ x ∷ []
  contents-push x v ne =
      let n = distance capacity q.read_index q.write_index in
      let grown : distance capacity q.read_index (next_index capacity q.write_index) ≡ suc n =
        ground (arith, next_index-cases capacity q.write_index sized) in
      let here : q.write_index ≡ ahead capacity q.read_index n = ground arith in
      let room : n < capacity = ground arith in
      let items = update q.items q.write_index x in
      rw (
        grown,
        window-snoc capacity items n q.read_index q.write_index sized v.read_in room here,
        window-update capacity q.items n q.read_index q.write_index x sized v.read_in room here,
        update_self q.items q.write_index x,
      )

  full-le :
      IsValid capacity q
      → next_index capacity q.write_index ≡ q.read_index
      → capacity - 1 ≤ length (contents capacity q)
  full-le v full =
      rw
        (length-window capacity q.items (distance capacity q.read_index q.write_index) q.read_index)
        (ground (arith, next_index-cases capacity q.write_index sized))

  room :
      IsValid capacity q
      → next_index capacity q.write_index ≢ q.read_index
      → length (contents capacity q) < capacity - 1
  room v free =
      rw
        (length-window capacity q.items (distance capacity q.read_index q.write_index) q.read_index)
        (ground (arith, next_index-cases capacity q.write_index sized))

  -- `push` succeeds exactly while fewer than `capacity - 1` items are held, appends the item, and
  -- changes nothing when it fails.
  pub push_refines :
      (x : A)
      → IsValid capacity q
      → let (done, q') = push capacity q x in
        (done, contents capacity q') ≡ Fifo.push (capacity - 1) (contents capacity q) x
  unfolding push Fifo.push
  push_refines x v = elim (ℕ_discrete (next_index capacity q.write_index) q.read_index) [
    | yes full ↦ rw (==-eq-true _ _ full, ltb-eq-false _ _ (full-le v full))
    | no free ↦ rw (==-eq-false _ _ free, contents-push x v free, ltb-eq-true _ _ (room v free))
  ]

  contents-pop :
      IsValid capacity q
      → q.read_index ≢ q.write_index
      → contents capacity q
        ≡ q.items q.read_index
          ∷ contents capacity (record q { read_index = next_index capacity q.read_index })
  unfolding window
  contents-pop v ne =
      let n = distance capacity (next_index capacity q.read_index) q.write_index in
      let more : distance capacity q.read_index q.write_index ≡ suc n =
        ground (arith, next_index-cases capacity q.read_index sized) in
      rw more

  contents-empty : q.read_index ≡ q.write_index → contents capacity q ≡ []
  unfolding window
  contents-empty e =
      let none_left : distance capacity q.read_index q.write_index ≡ 0 = ground arith in
      rw none_left

  -- `pop` fails exactly on an empty queue, which it leaves alone with the caller's variable;
  -- otherwise it delivers the oldest item and leaves the rest.
  pub pop_refines :
      (y : A)
      → IsValid capacity q
      → let (done, z, q') = pop capacity q y in
        (done, z, contents capacity q') ≡ Fifo.pop (contents capacity q) y
  unfolding pop Fifo.pop
  pop_refines y v = elim (ℕ_discrete q.read_index q.write_index) [
    | yes empty ↦ rw (==-eq-true _ _ empty, contents-empty empty)
    | no more ↦ rw (==-eq-false _ _ more, contents-pop v more)
  ]

-- No sequence of calls tells a valid ring from the bounded queue of its contents.
pub run_refines {ℓ} :
    {A : Type ℓ} {capacity : ℕ} (sized : IsCapacity capacity) (calls : List (Call A))
    (q : SpscQueue A)
    → IsValid capacity q
    → run capacity q calls ≡ Fifo.run (capacity - 1) (contents capacity q) calls
unfolding run Fifo.run
run_refines sized [] q v = refl
run_refines {capacity} sized (put x ∷ calls) q v = rw (
  run_refines sized calls (push capacity q x).1 (push-IsValid sized q x v),
  ← push_refines sized q x v,
)
run_refines {capacity} sized (get y ∷ calls) q v = rw (
  run_refines sized calls (pop capacity q y).2 (pop-IsValid sized q y v),
  ← pop_refines sized q y v,
)
