-- ===== src/Book/Resize.antt =====
-- A smaller quantity for an order that keeps its place in its level.
use native.Mathlib.Decide.{ℕ_discrete}
use hft_learning.Prelude.{
  ℕ, ◌-◌, ◌%◌, ◌^◌, ◌≤◌, ◌≡◌, inl, refl, ap, ◌∙◌, none, List, ◌∷◌, ◌++◌, arith,
}
use hft_learning.Prelude.Arrays.{update, update_self, update_ne}
use hft_learning.Book.Types.{Side, Order, PriceLevel, sub64}
use hft_learning.Book.Chain.{In, In-append_left, In-append_right, Distinct-split}
use hft_learning.Book.Splice.{Linked-same}
use hft_learning.Book.Store.{IsQueue, volume, volume-same, volume-append}

module _ {pool : ℕ → Order} {max_orders : ℕ} {s : Side} {p : ℕ} {level : PriceLevel} (xs : List ℕ)
    (i : ℕ) (ys : List ℕ) (q : IsQueue pool max_orders s p level (xs ++ i ∷ ys)) (quantity : ℕ)
    (smaller : quantity ≤ (pool i).quantity) where
  abbrev pub resized : ℕ → Order
  resized = update pool i (record (pool i) { quantity = quantity })

  field_kept :
      {B : Type 0} (f : Order → B)
      → f (record (pool i) { quantity = quantity }) ≡ f (pool i)
      → (j : ℕ) → f (resized j) ≡ f (pool j)
  field_kept f same j = elim (ℕ_discrete j i) [
    | yes e ↦ rw e (ap f (update_self pool i (record (pool i) { quantity = quantity })) ∙ same)
    | no ne ↦ ap f (update_ne pool i (record (pool i) { quantity = quantity }) j ne)
  ]

  elsewhere : (zs : List ℕ) → ¬ In i zs → volume resized zs ≡ volume pool zs
  elsewhere zs out = volume-same pool resized zs (λ j h.
      ap (λ (o : Order). o.quantity)
        (update_ne pool i (record (pool i) { quantity = quantity }) j (λ e. out (rw e at h))))

  gone : ¬ In i (xs ++ ys)
  gone = (Distinct-split xs i ys q.distinct).1

  counted :
      sub64 level.total_volume ((pool i).quantity - quantity)
      ≡ volume resized (xs ++ i ∷ ys) % 2 ^ 64
  counted = omega (
    arith,
    q.total,
    volume-append pool xs (i ∷ ys),
    volume-append resized xs (i ∷ ys),
    elsewhere xs (λ h. gone (In-append_left i xs ys h)),
    elsewhere ys (λ h. gone (In-append_right i xs ys h)),
    ap (λ (o : Order). o.quantity) (update_self pool i (record (pool i) { quantity = quantity })),
    smaller,
    q.fits i (In-append_right i xs (i ∷ ys) (inl refl)),
  )

  pub IsQueue-resize :
      IsQueue resized max_orders s p
        (record level { total_volume = sub64 level.total_volume ((pool i).quantity - quantity) })
        (xs ++ i ∷ ys)
  IsQueue-resize = record {
    linked =
        Linked-same pool resized none (xs ++ i ∷ ys)
          (λ j h. (field_kept (λ o. o.prev) refl j, field_kept (λ o. o.next) refl j)) q.linked;
    head = q.head;
    tail = q.tail;
    total = counted;
    distinct = q.distinct;
    side_of = λ j h. field_kept (λ o. o.side) refl j ∙ q.side_of j h;
    price_of = λ j h. field_kept (λ o. o.price) refl j ∙ q.price_of j h;
    pooled = q.pooled;
    fits = λ j h. elim (ℕ_discrete j i) [
      | yes e ↦
          rw (e, update_self pool i (record (pool i) { quantity = quantity }))
            (omega (arith, smaller, q.fits i (In-append_right i xs (i ∷ ys) (inl refl))))
      | no ne ↦ rw (update_ne pool i (record (pool i) { quantity = quantity }) j ne) (q.fits j h)
    ];
  }
