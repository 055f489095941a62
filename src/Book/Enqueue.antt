-- ===== src/Book/Enqueue.antt =====
-- Appending an order to a well-formed level.
use hft_learning.Prelude.{
  ℕ, ◌%◌, ◌^◌, ◌<◌, ◌≡◌, ◌≢◌, inl, inr, refl, sym, ap, ◌∙◌, Option, none, some, List, [], ◌∷◌, ◌++◌,
  arith,
}
use hft_learning.Book.Types.{Side, Order, PriceLevel, add64}
use hft_learning.Book.Levels.{head_behind}
use hft_learning.Book.Chain.{
  In, head_of, last_of, In-append, last_of-In, last_of-snoc, Distinct-snoc, dec_points,
  last_of-some,
}
use mathlib.Core.Path.{subst}
use hft_learning.Book.Splice.{Linked-snoc, Appended}
use hft_learning.Book.Store.{IsQueue, volume, volume-same, volume-append}
use hft_learning.Book.Links.{linked_in, linked_in_new, linked_in_tail, linked_in_other}

head_behind_lem :
    (is : List ℕ) (head tail : Option ℕ) (i : ℕ)
    → head ≡ head_of is
    → tail ≡ last_of none is
    → head_behind tail head i ≡ head_of (is ++ i ∷ [])
unfolding head_behind
head_behind_lem [] head tail i h t = rw t
head_behind_lem (j ∷ js) head tail i h t = let (k, e) = last_of-some j js in rw (t ∙ e) h

module _ {pool : ℕ → Order} {max_orders : ℕ} {s : Side} {p : ℕ} {level : PriceLevel} {is : List ℕ}
    (q : IsQueue pool max_orders s p level is) (i : ℕ) (out : ¬ In i is) where
  tail-ne : level.tail ≢ some i
  tail-ne e = elim (last_of-In i none is (sym q.tail ∙ e)) [ inl n ↦ cc | inr h ↦ out h ]

  abbrev pool' : ℕ → Order
  pool' = linked_in pool i level.tail

  other_in : (j : ℕ) → In j is → level.tail ≢ some j → pool' j ≡ pool j
  other_in j h ne = linked_in_other pool i level.tail j (λ e. out (rw (sym e) h)) ne

  -- Orders of the level keep all but a link of the last one.
  kept : (j : ℕ) → In j is → (o : Option ℕ) × (pool' j ≡ record (pool j) { next = o })
  kept j h = elim (dec_points level.tail j) [
    | inl last ↦ (some i, rw last (linked_in_tail pool i j (λ e. out (rw (sym e) h))))
    | inr ne ↦ ((pool j).next, other_in j h ne)
  ]

  appended : Appended pool pool' none is i
  appended = record {
    new_prev = ap (λ (o : Order). o.prev) (linked_in_new pool i level.tail tail-ne) ∙ q.tail;
    new_next = ap (λ (o : Order). o.next) (linked_in_new pool i level.tail tail-ne);
    last_next = λ t h e.
        rw (q.tail ∙ e)
          (ap (λ (o : Order). o.next) (linked_in_tail pool i t (λ same. out (rw (sym same) h))));
    same_prev = λ j h. ap (λ (o : Order). o.prev) (kept j h).1;
    same_next = λ j h ne. ap (λ (o : Order). o.next) (other_in j h (λ e. ne (sym q.tail ∙ e)));
  }

  head_behind-head_of : head_behind level.tail level.head i ≡ head_of (is ++ i ∷ [])
  unfolding head_behind
  head_behind-head_of = head_behind_lem is level.head level.tail i q.head q.tail

  module _ (quantity : ℕ) (side_i : (pool i).side ≡ s) (price_i : (pool i).price ≡ p)
      (i_in : i < max_orders) (quantity_i : (pool i).quantity ≡ quantity)
      (small : quantity < 2 ^ 64) where
    new_field :
        {B : Type 0} (f : Order → B)
        → ((o : Order) (a b : Option ℕ) → f (record o { prev = a; next = b }) ≡ f o)
        → f (pool' i) ≡ f (pool i)
    new_field f same =
        ap f (linked_in_new pool i level.tail tail-ne) ∙ same (pool i) level.tail none

    all :
        {B : Type 0} (f : Order → B) (P : ℕ → B → Type 0)
        → ((o : Order) (a b : Option ℕ) → f (record o { prev = a; next = b }) ≡ f o)
        → ((j : ℕ) → In j is → P j (f (pool j)))
        → P i (f (pool i))
        → (j : ℕ) → In j (is ++ i ∷ [])
        → P j (f (pool' j))
    all f P same old new j h = elim (In-append j is (i ∷ []) h) [
      | inl a ↦
          let (o, e) = kept j a in
          subst (P j) (sym (ap f e ∙ same (pool j) (pool j).prev o)) (old j a)
      | inr b ↦ elim b [
        | inl e ↦ subst (λ k. P k (f (pool' k))) (sym e) (subst (P i) (sym (new_field f same)) new)
        | inr none_left ↦ absurd none_left
      ]
    ]

    counted : add64 level.total_volume quantity ≡ volume pool' (is ++ i ∷ []) % 2 ^ 64
    counted = omega (
      arith,
      q.total,
      volume-append pool' is (i ∷ []),
      volume-same pool pool' is (λ j h. ap (λ (o : Order). o.quantity) (kept j h).1),
      new_field (λ o. o.quantity) (λ o a b. refl),
      quantity_i,
    )

    pub IsQueue-insert :
        IsQueue pool' max_orders s p
          (record {
            head = head_behind level.tail level.head i;
            tail = some i;
            total_volume = add64 level.total_volume quantity;
          })
          (is ++ i ∷ [])
    IsQueue-insert = record {
      linked = Linked-snoc pool pool' none is i q.distinct appended q.linked;
      head = head_behind-head_of;
      tail = sym (last_of-snoc none is i);
      total = counted;
      distinct = Distinct-snoc is i q.distinct out;
      side_of = all (λ o. o.side) (λ j x. x ≡ s) (λ o a b. refl) q.side_of side_i;
      price_of = all (λ o. o.price) (λ j x. x ≡ p) (λ o a b. refl) q.price_of price_i;
      pooled = all (λ o. o.id) (λ j x. j < max_orders) (λ o a b. refl) q.pooled i_in;
      fits = all (λ o. o.quantity) (λ j x. x < 2 ^ 64) (λ o a b. refl) q.fits (rw quantity_i small);
    }
