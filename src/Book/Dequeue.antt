-- ===== src/Book/Dequeue.antt =====
-- Taking an order out of a well-formed level.
use mathlib.Core.List.{append-nil}
use mathlib.Core.Path.{subst, subst₂}
use hft_learning.Prelude.{
  ℕ, ◌%◌, ◌^◌, ◌<◌, ◌≡◌, inl, inr, refl, sym, ap, ◌∙◌, Option, none, some, List, [], ◌∷◌, ◌++◌,
  arith,
}
use hft_learning.Book.Types.{Side, Order, PriceLevel, sub64}
use hft_learning.Book.Levels.{end_without}
use hft_learning.Book.Chain.{
  In, Distinct, head_of, last_of, In-append, In-append_left, In-append_right, head_of-In,
  last_of-In, last_of-some, Distinct-split,
}
use hft_learning.Book.Splice.{Linked-remove, Linked-at, Unlinked}
use hft_learning.Book.Store.{IsQueue, volume, volume-same, volume-append}
use hft_learning.Book.Links.{
  linked_out, linked_out_prev, linked_out_next, linked_out-next_prev, linked_out-prev_next,
  linked_out-fields, linked_out_other,
}

-- The level's head pointer after its member between `xs` and `ys` is gone.
end_without-head :
    (xs ys : List ℕ) (i : ℕ) (head : Option ℕ)
    → head ≡ head_of (xs ++ i ∷ ys)
    → end_without (last_of none xs) head (head_of ys) ≡ head_of (xs ++ ys)
unfolding end_without
end_without-head [] ys i head h = refl
end_without-head (x ∷ xs) ys i head h = let (k, e) = last_of-some x xs in rw e h

last_of-append :
    (p : Option ℕ) (xs : List ℕ) (y : ℕ) (ys : List ℕ)
    → last_of p (xs ++ y ∷ ys) ≡ last_of (some y) ys
last_of-append p [] y ys = refl
last_of-append p (x ∷ xs) y ys = last_of-append (some x) xs y ys

end_without-tail :
    (xs ys : List ℕ) (i : ℕ) (tail : Option ℕ)
    → tail ≡ last_of none (xs ++ i ∷ ys)
    → end_without (head_of ys) tail (last_of none xs) ≡ last_of none (xs ++ ys)
unfolding end_without
end_without-tail xs [] i tail h = ap (last_of none) (sym (append-nil xs))
end_without-tail xs (y ∷ ys) i tail h =
    h ∙ last_of-append none xs i (y ∷ ys) ∙ sym (last_of-append none xs y ys)

module _ {pool : ℕ → Order} {max_orders : ℕ} {s : Side} {p : ℕ} {level : PriceLevel} (xs : List ℕ)
    (i : ℕ) (ys : List ℕ) (q : IsQueue pool max_orders s p level (xs ++ i ∷ ys)) where
  abbrev pub out_pool : ℕ → Order
  out_pool = linked_out pool (pool i).prev (pool i).next

  prev_i : (pool i).prev ≡ last_of none xs
  prev_i = (Linked-at pool none xs i ys q.linked).0

  next_i : (pool i).next ≡ head_of ys
  next_i = (Linked-at pool none xs i ys q.linked).1

  Distinct-rest : Distinct (xs ++ ys)
  Distinct-rest = (Distinct-split xs i ys q.distinct).0

  pub gone : ¬ In i (xs ++ ys)
  gone = (Distinct-split xs i ys q.distinct).1

  pub widen : (j : ℕ) → In j (xs ++ ys) → In j (xs ++ i ∷ ys)
  widen j h = elim (In-append j xs ys h) [
    | inl a ↦ In-append_left j xs (i ∷ ys) a
    | inr b ↦ In-append_right j xs (i ∷ ys) (inr b)
  ]

  unlinked : Unlinked pool out_pool none xs ys
  unlinked = record {
    next_prev =
        λ u e. linked_out-next_prev pool (pool i).prev (pool i).next u (next_i ∙ e) ∙ prev_i;
    prev_next =
        λ t h e. linked_out-prev_next pool (pool i).prev (pool i).next t (prev_i ∙ e) ∙ next_i;
    same_prev =
        λ j h ne. linked_out_prev pool (pool i).prev (pool i).next j (λ e. ne (sym next_i ∙ e));
    same_next =
        λ j h ne. linked_out_next pool (pool i).prev (pool i).next j (λ e. ne (sym prev_i ∙ e));
  }

  same_volume : (zs : List ℕ) → volume out_pool zs ≡ volume pool zs
  same_volume zs =
      volume-same pool out_pool zs (λ j h. (linked_out-fields pool (pool i).prev (pool i).next j).2)

  counted : sub64 level.total_volume (pool i).quantity ≡ volume out_pool (xs ++ ys) % 2 ^ 64
  counted = omega (
    arith,
    q.total,
    volume-append pool xs (i ∷ ys),
    volume-append pool xs ys,
    same_volume (xs ++ ys),
    q.fits i (In-append_right i xs (i ∷ ys) (inl refl)),
  )

  pub IsQueue-remove :
      IsQueue out_pool max_orders s p
        (record {
          head = end_without (pool i).prev level.head (pool i).next;
          tail = end_without (pool i).next level.tail (pool i).prev;
          total_volume = sub64 level.total_volume (pool i).quantity;
        })
        (xs ++ ys)
  IsQueue-remove = record {
    linked = Linked-remove pool out_pool none xs i ys Distinct-rest (λ j h e. cc) unlinked q.linked;
    head =
        subst₂ (λ a b. end_without a level.head b ≡ head_of (xs ++ ys)) (sym prev_i) (sym next_i)
          (end_without-head xs ys i level.head q.head);
    tail =
        subst₂ (λ a b. end_without a level.tail b ≡ last_of none (xs ++ ys)) (sym next_i)
          (sym prev_i) (end_without-tail xs ys i level.tail q.tail);
    total = counted;
    distinct = Distinct-rest;
    side_of =
        λ j h. (linked_out-fields pool (pool i).prev (pool i).next j).3 ∙ q.side_of j (widen j h);
    price_of =
        λ j h. (linked_out-fields pool (pool i).prev (pool i).next j).1 ∙ q.price_of j (widen j h);
    pooled = λ j h. q.pooled j (widen j h);
    fits = λ j h.
        subst (λ n. n < 2 ^ 64) (sym (linked_out-fields pool (pool i).prev (pool i).next j).2)
          (q.fits j (widen j h));
  }

  -- Orders of other levels are not touched.
  pub out_pool-other : (j : ℕ) → ¬ In j (xs ++ i ∷ ys) → out_pool j ≡ pool j
  out_pool-other j out =
      linked_out_other pool (pool i).prev (pool i).next j
        (λ e. elim (last_of-In j none xs (sym prev_i ∙ e)) [
          | inl n ↦ cc
          | inr h ↦ out (In-append_left j xs (i ∷ ys) h)
        ])
        (λ e. out (In-append_right j xs (i ∷ ys) (inr (head_of-In j ys (sym next_i ∙ e)))))
