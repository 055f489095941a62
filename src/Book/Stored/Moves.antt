-- ===== src/Book/Stored/Moves.antt =====
-- The moves of an order between the lists of the book: off the free list and back, into a level, out
-- of it, and a change of its quantity in place.
use mathlib.Core.Path.{subst}
use hft_learning.Prelude.{
  ℕ, ◌^◌, ◌<◌, ◌≡◌, inl, inr, refl, sym, ap, ◌∙◌, Option, none, some, List, [], ◌∷◌, ◌++◌,
}
use hft_learning.Prelude.Arrays.{update, update_self}
use hft_learning.Book.Types.{Side, Order, add64, sub64}
use hft_learning.Book.Levels.{head_behind, end_without}
use hft_learning.Book.Chain.{In, last_of-In, In-append, In-append_right}
use hft_learning.Book.Store.{Queues, set_queue, IsQueue}
use hft_learning.Book.Links.{linked_in, linked_in_other, linked_out}
use hft_learning.Book.Enqueue.{IsQueue-insert}
use hft_learning.Book.Dequeue.{IsQueue-remove, out_pool-other, gone, widen}
use hft_learning.Book.Stored.{
  Levels, set_levels, IsStored, IsLoose, place-cases, one_level, loose-write, replace,
}

module _ {pool : ℕ → Order} {levels : Levels} {max_orders max_price : ℕ} {q : Queues} where
  -- Taking the first order off the free list.
  pub take-IsStored :
      {head : Option ℕ} (i : ℕ) (free : List ℕ)
      → IsStored pool levels head max_orders max_price q (i ∷ free)
      → IsStored pool levels (pool i).next max_orders max_price q free × IsLoose max_orders q free i
  take-IsStored i free st = (
    record {
      queue = st.queue;
      priced = st.priced;
      free_list = record {
        free_linked = st.free_list.free_linked.1;
        free_head = st.free_list.free_linked.0;
        free_distinct = st.free_list.free_distinct.1;
        free_pooled = λ j h. st.free_list.free_pooled j (inr h);
      };
      apart = λ j s p h. st.apart j s p (inr h);
    },
    record {
      pooled = st.free_list.free_pooled i (inl refl);
      unqueued = λ s p. st.apart i s p (inl refl);
      taken = st.free_list.free_distinct.0;
    },
  )

  -- Giving an order that stands in no list back.
  pub give-IsStored :
      {head : Option ℕ} {free : List ℕ} (i : ℕ)
      → IsStored pool levels head max_orders max_price q free
      → IsLoose max_orders q free i
      → IsStored
          (update pool i (record (pool i) { next = head }))
          levels
          (some i)
          max_orders
          max_price
          q
          (i ∷ free)
  give-IsStored {head} {free} i st loose =
      let o : Order = record (pool i) { next = head } in
      let written = loose-write st i o loose in
      record {
        queue = written.queue;
        priced = written.priced;
        free_list = record {
          free_linked = (
            ap (λ (r : Order). r.next) (update_self pool i o) ∙ st.free_list.free_head,
            written.free_list.free_linked,
          );
          free_head = refl;
          free_distinct = (loose.taken, st.free_list.free_distinct);
          free_pooled =
              λ j h. elim h [ inl e ↦ rw e loose.pooled | inr f ↦ st.free_list.free_pooled j f ];
        };
        apart = λ j s p h. elim h [ inl e ↦ rw e (loose.unqueued s p) | inr f ↦ st.apart j s p f ];
      }

module _ {pool : ℕ → Order} {levels : Levels} {head : Option ℕ} {max_orders max_price : ℕ}
    {q : Queues} {free : List ℕ} (st : IsStored pool levels head max_orders max_price q free)
    (s : Side) (p : ℕ) where
  -- Linking an order that stands in no list behind its level.
  pub enqueue-IsStored :
      (i quantity : ℕ)
      → IsLoose max_orders q free i
      → (pool i).side ≡ s
      → (pool i).price ≡ p
      → (pool i).quantity ≡ quantity
      → quantity < 2 ^ 64
      → p < max_price
      → IsStored
          (linked_in pool i (levels s p).tail)
          (set_levels levels s p (record {
            head = head_behind (levels s p).tail (levels s p).head i;
            tail = some i;
            total_volume = add64 (levels s p).total_volume quantity;
          }))
          head
          max_orders
          max_price
          (set_queue q s p (q s p ++ i ∷ []))
          free
  enqueue-IsStored i quantity loose side_i price_i quantity_i small in_price =
      replace st (linked_in pool i (levels s p).tail) s p _ (q s p ++ i ∷ [])
        (IsQueue-insert (st.queue s p) i (loose.unqueued s p) quantity side_i price_i loose.pooled
          quantity_i small)
        (λ j h. in_price)
        (λ j f h. elim (In-append j (q s p) (i ∷ []) h) [
          | inl a ↦ st.apart j s p f a
          | inr b ↦ elim b [ inl e ↦ loose.taken (rw e at f) | inr none_left ↦ none_left ]
        ])
        (λ t r j other h.
          linked_in_other pool i (levels s p).tail j (λ e. loose.unqueued t r (rw e at h))
            (λ e. one_level st s t p r j other h (tail_in j e)))
        (λ j f.
          linked_in_other pool i (levels s p).tail j (λ e. loose.taken (rw e at f))
            (λ e. st.apart j s p f (tail_in j e)))
    where
      tail_in : (j : ℕ) → (levels s p).tail ≡ some j → In j (q s p)
      tail_in j e = elim (last_of-In j none (q s p) (sym (st.queue s p).tail ∙ e)) [
        | inl n ↦ cc
        | inr h ↦ h
      ]

  -- Unlinking an order from its level.
  pub dequeue-IsStored :
      (xs : List ℕ) (i : ℕ) (ys : List ℕ)
      → q s p ≡ xs ++ i ∷ ys
      → IsStored
          (linked_out pool (pool i).prev (pool i).next)
          (set_levels levels s p (record {
            head = end_without (pool i).prev (levels s p).head (pool i).next;
            tail = end_without (pool i).next (levels s p).tail (pool i).prev;
            total_volume = sub64 (levels s p).total_volume (pool i).quantity;
          }))
          head
          max_orders
          max_price
          (set_queue q s p (xs ++ ys))
          free
        × IsLoose max_orders (set_queue q s p (xs ++ ys)) free i
  dequeue-IsStored xs i ys split =
      let here : IsQueue pool max_orders s p (levels s p) (xs ++ i ∷ ys) =
        subst (IsQueue pool max_orders s p (levels s p)) split (st.queue s p) in
      (
        replace st (linked_out pool (pool i).prev (pool i).next) s p _ (xs ++ ys)
            (IsQueue-remove xs i ys here)
            (λ j h. st.priced s p j (rw split (widen xs i ys here j h)))
            (λ j f h. st.apart j s p f (rw split (widen xs i ys here j h)))
            (λ t r j other h.
              out_pool-other xs i ys here j (λ k. one_level st s t p r j other h (rw split k)))
            (λ j f. out_pool-other xs i ys here j (λ k. st.apart j s p f (rw split k))),
        record {
          pooled = here.pooled i (In-append_right i xs (i ∷ ys) (inl refl));
          unqueued = λ t r. elim (place-cases t s r p) [
            | inl (e, ts, rp) ↦ λ h. gone xs i ys here (rw e at h)
            | inr (e, other) ↦ λ h. one_level st s t p r i other (rw e at h) (rw split inside)
          ];
          taken = λ f. st.apart i s p f (rw split inside);
        },
      )
    where
      inside : In i (xs ++ i ∷ ys)
      inside = In-append_right i xs (i ∷ ys) (inl refl)
