-- ===== src/Book/Stored.antt =====
-- All levels and the free list together: every order of the pool stands in at most one of the lists,
-- and what the steps of the operations do to them.
pub mod Moves
use mathlib.Core.Path.{subst}
use native.Mathlib.Decide.{ℕ_discrete}
use hft_learning.Prelude.{
  ℕ, ◌+◌, ◌%◌, ◌^◌, ◌<◌, ◌≡◌, ◌≢◌, ◌⊎◌, inl, inr, refl, sym, ap, ◌∙◌, Bool, true, false, ◌&&◌,
  Option, none, some, List, [], ◌∷◌, ◌++◌, arith, ◌==◌, if◌then◌else◌,
}
use hft_learning.Prelude.Arrays.{update, update_self, update_ne}
use hft_learning.Book.Types.{Side, buy, sell, Order, PriceLevel, add64, sub64}
use hft_learning.Book.Levels.{head_behind, end_without}
use hft_learning.Book.Chain.{
  In, Distinct, head_of, last_of, last_of-In, In-append, In-append_left, In-append_right,
}
use hft_learning.Book.Store.{
  Queues, same_side, set_queue, IsQueue, IsFreeList, IsQueue-same, IsFreeList-same,
}
use hft_learning.Book.Links.{linked_in, linked_in_other, linked_out}
use hft_learning.Book.Enqueue.{IsQueue-insert}
use hft_learning.Book.Dequeue.{IsQueue-remove, out_pool-other, gone}

abbrev pub Levels : Type 0
Levels = Side → ℕ → PriceLevel

abbrev pub set_levels : Levels → Side → ℕ → PriceLevel → Levels
set_levels levels s p level t r = if same_side t s && r == p then level else levels t r

pub record IsStored (pool : ℕ → Order) (levels : Levels) (free_list_head : Option ℕ)
    (max_orders max_price : ℕ) (q : Queues) (free : List ℕ) : Type 0 where
  pub queue : (s : Side) (p : ℕ) → IsQueue pool max_orders s p (levels s p) (q s p)
  pub priced : (s : Side) (p i : ℕ) → In i (q s p) → p < max_price
  pub free_list : IsFreeList pool max_orders free_list_head free
  pub apart : (i : ℕ) (s : Side) (p : ℕ) → In i free → ¬ In i (q s p)

-- An order that stands in no list.
pub record IsLoose (max_orders : ℕ) (q : Queues) (free : List ℕ) (i : ℕ) : Type 0 where
  pub pooled : i < max_orders
  pub unqueued : (s : Side) (p : ℕ) → ¬ In i (q s p)
  pub taken : ¬ In i free

-- Whether two levels are the same one.
pub place-cases :
    (t s : Side) (r p : ℕ)
    → ((same_side t s && r == p ≡ true) × (t ≡ s) × (r ≡ p))
      ⊎ ((same_side t s && r == p ≡ false) × ((t ≡ s) → r ≢ p))
place-cases buy buy r p = elim (ℕ_discrete r p) [
  | yes e ↦ inl (ground arith, refl, e)
  | no ne ↦ inr (ground arith, λ _. ne)
]
place-cases sell sell r p = elim (ℕ_discrete r p) [
  | yes e ↦ inl (ground arith, refl, e)
  | no ne ↦ inr (ground arith, λ _. ne)
]
place-cases buy sell r p = inr (refl, λ e. cc)
place-cases sell buy r p = inr (refl, λ e. cc)

module _ {pool : ℕ → Order} {levels : Levels} {head : Option ℕ} {max_orders max_price : ℕ}
    {q : Queues} {free : List ℕ} (st : IsStored pool levels head max_orders max_price q free) where
  -- An order stands in one level only.
  pub one_level : (s t : Side) (p r j : ℕ) → ((t ≡ s) → r ≢ p) → In j (q t r) → ¬ In j (q s p)
  one_level s t p r j other h k =
      other (sym ((st.queue t r).side_of j h) ∙ (st.queue s p).side_of j k)
        (sym ((st.queue t r).price_of j h) ∙ (st.queue s p).price_of j k)

  -- Writes to an order that stands in no list.
  pub loose-write :
      (i : ℕ) (o : Order)
      → IsLoose max_orders q free i
      → IsStored (update pool i o) levels head max_orders max_price q free
  loose-write i o loose = record {
    queue = λ s p.
        IsQueue-same pool (update pool i o)
          (λ j h. update_ne pool i o j (λ e. loose.unqueued s p (rw (sym e) h))) (st.queue s p);
    priced = st.priced;
    free_list =
        IsFreeList-same pool (update pool i o)
          (λ j h. update_ne pool i o j (λ e. loose.taken (rw (sym e) h))) st.free_list;
    apart = st.apart;
  }

  -- The level changes to `level` with list `is`, all in `pool'`; the other lists do not see it.
  pub replace :
      (pool' : ℕ → Order) (s : Side) (p : ℕ) (level : PriceLevel) (is : List ℕ)
      → IsQueue pool' max_orders s p level is
      → ((j : ℕ) → In j is → p < max_price)
      → ((j : ℕ) → In j free → ¬ In j is)
      → ((t : Side) (r j : ℕ) → ((t ≡ s) → r ≢ p) → In j (q t r) → pool' j ≡ pool j)
      → ((j : ℕ) → In j free → pool' j ≡ pool j)
      → IsStored pool'
          (set_levels levels s p level)
          head
          max_orders
          max_price
          (set_queue q s p is)
          free
  replace pool' s p level is new in_price no_free same same_free = record {
    queue = λ t r. elim (place-cases t s r p) [
      | inl (e, ts, rp) ↦ rw (e, ts, rp) new
      | inr (e, other) ↦ rw e (IsQueue-same pool pool' (λ j h. same t r j other h) (st.queue t r))
    ];
    priced = λ t r j h. elim (place-cases t s r p) [
      | inl (e, ts, rp) ↦ rw rp (in_price j (rw e at h))
      | inr (e, other) ↦ st.priced t r j (rw e at h)
    ];
    free_list = IsFreeList-same pool pool' same_free st.free_list;
    apart = λ j t r f h. elim (place-cases t s r p) [
      | inl (e, ts, rp) ↦ no_free j f (rw e at h)
      | inr (e, other) ↦ st.apart j t r f (rw e at h)
    ];
  }
