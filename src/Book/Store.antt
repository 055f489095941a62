-- ===== src/Book/Store.antt =====
-- What it means that the book's price levels and its free list are well formed: each level is a
-- doubly linked list through the pool, in arrival order, whose volume is counted, and no order
-- stands in two of the lists.
use hft_learning.Prelude.{
  ℕ, ◌+◌, ◌%◌, ◌^◌, ◌<◌, ◌≡◌, inl, inr, refl, sym, ap, ◌∙◌, Bool, true, false, ◌&&◌, Option, none,
  List, [], ◌∷◌, ◌++◌, arith, ◌==◌, if◌then◌else◌,
}
use hft_learning.Book.Types.{Side, buy, sell, Order, PriceLevel}
use hft_learning.Book.Chain.{In, Distinct, head_of, last_of, Linked, FreeLinked}
use hft_learning.Book.Splice.{Linked-same, FreeLinked-same}

-- The orders of each level, first in first out, as pool indices.
abbrev pub Queues : Type 0
Queues = Side → ℕ → List ℕ

abbrev pub same_side : Side → Side → Bool
same_side buy buy = true
same_side sell sell = true
same_side _ _ = false

abbrev pub set_queue : Queues → Side → ℕ → List ℕ → Queues
set_queue q s p is t r = if same_side t s && r == p then is else q t r

abbrev pub volume : (ℕ → Order) → List ℕ → ℕ
volume pool [] = 0
volume pool (i ∷ is) = (pool i).quantity + volume pool is

module _ (pool : ℕ → Order) where
  -- A level whose list is `is`.
  pub record IsQueue (max_orders : ℕ) (s : Side) (p : ℕ) (level : PriceLevel) (is : List ℕ)
      : Type 0 where
    pub linked : Linked pool none is
    pub head : level.head ≡ head_of is
    pub tail : level.tail ≡ last_of none is
    pub total : level.total_volume ≡ volume pool is % 2 ^ 64
    pub distinct : Distinct is
    pub side_of : (i : ℕ) → In i is → (pool i).side ≡ s
    pub price_of : (i : ℕ) → In i is → (pool i).price ≡ p
    pub pooled : (i : ℕ) → In i is → i < max_orders
    pub fits : (i : ℕ) → In i is → (pool i).quantity < 2 ^ 64

  pub record IsFreeList (max_orders : ℕ) (head : Option ℕ) (free : List ℕ) : Type 0 where
    pub free_linked : FreeLinked pool free
    pub free_head : head ≡ head_of free
    pub free_distinct : Distinct free
    pub free_pooled : (i : ℕ) → In i free → i < max_orders

pub volume-same :
    (pool pool' : ℕ → Order) (is : List ℕ)
    → ((j : ℕ) → In j is → (pool' j).quantity ≡ (pool j).quantity)
    → volume pool' is ≡ volume pool is
volume-same pool pool' [] same = refl
volume-same pool pool' (i ∷ is) same =
    rw (same i (inl refl), volume-same pool pool' is (λ j h. same j (inr h)))

pub volume-append :
    (pool : ℕ → Order) (is js : List ℕ) → volume pool (is ++ js) ≡ volume pool is + volume pool js
volume-append pool [] js = omega arith
volume-append pool (i ∷ is) js = omega (arith, volume-append pool is js)

-- A level is not touched by writes to other orders.
pub IsQueue-same :
    (pool pool' : ℕ → Order) {max_orders : ℕ} {s : Side} {p : ℕ} {level : PriceLevel} {is : List ℕ}
    → ((j : ℕ) → In j is → pool' j ≡ pool j)
    → IsQueue pool max_orders s p level is
    → IsQueue pool' max_orders s p level is
IsQueue-same pool pool' {is = is} same q = record {
  linked =
      Linked-same pool pool' none is
        (λ j h. (ap (λ (o : Order). o.prev) (same j h), ap (λ (o : Order). o.next) (same j h)))
        q.linked;
  head = q.head;
  tail = q.tail;
  total =
      q.total
      ∙ ap (λ n. n % 2 ^ 64)
          (sym (volume-same pool pool' is (λ j h. ap (λ (o : Order). o.quantity) (same j h))));
  distinct = q.distinct;
  side_of = λ j h. ap (λ (o : Order). o.side) (same j h) ∙ q.side_of j h;
  price_of = λ j h. ap (λ (o : Order). o.price) (same j h) ∙ q.price_of j h;
  pooled = q.pooled;
  fits = λ j h. rw (same j h) (q.fits j h);
}

pub IsFreeList-same :
    (pool pool' : ℕ → Order) {max_orders : ℕ} {head : Option ℕ} {free : List ℕ}
    → ((j : ℕ) → In j free → pool' j ≡ pool j)
    → IsFreeList pool max_orders head free
    → IsFreeList pool' max_orders head free
IsFreeList-same pool pool' {free = free} same f = record {
  free_linked =
      FreeLinked-same pool pool' free (λ j h. ap (λ (o : Order). o.next) (same j h)) f.free_linked;
  free_head = f.free_head;
  free_distinct = f.free_distinct;
  free_pooled = f.free_pooled;
}
