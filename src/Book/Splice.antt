-- ===== src/Book/Splice.antt =====
-- What appending to a doubly linked list and taking a member out do to its links.
use hft_learning.Prelude.{
  ℕ, ◌≡◌, ◌≢◌, inl, inr, refl, ◌∙◌, Option, none, some, List, [], ◌∷◌, ◌++◌, arith,
}
use hft_learning.Book.Types.{Order}
use hft_learning.Book.Chain.{
  In, Distinct, head_of, last_of, Linked, FreeLinked, In-append_left, In-append_right, head_of-In,
}

-- Two pools have the same links on a list.
abbrev pub SameLinks : (ℕ → Order) → (ℕ → Order) → List ℕ → Type 0
SameLinks pool pool' is =
    (j : ℕ) → In j is → ((pool' j).prev ≡ (pool j).prev) × ((pool' j).next ≡ (pool j).next)

pub Linked-same :
    (pool pool' : ℕ → Order) (p : Option ℕ) (is : List ℕ)
    → SameLinks pool pool' is
    → Linked pool p is
    → Linked pool' p is
Linked-same pool pool' p [] same l = tt
Linked-same pool pool' p (i ∷ is) same l =
    let (prev, next) = same i (inl refl) in
    (prev ∙ l.0, next ∙ l.1, Linked-same pool pool' (some i) is (λ j h. same j (inr h)) l.2)

pub FreeLinked-same :
    (pool pool' : ℕ → Order) (is : List ℕ)
    → ((j : ℕ) → In j is → (pool' j).next ≡ (pool j).next)
    → FreeLinked pool is
    → FreeLinked pool' is
FreeLinked-same pool pool' [] same l = tt
FreeLinked-same pool pool' (i ∷ is) same l =
    (same i (inl refl) ∙ l.0, FreeLinked-same pool pool' is (λ j h. same j (inr h)) l.1)

-- `pool'` is `pool` with `i` linked behind the list.
pub record Appended (pool pool' : ℕ → Order) (p : Option ℕ) (is : List ℕ) (i : ℕ) : Type 0 where
  pub new_prev : (pool' i).prev ≡ last_of p is
  pub new_next : (pool' i).next ≡ none
  pub last_next : (t : ℕ) → In t is → last_of p is ≡ some t → (pool' t).next ≡ some i
  pub same_prev : (j : ℕ) → In j is → (pool' j).prev ≡ (pool j).prev
  pub same_next : (j : ℕ) → In j is → last_of p is ≢ some j → (pool' j).next ≡ (pool j).next

some-ne : {i j : ℕ} → i ≢ j → some i ≢ some j
some-ne ne e = ne (ground arith)

last_of-ne : (i j : ℕ) (js : List ℕ) → ¬ In i (j ∷ js) → last_of (some j) js ≢ some i
last_of-ne i j [] out e = out (inl (ground arith))
last_of-ne i j (k ∷ ks) out e = last_of-ne i k ks (λ h. out (inr h)) e

pub Linked-snoc :
    (pool pool' : ℕ → Order) (p : Option ℕ) (is : List ℕ) (i : ℕ)
    → Distinct is
    → Appended pool pool' p is i
    → Linked pool p is
    → Linked pool' p (is ++ i ∷ [])
Linked-snoc pool pool' p [] i d a l = (a.new_prev, a.new_next, tt)
Linked-snoc pool pool' p (j ∷ []) i d a l =
    (a.same_prev j (inl refl) ∙ l.0, a.last_next j (inl refl) refl, (a.new_prev, a.new_next, tt))
Linked-snoc pool pool' p (j ∷ k ∷ ks) i d a l = (
  a.same_prev j (inl refl) ∙ l.0,
  a.same_next j (inl refl) (last_of-ne j k ks d.0) ∙ l.1,
  Linked-snoc pool pool' (some j) (k ∷ ks) i d.1
      (record {
        new_prev = a.new_prev;
        new_next = a.new_next;
        last_next = λ t h. a.last_next t (inr h);
        same_prev = λ t h. a.same_prev t (inr h);
        same_next = λ t h. a.same_next t (inr h);
      })
      l.2,
)

-- `pool'` is `pool` with `i` taken out from between `xs` and `ys`.
pub record Unlinked (pool pool' : ℕ → Order) (p : Option ℕ) (xs ys : List ℕ) : Type 0 where
  pub next_prev : (u : ℕ) → head_of ys ≡ some u → (pool' u).prev ≡ last_of p xs
  pub prev_next : (t : ℕ) → In t xs → last_of p xs ≡ some t → (pool' t).next ≡ head_of ys
  pub same_prev : (j : ℕ) → In j (xs ++ ys) → head_of ys ≢ some j → (pool' j).prev ≡ (pool j).prev
  pub same_next : (j : ℕ) → In j (xs ++ ys) → last_of p xs ≢ some j → (pool' j).next ≡ (pool j).next

-- The links of the member that is taken out.
pub Linked-at :
    (pool : ℕ → Order) (p : Option ℕ) (xs : List ℕ) (i : ℕ) (ys : List ℕ)
    → Linked pool p (xs ++ i ∷ ys)
    → ((pool i).prev ≡ last_of p xs) × ((pool i).next ≡ head_of ys)
Linked-at pool p [] i ys l = (l.0, l.1)
Linked-at pool p (x ∷ xs) i ys l = Linked-at pool (some x) xs i ys l.2

In-eq : {i j : ℕ} (is : List ℕ) → In j is → i ≡ j → In i is
In-eq is h e = rw e h

-- The back of the list, now behind `p`.
Linked-back :
    (pool pool' : ℕ → Order) (p q : Option ℕ) (ys : List ℕ)
    → Distinct ys
    → ((j : ℕ) → In j ys → p ≢ some j)
    → Unlinked pool pool' p [] ys
    → Linked pool q ys
    → Linked pool' p ys
Linked-back pool pool' p q [] d out u l = tt
Linked-back pool pool' p q (y ∷ ys) d out u l = (
  u.next_prev y refl,
  u.same_next y (inl refl) (out y (inl refl)) ∙ l.1,
  Linked-same pool pool' (some y) ys
      (λ j h. (
        u.same_prev j (inr h) (λ e. d.0 (In-eq ys h (ground arith))),
        u.same_next j (inr h) (out j (inr h)),
      ))
      l.2,
)

Unlinked-tail :
    {pool pool' : ℕ → Order} {p : Option ℕ} (x : ℕ) {xs ys : List ℕ}
    → Unlinked pool pool' p (x ∷ xs) ys
    → Unlinked pool pool' (some x) xs ys
Unlinked-tail x u = record {
  next_prev = u.next_prev;
  prev_next = λ t h. u.prev_next t (inr h);
  same_prev = λ j h. u.same_prev j (inr h);
  same_next = λ j h. u.same_next j (inr h);
}

pub Linked-remove :
    (pool pool' : ℕ → Order) (p : Option ℕ) (xs : List ℕ) (i : ℕ) (ys : List ℕ)
    → Distinct (xs ++ ys)
    → ((j : ℕ) → In j (xs ++ ys) → p ≢ some j)
    → Unlinked pool pool' p xs ys
    → Linked pool p (xs ++ i ∷ ys)
    → Linked pool' p (xs ++ ys)
Linked-remove pool pool' p [] i ys d out u l = Linked-back pool pool' p (some i) ys d out u l.2
Linked-remove pool pool' p (x ∷ []) i ys d out u l = (
  u.same_prev x (inl refl) (λ e. d.0 (head_of-In x ys e)) ∙ l.0,
  u.prev_next x (inl refl) refl,
  Linked-remove pool pool' (some x) [] i ys d.1 (λ j h e. d.0 (In-eq ys h (ground arith)))
      (Unlinked-tail x u) l.2,
)
Linked-remove pool pool' p (x ∷ w ∷ ws) i ys d out u l = (
  u.same_prev x (inl refl) (λ e. d.0 (In-append_right x (w ∷ ws) ys (head_of-In x ys e))) ∙ l.0,
  u.same_next x (inl refl) (last_of-ne x w ws (λ h. d.0 (In-append_left x (w ∷ ws) ys h))) ∙ l.1,
  Linked-remove pool pool' (some x) (w ∷ ws) i ys d.1
      (λ j h e. d.0 (In-eq (w ∷ ws ++ ys) h (ground arith))) (Unlinked-tail x u) l.2,
)
