-- ===== src/Book/Chain.antt =====
-- Lists of pool indices: membership, their ends, and what it means that a doubly linked list of
-- orders, or the free list, runs through the pool along such a list.
use hft_learning.Prelude.{
  ℕ, ◌≡◌, ◌≢◌, ◌⊎◌, inl, inr, refl, sym, ap, Option, none, some, List, [], ◌∷◌, ◌++◌, arith,
}
use native.Mathlib.Decide.{ℕ_discrete}
use hft_learning.Book.Types.{Order}

abbrev pub In : ℕ → List ℕ → Type 0
In i [] = ⊥
In i (j ∷ js) = (i ≡ j) ⊎ In i js

abbrev pub Distinct : List ℕ → Type 0
Distinct [] = Unit
Distinct (i ∷ is) = (¬ In i is) × Distinct is

abbrev pub head_of : List ℕ → Option ℕ
head_of [] = none
head_of (i ∷ is) = some i

-- the last of a list behind `p`
abbrev pub last_of : Option ℕ → List ℕ → Option ℕ
last_of p [] = p
last_of p (i ∷ is) = last_of (some i) is

-- The orders of the list are linked both ways, the first one back to `p`.
abbrev pub Linked : (ℕ → Order) → Option ℕ → List ℕ → Type 0
Linked pool p [] = Unit
Linked pool p (i ∷ is) =
    ((pool i).prev ≡ p) × ((pool i).next ≡ head_of is) × Linked pool (some i) is

-- The free list is linked one way.
abbrev pub FreeLinked : (ℕ → Order) → List ℕ → Type 0
FreeLinked pool [] = Unit
FreeLinked pool (i ∷ is) = ((pool i).next ≡ head_of is) × FreeLinked pool is

pub In-append_left : (i : ℕ) (xs ys : List ℕ) → In i xs → In i (xs ++ ys)
In-append_left i [] ys h = absurd h
In-append_left i (x ∷ xs) ys (inl e) = inl e
In-append_left i (x ∷ xs) ys (inr h) = inr (In-append_left i xs ys h)

pub In-append_right : (i : ℕ) (xs ys : List ℕ) → In i ys → In i (xs ++ ys)
In-append_right i [] ys h = h
In-append_right i (x ∷ xs) ys h = inr (In-append_right i xs ys h)

pub In-append : (i : ℕ) (xs ys : List ℕ) → In i (xs ++ ys) → In i xs ⊎ In i ys
In-append i [] ys h = inr h
In-append i (x ∷ xs) ys (inl e) = inl (inl e)
In-append i (x ∷ xs) ys (inr h) = elim (In-append i xs ys h) [ inl a ↦ inl (inr a) | inr b ↦ inr b ]

-- A list with one of its members named.
pub In-split : (i : ℕ) (is : List ℕ) → In i is → (xs ys : List ℕ) × (is ≡ xs ++ i ∷ ys)
In-split i (j ∷ js) (inl e) = ([], js, rw e)
In-split i (j ∷ js) (inr h) = let (xs, ys, e) = In-split i js h in (j ∷ xs, ys, ap (λ r. j ∷ r) e)
In-split i [] h = absurd h

pub dec_in : (i : ℕ) (is : List ℕ) → In i is ⊎ (¬ In i is)
dec_in i [] = inr (λ h. h)
dec_in i (j ∷ js) = elim (ℕ_discrete i j) [
  | yes e ↦ inl (inl e)
  | no ne ↦ elim (dec_in i js) [
    | inl h ↦ inl (inr h)
    | inr out ↦ inr (elim [ inl e ↦ ne e | inr h ↦ out h ])
  ]
]

pub head_of-In : (i : ℕ) (is : List ℕ) → head_of is ≡ some i → In i is
head_of-In i [] e = cc
head_of-In i (j ∷ js) e = inl (ground arith)

pub last_of-In :
    (i : ℕ) (p : Option ℕ) (is : List ℕ) → last_of p is ≡ some i → (p ≡ some i) ⊎ In i is
last_of-In i p [] e = inl e
last_of-In i p (j ∷ js) e = elim (last_of-In i (some j) js e) [
  | inl first ↦ inr (inl (ground arith))
  | inr later ↦ inr (inr later)
]

pub last_of-snoc : (p : Option ℕ) (is : List ℕ) (i : ℕ) → last_of p (is ++ i ∷ []) ≡ some i
last_of-snoc p [] i = refl
last_of-snoc p (j ∷ js) i = last_of-snoc (some j) js i

pub Distinct-snoc : (is : List ℕ) (i : ℕ) → Distinct is → ¬ In i is → Distinct (is ++ i ∷ [])
Distinct-snoc [] i d out = ((λ h. h), tt)
Distinct-snoc (j ∷ js) i d out = (
  λ h. elim (In-append j js (i ∷ []) h) [
    | inl old ↦ d.0 old
    | inr new ↦ elim new [ inl e ↦ out (inl (sym e)) | inr none_left ↦ none_left ]
  ],
  Distinct-snoc js i d.1 (λ h. out (inr h)),
)

-- Taking the named member out.
pub Distinct-split :
    (xs : List ℕ) (i : ℕ) (ys : List ℕ)
    → Distinct (xs ++ i ∷ ys)
    → Distinct (xs ++ ys) × (¬ In i (xs ++ ys))
Distinct-split [] i ys d = (d.1, d.0)
Distinct-split (x ∷ xs) i ys d =
    let (rest, out) = Distinct-split xs i ys d.1 in
    (
      (
        λ h. elim (In-append x xs ys h) [
          | inl a ↦ d.0 (In-append_left x xs (i ∷ ys) a)
          | inr b ↦ d.0 (In-append_right x xs (i ∷ ys) (inr b))
        ],
        rest,
      ),
      elim [ inl e ↦ d.0 (In-append_right x xs (i ∷ ys) (inl (sym e))) | inr h ↦ out h ],
    )

-- No member of the front stands in the back.
pub Distinct-disjoint : (xs ys : List ℕ) (i : ℕ) → Distinct (xs ++ ys) → In i xs → ¬ In i ys
Distinct-disjoint (x ∷ xs) ys i d (inl e) h = d.0 (In-append_right x xs ys (rw e at h))
Distinct-disjoint (x ∷ xs) ys i d (inr a) h = Distinct-disjoint xs ys i d.1 a h
Distinct-disjoint [] ys i d a h = absurd a

-- Whether a pointer points to an order.
pub dec_points : (t : Option ℕ) (j : ℕ) → (t ≡ some j) ⊎ (t ≢ some j)
dec_points none j = inr (λ e. cc)
dec_points (some i) j = elim (ℕ_discrete i j) [
  | yes e ↦ inl (ap some e)
  | no ne ↦ inr (λ e. ne (ground arith))
]

pub last_of-some : (j : ℕ) (js : List ℕ) → (t : ℕ) × (last_of (some j) js ≡ some t)
last_of-some j [] = (j, refl)
last_of-some j (k ∷ ks) = last_of-some k ks
