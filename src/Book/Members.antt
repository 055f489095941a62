-- ===== src/Book/Members.antt =====
-- Which orders stand in the book after one joins a level, or leaves it.
use mathlib.Core.Path.{fun_ext, subst}
use hft_learning.Prelude.{ℕ, ◌≡◌, ◌≢◌, ◌⊎◌, inl, inr, refl, List, [], ◌∷◌, ◌++◌}
use hft_learning.Book.Types.{Side}
use hft_learning.Book.Chain.{In, In-append, In-append_left, In-append_right}
use hft_learning.Book.Store.{Queues, set_queue}
use hft_learning.Book.Stored.{place-cases}
use hft_learning.Book.Whole.{Queued}

module _ (q : Queues) (s : Side) (p : ℕ) (is : List ℕ) where
  -- Where an order stands once the level's list is `is`.
  pub queued-cases :
      (t : Side) (r j : ℕ)
      → In j (set_queue q s p is t r)
      → In j is ⊎ (((t ≡ s) → r ≢ p) × In j (q t r))
  queued-cases t r j h = elim (place-cases t s r p) [
    | inl (e, ts, rp) ↦ inl (rw e at h)
    | inr (e, other) ↦ inr (other, rw e at h)
  ]

  pub queued-here : (j : ℕ) → In j is → In j (set_queue q s p is s p)
  queued-here j h = elim (place-cases s s p p) [
    | inl (e, ts, rp) ↦ rw e h
    | inr (e, other) ↦ absurd (other refl refl)
  ]

  pub queued-there :
      (t : Side) (r j : ℕ)
      → ((t ≡ s) → (r ≡ p) → In j is)
      → In j (q t r)
      → In j (set_queue q s p is t r)
  queued-there t r j move h = elim (place-cases t s r p) [
    | inl (e, ts, rp) ↦ rw e (move ts rp)
    | inr (e, other) ↦ rw e h
  ]

module _ (q : Queues) (s : Side) (p i : ℕ) where
  pub Queued-behind-new : Queued (set_queue q s p (q s p ++ i ∷ [])) i
  Queued-behind-new = (s, p, queued-here q s p _ i (In-append_right i (q s p) (i ∷ []) (inl refl)))

  pub Queued-behind-old : (j : ℕ) → Queued q j → Queued (set_queue q s p (q s p ++ i ∷ [])) j
  Queued-behind-old j (t, r, h) = (
    t,
    r,
    queued-there q s p _ t r j
        (λ ts rp.
          In-append_left j (q s p) (i ∷ [])
            (subst (λ r. In j (q s r)) rp (subst (λ t. In j (q t r)) ts h)))
        h,
  )

  pub Queued-behind-cases :
      (j : ℕ) → Queued (set_queue q s p (q s p ++ i ∷ [])) j → Queued q j ⊎ (j ≡ i)
  Queued-behind-cases j (t, r, h) = elim (queued-cases q s p _ t r j h) [
    | inl here ↦ elim (In-append j (q s p) (i ∷ []) here) [
      | inl a ↦ inl (s, p, a)
      | inr b ↦ elim b [ inl e ↦ inr e | inr none_left ↦ absurd none_left ]
    ]
    | inr (other, there) ↦ inl (t, r, there)
  ]

module _ (q : Queues) (s : Side) (p : ℕ) (xs : List ℕ) (i : ℕ) (ys : List ℕ)
    (split : q s p ≡ xs ++ i ∷ ys) where
  pub Queued-without-old : (j : ℕ) → Queued (set_queue q s p (xs ++ ys)) j → Queued q j
  Queued-without-old j (t, r, h) = elim (queued-cases q s p _ t r j h) [
    | inl here ↦ (
      s,
      p,
      rw split (elim (In-append j xs ys here) [
        | inl a ↦ In-append_left j xs (i ∷ ys) a
        | inr b ↦ In-append_right j xs (i ∷ ys) (inr b)
      ]),
    )
    | inr (other, there) ↦ (t, r, there)
  ]

  pub Queued-without-rest : (j : ℕ) → Queued q j → j ≢ i → Queued (set_queue q s p (xs ++ ys)) j
  Queued-without-rest j (t, r, h) ne = (
    t,
    r,
    queued-there q s p _ t r j
        (λ ts rp.
          rest (rw split at (subst (λ r. In j (q s r)) rp (subst (λ t. In j (q t r)) ts h))))
        h,
  )
    where
      rest : In j (xs ++ i ∷ ys) → In j (xs ++ ys)
      rest k = elim (In-append j xs (i ∷ ys) k) [
        | inl a ↦ In-append_left j xs ys a
        | inr b ↦ elim b [ inl e ↦ absurd (ne e) | inr c ↦ In-append_right j xs ys c ]
      ]

-- A level that is written twice, and one that is written back.
pub set_queue_self : (q : Queues) (s : Side) (p : ℕ) (is : List ℕ) → set_queue q s p is s p ≡ is
set_queue_self q s p is = elim (place-cases s s p p) [
  | inl (e, ts, rp) ↦ rw e refl
  | inr (e, other) ↦ absurd (other refl refl)
]

pub set_queue-twice :
    (q : Queues) (s : Side) (p : ℕ) (is js : List ℕ)
    → set_queue (set_queue q s p is) s p js ≡ set_queue q s p js
set_queue-twice q s p is js = fun_ext λ t.
    fun_ext
      λ r. elim (place-cases t s r p) [ inl (e, ts, rp) ↦ rw e refl | inr (e, other) ↦ rw e refl ]

pub set_queue-same : (q : Queues) (s : Side) (p : ℕ) → set_queue q s p (q s p) ≡ q
set_queue-same q s p = fun_ext λ t. fun_ext λ r. elim (place-cases t s r p) [
  | inl (e, ts, rp) ↦ rw (e, ts, rp) refl
  | inr (e, other) ↦ rw e refl
]
