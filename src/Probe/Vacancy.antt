-- ===== src/Probe/Vacancy.antt =====
-- How many slots of a table are vacant: a table with one of them ends every walk.
use hft_learning.Prelude.{
  ℕ, zero, suc, ◌+◌, ◌<◌, ◌≤◌, ◌≡◌, refl, arith, true, false, if◌then◌else◌, Bool-cases, inl, inr,
}
use hft_learning.Prelude.Arrays.{update, update_self, update_ne}
use native.Mathlib.Decide.{ℕ_discrete}
use hft_learning.Probe.Table.{Cell, vacant, dead, live, is_vacant}

-- the vacant slots among the first `n`
unfoldable pub vacancies : (ℕ → Cell) → ℕ → ℕ
vacancies cell zero = 0
vacancies cell (suc n) = (if is_vacant (cell n) then 1 else 0) + vacancies cell n

is_vacant→eq : (c : Cell) → is_vacant c ≡ true → c ≡ vacant
is_vacant→eq vacant e = refl
is_vacant→eq dead e = cc
is_vacant→eq (live k) e = cc

-- Where some slot is vacant, one can be named.
pub vacancies_pos :
    (cell : ℕ → Cell) (n : ℕ) → 0 < vacancies cell n → (i : ℕ) × (i < n) × (cell i ≡ vacant)
unfolding vacancies
vacancies_pos cell zero h = absurd (omega arith)
vacancies_pos cell (suc n) h = elim (Bool-cases (is_vacant (cell n))) [
  | inl now ↦ (n, omega arith, is_vacant→eq (cell n) now)
  | inr later ↦
      let below : 0 < 0 + vacancies cell n = rw later at h in
      let (i, lt, v) = vacancies_pos cell n (omega arith) in (i, omega arith, v)
]

vacancies-beyond :
    (cell : ℕ → Cell) (slot : ℕ) (c : Cell) (n : ℕ)
    → n ≤ slot
    → vacancies (update cell slot c) n ≡ vacancies cell n
unfolding vacancies
vacancies-beyond cell slot c zero h = refl
vacancies-beyond cell slot c (suc n) h = rw (
  update_ne cell slot c n (λ e. absurd (omega arith)),
  vacancies-beyond cell slot c n (omega arith),
)

-- A write takes at most one vacancy.
pub vacancies-update :
    (cell : ℕ → Cell) (slot : ℕ) (c : Cell) (n : ℕ)
    → vacancies cell n ≤ vacancies (update cell slot c) n + 1
unfolding vacancies
vacancies-update cell slot c zero = omega arith
vacancies-update cell slot c (suc n) = elim (ℕ_discrete n slot) [
  | yes same ↦ rw (vacancies-beyond cell slot c n (omega arith)) (ground arith)
  | no other ↦ rw (update_ne cell slot c n other) (omega (arith, vacancies-update cell slot c n))
]

-- A write to a slot that is not vacant takes none.
pub vacancies-update_used :
    (cell : ℕ → Cell) (slot : ℕ) (c : Cell) (n : ℕ)
    → is_vacant (cell slot) ≡ false
    → is_vacant c ≡ false
    → vacancies (update cell slot c) n ≡ vacancies cell n
unfolding vacancies
vacancies-update_used cell slot c zero h k = refl
vacancies-update_used cell slot c (suc n) h k = elim (ℕ_discrete n slot) [
  | yes same ↦
      rw (same, update_self cell slot c, h, k)
        (omega (arith, vacancies-beyond cell slot c slot (omega arith)))
  | no other ↦ rw (update_ne cell slot c n other, vacancies-update_used cell slot c n h k)
]

-- An array of vacant slots.
pub vacancies-all :
    (cell : ℕ → Cell) (n : ℕ) → ((i : ℕ) → i < n → cell i ≡ vacant) → vacancies cell n ≡ n
unfolding vacancies
vacancies-all cell zero h = refl
vacancies-all cell (suc n) h =
    rw (h n (omega arith)) (omega (arith, vacancies-all cell n (λ i lt. h i (omega arith))))

-- Where no slot is vacant, none can be named.
pub vacancies_zero :
    (cell : ℕ → Cell) (n : ℕ) → vacancies cell n ≡ 0 → (i : ℕ) → i < n → is_vacant (cell i) ≡ false
unfolding vacancies
vacancies_zero cell zero h i lt = absurd (omega arith)
vacancies_zero cell (suc n) h i lt = elim (ℕ_discrete i n) [
  | yes same ↦ rw same (ground arith)
  | no other ↦ vacancies_zero cell n (omega arith) i (omega arith)
]
