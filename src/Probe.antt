-- ===== src/Probe.antt =====
-- Linear probing as a search: the `while (true)` loops of src/OrderBook.cpp and src/EMS.cpp walk an
-- array of `capacity` slots from a home slot until a slot stops them. The loops of the two programs
-- are modelled with them; here is what such a walk finds.
pub mod Table
pub mod Writes
pub mod Vacancy
use hft_learning.Prelude.{
  ℕ, zero, suc, ◌+◌, ◌<◌, ◌≤◌, ◌≡◌, ◌≢◌, ◌⊎◌, inl, inr, refl, sym, ap, ◌∙◌, Bool, true, false,
  Option, none, some, arith, if◌then◌else◌, Bool-cases, Option-cases,
}
use native.Mathlib.Decide.{dec_lt}
use hft_learning.Prelude.Cycle.{
  IsCapacity, next_index, ahead, distance, ahead-zero, ahead-suc, ahead-lt, next_index-lt,
  ahead-distance, distance-lt, distance-ahead,
}

module _ (capacity : ℕ) (stop : ℕ → Bool) where
  -- The first stop among the `fuel` slots from `index` on.
  unfoldable pub probe : ℕ → ℕ → Option ℕ
  probe zero index = none
  probe (suc fuel) index =
      let rest = probe fuel (next_index capacity index) in if stop index then some index else rest

  -- The walk from `start` stops first after `steps` steps.
  pub record FirstStop (start steps : ℕ) : Type 0 where
    pub stops : stop (ahead capacity start steps) ≡ true
    pub first : (d : ℕ) → d < steps → stop (ahead capacity start d) ≡ false

module _ {capacity : ℕ} (sized : IsCapacity capacity) (stop : ℕ → Bool) where
  probe_step :
      (fuel start : ℕ)
      → stop start ≡ false
      → probe capacity stop (suc fuel) start ≡ probe capacity stop fuel (next_index capacity start)
  unfolding probe
  probe_step fuel start e = rw e

  probe_stops :
      (fuel start : ℕ) → stop start ≡ true → probe capacity stop (suc fuel) start ≡ some start
  unfolding probe
  probe_stops fuel start e = rw e

  -- A walk that has not stopped within its fuel has passed only slots that do not stop it.
  pub probe-none :
      (fuel start : ℕ)
      → start < capacity
      → fuel ≤ capacity
      → probe capacity stop fuel start ≡ none
      → (d : ℕ) → d < fuel
      → stop (ahead capacity start d) ≡ false
  probe-none zero start hs hf e d h = absurd (omega arith)
  probe-none (suc fuel) start hs hf e zero h = elim (Bool-cases (stop start)) [
    | inl now ↦ cc (probe_stops fuel start now)
    | inr later ↦ rw (ahead-zero sized start hs) later
  ]
  probe-none (suc fuel) start hs hf e (suc d) h = elim (Bool-cases (stop start)) [
    | inl now ↦ cc (probe_stops fuel start now)
    | inr later ↦ rw (← ahead-suc sized start hs d (omega arith)) (
        probe-none fuel (next_index capacity start) (next_index-lt capacity start sized hs)
          (omega arith) (sym (probe_step fuel start later) ∙ e) d (omega arith))
  ]

  FirstStop-cons :
      (start steps : ℕ)
      → start < capacity
      → suc steps < capacity
      → stop start ≡ false
      → FirstStop capacity stop (next_index capacity start) steps
      → FirstStop capacity stop start (suc steps)
  FirstStop-cons start steps hs h later f = record {
    stops = rw (← ahead-suc sized start hs steps h) f.stops;
    first = elim [
      | zero ↦ λ _. rw (ahead-zero sized start hs) later
      | suc d ↦ λ lt. rw (← ahead-suc sized start hs d (omega arith)) (f.first d (omega arith))
    ];
  }

  -- Where a walk stops, it stops first.
  pub probe-some :
      (fuel start : ℕ) {slot : ℕ}
      → start < capacity
      → fuel ≤ capacity
      → probe capacity stop fuel start ≡ some slot
      → (steps : ℕ) × (steps < fuel)
        × (slot ≡ ahead capacity start steps)
        × FirstStop capacity stop start steps
  unfolding probe
  probe-some zero start hs hf e = cc
  probe-some (suc fuel) start {slot} hs hf e = elim (Bool-cases (stop start)) [
    | inl now ↦
        let same : start ≡ slot = cc (probe_stops fuel start now) in
        (
          0,
          omega arith,
          rw (ahead-zero sized start hs) (sym same),
          record {
            stops = rw (ahead-zero sized start hs) now;
            first = λ d lt. absurd (omega arith);
          },
        )
    | inr later ↦
        let (steps, lt, at, f) =
          probe-some fuel (next_index capacity start) (next_index-lt capacity start sized hs)
            (omega arith) (sym (probe_step fuel start later) ∙ e) in
        (
          suc steps,
          omega arith,
          at ∙ ahead-suc sized start hs steps (omega arith),
          FirstStop-cons start steps hs (omega arith) later f,
        )
  ]

  -- There is one first stop.
  FirstStop-unique :
      (start m n : ℕ) → FirstStop capacity stop start m → FirstStop capacity stop start n → m ≡ n
  FirstStop-unique start m n f g = elim (dec_lt m n) [
    | yes lt ↦ cc (f.stops, g.first m lt)
    | no ge ↦ elim (dec_lt n m) [ yes gt ↦ cc (g.stops, f.first n gt) | no le ↦ omega arith ]
  ]

  -- A walk over the whole array ends at its first stop.
  pub probe-FirstStop :
      (start steps : ℕ)
      → start < capacity
      → steps < capacity
      → FirstStop capacity stop start steps
      → probe capacity stop capacity start ≡ some (ahead capacity start steps)
  probe-FirstStop start steps hs lt f = elim (Option-cases (probe capacity stop capacity start)) [
    | inl e ↦ cc (probe-none capacity start hs (omega arith) e steps lt, f.stops)
    | inr (slot, e) ↦
        let (m, _, at, g) = probe-some capacity start hs (omega arith) e in
        e ∙ ap some (at ∙ ap (ahead capacity start) (FirstStop-unique start m steps g f))
  ]

  -- A walk over the whole array ends if some slot stops it.
  pub probe_total :
      (start slot : ℕ)
      → start < capacity
      → slot < capacity
      → stop slot ≡ true
      → (found : ℕ) × (probe capacity stop capacity start ≡ some found)
  probe_total start slot hs lt e = elim (Option-cases (probe capacity stop capacity start)) [
    | inl never ↦
        let d = distance capacity start slot in
        let there = ahead-distance sized start slot hs lt in
        cc (
          probe-none capacity start hs (omega arith) never d (distance-lt sized start slot hs lt),
          ap stop there,
        )
    | inr (found, e) ↦ (found, e)
  ]

  -- A walk that no slot stops goes round for ever.
  pub probe_never :
      ((slot : ℕ) → slot < capacity → stop slot ≡ false)
      → (fuel start : ℕ) → start < capacity
      → probe capacity stop fuel start ≡ none
  unfolding probe
  probe_never free zero start hs = refl
  probe_never free (suc fuel) start hs =
      rw (free start hs)
        (probe_never free fuel (next_index capacity start) (next_index-lt capacity start sized hs))
