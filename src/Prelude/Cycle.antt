-- ===== src/Prelude/Cycle.antt =====
-- Positions on a ring of `capacity` slots: the next one, the one some steps on, and the distance
-- between two. The queue and the hash tables walk their arrays so.
use hft_learning.Prelude.Tests.{leb, ltb, if◌then◌else◌}
use Prim.Native.Nat.{ℕ, suc, ◌+◌, ◌-◌, ◌%◌, ◌^◌, ◌<◌}
use mathlib.Core.Path.{◌≡◌}
use mathlib.Core.Logic.{◌≢◌, ◌⊎◌, inl, inr}
use native.Mathlib.Omega.{arith}
use native.Mathlib.Nat.{mod-eq_of_lt, mod_self}
use native.Mathlib.Decide.{dec_lt}

-- `(index + 1) % capacity` on `size_t`
unfoldable pub next_index : ℕ → ℕ → ℕ
next_index capacity index = (index + 1) % 2 ^ 64 % capacity

pub record IsCapacity (capacity : ℕ) : Type 0 where
  pub some_slot : 0 < capacity
  pub is_size : capacity < 2 ^ 64

-- how far `w` is ahead of `r`
abbrev pub distance : ℕ → ℕ → ℕ → ℕ
distance capacity r w = if leb r w then w - r else w + capacity - r

-- the slot `n` steps on from `r`
abbrev pub ahead : ℕ → ℕ → ℕ → ℕ
ahead capacity r n = if ltb (r + n) capacity then r + n else r + n - capacity

-- One step on: the next slot, or back to the first.
pub next_index-cases :
    (capacity i : ℕ)
    → IsCapacity capacity
    → i < capacity
    → ((next_index capacity i ≡ i + 1) × (i + 1 < capacity))
      ⊎ ((next_index capacity i ≡ 0) × (i + 1 ≡ capacity))
unfolding next_index
next_index-cases capacity i sized h = elim (dec_lt (i + 1) capacity) [
  | yes p ↦
      let small : (i + 1) % 2 ^ 64 ≡ i + 1 = omega arith in inl (rw (small, mod-eq_of_lt p), p)
  | no p ↦
      let full : i + 1 ≡ capacity = omega arith in
      let small : (i + 1) % 2 ^ 64 ≡ capacity = omega arith in inr (rw (small, mod_self), full)
]

pub next_index-lt :
    (capacity i : ℕ) → IsCapacity capacity → i < capacity → next_index capacity i < capacity
next_index-lt capacity i sized h = ground (arith, next_index-cases capacity i sized h)

module _ {capacity : ℕ} (sized : IsCapacity capacity) (r w : ℕ) (r_in : r < capacity)
    (w_in : w < capacity) where
  pub distance-next_write :
      distance capacity r w + 1 < capacity
      → distance capacity r (next_index capacity w) ≡ suc (distance capacity r w)
  distance-next_write room = ground (arith, next_index-cases capacity w sized)

  pub distance-next_read :
      0 < distance capacity r w
      → distance capacity r w ≡ suc (distance capacity (next_index capacity r) w)
  distance-next_read more = ground (arith, next_index-cases capacity r sized)

  pub ahead-distance : w ≡ ahead capacity r (distance capacity r w)
  ahead-distance = ground arith

  pub distance-lt : distance capacity r w < capacity
  distance-lt = ground arith

  pub room_of_ne : next_index capacity w ≢ r → distance capacity r w + 1 < capacity
  room_of_ne h = ground (arith, next_index-cases capacity w sized)

  pub distance_pos : r ≢ w → 0 < distance capacity r w
  distance_pos h = ground arith

  pub ne_of_distance_pos : 0 < distance capacity r w → r ≢ w
  ne_of_distance_pos h = ground arith

module _ {capacity : ℕ} (sized : IsCapacity capacity) (start : ℕ)
    (start_in : start < capacity) where
  pub ahead-zero : ahead capacity start 0 ≡ start
  ahead-zero = ground arith

  pub ahead-suc :
      (d : ℕ)
      → suc d < capacity
      → ahead capacity (next_index capacity start) d ≡ ahead capacity start (suc d)
  ahead-suc d h = ground (arith, next_index-cases capacity start sized)

  pub ahead-lt : (d : ℕ) → d < capacity → ahead capacity start d < capacity
  ahead-lt d h = ground arith

  pub distance-ahead : (d : ℕ) → d < capacity → distance capacity start (ahead capacity start d) ≡ d
  distance-ahead d h = ground arith
