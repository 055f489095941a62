-- ===== src/Probe/Table.antt =====
-- An open-addressing table seen as its slots' cells: which keys it holds, what keeps every held key
-- findable, and how the writes of a table keep that.
use hft_learning.Prelude.{
  ℕ, ◌%◌, ◌<◌, ◌≡◌, ◌≢◌, ◌⊎◌, inl, inr, refl, sym, ap, ◌∙◌, Bool, true, false, some, arith, ◌==◌,
  ==-eq-true, ==-eq-false,
}
use hft_learning.Prelude.Cycle.{
  IsCapacity, ahead, distance, ahead-lt, ahead-distance, distance-lt, distance-ahead,
}
use hft_learning.Probe.{probe, probe-some, probe-FirstStop}
use native.Mathlib.Nat.{mod-lt}

-- `vacant` was never used, `dead` held a key that was erased.
pub data Cell : Type 0 where
  vacant : Cell
  dead : Cell
  live : ℕ → Cell

abbrev pub is_vacant : Cell → Bool
is_vacant vacant = true
is_vacant dead = false
is_vacant (live k) = false

abbrev pub is_live : ℕ → Cell → Bool
is_live k vacant = false
is_live k dead = false
is_live k (live j) = j == k

-- What stops a search for `k`: the end of its chain, or the key.
abbrev pub stops_find : ℕ → Cell → Bool
stops_find k vacant = true
stops_find k dead = false
stops_find k (live j) = j == k

-- What stops an insertion of `k` that takes erased slots again.
abbrev pub stops_insert : ℕ → Cell → Bool
stops_insert k vacant = true
stops_insert k dead = true
stops_insert k (live j) = j == k

pub stops_find-cases : (k : ℕ) (c : Cell) → stops_find k c ≡ true → (c ≡ vacant) ⊎ (c ≡ live k)
stops_find-cases k vacant e = inl refl
stops_find-cases k dead e = cc
stops_find-cases k (live j) e = inr (ap live (ground arith))

stops_insert-cases :
    (k : ℕ) (c : Cell) → stops_insert k c ≡ true → c ≢ live k → (c ≡ vacant) ⊎ (c ≡ dead)
stops_insert-cases k vacant e ne = inl refl
stops_insert-cases k dead e ne = inr refl
stops_insert-cases k (live j) e ne = absurd (ne (ap live (ground arith)))

stops_find-live : (k : ℕ) (c : Cell) → c ≡ live k → stops_find k c ≡ true
stops_find-live k c e = rw e (==-eq-true k k refl)

stops_find-false : (k : ℕ) (c : Cell) → c ≢ vacant → c ≢ live k → stops_find k c ≡ false
stops_find-false k vacant p q = absurd (p refl)
stops_find-false k dead p q = refl
stops_find-false k (live j) p q = ==-eq-false j k (λ e. q (ap live e))

stops_find-ne_vacant : (k : ℕ) (c : Cell) → stops_find k c ≡ false → c ≢ vacant
stops_find-ne_vacant k c e v = cc (ap (stops_find k) v)

stops_insert-ne_vacant : (k : ℕ) (c : Cell) → stops_insert k c ≡ false → c ≢ vacant
stops_insert-ne_vacant k c e v = cc (ap (stops_insert k) v)

-- A cell that is neither vacant nor the key's lets a search pass.
pub stops_find-used :
    (id : ℕ) (c : Cell) → is_vacant c ≡ false → c ≢ live id → stops_find id c ≡ false
stops_find-used id vacant used other = cc
stops_find-used id dead used other = refl
stops_find-used id (live j) used other = ==-eq-false j id (λ e. other (ap live e))

module _ (capacity : ℕ) (cell : ℕ → Cell) where
  abbrev pub Holds : ℕ → ℕ → Type 0
  Holds k i = (i < capacity) × (cell i ≡ live k)

  abbrev pub IsAbsent : ℕ → Type 0
  IsAbsent k = (i : ℕ) → i < capacity → cell i ≢ live k

  -- A key is held once, and no vacant slot lies between its home and its slot.
  pub record IsTable : Type 0 where
    pub once : (k i j : ℕ) → Holds k i → Holds k j → i ≡ j
    pub reachable :
        (k i d : ℕ)
        → Holds k i
        → d < distance capacity (k % capacity) i
        → cell (ahead capacity (k % capacity) d) ≢ vacant

module _ {capacity : ℕ} (sized : IsCapacity capacity) (cell : ℕ → Cell) where
  pub home-lt : (k : ℕ) → k % capacity < capacity
  home-lt k = mod-lt k sized.some_slot

  not_before :
      (k i d : ℕ)
      → IsTable capacity cell
      → Holds capacity cell k i
      → d < distance capacity (k % capacity) i
      → cell (ahead capacity (k % capacity) d) ≢ live k
  not_before k i d t h lt e =
      let home = k % capacity in
      let in_range : d < capacity = omega (arith, distance-lt sized home i (home-lt k) h.0) in
      let same =
        t.once k i (ahead capacity home d) h (ahead-lt sized home (home-lt k) d in_range, e) in
      let far : distance capacity home i ≡ d =
        ap (distance capacity home) same ∙ distance-ahead sized home (home-lt k) d in_range in
      absurd (omega arith)

  -- A search for a held key stops at its slot.
  pub find-Holds :
      (k i : ℕ)
      → IsTable capacity cell
      → Holds capacity cell k i
      → probe capacity (λ j. stops_find k (cell j)) capacity (k % capacity) ≡ some i
  find-Holds k i t h =
      let home = k % capacity in
      let steps = distance capacity home i in
      let there = ahead-distance sized home i (home-lt k) h.0 in
      probe-FirstStop sized (λ j. stops_find k (cell j)) home steps (home-lt k)
        (distance-lt sized home i (home-lt k) h.0)
        (record {
          stops = stops_find-live k (cell (ahead capacity home steps)) (ap cell (sym there) ∙ h.1);
          first = λ d lt.
              stops_find-false k (cell (ahead capacity home d)) (t.reachable k i d h lt)
                (λ e. not_before k i d t h lt e);
        })
      ∙ ap some (sym there)

  -- A search for a key that is not held stops at a vacant slot.
  pub find-IsAbsent :
      (k : ℕ) {i : ℕ}
      → IsAbsent capacity cell k
      → probe capacity (λ j. stops_find k (cell j)) capacity (k % capacity) ≡ some i
      → cell i ≡ vacant
  find-IsAbsent k {i} absent e =
      let home = k % capacity in
      let (steps, lt, there, f) =
        probe-some sized (λ j. stops_find k (cell j)) capacity home (home-lt k) (omega arith) e in
      elim (stops_find-cases k (cell (ahead capacity home steps)) f.stops) [
        | inl v ↦ ap cell there ∙ v
        | inr l ↦
            absurd (absent (ahead capacity home steps) (ahead-lt sized home (home-lt k) steps lt) l)
      ]

  -- An insertion of a key that is not held stops at a slot that holds no key.
  pub insert-IsAbsent :
      (k : ℕ) {i : ℕ}
      → IsAbsent capacity cell k
      → probe capacity (λ j. stops_insert k (cell j)) capacity (k % capacity) ≡ some i
      → (i < capacity)
        × ((cell i ≡ vacant) ⊎ (cell i ≡ dead))
        × ((d : ℕ)
            → d < distance capacity (k % capacity) i
            → cell (ahead capacity (k % capacity) d) ≢ vacant)
  insert-IsAbsent k {i} absent e =
      let home = k % capacity in
      let (steps, lt, there, f) =
        probe-some sized (λ j. stops_insert k (cell j)) capacity home (home-lt k) (omega arith) e in
      let i_lt = ahead-lt sized home (home-lt k) steps lt in
      let far : distance capacity home i ≡ steps =
        ap (distance capacity home) there ∙ distance-ahead sized home (home-lt k) steps lt in
      (
        rw there i_lt,
        stops_insert-cases k (cell i) (ap (λ j. stops_insert k (cell j)) there ∙ f.stops)
            (absent i (rw there i_lt)),
        λ d before.
            stops_insert-ne_vacant k (cell (ahead capacity home d)) (f.first d (rw far at before)),
      )

  -- A search for a key that is not held passes no vacant slot before it stops.
  pub find_path :
      (k : ℕ) {i : ℕ}
      → probe capacity (λ j. stops_find k (cell j)) capacity (k % capacity) ≡ some i
      → (i < capacity)
        × ((d : ℕ)
            → d < distance capacity (k % capacity) i
            → cell (ahead capacity (k % capacity) d) ≢ vacant)
  find_path k {i} e =
      let home = k % capacity in
      let (steps, lt, there, f) =
        probe-some sized (λ j. stops_find k (cell j)) capacity home (home-lt k) (omega arith) e in
      let far : distance capacity home i ≡ steps =
        ap (distance capacity home) there ∙ distance-ahead sized home (home-lt k) steps lt in
      (
        rw there (ahead-lt sized home (home-lt k) steps lt),
        λ d before.
            stops_find-ne_vacant k (cell (ahead capacity home d)) (f.first d (rw far at before)),
      )
