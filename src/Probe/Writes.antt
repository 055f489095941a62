-- ===== src/Probe/Writes.antt =====
-- Putting a key into a slot and erasing one: every key stays findable, and only that key changes.
use native.Mathlib.Decide.{ℕ_discrete}
use hft_learning.Prelude.{ℕ, ◌%◌, ◌<◌, ◌≡◌, ◌≢◌, ◌↔◌, ◌⊎◌, inl, inr, sym, ◌∙◌, arith}
use hft_learning.Prelude.Arrays.{update, update_self, update_ne}
use hft_learning.Prelude.Cycle.{ahead, distance}
use hft_learning.Probe.Table.{Cell, vacant, dead, live, Holds, IsAbsent, IsTable}

pub live-injective : {k j : ℕ} → live k ≡ live j → k ≡ j
live-injective e = ground arith

module _ (capacity : ℕ) (cell : ℕ → Cell) (slot : ℕ) where
  -- A slot that holds no key.
  abbrev pub IsFree : Type 0
  IsFree = (cell slot ≡ vacant) ⊎ (cell slot ≡ dead)

  pub not-live_of_free : (k : ℕ) → IsFree → cell slot ≢ live k
  not-live_of_free k f e = elim f [ inl v ↦ cc | inr d ↦ cc ]

  -- A write that leaves no slot vacant keeps the paths open.
  path-update : (c : Cell) (i : ℕ) → c ≢ vacant → cell i ≢ vacant → update cell slot c i ≢ vacant
  path-update c i hc hi = elim (ℕ_discrete i slot) [
    | yes same ↦ λ e. hc (sym (update_self cell slot c) ∙ rw same at e)
    | no other ↦ λ e. hi (sym (update_ne cell slot c i other) ∙ e)
  ]

  pub Holds-put : (k : ℕ) → slot < capacity → Holds capacity (update cell slot (live k)) k slot
  Holds-put k lt = (lt, update_self cell slot (live k))

  -- Other keys are held where they were.
  pub Holds-put_ne :
      (k j i : ℕ)
      → IsFree
      → j ≢ k
      → Holds capacity (update cell slot (live k)) j i ↔ Holds capacity cell j i
  Holds-put_ne k j i f ne = elim (ℕ_discrete i slot) [
    | yes same ↦ (
      λ h. absurd (ne (live-injective (sym h.1 ∙ rw same (update_self cell slot (live k))))),
      λ h. absurd (not-live_of_free j f (rw same at h.1)),
    )
    | no other ↦ (
      λ h. (h.0, sym (update_ne cell slot (live k) i other) ∙ h.1),
      λ h. (h.0, update_ne cell slot (live k) i other ∙ h.1),
    )
  ]

  Holds-erase_ne :
      (c : Cell) (j i : ℕ)
      → c ≢ live j
      → Holds capacity (update cell slot c) j i
      → Holds capacity cell j i × (i ≢ slot)
  Holds-erase_ne c j i ne h = elim (ℕ_discrete i slot) [
    | yes same ↦ absurd (ne (sym (update_self cell slot c) ∙ rw same at h.1))
    | no other ↦ ((h.0, sym (update_ne cell slot c i other) ∙ h.1), other)
  ]

module _ {capacity : ℕ} (cell : ℕ → Cell) (slot : ℕ) (slot_in : slot < capacity) where
  -- A key that is not held goes into a free slot that its walk reaches.
  pub put-IsTable :
      (k : ℕ)
      → IsTable capacity cell
      → IsAbsent capacity cell k
      → IsFree capacity cell slot
      → ((d : ℕ)
          → d < distance capacity (k % capacity) slot
          → cell (ahead capacity (k % capacity) d) ≢ vacant)
      → IsTable capacity (update cell slot (live k))
  put-IsTable k t absent free open_path = record { once = once; reachable = reachable }
    where
      at_slot : (i : ℕ) → Holds capacity (update cell slot (live k)) k i → i ≡ slot
      at_slot i h = elim (ℕ_discrete i slot) [
        | yes same ↦ same
        | no other ↦ absurd (absent i h.0 (sym (update_ne cell slot (live k) i other) ∙ h.1))
      ]

      once :
          (j a b : ℕ)
          → Holds capacity (update cell slot (live k)) j a
          → Holds capacity (update cell slot (live k)) j b
          → a ≡ b
      once j a b ha hb = elim (ℕ_discrete j k) [
        | yes same ↦ at_slot a (rw same at ha) ∙ sym (at_slot b (rw same at hb))
        | no other ↦
            t.once j a b ((Holds-put_ne capacity cell slot k j a free other).0 ha)
              ((Holds-put_ne capacity cell slot k j b free other).0 hb)
      ]

      reachable :
          (j i d : ℕ)
          → Holds capacity (update cell slot (live k)) j i
          → d < distance capacity (j % capacity) i
          → update cell slot (live k) (ahead capacity (j % capacity) d) ≢ vacant
      reachable j i d h lt =
          path-update capacity cell slot (live k) (ahead capacity (j % capacity) d) (cc)
            (elim (ℕ_discrete j k) [
              | yes same ↦
                  let here = at_slot i (rw same at h) in
                  rw same (open_path d (rw (same, here) at lt))
              | no other ↦
                  t.reachable j i d ((Holds-put_ne capacity cell slot k j i free other).0 h) lt
            ])

  -- A slot whose key is erased keeps the chains that pass it.
  pub erase-IsTable : IsTable capacity cell → IsTable capacity (update cell slot dead)
  erase-IsTable t = record {
    once = λ j a b ha hb.
        t.once j a b (Holds-erase_ne capacity cell slot dead j a (λ e. cc) ha).0
          (Holds-erase_ne capacity cell slot dead j b (λ e. cc) hb).0;
    reachable = λ j i d h lt.
        path-update capacity cell slot dead (ahead capacity (j % capacity) d) (λ e. cc)
          (t.reachable j i d (Holds-erase_ne capacity cell slot dead j i (λ e. cc) h).0 lt);
  }

  pub erase-IsAbsent :
      (k : ℕ)
      → IsTable capacity cell
      → Holds capacity cell k slot
      → IsAbsent capacity (update cell slot dead) k
  erase-IsAbsent k t held i lt e =
      let (old, other) = Holds-erase_ne capacity cell slot dead k i (λ x. cc) (lt, e) in
      other (t.once k i slot old held)

  pub Holds-erase :
      (k j i : ℕ)
      → Holds capacity cell k slot
      → j ≢ k
      → Holds capacity (update cell slot dead) j i ↔ Holds capacity cell j i
  Holds-erase k j i held ne = (
    λ h. (Holds-erase_ne capacity cell slot dead j i (λ x. cc) h).0,
    λ h. (
      h.0,
      update_ne cell slot dead i (λ same. ne (live-injective (sym h.1 ∙ rw same held.1))) ∙ h.1,
    ),
  )
