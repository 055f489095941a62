-- ===== src/Numa/Paired.antt =====
-- Every block goes back to the allocator that it came from, with its size.
use mathlib.Core.Path.{subst}
use native.Mathlib.Decide.{ℕ_discrete}
use hft_learning.Prelude.{
  ℕ, ◌≡◌, refl, sym, ap, ◌∙◌, inl, inr, true, false, Bool-cases, Option, none, some, if_true,
  if_false, if◌then◌else◌,
}
use hft_learning.Prelude.Arrays.{update, update_self, update_ne}
use hft_learning.Prelude.Int.{ℤ, pos, ltb_ℤ}
use hft_learning.Numa.{
  Allocators, Outcome, returned, bad_alloc, or_throw, allocate_on_node, free_memory, constructed,
  create_on_node, destroy_and_free,
}

-- a live block: one of `operator new`, or one of libnuma with its size
pub data Block : Type 0 where
  heap_block : Block
  numa_block : ℕ → Block

module _ {S : Type 0} (memory : Allocators S) (blocks : S → ℕ → Option Block) where
  -- What is documented of the allocators: an allocation makes one new block live or none; a block is
  -- given back by the call that belongs to its allocator, libnuma's with its size.
  pub record IsMemory : Type 0 where
    pub numa_allocates :
        (s s' : S) (size p : ℕ) (node : ℤ)
        → memory.numa_alloc_onnode s size node ≡ (some p, s')
        → (blocks s p ≡ none)
          × ((j : ℕ) → blocks s' j ≡ update (blocks s) p (some (numa_block size)) j)
    pub numa_fails :
        (s s' : S) (size : ℕ) (node : ℤ)
        → memory.numa_alloc_onnode s size node ≡ (none, s')
        → (j : ℕ) → blocks s' j ≡ blocks s j
    pub numa_frees :
        (s : S) (p size : ℕ)
        → blocks s p ≡ some (numa_block size)
        → (j : ℕ) → blocks (memory.numa_free s p size) j ≡ update (blocks s) p none j
    pub new_allocates :
        (s s' : S) (size p : ℕ)
        → memory.operator_new s size ≡ (some p, s')
        → (blocks s p ≡ none) × ((j : ℕ) → blocks s' j ≡ update (blocks s) p (some heap_block) j)
    pub new_fails :
        (s s' : S) (size : ℕ)
        → memory.operator_new s size ≡ (none, s')
        → (j : ℕ) → blocks s' j ≡ blocks s j
    pub delete_frees :
        (s : S) (p : ℕ)
        → blocks s p ≡ some heap_block
        → (j : ℕ) → blocks (memory.operator_delete s p) j ≡ update (blocks s) p none j

  -- the block that an allocation makes on this system
  abbrev pub block : ℕ → Block
  block size = if ltb_ℤ memory.numa_available (pos 0) then heap_block else numa_block size

  -- An allocation comes to a pointer to a new block, or to an exception and no block; never to null.
  pub data Allocates (s : S) (size : ℕ) : Outcome × S → Type 0 where
    allocated :
        {p : ℕ} {s' : S}
        → blocks s p ≡ none
        → ((j : ℕ) → blocks s' j ≡ update (blocks s) p (some (block size)) j)
        → Allocates s size (returned (some p), s')
    threw : {s' : S} → ((j : ℕ) → blocks s' j ≡ blocks s j) → Allocates s size (bad_alloc, s')

module _ {S : Type 0} {memory : Allocators S} {blocks : S → ℕ → Option Block}
    (lawful : IsMemory memory blocks) where
  numa-Allocates :
      (s : S) (size : ℕ) (node : ℤ) (reply : Option ℕ × S)
      → memory.numa_alloc_onnode s size node ≡ reply
      → ltb_ℤ memory.numa_available (pos 0) ≡ false
      → Allocates memory blocks s size (or_throw memory reply)
  numa-Allocates s size node (none, s') e here = threw (lawful.numa_fails s s' size node e)
  numa-Allocates s size node (some p, s') e here =
      let (was_free, live) = lawful.numa_allocates s s' size p node e in
      allocated was_free (rw here live)

  new-Allocates :
      (s : S) (size : ℕ) (reply : Option ℕ × S)
      → memory.operator_new s size ≡ reply
      → ltb_ℤ memory.numa_available (pos 0) ≡ true
      → Allocates memory blocks s size (or_throw memory reply)
  new-Allocates s size (none, s') e here = threw (lawful.new_fails s s' size e)
  new-Allocates s size (some p, s') e here =
      let (was_free, live) = lawful.new_allocates s s' size p e in allocated was_free (rw here live)

  allocate_on_node-Allocates :
      (s : S) (size : ℕ) (node : ℤ)
      → Allocates memory blocks s size (allocate_on_node memory s size node)
  unfolding allocate_on_node
  allocate_on_node-Allocates s size node =
      let node' = if ltb_ℤ memory.numa_max_node node then pos 0 else node in
      elim (Bool-cases (ltb_ℤ memory.numa_available (pos 0))) [
        | inl without ↦
            subst (Allocates memory blocks s size)
              (sym (if_true (ltb_ℤ memory.numa_available (pos 0)) _ _ without))
              (new-Allocates s size (memory.operator_new s size) refl without)
        | inr here ↦
            subst (Allocates memory blocks s size)
              (sym (if_false (ltb_ℤ memory.numa_available (pos 0)) _ _ here))
              (numa-Allocates s size node' (memory.numa_alloc_onnode s size node') refl here)
      ]

  free_memory-update :
      (s : S) (p size : ℕ)
      → blocks s p ≡ some (block memory blocks size)
      → (j : ℕ) → blocks (free_memory memory s (some p) size) j ≡ update (blocks s) p none j
  unfolding free_memory
  free_memory-update s p size live j = elim (Bool-cases (ltb_ℤ memory.numa_available (pos 0))) [
    | inl without ↦
        let of_new : blocks s p ≡ some heap_block =
          live ∙ ap some (if_true (ltb_ℤ memory.numa_available (pos 0)) _ _ without) in
        ap (λ s. blocks s j) (if_true (ltb_ℤ memory.numa_available (pos 0)) _ _ without)
        ∙ lawful.delete_frees s p of_new j
    | inr here ↦
        let of_numa : blocks s p ≡ some (numa_block size) =
          live ∙ ap some (if_false (ltb_ℤ memory.numa_available (pos 0)) _ _ here) in
        ap (λ s. blocks s j) (if_false (ltb_ℤ memory.numa_available (pos 0)) _ _ here)
        ∙ lawful.numa_frees s p size of_numa j
  ]

-- A block that was made and given back leaves nothing.
given_back :
    {A : Type 0} (before after : ℕ → Option A) (p : ℕ) (made : A)
    → ((j : ℕ) → after j ≡ update before p (some made) j)
    → before p ≡ none
    → (j : ℕ) → update after p none j ≡ before j
given_back before after p made live was_free j = elim (ℕ_discrete j p) [
  | yes same ↦
      subst (λ j. update after p none j ≡ before j) (sym same)
        (update_self after p none ∙ sym was_free)
  | no other ↦ update_ne after p none j other ∙ live j ∙ update_ne before p (some made) j other
]

module _ {S : Type 0} {memory : Allocators S} {blocks : S → ℕ → Option Block}
    (lawful : IsMemory memory blocks) (construct destroy : S → ℕ → S)
    (constructs : (s : S) (p j : ℕ) → blocks (construct s p) j ≡ blocks s j)
    (destroys : (s : S) (p j : ℕ) → blocks (destroy s p) j ≡ blocks s j) where
  -- What `create_on_node` comes to: an object in a new block, which `destroy_and_free` gives back
  -- whenever the same blocks are live; or an exception and no block.
  pub data Creates (s : S) (size : ℕ) : Outcome × S → Type 0 where
    created :
        {p : ℕ} {s' : S}
        → blocks s p ≡ none
        → blocks s' p ≡ some (block memory blocks size)
        → ((s'' : S)
            → ((j : ℕ) → blocks s'' j ≡ blocks s' j)
            → (j : ℕ) → blocks (destroy_and_free memory destroy s'' (some p) size) j ≡ blocks s j)
        → Creates s size (returned (some p), s')
    uncreated : {s' : S} → ((j : ℕ) → blocks s' j ≡ blocks s j) → Creates s size (bad_alloc, s')

  constructed-Creates :
      (s : S) (size : ℕ) {reply : Outcome × S}
      → Allocates memory blocks s size reply
      → Creates s size (constructed memory construct reply)
  unfolding destroy_and_free
  constructed-Creates s size (threw same) = uncreated same
  constructed-Creates s size (allocated {p} {s'} was_free live) =
      let here : blocks (construct s' p) p ≡ some (block memory blocks size) =
        constructs s' p p ∙ live p ∙ update_self (blocks s) p _ in
      created was_free here (λ s'' same j.
        free_memory-update lawful (destroy s'' p) p size (destroys s'' p p ∙ same p ∙ here) j
        ∙ given_back (blocks s) (blocks (destroy s'' p)) p (block memory blocks size)
            (λ j. destroys s'' p j ∙ same j ∙ constructs s' p j ∙ live j) was_free j)

  -- Where the allocators do what is documented of them, and constructor and destructor allocate
  -- nothing themselves, `create_on_node` never returns null: it returns an object in a new block, or
  -- throws and leaves the blocks as they were. When the object is destroyed, with the same blocks live,
  -- its block goes back to the allocator that it came from, and exactly the blocks from before are
  -- live, on a system with NUMA and on one without.
  pub create_on_node-Creates :
      (s : S) (size : ℕ) (node : ℤ) → Creates s size (create_on_node memory construct s size node)
  unfolding create_on_node
  create_on_node-Creates s size node =
      constructed-Creates s size (allocate_on_node-Allocates lawful s size node)
