-- ===== src/Numa/Tests.antt =====
-- A system without NUMA, and with one block of memory.
use hft_learning.Prelude.{ℕ, ◌≡◌, refl, Option, none, some, ap, sym}
use mathlib.Core.Path.{subst, ◌∙◌}
use hft_learning.Prelude.Arrays.{update}
use hft_learning.Prelude.Int.{pos, negsuc}
use hft_learning.Numa.{Allocators, create_on_node}
use hft_learning.Numa.Paired.{Block, heap_block, IsMemory, Creates, create_on_node-Creates}

-- which blocks are live
abbrev Blocks : Type 0
Blocks = ℕ → Option Block

abbrev new_at_64 : Blocks → Option Block → Option ℕ × Blocks
new_at_64 s none = (some 64, update s 64 (some heap_block))
new_at_64 s (some block) = (none, s)

abbrev allocators : Allocators Blocks
allocators = record {
  numa_available = negsuc 0;
  numa_max_node = pos 0;
  numa_alloc_onnode = λ s size node. (none, s);
  numa_free = λ s p size. update s p none;
  operator_new = λ s size. new_at_64 s (s 64);
  operator_delete = λ s p. update s p none;
}

new_allocates :
    (s s' : Blocks) (p : ℕ) (held : Option Block)
    → s 64 ≡ held
    → new_at_64 s held ≡ (some p, s')
    → (s p ≡ none) × ((j : ℕ) → s' j ≡ update s p (some heap_block) j)
new_allocates s s' p none e same =
    let at : 64 ≡ p = cc (ap (λ r. r.0) same) in
    (
      subst (λ p. s p ≡ none) at e,
      λ j. ap (λ r. r.1 j) (sym same) ∙ ap (λ p. update s p (some heap_block) j) at,
    )
new_allocates s s' p (some block) e same = cc (ap (λ r. r.0) same)

new_fails :
    (s s' : Blocks) (held : Option Block) → new_at_64 s held ≡ (none, s') → (j : ℕ) → s' j ≡ s j
new_fails s s' none same j = cc (ap (λ r. r.0) same)
new_fails s s' (some block) same j = ap (λ r. r.1 j) (sym same)

allocators-IsMemory : IsMemory allocators (λ s. s)
allocators-IsMemory = record {
  numa_allocates = λ s s' size p node e. cc (ap (λ r. r.0) e);
  numa_fails = λ s s' size node e j. ap (λ r. r.1 j) (sym e);
  numa_frees = λ s p size live j. refl;
  new_allocates = λ s s' size p e. new_allocates s s' p (s 64) refl e;
  new_fails = λ s s' size e. new_fails s s' (s 64) e;
  delete_frees = λ s p live j. refl;
}

-- an object whose constructor and destructor allocate nothing
abbrev quiet : Blocks → ℕ → Blocks
quiet s p = s

create_on_node-Creates_example :
    Creates allocators-IsMemory quiet quiet
      (λ s p j. refl)
      (λ s p j. refl)
      (λ j. none)
      4096
      (create_on_node allocators quiet (λ j. none) 4096 (pos 0))
create_on_node-Creates_example =
    create_on_node-Creates allocators-IsMemory quiet quiet (λ s p j. refl) (λ s p j. refl)
      (λ j. none) 4096 (pos 0)
