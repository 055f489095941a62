-- ===== src/Numa.antt =====
-- include/NumaAllocator.hpp and src/NumaAllocator.cpp: objects in memory of a chosen NUMA node. The
-- calls of libnuma, `operator new` and `operator delete` are a parameter; a pointer is its address,
-- and `none` is null.
pub mod Paired
mod Tests
use hft_learning.Prelude.{ℕ, Bool, Option, none, some, if◌then◌else◌}
use hft_learning.Prelude.Int.{ℤ, pos, ltb_ℤ}

-- `numa_available()` is negative on a system without NUMA. `operator_new` answers `none` where it
-- throws `std::bad_alloc`.
pub record Allocators (S : Type 0) : Type 0 where
  pub numa_available : ℤ
  pub numa_max_node : ℤ
  pub numa_alloc_onnode : S → ℕ → ℤ → Option ℕ × S
  pub numa_free : S → ℕ → ℕ → S
  pub operator_new : S → ℕ → Option ℕ × S
  pub operator_delete : S → ℕ → S

-- A call returns a pointer, or throws `std::bad_alloc`.
pub data Outcome : Type 0 where
  returned : Option ℕ → Outcome
  bad_alloc : Outcome

module _ {S : Type 0} (memory : Allocators S) where
  -- Memory that is there is returned; null stands for an exception, thrown here or in `operator new`.
  abbrev pub or_throw : Option ℕ × S → Outcome × S
  or_throw (none, s) = (bad_alloc, s)
  or_throw (some p, s) = (returned (some p), s)

  unfoldable pub allocate_on_node : S → ℕ → ℤ → Outcome × S
  allocate_on_node s size node =
      let node' = if ltb_ℤ memory.numa_max_node node then pos 0 else node in
      if ltb_ℤ memory.numa_available (pos 0)
      then or_throw (memory.operator_new s size)
      else or_throw (memory.numa_alloc_onnode s size node')

  unfoldable pub free_memory : S → Option ℕ → ℕ → S
  free_memory s none size = s
  free_memory s (some p) size =
      if ltb_ℤ memory.numa_available (pos 0)
      then memory.operator_delete s p
      else memory.numa_free s p size

  -- `construct` and `destroy` are the constructor and the destructor of the object.
  abbrev pub constructed : (S → ℕ → S) → Outcome × S → Outcome × S
  constructed construct (returned none, s) = (returned none, s)
  constructed construct (returned (some p), s) = (returned (some p), construct s p)
  constructed construct (bad_alloc, s) = (bad_alloc, s)

  unfoldable pub create_on_node : (S → ℕ → S) → S → ℕ → ℤ → Outcome × S
  create_on_node construct s size node = constructed construct (allocate_on_node s size node)

  unfoldable pub destroy_and_free : (S → ℕ → S) → S → Option ℕ → ℕ → S
  destroy_and_free destroy s none size = s
  destroy_and_free destroy s (some p) size = free_memory (destroy s p) (some p) size
