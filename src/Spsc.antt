-- ===== src/Spsc.antt =====
-- include/SPSCQueue.hpp: the bounded queue between one producer and one consumer thread, as `push`
-- and `pop` change it when they run alone. `Spsc.Threads` has their single memory accesses.
pub mod Ring
pub mod Fifo
pub mod Refine
pub mod Calls
pub mod Threads
pub mod Safety
mod Tests
use hft_learning.Prelude.{ℕ, ◌+◌, ◌%◌, ◌^◌, Bool, true, false, ◌==◌, if◌then◌else◌}
use hft_learning.Prelude.Arrays.{update}
use hft_learning.Prelude.Cycle.{next_index}

-- `data_`, with its two indices; `Capacity` is a parameter of the operations.
pub record SpscQueue {ℓ} (A : Type ℓ) : Type ℓ where
  pub write_index : ℕ
  pub read_index : ℕ
  pub items : ℕ → A

-- A queue as its constructor leaves it, in memory that holds `items`.
abbrev pub spsc_queue {ℓ} : {A : Type ℓ} → (ℕ → A) → SpscQueue A
spsc_queue items = record { write_index = 0; read_index = 0; items = items }

module _ {ℓ} {A : Type ℓ} (capacity : ℕ) where
  unfoldable pub push : SpscQueue A → A → Bool × SpscQueue A
  push q item =
      let current_write = q.write_index in
      let next_write = next_index capacity current_write in
      if next_write == q.read_index
      then (false, q)
      else (true, record q { items = update q.items current_write item; write_index = next_write })

  -- `item` is what the caller's variable holds, before and after.
  unfoldable pub pop : SpscQueue A → A → Bool × A × SpscQueue A
  pop q item =
      let current_read = q.read_index in
      if current_read == q.write_index
      then (false, item, q)
      else (true, q.items current_read, record q { read_index = next_index capacity current_read })
