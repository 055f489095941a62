-- ===== src/Logger/Types.antt =====
-- The types of include/AsyncLogger.hpp, and the system calls that the logger makes.
use hft_learning.Prelude.{ℕ, Bool, Option, List}
use hft_learning.Prelude.Int.{ℤ}
use hft_learning.Wire.{Buffer}
use hft_learning.Spsc.{SpscQueue}

pub data LogLevel : Type 0 where
  info warn error fatal : LogLevel

-- `MAX_LOG_PAYLOAD` and `QUEUE_CAPACITY`
abbrev pub max_log_payload : ℕ
max_log_payload = 240

abbrev pub queue_capacity : ℕ
queue_capacity = 1024

-- `payload` is what `%s` reads of the array: the characters before the first zero.
pub record LogMessage : Type 0 where
  pub timestamp : ℕ
  pub level : LogLevel
  pub thread_id : ℕ
  pub length : ℕ
  pub payload : List ℕ

-- A `unique_ptr` to a queue is the address of the queue.
pub record ThreadQueue : Type 0 where
  pub thread_id : ℕ
  pub queue : ℕ

-- The singleton: `mmap_ptr` is `none` for `MAP_FAILED`; `heap` has the queues that the first
-- `allocated` calls of `make_unique` gave; `system` is the state of the operating system.
pub record AsyncLogger (S : Type 0) : Type 0 where
  pub filepath : List ℕ
  pub fd : ℤ
  pub mmap_size : ℕ
  pub current_offset : ℕ
  pub mmap_ptr : Option Buffer
  pub running : Bool
  pub thread_queues : List ThreadQueue
  pub heap : ℕ → SpscQueue LogMessage
  pub allocated : ℕ
  pub system : S

-- The system calls. A Boolean says whether a call succeeds; a mapping is the bytes behind it.
pub record System (S : Type 0) : Type 0 where
  pub open_file : S → List ℕ → ℤ × S
  pub ftruncate : S → ℤ → ℕ → Bool × S
  pub mmap : S → ℤ → ℕ → Option Buffer × S
  pub mremap : S → Buffer → ℕ → ℕ → Option Buffer × S
  pub munmap : S → Buffer → ℕ → S
  pub close : S → ℤ → S
