-- ===== src/Spsc/Threads.antt =====
-- include/SPSCQueue.hpp between its two threads, one memory access at a time. An `acquire` load sees
-- what the other side wrote before its `release` store of the index, so the accesses interleave as
-- if memory were sequentially consistent.
use hft_learning.Prelude.Cycle.{next_index}
use hft_learning.Prelude.{ℕ, ◌≡◌, ◌≢◌, List, [], ◌∷◌, ◌++◌}
use hft_learning.Prelude.Arrays.{update}
use hft_learning.Spsc.{SpscQueue}

-- Where the producer stands in `push(item)`, with the locals that are live there.
pub data Producer {ℓ} (A : Type ℓ) : Type ℓ where
  idle : Producer A
  loaded : (item : A) (current_write next_write : ℕ) → Producer A  -- before the load of `read_index_`
  passed : (item : A) (current_write next_write : ℕ) → Producer A  -- before the write of the slot
  filled : (item : A) (next_write : ℕ) → Producer A  -- before the store of `write_index_`

-- Where the consumer stands in `pop(item)`.
pub data Consumer {ℓ} (A : Type ℓ) : Type ℓ where
  idle : Consumer A
  loaded : (current_read : ℕ) → Consumer A  -- before the load of `write_index_`
  passed : (current_read : ℕ) → Consumer A  -- before the read of the slot
  taken : (item : A) (current_read : ℕ) → Consumer A  -- before the store of `read_index_`

-- The shared queue, the two threads, and what each has completed so far, oldest first.
pub record System {ℓ} (A : Type ℓ) : Type ℓ where
  pub ring : SpscQueue A
  pub producer : Producer A
  pub consumer : Consumer A
  pub sent : List A
  pub received : List A

module _ {ℓ} {A : Type ℓ} (capacity : ℕ) where
  -- One access of one thread. Which thread moves, and when a call begins, are left open.
  pub data Step (s t : System A) : Type ℓ where
    push_begin :
        (x : A)
        → s.producer ≡ Producer.idle
        → t ≡ record s {
          producer = Producer.loaded x s.ring.write_index (next_index capacity s.ring.write_index);
        }
        → Step s t
    push_full :
        {x : A} {w n : ℕ}
        → s.producer ≡ Producer.loaded x w n
        → n ≡ s.ring.read_index
        → t ≡ record s { producer = Producer.idle }
        → Step s t
    push_pass :
        {x : A} {w n : ℕ}
        → s.producer ≡ Producer.loaded x w n
        → n ≢ s.ring.read_index
        → t ≡ record s { producer = Producer.passed x w n }
        → Step s t
    push_fill :
        {x : A} {w n : ℕ}
        → s.producer ≡ Producer.passed x w n
        → t ≡ record s {
          ring = record (s.ring) { items = update s.ring.items w x };
          producer = Producer.filled x n;
        }
        → Step s t
    push_publish :
        {x : A} {n : ℕ}
        → s.producer ≡ Producer.filled x n
        → t ≡ record s {
          ring = record (s.ring) { write_index = n };
          producer = Producer.idle;
          sent = s.sent ++ x ∷ [];
        }
        → Step s t
    pop_begin :
        s.consumer ≡ Consumer.idle
        → t ≡ record s { consumer = Consumer.loaded s.ring.read_index }
        → Step s t
    pop_empty :
        {r : ℕ}
        → s.consumer ≡ Consumer.loaded r
        → r ≡ s.ring.write_index
        → t ≡ record s { consumer = Consumer.idle }
        → Step s t
    pop_pass :
        {r : ℕ}
        → s.consumer ≡ Consumer.loaded r
        → r ≢ s.ring.write_index
        → t ≡ record s { consumer = Consumer.passed r }
        → Step s t
    pop_take :
        {r : ℕ}
        → s.consumer ≡ Consumer.passed r
        → t ≡ record s { consumer = Consumer.taken (s.ring.items r) r }
        → Step s t
    pop_release :
        {x : A} {r : ℕ}
        → s.consumer ≡ Consumer.taken x r
        → t ≡ record s {
          ring = record (s.ring) { read_index = next_index capacity r };
          consumer = Consumer.idle;
          received = s.received ++ x ∷ [];
        }
        → Step s t

  pub data Reach (s : System A) : System A → Type ℓ where
    here : Reach s s
    next : {t u : System A} → Reach s t → Step t u → Reach s u

  -- The queue as constructed: both indices 0, the slots holding anything.
  abbrev pub start : (ℕ → A) → System A
  start items = record {
    ring = record { write_index = 0; read_index = 0; items = items };
    producer = Producer.idle;
    consumer = Consumer.idle;
    sent = [];
    received = [];
  }
