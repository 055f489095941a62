-- ===== src/Logger/Threads.antt =====
-- src/AsyncLogger.cpp: what the producer threads call, `registerThread` and `log`.
use hft_learning.Prelude.{
  ℕ, ◌+◌, ◌-◌, Bool, true, false, Option, none, some, List, [], ◌∷◌, ◌++◌, ◌==◌, leb, if◌then◌else◌,
  length, take,
}
use hft_learning.Prelude.Arrays.{update}
use hft_learning.Spsc.{push}
use hft_learning.Spsc.{spsc_queue}
use hft_learning.Logger.Types.{
  LogLevel, LogMessage, ThreadQueue, AsyncLogger, max_log_payload, queue_capacity,
}

-- The thread-local variables of the logger.
pub record LocalThread : Type 0 where
  pub local_queue : Option ℕ
  pub local_thread_id : ℕ

abbrev pub unregistered : LocalThread
unregistered = record { local_queue = none; local_thread_id = 0 }

unfoldable pub find_queue : List ThreadQueue → ℕ → Option ℕ
find_queue [] thread_id = none
find_queue (tq ∷ tqs) thread_id =
    if tq.thread_id == thread_id then some tq.queue else find_queue tqs thread_id

-- `vsnprintf` into the payload of a message: `text` is what the format gives, `none` an error, after
-- which the payload is what it was.
abbrev pub set_payload : LogMessage → Option (List ℕ) → LogMessage
set_payload msg none = record msg { length = 0 }
set_payload msg (some text) = record msg {
  length = if leb max_log_payload (length text) then max_log_payload - 1 else length text;
  payload = take (max_log_payload - 1) text;
}

module _ {S : Type 0} where
  -- A new queue, in memory that holds `items`.
  abbrev pub create_queue : AsyncLogger S → (ℕ → LogMessage) → ℕ → AsyncLogger S
  create_queue logger items thread_id = record logger {
    heap = update logger.heap logger.allocated (spsc_queue items);
    allocated = logger.allocated + 1;
    thread_queues =
        logger.thread_queues ++ record { thread_id = thread_id; queue = logger.allocated } ∷ [];
  }

  -- `registerThread`
  unfoldable pub register_thread :
      AsyncLogger S → (ℕ → LogMessage) → ℕ → AsyncLogger S × LocalThread
  register_thread logger items thread_id = elim (find_queue logger.thread_queues thread_id) [
    | some p ↦ (logger, record { local_queue = some p; local_thread_id = thread_id })
    | none ↦ (
      create_queue logger items thread_id,
      record { local_queue = some logger.allocated; local_thread_id = thread_id },
    )
  ]

  -- One round of the loop that pushes a message: whether it is in the queue.
  abbrev pub push_message : AsyncLogger S → ℕ → LogMessage → Bool × AsyncLogger S
  push_message logger p msg =
      let (pushed, q) = push queue_capacity (logger.heap p) msg in
      if pushed then (true, record logger { heap = update logger.heap p q }) else (false, logger)

  -- `log`, while the background thread does not run: `none` is a thread that spins, since its queue
  -- stays full. `stale` is the message before anything is stored in it.
  unfoldable pub log :
      AsyncLogger S
      → LocalThread
      → LogMessage
      → LogLevel
      → ℕ
      → Option (List ℕ)
      → Option (AsyncLogger S)
  log logger thread stale level timestamp text = elim thread.local_queue [
    | none ↦ some logger
    | some p ↦
        let msg =
          set_payload
            (record stale {
              timestamp = timestamp;
              level = level;
              thread_id = thread.local_thread_id;
            })
            text in
        let (pushed, logger') = push_message logger p msg in if pushed then some logger' else none
  ]
