-- ===== src/Logger/Logged.antt =====
-- `log` leaves a message of its thread at the end of that thread's queue.
use hft_learning.Prelude.{
  ℕ, ◌+◌, ◌≤◌, ◌<◌, ◌≡◌, ◌≢◌, refl, sym, ◌∙◌, Option, none, some, List, [], ◌∷◌, ◌++◌, arith,
  if◌then◌else◌, length, length-take, take, min, leb,
}
use hft_learning.Prelude.Arrays.{update, update_self, update_ne}
use hft_learning.Spsc.{push}
use hft_learning.Spsc.Calls.{push_room, push_full}
use hft_learning.Spsc.Refine.{IsValid, push-IsValid}
use hft_learning.Logger.Types.{LogLevel, LogMessage, AsyncLogger, queue_capacity}
use hft_learning.Logger.Threads.{LocalThread, set_payload, log}
use hft_learning.Logger.Drained.{messages, queue_capacity-IsCapacity}

-- the message that `log` makes
abbrev pub logged : LocalThread → LogMessage → LogLevel → ℕ → Option (List ℕ) → LogMessage
logged thread stale level timestamp text =
    set_payload
      (record stale { timestamp = timestamp; level = level; thread_id = thread.local_thread_id })
      text

clamped : (n len : ℕ) → (if leb (n + 1) len then n else len) ≡ min n len
clamped n len = ground arith

clamped-lt : (n len : ℕ) → (if leb (n + 1) len then n else len) < n + 1
clamped-lt n len = ground arith

-- A text of any length leaves a payload that ends within its array, and `length` says its length.
pub logged_text :
    (thread : LocalThread) (stale : LogMessage) (level : LogLevel) (timestamp : ℕ) (text : List ℕ)
    → let msg = logged thread stale level timestamp (some text) in
      (msg.payload ≡ take 239 text) × (msg.length ≡ length msg.payload) × (msg.length < 240)
logged_text thread stale level timestamp text =
    let len = length text in
    (refl, clamped 239 len ∙ sym (length-take 239 text), clamped-lt 239 len)

-- What a call of `log` makes of the logger: one queue has a message more.
pub record Logs {S : Type 0} (logger : AsyncLogger S) (p : ℕ) (msg : LogMessage)
    (run : Option (AsyncLogger S)) : Type 0 where
  pub after : AsyncLogger S
  pub returns : run ≡ some after
  pub appended : messages (after.heap p) ≡ messages (logger.heap p) ++ msg ∷ []
  pub valid : IsValid queue_capacity (after.heap p)
  pub others : (q : ℕ) → q ≢ p → after.heap q ≡ logger.heap q
  pub queues_kept : after.thread_queues ≡ logger.thread_queues

module _ {S : Type 0} (logger : AsyncLogger S) (thread : LocalThread) (p : ℕ) (stale : LogMessage)
    (level : LogLevel) (timestamp : ℕ) (text : Option (List ℕ)) where
  -- On a registered thread whose queue is valid and holds fewer than 1023 messages, `log` returns
  -- and appends its message to that queue; the other queues and their list stay as they are.
  pub log-Logs :
      thread.local_queue ≡ some p
      → IsValid queue_capacity (logger.heap p)
      → length (messages (logger.heap p)) < 1023
      → Logs logger p
          (logged thread stale level timestamp text)
          (log logger thread stale level timestamp text)
  unfolding log
  log-Logs registered v room =
      let msg = logged thread stale level timestamp text in
      let (pushed, appended) = push_room queue_capacity-IsCapacity (logger.heap p) v msg room in
      rw (registered, pushed)
        (record {
          after = record logger {
            heap = update logger.heap p (push queue_capacity (logger.heap p) msg).1;
          };
          returns = refl;
          appended = rw (update_self logger.heap p) appended;
          valid =
              rw (update_self logger.heap p)
                (push-IsValid queue_capacity-IsCapacity (logger.heap p) msg v);
          others = λ q ne. update_ne logger.heap p _ q ne;
          queues_kept = refl;
        })

  -- A thread whose queue is full spins; one that has not registered logs nothing.
  pub log_refused :
      IsValid queue_capacity (logger.heap p)
      → ((thread.local_queue ≡ none) → log logger thread stale level timestamp text ≡ some logger)
        × ((thread.local_queue ≡ some p)
            → 1023 ≤ length (messages (logger.heap p))
            → log logger thread stale level timestamp text ≡ none)
  unfolding log
  log_refused v = (
    (λ absent. rw absent refl),
    (λ registered full.
        rw (registered, (push_full queue_capacity-IsCapacity (logger.heap p) v _ full).0) refl),
  )
