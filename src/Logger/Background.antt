-- ===== src/Logger/Background.antt =====
-- src/AsyncLogger.cpp: the background thread, and `shutdown`, which waits for its end. The rounds
-- are those of a thread beside which no producer runs; `none` is a loop that has not ended.
use hft_learning.Prelude.{
  ℕ, zero, suc, Bool, true, false, not, ◌&&◌, ◌||◌, Option, none, some, List, [], ◌∷◌, map, ◌==◌,
  if◌then◌else◌, length,
}
use hft_learning.Prelude.Loops.{◌>>=◌}
use hft_learning.Prelude.Arrays.{update}
use hft_learning.Wire.{Buffer}
use hft_learning.Spsc.{pop}
use hft_learning.Logger.Types.{LogMessage, ThreadQueue, AsyncLogger, System, queue_capacity}
use hft_learning.Logger.File.{write_to_file, close_file}

-- The variables of a round.
pub record Poll (S : Type 0) : Type 0 where
  pub idle : Bool
  pub msg : LogMessage
  pub logger : AsyncLogger S

abbrev pub is_empty : List ℕ → Bool
is_empty [] = true
is_empty (p ∷ ps) = false

-- `active_queues`, brought up to date
abbrev pub refresh : {S : Type 0} → AsyncLogger S → List ℕ → List ℕ
refresh logger active_queues =
    if length active_queues == length logger.thread_queues
    then active_queues
    else map (λ (tq : ThreadQueue). tq.queue) logger.thread_queues

-- The end of a round: the loop breaks where nothing was found after `running` was cleared.
abbrev pub go_on :
    {S : Type 0}
    → Poll S
    → (LogMessage → AsyncLogger S → Option (AsyncLogger S))
    → Option (AsyncLogger S)
go_on poll next =
    if not poll.logger.running && poll.idle then some poll.logger else next poll.msg poll.logger

module _ {S : Type 0} (os : System S) (scratch : Buffer) where
  -- `while (queue->pop(msg))`; a `pop` that fails changes nothing.
  unfoldable pub drain : ℕ → Poll S → ℕ → Option (Poll S)
  drain zero poll p = none
  drain (suc fuel) poll p =
      let (popped, msg, q) = pop queue_capacity (poll.logger.heap p) poll.msg in
      let taken = record poll.logger { heap = update poll.logger.heap p q } in
      let rest =
        drain fuel (record { idle = false; msg = msg; logger = write_to_file os scratch taken msg })
          p in
      if popped then rest else some poll

  -- The poll of all queues: each holds fewer messages than its capacity.
  unfoldable pub poll_queues : Poll S → List ℕ → Option (Poll S)
  poll_queues poll [] = some poll
  poll_queues poll (p ∷ ps) = do poll' ← drain queue_capacity poll p; poll_queues poll' ps

  -- The loop of `backgroundThreadFunc`, from the test on.
  unfoldable pub background_loop : ℕ → List ℕ → LogMessage → AsyncLogger S → Option (AsyncLogger S)
  background_loop zero active_queues msg logger = none
  background_loop (suc fuel) active_queues msg logger =
      let active' = refresh logger active_queues in
      let round = poll_queues (record { idle = true; msg = msg; logger = logger }) active' in
      if logger.running || not (is_empty active_queues)
      then (do poll ← round; go_on poll (background_loop fuel active'))
      else some logger

  -- `shutdown`, while the background thread is about to test its loop with these variables: two
  -- rounds are enough, one that empties the queues and one that finds them empty.
  unfoldable pub shutdown : AsyncLogger S → List ℕ → LogMessage → Option (AsyncLogger S)
  shutdown logger active_queues msg =
      let stopped = background_loop 2 active_queues msg (record logger { running = false }) in
      if logger.running then (do logger' ← stopped; some (close_file os logger')) else some logger
