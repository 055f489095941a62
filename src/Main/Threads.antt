-- ===== src/Main/Threads.antt =====
-- The threads of src/Main.cpp side by side: what they do, one after the other, in any order.
use hft_learning.Prelude.{
  ℕ, zero, suc, ◌+◌, ◌*◌, none, length, Bool, true, false, Option, some, List, [], ◌∷◌, ◌++◌, arith,
  ◌==◌, if◌then◌else◌,
}
use hft_learning.Prelude.Int.{ℤ, pos, negsuc}
use hft_learning.Prelude.Cycle.{IsCapacity}
use hft_learning.Prelude.Loops.{◌>>=◌}
use hft_learning.Wire.{Buffer}
use hft_learning.Spsc.{SpscQueue}
use hft_learning.Spsc.Refine.{contents}
use hft_learning.Itch.{InternalMessage, parse}
use hft_learning.Risk.{Doubles}
use hft_learning.Strategy.Dispatch.{IStrategy}
use hft_learning.Main.{
  System, Datagram, datagram, connect, feed_capacity, feed_round, strategy_round,
}

-- What one of the two threads does next.
pub data Event : Type 0 where
  feed : Event
  round : Event
  connected : ℤ → Event

-- the messages in the queue, oldest first
abbrev pub waiting : SpscQueue InternalMessage → List InternalMessage
waiting = contents feed_capacity

abbrev pub accepted : Bool × InternalMessage → List InternalMessage
accepted (true, msg) = msg ∷ []
accepted (false, msg) = []

-- the message that a datagram carries, if any
abbrev pub carried : Buffer → ℤ → InternalMessage → List InternalMessage
carried buffer (negsuc n) stale = []
carried buffer (pos bytes_read) stale =
    if bytes_read == 0 then [] else accepted (parse buffer bytes_read stale)

-- the messages that the datagrams bring
abbrev pub arriving : List Datagram → List InternalMessage
arriving [] = []
arriving (datagram buffer bytes_read stale ∷ datagrams) =
    carried buffer bytes_read stale ++ arriving datagrams

-- the message that is being pushed, if any
abbrev pub pending : Option InternalMessage → List InternalMessage
pending none = []
pending (some msg) = msg ∷ []

module _ {doubles : Doubles} {S : Type 0} {strategy : IStrategy doubles S} where
  -- The messages on their way, oldest first: in the queue, in the loop that pushes, and on the net.
  abbrev pub in_flight : System strategy → List InternalMessage
  in_flight system = waiting system.queue ++ (pending system.pushing ++ arriving system.incoming)

  -- The steps that the two threads have before them, at most.
  abbrev pub work : System strategy → ℕ
  work system =
      3 * length system.incoming
      + 2 * length (pending system.pushing)
      + length (waiting system.queue)

module _ {doubles : Doubles} {S : Type 0} (strategy : IStrategy doubles S) where
  abbrev pub happen : System strategy → Event → Option (System strategy)
  happen system feed = some (feed_round strategy system)
  happen system round = strategy_round strategy system
  happen system (connected fd) = some (connect strategy system fd)

  unfoldable pub run : System strategy → List Event → Option (System strategy)
  run system [] = some system
  run system (event ∷ events) = happen system event >>= λ system'. run system' events

-- The two threads in turn.
unfoldable pub turns : ℕ → List Event
turns zero = []
turns (suc n) = feed ∷ round ∷ turns n

pub feed_capacity-IsCapacity : IsCapacity feed_capacity
feed_capacity-IsCapacity = record { some_slot = omega arith; is_size = omega arith }
