-- ===== src/Main.antt =====
-- src/Main.cpp: the feed, from a datagram to the queue, and the strategy thread, from the queue to the
-- order book and the strategies. `none` is a run that does not return. What the operations of the
-- book answer is not used there.
pub mod Feed
pub mod Threads
pub mod Steps
pub mod Datagrams
pub mod Rounds
pub mod Flow
pub mod Drained
pub mod Start
pub mod Started
pub mod Network
pub mod Connected
mod Tests
use hft_learning.Prelude.{
  ℕ, Bool, true, false, Option, none, some, List, [], ◌∷◌, ◌==◌, if◌then◌else◌,
}
use hft_learning.Prelude.Int.{ℤ, pos, negsuc}
use hft_learning.Prelude.Loops.{◌>>=◌}
use hft_learning.Wire.{Buffer}
use hft_learning.Spsc.{SpscQueue, push, pop}
use hft_learning.Book.Types.{LimitOrderBook}
use hft_learning.Book.Ops.{add, cancel, modify}
use hft_learning.Itch.{InternalMessage, parse}
use hft_learning.Risk.{Doubles}
use hft_learning.Egress.{set_socket_fd}
use hft_learning.Strategy.{StrategyEngine}
use hft_learning.Strategy.Dispatch.{IStrategy, update_strategies}

-- `SPSCQueue<itch5::Parser::InternalMessage, 65536>`
abbrev pub feed_capacity : ℕ
feed_capacity = 65536

-- The switch on the type of the message: 65 is 'A', 68 is 'D' and 88 is 'X'.
unfoldable pub update_book : LimitOrderBook → InternalMessage → Option LimitOrderBook
update_book lob msg =
    if msg.type == 65
    then (do (added, lob') ← add lob msg.id msg.side msg.price msg.quantity; some lob')
    else if msg.type == 68
    then (do (canceled, lob') ← cancel lob msg.id; some lob')
    else if msg.type == 88
    then (do (modified, lob') ← modify lob msg.id msg.quantity; some lob')
    else some lob

-- What `parse` made of a datagram: the message that is to be pushed, if any.
abbrev pub feed_parsed : Bool × InternalMessage → Option InternalMessage
feed_parsed (true, parsed_msg) = some parsed_msg
feed_parsed (false, parsed_msg) = none

-- The callback of the feed, behind `recv` and up to the loop that pushes: `stale` is what
-- `parsed_msg` holds before it is parsed.
unfoldable pub on_datagram : Buffer → ℤ → InternalMessage → Option InternalMessage
on_datagram buffer (negsuc n) stale = none
on_datagram buffer (pos bytes_read) stale =
    if bytes_read == 0 then none else feed_parsed (parse buffer bytes_read stale)

-- One round of `while (!queue->push(parsed_msg))`: what is still to be pushed, and the queue.
abbrev pub push_message :
    SpscQueue InternalMessage → InternalMessage → Option InternalMessage × SpscQueue InternalMessage
push_message queue parsed_msg =
    let (pushed, queue') = push feed_capacity queue parsed_msg in
    (if pushed then none else some parsed_msg, queue')

-- What a call of `recv` gives: the buffer, the number of its bytes, and what `parsed_msg` holds.
pub data Datagram : Type 0 where
  datagram : Buffer → ℤ → InternalMessage → Datagram

-- The queue between the two threads, the variables of the strategy thread, the datagrams that the
-- network thread has not received yet, and the message that its callback is pushing, if any.
pub record System {doubles : Doubles} {S : Type 0} (strategy : IStrategy doubles S) : Type 0 where
  pub queue : SpscQueue InternalMessage
  pub msg : InternalMessage
  pub lob : LimitOrderBook
  pub strategies : List strategy.Object
  pub strategy_engine : StrategyEngine doubles S
  pub incoming : List Datagram
  pub pushing : Option InternalMessage

module _ {doubles : Doubles} {S : Type 0} (strategy : IStrategy doubles S) where
  -- What the network thread does next, from the message that it pushes and the datagrams to come.
  abbrev pub feed_from : System strategy → Option InternalMessage → List Datagram → System strategy
  feed_from system (some parsed_msg) datagrams =
      let (pushing, queue) = push_message system.queue parsed_msg in
      record system { pushing = pushing; queue = queue }
  feed_from system none [] = system
  feed_from system none (datagram buffer bytes_read stale ∷ datagrams) = record system {
    incoming = datagrams;
    pushing = on_datagram buffer bytes_read stale;
  }

  -- The network thread receives a datagram, or goes once round the loop that pushes its message.
  unfoldable pub feed_round : System strategy → System strategy
  feed_round system = feed_from system system.pushing system.incoming

  -- `tcp_egress.setSocketFd(tcp_fd)`, by the network thread.
  abbrev pub connect : System strategy → ℤ → System strategy
  connect system fd =
      let engine = system.strategy_engine in
      record system {
        strategy_engine = record engine { tcp_egress = set_socket_fd engine.tcp_egress fd };
      }

  -- What the strategy thread does with a message.
  abbrev pub handle_message : System strategy → InternalMessage → Option (System strategy)
  handle_message system msg = do
    lob ← update_book system.lob msg
    (strategies, engine) ←
        update_strategies strategy system.strategies msg lob system.strategy_engine
    some (record system { lob = lob; strategies = strategies; strategy_engine = engine })

  -- One round of the strategy thread; it yields if the queue is empty.
  unfoldable pub strategy_round : System strategy → Option (System strategy)
  strategy_round system =
      let (popped, msg, queue) = pop feed_capacity system.queue system.msg in
      let handled = handle_message (record system { queue = queue; msg = msg }) msg in
      if popped then handled else some system
