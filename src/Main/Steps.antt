-- ===== src/Main/Steps.antt =====
-- One step of one of the two threads: what it handles, and what is on its way behind it.
use hft_learning.Prelude.{ℕ, ◌+◌, ◌≤◌, ◌≡◌, Option, some, List, ◌++◌, length}
use hft_learning.Spsc.Refine.{IsValid}
use hft_learning.Book.Store.{Queues}
use hft_learning.Book.Whole.{IsBook}
use hft_learning.Book.Add.{room}
use hft_learning.Itch.{InternalMessage}
use hft_learning.Risk.{Doubles}
use hft_learning.Strategy.{StrategyEngine}
use hft_learning.Strategy.Dispatch.{IStrategy}
use hft_learning.Main.{System, feed_capacity}
use hft_learning.Main.Feed.{update_all}
use hft_learning.Main.Threads.{in_flight, work}

module _ {doubles : Doubles} {S : Type 0} {strategy : IStrategy doubles S}
    (I : List strategy.Object → StrategyEngine doubles S → Type 0) where
  -- What the two threads rely on.
  pub record IsReady (system : System strategy) (q : Queues) (free : List ℕ) : Type 0 where
    pub valid : IsValid feed_capacity system.queue
    pub is_book : IsBook system.lob q free
    pub safe : I system.strategies system.strategy_engine

  -- The step returns; the messages that were on their way are the handled ones and then those that
  -- are on their way now, in the same order; the book is what the handled ones make of it.
  pub record Steps (system : System strategy) (run : Option (System strategy)) : Type 0 where
    pub after : System strategy
    pub returns : run ≡ some after
    pub levels : Queues
    pub free_orders : List ℕ
    pub ready : IsReady after levels free_orders
    pub handled : List InternalMessage
    pub in_order : in_flight system ≡ handled ++ in_flight after
    pub updated : update_all system.lob handled ≡ some after.lob
    pub space : room system.lob ≤ room after.lob + length handled
    pub less_work : work after + length handled ≤ work system
