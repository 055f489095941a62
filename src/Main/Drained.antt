-- ===== src/Main/Drained.antt =====
-- That the two threads get to the end: where they take turns, every message is handled.
use hft_learning.Prelude.{◌≡◌, List, []}
use hft_learning.Risk.{Doubles}
use hft_learning.Strategy.{StrategyEngine}
use hft_learning.Strategy.Dispatch.{IStrategy, IsSafe}
use hft_learning.Main.{System}
use hft_learning.Main.Threads.{Event, in_flight, run}
use hft_learning.Main.Flow.{Flows}

module _ {doubles : Doubles} {S : Type 0} {strategy : IStrategy doubles S}
    (I : List strategy.Object → StrategyEngine doubles S → Type 0) (s : IsSafe strategy I) where
  -- The run flows, and handles everything that was on its way.
  pub record Drains (system : System strategy) (events : List Event) : Type 0 where
    pub flows : Flows I system (run strategy system events)
    pub none_left : in_flight flows.after ≡ []
    pub all_handled : flows.handled ≡ in_flight system
