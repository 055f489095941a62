-- ===== src/Main/Tests.antt =====
-- A concrete stream of messages, and a run of the two threads.
use hft_learning.Prelude.Int.{pos, negsuc}
use hft_learning.Wire.{Buffer}
use hft_learning.Spsc.Ring.{window}
use hft_learning.Strategy.{StrategyEngine}
use hft_learning.Strategy.Dispatch.{IStrategy}
use hft_learning.Strategy.Fixture.{
  hundredths, wide, wide-IsSocket, ems-Models, engine, scratch, apple,
}
use hft_learning.Market.{MarketMakerStrategy, market_maker_strategy}
use hft_learning.Market.Safe.{market_maker, IsCalm, market_maker-IsSafe}
use hft_learning.Main.{System, Datagram, datagram}
use hft_learning.Main.Threads.{Event, feed, round, connected, arriving, run}
use hft_learning.Main.Steps.{IsReady}
use hft_learning.Main.Start.{start}
use hft_learning.Main.Started.{Starts, start-Starts}
use hft_learning.EventLoop.Fixture.{Descriptors}
use hft_learning.Main.Flow.{Flows, run-Flows}
use hft_learning.Prelude.{ℕ, ◌≡◌, refl, inr, true, false, none, List, [], ◌∷◌, arith}
use hft_learning.Book.Types.{buy}
use hft_learning.Book.Start.{empty_book, empty_book-IsBook, no_queues, stack}
use hft_learning.Itch.{InternalMessage, parse, write_add_order}

abbrev message : ℕ → ℕ → ℕ → ℕ → InternalMessage
message type id price quantity = record {
  type = type;
  id = id;
  price = price;
  quantity = quantity;
  side = buy;
}

-- an empty datagram, an error of `recv`, and an add of order 7 that the strategy sells to
abbrev zeros : Buffer
zeros i = 0

abbrev add_datagram : Buffer
add_datagram = write_add_order zeros 1 1 5 7 66 100 apple 15000

abbrev blank : InternalMessage
blank = message 0 0 0 0

abbrev incoming : List Datagram
incoming =
    datagram zeros (pos 0) blank
    ∷ datagram zeros (negsuc 0) blank
    ∷ datagram add_datagram (pos 36) blank
    ∷ datagram add_datagram (pos 35) blank
    ∷ []

abbrev events : List Event
events = round ∷ feed ∷ connected (pos 9) ∷ feed ∷ feed ∷ round ∷ feed ∷ feed ∷ round ∷ []

abbrev maker : IStrategy hundredths (List ℕ)
maker = market_maker wide scratch

abbrev system : System maker
system = record {
  queue = record { write_index = 0; read_index = 0; items = λ i. blank };
  msg = blank;
  lob = empty_book 3 20000;
  strategies = market_maker_strategy 15000 100 apple ∷ [];
  strategy_engine = engine;
  incoming = incoming;
  pushing = none;
}

abbrev Calm : List MarketMakerStrategy → StrategyEngine hundredths (List ℕ) → Type 0
Calm = IsCalm

system-IsCalm : Calm system.strategies system.strategy_engine
system-IsCalm = record {
  strategy = market_maker_strategy 15000 100 apple;
  only = refl;
  calm = inr (
    refl,
    record {
      orders = λ _. none;
      models = ems-Models.0;
      fresh = refl;
      vacancy = rw ems-Models.1 (omega arith);
    },
  );
}

arriving-incoming :
    arriving incoming ≡ record { type = 65; id = 7; price = 15000; quantity = 100; side = buy } ∷ []
unfolding parse
arriving-incoming = refl

empty_ready : IsReady Calm system no_queues (stack 3)
empty_ready = record {
  valid = omega arith;
  is_book = (empty_book-IsBook 3 20000 (omega arith) (omega arith)).0;
  safe = system-IsCalm;
}

run-Flows_example : Flows Calm system (run maker system events)
unfolding window
run-Flows_example =
    let (_, vacant_slots) = empty_book-IsBook 3 20000 (omega arith) (omega arith) in
    run-Flows Calm (market_maker-IsSafe wide-IsSocket scratch) events system empty_ready
      (rw arriving-incoming (omega arith, tt)) (rw arriving-incoming (omega (arith, vacant_slots)))

start-Starts_example :
    Starts {doubles = hundredths} wide scratch
      (pos 5)
      incoming
      events
      (start hundredths wide scratch true true (λ i. blank) blank (pos 5) [] incoming)
start-Starts_example =
    start-Starts wide scratch wide-IsSocket (λ i. blank) blank (pos 5) [] incoming events
      (rw arriving-incoming (omega arith, tt)) (rw arriving-incoming (omega arith))

-- descriptors from 4 on, and no multicast
abbrev descriptors : Descriptors
descriptors = record { next = 4; opened = λ fd. false }
