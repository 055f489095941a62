-- ===== src/Main/Flow.antt =====
-- The way of market data from datagrams to the order book, under any interleaving of the two threads.
use mathlib.Core.Path.{subst}
use mathlib.Core.List.{append_assoc}
use hft_learning.Prelude.{
  ℕ, ◌≤◌, ◌≡◌, refl, sym, ap, ◌∙◌, Option, some, List, [], ◌∷◌, ◌++◌, arith, length, length-append,
}
use hft_learning.Prelude.Loops.{◌>>=◌}
use hft_learning.Book.Store.{Queues}
use hft_learning.Book.Whole.{IsBook}
use hft_learning.Book.Add.{room}
use hft_learning.Itch.{InternalMessage}
use hft_learning.Risk.{Doubles}
use hft_learning.Strategy.{StrategyEngine}
use hft_learning.Strategy.Dispatch.{IStrategy, IsSafe}
use hft_learning.Main.{System, connect}
use hft_learning.Main.Threads.{Event, feed, round, connected, in_flight, happen, run}
use hft_learning.Main.Steps.{IsReady, Steps}
use hft_learning.Main.Datagrams.{feed_round-Feeds}
use hft_learning.Main.Rounds.{strategy_round-Rounds}
use hft_learning.Main.Feed.{update_all, update_all-append, AllFit, AllFit-append_right}

module _ {doubles : Doubles} {S : Type 0} {strategy : IStrategy doubles S}
    (I : List strategy.Object → StrategyEngine doubles S → Type 0) where
  -- The run returns; the messages that were on their way are the handled ones and then those that
  -- are on their way now, in the same order; the book is what the handled ones make of it.
  pub record Flows (system : System strategy) (run : Option (System strategy)) : Type 0 where
    pub after : System strategy
    pub returns : run ≡ some after
    pub handled : List InternalMessage
    pub in_order : in_flight system ≡ handled ++ in_flight after
    pub updated : update_all system.lob handled ≡ some after.lob
    pub levels : Queues
    pub free_orders : List ℕ
    pub is_book : IsBook after.lob levels free_orders
    pub safe : I after.strategies after.strategy_engine

  -- A step, and then the rest.
  step-Flows :
      (system : System strategy) (event : Event) (events : List Event)
      (st : Steps I system (happen strategy system event))
      → Flows st.after (run strategy st.after events)
      → Flows system (run strategy system (event ∷ events))
  unfolding run
  step-Flows system event events st rest = record {
    after = rest.after;
    returns =
        ap (λ stepped. stepped >>= λ system'. run strategy system' events) st.returns
        ∙ rest.returns;
    handled = st.handled ++ rest.handled;
    in_order =
        st.in_order
        ∙ ap (λ msgs. st.handled ++ msgs) rest.in_order
        ∙ sym (append_assoc st.handled rest.handled (in_flight rest.after));
    updated = update_all-append st.handled rest.handled system.lob st.updated ∙ rest.updated;
    levels = rest.levels;
    free_orders = rest.free_orders;
    is_book = rest.is_book;
    safe = rest.safe;
  }

  -- What a step leaves for the rest.
  module _ {system : System strategy} {run : Option (System strategy)}
      (st : Steps I system run) where
    pub fits_behind : AllFit (in_flight system) → AllFit (in_flight st.after)
    fits_behind fit =
        AllFit-append_right st.handled (in_flight st.after) (subst AllFit st.in_order fit)

    pub enough_behind :
        length (in_flight system) ≤ room system.lob
        → length (in_flight st.after) ≤ room st.after.lob
    enough_behind enough = omega (
      arith,
      enough,
      ap length st.in_order,
      length-append st.handled (in_flight st.after),
      st.space,
    )

  module _ (s : IsSafe strategy I) where
    happen-Steps :
        (event : Event) (system : System strategy) {q : Queues} {free : List ℕ}
        → IsReady I system q free
        → AllFit (in_flight system)
        → length (in_flight system) ≤ room system.lob
        → Steps I system (happen strategy system event)
    unfolding update_all
    happen-Steps feed system ready fit enough = (feed_round-Feeds I system ready).steps
    happen-Steps round system ready fit enough =
        (strategy_round-Rounds I s system ready fit enough).steps
    happen-Steps (connected fd) system {q} {free} ready fit enough = record {
      after = connect strategy system fd;
      returns = refl;
      levels = q;
      free_orders = free;
      ready = record {
        valid = ready.valid;
        is_book = ready.is_book;
        safe = s.connect system.strategies system.strategy_engine fd ready.safe;
      };
      handled = [];
      in_order = refl;
      updated = refl;
      space = omega arith;
      less_work = omega arith;
    }

    -- With a valid queue, a well-formed book and strategies that keep their invariant, and no more
    -- messages on their way than the index of the book has vacant slots, all of quantities that fit 64
    -- bits, every interleaving of steps of the network thread, which wait where the queue is full,
    -- rounds of the strategy thread and descriptors that the gateway is given returns. The messages
    -- that were on their way, in the queue, in the loop that pushes and in datagrams to come, are, in
    -- this order, the handled ones followed by those that are still on their way: none is lost,
    -- repeated or overtaken, whether the queue gets full or not. The book is what the handled
    -- messages make of it one after the other, and is well formed.
    pub run-Flows :
        (events : List Event) (system : System strategy) {q : Queues} {free : List ℕ}
        → IsReady I system q free
        → AllFit (in_flight system)
        → length (in_flight system) ≤ room system.lob
        → Flows system (run strategy system events)
    unfolding run update_all
    run-Flows [] system {q} {free} ready fit enough = record {
      after = system;
      returns = refl;
      handled = [];
      in_order = refl;
      updated = refl;
      levels = q;
      free_orders = free;
      is_book = ready.is_book;
      safe = ready.safe;
    }
    run-Flows (event ∷ events) system ready fit enough =
        let st = happen-Steps event system ready fit enough in
        step-Flows system event events st
          (run-Flows events st.after st.ready (fits_behind st fit) (enough_behind st enough))
