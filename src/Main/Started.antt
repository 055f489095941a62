-- ===== src/Main/Started.antt =====
-- The strategy thread of src/Main.cpp as it starts, under any run of the threads.
use hft_learning.Prelude.Int.{pos, negsuc}
use hft_learning.Prelude.{
  false, ◌∙◌, ℕ, ◌≤◌, ◌≡◌, refl, inr, true, Option, none, some, List, [], ◌∷◌, arith, length,
}
use hft_learning.Wire.{Buffer}
use hft_learning.Spsc.{spsc_queue}
use hft_learning.Spsc.Ring.{window}
use hft_learning.Book.Pool
use hft_learning.Book.Start.{empty_book, empty_book-IsBook, no_queues, stack}
use hft_learning.Book.Whole.{IsBook}
use hft_learning.Book.Add.{room}
use hft_learning.Ems.Lookup
use hft_learning.Ems.Lookup.{Models}
use hft_learning.Ems
use hft_learning.Ems.Capacity.{empty_table, empty_table-Models}
use hft_learning.Itch.{InternalMessage}
use hft_learning.Risk.{Doubles, pre_trade_risk_engine}
use hft_learning.Egress.{no_socket}
use hft_learning.Egress.Stream.{IsSocket}
use hft_learning.Strategy.{strategy_engine}
use hft_learning.Market.{market_maker_strategy}
use hft_learning.Market.Safe.{CanSend, market_maker, IsCalm, market_maker-IsSafe}
use hft_learning.Main.{System, Datagram}
use hft_learning.Main.Feed.{AllFit}
use hft_learning.Main.Threads.{Event, arriving, in_flight, run}
use hft_learning.Main.Flow.{Flows, run-Flows}
use hft_learning.Main.Start.{symbol, risk_config, start}

module _ {doubles : Doubles} {S : Type 0} (send_bytes : S → List ℕ → Option ℕ × S)
    (scratch : Buffer) where
  -- What `main` sets up, as the parts see it: no message is on its way but those on the net; the book
  -- and the EMS are empty and have two slots for each of their orders; the limits of the risk check
  -- are those of the thread; one market maker is registered, and no descriptor is known.
  pub record Starts (pct : doubles.Double) (incoming : List Datagram) (events : List Event)
      (started : Option (System (market_maker {doubles = doubles} send_bytes scratch)))
      : Type 0 where
    pub system : System (market_maker {doubles = doubles} send_bytes scratch)
    pub returns : started ≡ some system
    pub only_incoming : in_flight system ≡ arriving incoming
    pub is_book : IsBook system.lob no_queues (stack 1000000)
    pub book_room : room system.lob ≡ 2000000
    pub book_prices : system.lob.max_price ≡ 100000
    pub no_order : Models system.strategy_engine.ems (λ _. none)
    pub ems_room : Lookup.room system.strategy_engine.ems ≡ 20000
    pub first_id : system.strategy_engine.order_id_counter ≡ 1000
    pub limits : system.strategy_engine.risk_engine ≡ record {
      config = record {
        max_order_size = 500;
        max_position = pos 10000;
        max_price_deviation_pct = pct;
      };
      current_position = pos 0;
    }
    pub one_strategy :
        system.strategies
        ≡ record {
          threshold_price = 15000;
          order_qty = 100;
          symbol = 65 ∷ 65 ∷ 80 ∷ 76 ∷ [];
          position_taken = false;
        }
          ∷ []
    pub unconnected : system.strategy_engine.tcp_egress.fd ≡ negsuc 0
    pub flows :
        Flows {strategy = market_maker {doubles = doubles} send_bytes scratch} IsCalm system
          (run (market_maker {doubles = doubles} send_bytes scratch) system events)

  module _ {stream : S → List ℕ} (lawful : IsSocket send_bytes stream) (items : ℕ → InternalMessage)
      (msg : InternalMessage) (pct : doubles.Double) (socket : S) (incoming : List Datagram) where
    abbrev started : System (market_maker {doubles = doubles} send_bytes scratch)
    started = record {
      queue = spsc_queue items;
      msg = msg;
      lob = empty_book 1000000 100000;
      strategies = market_maker_strategy 15000 100 symbol ∷ [];
      strategy_engine =
          strategy_engine (empty_table 10000) (pre_trade_risk_engine (risk_config doubles pct))
            no_socket socket;
      incoming = incoming;
      pushing = none;
    }

    -- Where memory can be mapped and the socket's `::send` does what is documented, the strategy
    -- thread starts, with no message in the queue, an empty book for a million orders and prices
    -- below 100000, an empty EMS for ten thousand orders, the limits 500, 10000 and `pct`, one market
    -- maker that sells 100 at 15000, and a gateway without a descriptor. From there, while at most two
    -- million messages arrive, with quantities that fit 64 bits, every interleaving of steps of the
    -- network thread, which wait where the queue is full, rounds of the strategy thread and
    -- descriptors that the gateway is given returns: no message is lost, repeated or overtaken, the
    -- book is well formed and what the handled messages make of it, and the market maker has its
    -- position or can still send its order.
    pub start-Starts :
        (events : List Event)
        → AllFit (arriving incoming)
        → length (arriving incoming) ≤ 2000000
        → Starts pct incoming events
            (start doubles send_bytes scratch true true items msg pct socket incoming)
    unfolding start Pool.new Ems.new window
    start-Starts events fit small =
        let (is_book, vacant_slots) =
          empty_book-IsBook 1000000 100000 (omega arith) (omega arith) in
        let (models, room_left) = empty_table-Models 10000 (omega arith) (omega arith) in
        let can_send : CanSend started.strategy_engine = record {
          orders = λ _. none;
          models = models;
          fresh = refl;
          vacancy = omega (arith, room_left);
        } in
        record {
          system = started;
          returns = refl;
          only_incoming = refl;
          is_book = is_book;
          book_room = vacant_slots ∙ omega arith;
          book_prices = refl;
          no_order = models;
          ems_room = room_left ∙ omega arith;
          first_id = refl;
          limits = refl;
          one_strategy = refl;
          unconnected = refl;
          flows =
              run-Flows IsCalm (market_maker-IsSafe lawful scratch) events started
                (record {
                  valid = omega arith;
                  is_book = is_book;
                  safe = record {
                    strategy = market_maker_strategy 15000 100 symbol;
                    only = refl;
                    calm = inr (refl, can_send);
                  };
                })
                fit (omega (arith, small, vacant_slots));
        }
