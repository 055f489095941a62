-- ===== src/Lib.antt =====
-- The trading system of this repository: market data comes in over UDP, is parsed, crosses a
-- lock-free queue to the strategy thread, updates the limit order book and may send an order out.
--
-- The parts that are modelled, and where:
--
--   Spsc     include/SPSCQueue.hpp, the ring between the feed thread and the strategy thread.
--            `push` and `pop` are whole calls; Spsc/Threads takes them apart into the single
--            accesses to memory of two threads, as a step relation. The acquire and release accesses
--            of the source are taken as sequentially consistent ones, and the relaxed read of a
--            thread's own index as a read of its own last write.
--   Ems      include/EMS.hpp and src/EMS.cpp, the execution management system: `on_order_sent` is
--            `onOrderSent`, and so on. Ems/Ledger is what it promises, a map from order ids to orders
--            with the transitions of an order's state; Ems/Refine relates the hash table to it.
--   Book     include/OrderBook.hpp and src/OrderBook.cpp, the limit order book: Book/Types has its
--            structs, Book/Pool the constructor and the free list, Book/Index the hash map from order
--            ids, Book/Levels the intrusive lists of the price levels, Book/Ops `add`, `cancel`,
--            `modify` and the getters. A pointer to an order is its index in the pool, and a store
--            through a pointer is a write to the pool, so aliasing is that of the source.
--            Book/Whole says what a well-formed book is; Book/Add, Book/Cancel and Book/Modify are
--            about what the operations make of one.
--   Wire     messages as bytes in a buffer: packed structs on a little-endian machine, integers in
--            network order (`bswap`), padded strings (`copy_string_padded`).
--   Itch     include/ITCH5Parser.hpp and src/ITCH5Parser.cpp, the market data parser and builder.
--   Ouch     include/OUCH42.hpp and src/OUCH42.cpp, the order entry builders and parser.
--   Risk     include/PreTradeRisk.hpp and src/PreTradeRisk.cpp, the check before an order is sent. The
--            operations on `double` are a parameter.
--   Egress   include/TCPEgress.hpp and src/TCPEgress.cpp, the loop around `::send`, which is a
--            parameter; Egress/Stream states what is documented of it.
--   Strategy include/StrategyEngine.hpp and src/StrategyEngine.cpp: `send_order` is `sendOrder`, over
--            Risk, Ems, Ouch and Egress; Strategy/Token is about the token of an order.
--            Strategy/Dispatch has `addStrategy` and `onMarketDataUpdate` over the strategies, which are
--            an interface (include/IStrategy.hpp).
--   Market   include/MarketMakerStrategy.hpp and src/MarketMakerStrategy.cpp, the strategy that sells
--            once. Market/Safe makes it an instance of the interface of Strategy/Dispatch.
--   Main     src/Main.cpp: `feed_round` is a step of the network thread, which receives a datagram or
--            goes once round the loop that pushes its message, and `strategy_round` a round of the
--            strategy thread, from the queue to the book and the strategies. Main/Threads puts both
--            and the write of the gateway's descriptor in any order, each as one step, which the
--            theorems on single accesses in Spsc/Safety justify for the queue; Main/Flow and
--            Main/Drained are about these runs. Main/Start and Main/Network are what the two threads
--            set up.
--   Logger   include/AsyncLogger.hpp and src/AsyncLogger.cpp: Logger/Threads has `registerThread` and
--            `log`, Logger/File the mapped file with its growth, Logger/Background the background
--            thread and `shutdown`. The heap of queues is a function from addresses; the calls of the
--            operating system are a parameter, whose documented behaviour Logger/Mapped states.
--   EventLoop  include/NetworkEventLoop.hpp and src/NetworkEventLoop.cpp. The socket calls are a
--            parameter, and so are what a callback does and what memory holds behind the table of
--            callbacks; EventLoop/Adds states what is documented of the calls.
--   Emulator src/ExchangeEmulator.cpp, the callbacks of the test exchange over Itch, Ouch and
--            EventLoop.
--   Numa     include/NumaAllocator.hpp and src/NumaAllocator.cpp. The calls of libnuma and the
--            allocation operators are a parameter; Numa/Paired states what is documented of them.
--   Probe    the linear probing that the hash tables of Book and Ems share: a table of cells, walks
--            through it, and how many slots are vacant.
--   Prelude  shared names, arrays as functions, vectors as lists, numbers in decimal, steps round a
--            ring, loops that may not end.
--
-- Integers are natural numbers; where the source's type can wrap, the wrap is written out. A loop
-- `while (true)` over a hash table runs on fuel, one round for each slot of the table: it changes
-- nothing before it stops, so a run that has gone once round never stops, and `none` is the value of
-- such a run. The loop of `TCPEgressGateway::send` has one round for each byte and one more, since a
-- call of `::send` that succeeds is documented to take a byte at least. The logger drains a
-- queue in as many rounds as it has slots, one more than it can hold messages, and `shutdown` waits
-- for two rounds of the background thread, the second of which finds the queues empty. The event loop
-- takes the number of its rounds, and `none` says that it has not ended in them.
--
-- Not modelled: pinning of threads and the time stamp counter (one call of the system each), the
-- destructors, log calls inside the modelled functions, starting and joining of threads and the end
-- of the main programs, and producers that log while the background thread drains their queue.
pub mod Prelude
pub mod Spsc
pub mod Probe
pub mod Ems
pub mod Book
pub mod Wire
pub mod Itch
pub mod Ouch
pub mod Risk
pub mod Egress
pub mod Strategy
pub mod Market
pub mod Main
pub mod Logger
pub mod EventLoop
pub mod Emulator
pub mod Numa
