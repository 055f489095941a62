-- ===== src/Main/Connected.antt =====
-- What the network thread of src/Main.cpp has set up when it enters its event loop.
use hft_learning.Prelude.{ℕ, ◌≡◌, Bool, true, false, Option, none, some, get_or}
use hft_learning.Egress.{TcpEgressGateway}
use hft_learning.EventLoop.{
  Network, NetworkEventLoop, init, network_event_loop, add_tcp_client, add_udp_multicast_listener,
}
use hft_learning.EventLoop.Adds.{Adds}
use hft_learning.Main.Network.{
  Callback, from_exchange, from_feed, localhost, multicast_group, set_connection,
}

module _ {S : Type 0} (is_open : S → ℕ → Bool) where
  -- A descriptor, if there is one, is open and has this callback.
  abbrev pub Serves : NetworkEventLoop Callback S → Option ℕ → Callback → Type 0
  Serves loop none callback = Unit
  Serves loop (some fd) callback =
      (is_open loop.system fd ≡ true) × (get_or loop.fd_callbacks fd none ≡ some callback)

module _ {S : Type 0} (net : Network S) (is_open : S → ℕ → Bool) (system : S) where
  -- The loop with its epoll descriptor, the attempt to connect to the exchange on port 9000 of this
  -- machine, and behind it the attempt to listen to the feed.
  abbrev ready : Bool × NetworkEventLoop Callback S
  ready = init net (network_event_loop system)

  abbrev exchange : Option ℕ × NetworkEventLoop Callback S
  exchange = add_tcp_client net ready.1 localhost 9000 from_exchange

  abbrev feed : Option ℕ × NetworkEventLoop Callback S
  feed = add_udp_multicast_listener net exchange.1 multicast_group 12345 from_feed

  -- How the set-up ends: there is no epoll descriptor, and no callback is registered; or both
  -- attempts were made, the gateway has the descriptor that the first answered, if there is one, and
  -- the sockets that the two answered are open, each with its own callback.
  pub data SetsUp (tcp_egress : TcpEgressGateway)
      : Bool × NetworkEventLoop Callback S × TcpEgressGateway → Type 0 where
    gave_up :
        {loop : NetworkEventLoop Callback S}
        → ready.0 ≡ false
        → ((fd : ℕ) → get_or loop.fd_callbacks fd none ≡ none)
        → SetsUp tcp_egress (false, loop, tcp_egress)
    set_up :
        {loop : NetworkEventLoop Callback S}
        → ready.0 ≡ true
        → Serves is_open loop exchange.0 from_exchange
        → Serves is_open loop feed.0 from_feed
        → SetsUp tcp_egress (true, loop, set_connection tcp_egress exchange.0)
