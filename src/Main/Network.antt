-- ===== src/Main/Network.antt =====
-- src/Main.cpp: what the network thread sets up before it runs its event loop.
use hft_learning.Prelude.{ℕ, Bool, true, false, Option, none, some, List, [], ◌∷◌}
use hft_learning.Prelude.Int.{pos}
use hft_learning.Egress.{TcpEgressGateway, set_socket_fd}
use hft_learning.EventLoop.{
  Network, NetworkEventLoop, init, add_tcp_client, add_udp_multicast_listener, network_event_loop,
}

-- The two callbacks: what comes back from the exchange is read and dropped, what comes over the feed
-- goes to `on_datagram`.
pub data Callback : Type 0 where
  from_exchange from_feed : Callback

-- "127.0.0.1"
abbrev pub localhost : List ℕ
localhost = 49 ∷ 50 ∷ 55 ∷ 46 ∷ 48 ∷ 46 ∷ 48 ∷ 46 ∷ 49 ∷ []

-- "239.255.0.1"
abbrev pub multicast_group : List ℕ
multicast_group = 50 ∷ 51 ∷ 57 ∷ 46 ∷ 50 ∷ 53 ∷ 53 ∷ 46 ∷ 48 ∷ 46 ∷ 49 ∷ []

-- `if (tcp_fd >= 0)`
abbrev pub set_connection : TcpEgressGateway → Option ℕ → TcpEgressGateway
set_connection tcp_egress none = tcp_egress
set_connection tcp_egress (some tcp_fd) = set_socket_fd tcp_egress (pos tcp_fd)

module _ {S : Type 0} (net : Network S) where
  -- The two sockets of a loop that has an epoll descriptor.
  abbrev pub add_sockets :
      NetworkEventLoop Callback S
      → TcpEgressGateway
      → NetworkEventLoop Callback S × TcpEgressGateway
  add_sockets loop tcp_egress =
      let (tcp_fd, loop') = add_tcp_client net loop localhost 9000 from_exchange in
      let (udp_fd, loop'') = add_udp_multicast_listener net loop' multicast_group 12345 from_feed in
      (loop'', set_connection tcp_egress tcp_fd)

  abbrev pub if_ready :
      Bool × NetworkEventLoop Callback S
      → TcpEgressGateway
      → Bool × NetworkEventLoop Callback S × TcpEgressGateway
  if_ready (false, loop) tcp_egress = (false, loop, tcp_egress)
  if_ready (true, loop) tcp_egress =
      let (loop', tcp_egress') = add_sockets loop tcp_egress in (true, loop', tcp_egress')

  -- The network thread up to `loop.run()`; false is its early return.
  unfoldable pub start_network :
      S → TcpEgressGateway → Bool × NetworkEventLoop Callback S × TcpEgressGateway
  start_network system tcp_egress = if_ready (init net (network_event_loop system)) tcp_egress
