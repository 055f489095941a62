-- ===== src/EventLoop/Tests.antt =====
-- Sockets and events of a small system, and the theorems at it.
use hft_learning.Prelude.{
  ℕ, ◌+◌, ◌≡◌, refl, false, Option, none, some, [], ◌∷◌, arith, ltb, if◌then◌else◌, length, get_or,
}
use hft_learning.Prelude.Int.{pos, negsuc}
use hft_learning.EventLoop.{
  NetworkEventLoop, network_event_loop, add_udp_multicast_listener, add_tcp_listener,
  add_tcp_client, register_fd, set_non_blocking, dispatch,
}
use hft_learning.EventLoop.Adds.{Adds, sockets-Adds}
use hft_learning.EventLoop.Dispatch.{handlers, call_all, dispatch-handlers}
use hft_learning.EventLoop.Fixture.{Descriptors, small, is_open, small-IsNetwork}

-- callbacks with a number; the number 5 stops the loop
abbrev idle_loop : NetworkEventLoop ℕ Descriptors
idle_loop = network_event_loop (record { next = 1500; opened = λ j. false })

-- a listener beyond the 1024 callbacks of the constructor
abbrev listening : NetworkEventLoop ℕ Descriptors
listening = (add_tcp_listener small idle_loop 9000 5).1

add_tcp_listener-free_port :
    let (fd, loop) = add_tcp_listener small idle_loop 9000 5 in
    (fd ≡ some 1500)
    × (length loop.fd_callbacks ≡ 3000)
    × (get_or loop.fd_callbacks 1500 none ≡ some 5)
unfolding add_tcp_listener register_fd set_non_blocking
add_tcp_listener-free_port = (refl, refl, refl)

add_tcp_listener-used_port :
    let (fd, loop) = add_tcp_listener small idle_loop 80 5 in
    (fd ≡ none) × (loop.system.opened 1500 ≡ false)
unfolding add_tcp_listener register_fd set_non_blocking
add_tcp_listener-used_port = (refl, refl)

sockets-Adds_example :
    Adds is_open idle_loop 5 (add_udp_multicast_listener small idle_loop [] 12345 5)
    × Adds is_open idle_loop 5 (add_tcp_listener small idle_loop 12345 5)
    × Adds is_open idle_loop 5 (add_tcp_client small idle_loop [] 12345 5)
sockets-Adds_example = sockets-Adds small-IsNetwork idle_loop 5 (omega arith) [] 12345

-- What the test's callbacks do: they note their descriptor as the next one.
abbrev note : ℕ → ℕ → NetworkEventLoop ℕ Descriptors → NetworkEventLoop ℕ Descriptors
note callback fd loop = record loop {
  running = if ltb callback 5 then loop.running else false;
  system = record loop.system { next = loop.system.next + fd };
}

-- Memory behind the table looks like the callback that stops the loop.
abbrev beyond : ℕ → Option ℕ
beyond fd = some 5

dispatch-handlers_example :
    let events = pos 1500 ∷ negsuc 0 ∷ pos 7 ∷ pos 9000 ∷ [] in
    dispatch small note beyond listening events
    ≡ call_all small note beyond (handlers listening.fd_callbacks events) listening
dispatch-handlers_example =
    dispatch-handlers small note beyond (λ callback fd loop. refl)
      (pos 1500 ∷ negsuc 0 ∷ pos 7 ∷ pos 9000 ∷ []) listening
