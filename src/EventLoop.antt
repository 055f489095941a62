-- ===== src/EventLoop.antt =====
-- include/NetworkEventLoop.hpp and src/NetworkEventLoop.cpp: sockets and their callbacks around
-- `epoll`. The system calls are a parameter. A `std::function` is a code of the type `C`; what
-- calling it does to the loop is a parameter of the dispatch.
pub mod Register
pub mod Adds
pub mod Dispatch
pub mod Fixture
mod Tests
use hft_learning.Prelude.{
  ℕ, zero, suc, ◌*◌, Bool, true, false, Option, none, some, List, [], ◌∷◌, leb, ltb, if◌then◌else◌,
  length, replicate, get_or,
}
use hft_learning.Prelude.Int.{ℤ, pos, negsuc}
use hft_learning.Prelude.Vectors.{resized, set_at}

-- `SOCK_DGRAM` and `SOCK_STREAM`
pub data SocketType : Type 0 where
  datagram stream : SocketType

-- What `connect` answers; the second is a failure with `EINPROGRESS`.
pub data Connection : Type 0 where
  connected in_progress refused : Connection

-- The system calls: `none` is a negative result, and `false` a failure.
pub record Network (S : Type 0) : Type 0 where
  pub epoll_create : S → Option ℕ × S
  pub get_flags : S → ℕ → Option ℕ × S
  pub set_flags_non_blocking : S → ℕ → ℕ → S
  pub epoll_add : S → Option ℕ → ℕ → Bool × S
  pub socket : S → SocketType → Option ℕ × S
  pub reuse_address : S → ℕ → Bool × S
  pub bind : S → ℕ → ℕ → Bool × S
  pub add_membership : S → ℕ → List ℕ → Bool × S
  pub listen : S → ℕ → Bool × S
  pub parse_address : List ℕ → Option ℕ
  pub connect : S → ℕ → ℕ → ℕ → Connection × S
  pub epoll_wait : S → Option ℕ → ℕ → List ℤ × S
  pub close : S → ℕ → S

-- `epoll_fd` is `none` for -1; an empty callback is `none`.
pub record NetworkEventLoop (C S : Type 0) : Type 0 where
  pub epoll_fd : Option ℕ
  pub running : Bool
  pub fd_callbacks : List (Option C)
  pub system : S

-- the constructor
abbrev pub network_event_loop : {C S : Type 0} → S → NetworkEventLoop C S
network_event_loop system = record {
  epoll_fd = none;
  running = false;
  fd_callbacks = replicate 1024 none;
  system = system;
}

abbrev pub is_some : Option ℕ → Bool
is_some none = false
is_some (some n) = true

abbrev pub is_usable : Connection → Bool
is_usable connected = true
is_usable in_progress = true
is_usable refused = false

abbrev pub on : {C S : Type 0} → NetworkEventLoop C S → S → NetworkEventLoop C S
on loop system = record loop { system = system }

-- the table, made longer where `fd` is beyond it
abbrev pub grown : {C : Type 0} → List (Option C) → ℕ → List (Option C)
grown callbacks fd =
    if leb (length callbacks) fd then resized none (fd * 2) callbacks else callbacks

unfoldable pub set_non_blocking : {S : Type 0} → Network S → S → ℕ → S
set_non_blocking net system fd =
    let (flags, system') = net.get_flags system fd in
    elim flags [ none ↦ system' | some f ↦ net.set_flags_non_blocking system' fd f ]

module _ {C S : Type 0} (net : Network S) where
  unfoldable pub init : NetworkEventLoop C S → Bool × NetworkEventLoop C S
  init loop =
      let (fd, system) = net.epoll_create loop.system in
      (is_some fd, record loop { epoll_fd = fd; system = system })

  unfoldable pub register_fd : NetworkEventLoop C S → ℕ → C → Bool × NetworkEventLoop C S
  register_fd loop fd callback =
      let (added, system) = net.epoll_add (set_non_blocking net loop.system fd) loop.epoll_fd fd in
      (
        added,
        record loop {
          fd_callbacks = set_at (grown loop.fd_callbacks fd) fd (some callback);
          system = system;
        },
      )

  -- A step towards a socket in use; where it fails, the socket is closed and the answer is -1.
  abbrev pub or_close :
      Bool
      → NetworkEventLoop C S
      → ℕ
      → (NetworkEventLoop C S → Option ℕ × NetworkEventLoop C S)
      → Option ℕ × NetworkEventLoop C S
  or_close true loop sock rest = rest loop
  or_close false loop sock rest = (none, on loop (net.close loop.system sock))

  -- The end of the three functions that add a socket.
  abbrev pub register_or_close : NetworkEventLoop C S → ℕ → C → Option ℕ × NetworkEventLoop C S
  register_or_close loop sock callback =
      let (registered, loop') = register_fd loop sock callback in
      or_close registered loop' sock (λ loop. (some sock, loop))

  abbrev pub with_socket :
      NetworkEventLoop C S
      → Option ℕ × S
      → (ℕ → S → Option ℕ × NetworkEventLoop C S)
      → Option ℕ × NetworkEventLoop C S
  with_socket loop (none, system) rest = (none, on loop system)
  with_socket loop (some sock, system) rest = rest sock system

  -- `addUDPMulticastListener`
  unfoldable pub add_udp_multicast_listener :
      NetworkEventLoop C S → List ℕ → ℕ → C → Option ℕ × NetworkEventLoop C S
  add_udp_multicast_listener loop mcast_ip port callback =
      with_socket loop (net.socket loop.system datagram) (λ sock system.
        let (_, reusing) = net.reuse_address system sock in
        let (bound, binding) = net.bind reusing sock port in
        or_close bound (on loop binding) sock (λ loop.
          let (joined, joining) = net.add_membership loop.system sock mcast_ip in
          or_close joined (on loop joining) sock (λ loop. register_or_close loop sock callback)))

  -- `addTCPListener`
  unfoldable pub add_tcp_listener : NetworkEventLoop C S → ℕ → C → Option ℕ × NetworkEventLoop C S
  add_tcp_listener loop port callback =
      with_socket loop (net.socket loop.system stream) (λ sock system.
        let (_, reusing) = net.reuse_address system sock in
        let (bound, binding) = net.bind reusing sock port in
        or_close bound (on loop binding) sock (λ loop.
          let (listening, listens) = net.listen loop.system sock in
          or_close listening (on loop listens) sock (λ loop. register_or_close loop sock callback)))

  -- `addTCPClient`, once it has a socket
  abbrev pub connecting :
      NetworkEventLoop C S → ℕ → S → C → Option ℕ → ℕ → Option ℕ × NetworkEventLoop C S
  connecting loop sock system callback none port = (none, on loop (net.close system sock))
  connecting loop sock system callback (some address) port =
      let quiet = set_non_blocking net system sock in
      let (answer, system') = net.connect quiet sock address port in
      or_close (is_usable answer) (on loop system') sock
        (λ loop. register_or_close loop sock callback)

  -- `addTCPClient`
  unfoldable pub add_tcp_client :
      NetworkEventLoop C S → List ℕ → ℕ → C → Option ℕ × NetworkEventLoop C S
  add_tcp_client loop ip port callback =
      with_socket loop (net.socket loop.system stream)
        (λ sock system. connecting loop sock system callback (net.parse_address ip) port)

  -- `call` is what calling a callback with a descriptor does; `behind` is what memory would give for
  -- a descriptor beyond the table, since `[]` does not check its range.
  module _ (call : C → ℕ → NetworkEventLoop C S → NetworkEventLoop C S)
      (behind : ℕ → Option C) where
    abbrev pub invoke : Option C → ℕ → NetworkEventLoop C S → NetworkEventLoop C S
    invoke none fd loop = loop
    invoke (some callback) fd loop = call callback fd loop

    abbrev pub handle_event : NetworkEventLoop C S → ℤ → NetworkEventLoop C S
    handle_event loop (negsuc n) = loop
    handle_event loop (pos fd) =
        if ltb fd (length loop.fd_callbacks)
        then invoke (get_or loop.fd_callbacks fd (behind fd)) fd loop
        else loop

    -- The loop over the events of one `epoll_wait`.
    unfoldable pub dispatch : NetworkEventLoop C S → List ℤ → NetworkEventLoop C S
    dispatch loop [] = loop
    dispatch loop (event ∷ events) = dispatch (handle_event loop event) events

    -- `while (running_)`; `none` is a run that has not ended.
    unfoldable pub run_from : ℕ → NetworkEventLoop C S → Option (NetworkEventLoop C S)
    run_from zero loop = none
    run_from (suc rounds) loop =
        let (events, system) = net.epoll_wait loop.system loop.epoll_fd 64 in
        let rest = λ (loop : NetworkEventLoop C S). run_from rounds loop in
        if loop.running then rest (dispatch (on loop system) events) else some loop

    unfoldable pub run : ℕ → NetworkEventLoop C S → Option (NetworkEventLoop C S)
    run rounds loop = run_from rounds (record loop { running = true })

abbrev pub stop : {C S : Type 0} → NetworkEventLoop C S → NetworkEventLoop C S
stop loop = record loop { running = false }
