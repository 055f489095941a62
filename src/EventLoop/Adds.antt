-- ===== src/EventLoop/Adds.antt =====
-- Sockets that are added to the loop: registered, or closed again.
use hft_learning.Prelude.{
  ℕ, ◌<◌, ◌≤◌, ◌≡◌, refl, sym, ap, ◌∙◌, Option-cases, inl, inr, Bool, true, false, Option, none,
  some, List, arith, length, get_or,
}
use hft_learning.Prelude.Arrays.{update}
use hft_learning.EventLoop.{
  SocketType, Network, NetworkEventLoop, on, set_non_blocking, register_fd, or_close,
  register_or_close, with_socket, add_udp_multicast_listener, add_tcp_listener, connecting,
  add_tcp_client, is_usable,
}
use hft_learning.EventLoop.Register.{Registered, register_fd-Registered}

module _ {S : Type 0} (net : Network S) (is_open : S → ℕ → Bool) where
  abbrev pub KeepsOpen : S → S → Type 0
  KeepsOpen s s' = (fd : ℕ) → is_open s' fd ≡ is_open s fd

  -- What is documented of the system calls: `socket` opens a descriptor that was not open, or none at
  -- all; `close` closes one; the others open and close none.
  pub record IsNetwork : Type 0 where
    pub opens :
        (s s' : S) (type : SocketType) (fd : ℕ)
        → net.socket s type ≡ (some fd, s')
        → (is_open s fd ≡ false) × ((j : ℕ) → is_open s' j ≡ update (is_open s) fd true j)
    pub opens_none :
        (s s' : S) (type : SocketType) → net.socket s type ≡ (none, s') → KeepsOpen s s'
    pub closes : (s : S) (fd j : ℕ) → is_open (net.close s fd) j ≡ update (is_open s) fd false j
    pub gets_flags : (s : S) (fd : ℕ) → KeepsOpen s (net.get_flags s fd).1
    pub sets_flags : (s : S) (fd flags : ℕ) → KeepsOpen s (net.set_flags_non_blocking s fd flags)
    pub adds : (s : S) (epoll : Option ℕ) (fd : ℕ) → KeepsOpen s (net.epoll_add s epoll fd).1
    pub reuses : (s : S) (fd : ℕ) → KeepsOpen s (net.reuse_address s fd).1
    pub binds : (s : S) (fd port : ℕ) → KeepsOpen s (net.bind s fd port).1
    pub joins : (s : S) (fd : ℕ) (ip : List ℕ) → KeepsOpen s (net.add_membership s fd ip).1
    pub listens : (s : S) (fd : ℕ) → KeepsOpen s (net.listen s fd).1
    pub connects : (s : S) (fd address port : ℕ) → KeepsOpen s (net.connect s fd address port).1

module _ {C S : Type 0} (is_open : S → ℕ → Bool) (before : NetworkEventLoop C S) where
  -- The callbacks of the descriptors that are open are where they were.
  abbrev pub KeepsCallbacks : NetworkEventLoop C S → Type 0
  KeepsCallbacks loop =
      (j : ℕ)
      → is_open before.system j ≡ true
      → get_or loop.fd_callbacks j none ≡ get_or before.fd_callbacks j none

  -- A socket has been opened since, and nothing else.
  pub record IsOpened (loop : NetworkEventLoop C S) (sock : ℕ) : Type 0 where
    pub was_closed : is_open before.system sock ≡ false
    pub opened : (j : ℕ) → is_open loop.system j ≡ update (is_open before.system) sock true j
    pub callbacks : KeepsCallbacks loop
    pub no_shorter : length before.fd_callbacks ≤ length loop.fd_callbacks

  -- What an attempt to add a socket comes to: a new socket is open, and its callback registered, or
  -- the answer is -1, every descriptor is open or closed as it was, and those that are open have the
  -- callbacks that they had. The table gets no shorter.
  pub data Adds (callback : C) : Option ℕ × NetworkEventLoop C S → Type 0 where
    added :
        {sock : ℕ} {loop : NetworkEventLoop C S}
        → IsOpened loop sock
        → Registered before loop sock callback
        → Adds callback (some sock, loop)
    failed :
        {loop : NetworkEventLoop C S}
        → ((j : ℕ) → is_open loop.system j ≡ is_open before.system j)
        → KeepsCallbacks loop
        → length before.fd_callbacks ≤ length loop.fd_callbacks
        → Adds callback (none, loop)

module _ {C S : Type 0} {is_open : S → ℕ → Bool} {before : NetworkEventLoop C S}
    {callback : C} where
  -- An attempt to add a socket changes no callback of a descriptor that is open.
  pub Adds-kept :
      {reply : Option ℕ × NetworkEventLoop C S}
      → Adds is_open before callback reply
      → (fd : ℕ) → is_open before.system fd ≡ true
      → get_or reply.1.fd_callbacks fd none ≡ get_or before.fd_callbacks fd none
  Adds-kept (added o r) fd is_used = o.callbacks fd is_used
  Adds-kept (failed keeps callbacks longer) fd is_used = callbacks fd is_used

  -- It closes none that is open, and the table gets no shorter.
  pub Adds-open :
      {reply : Option ℕ × NetworkEventLoop C S}
      → Adds is_open before callback reply
      → (fd : ℕ) → is_open before.system fd ≡ true
      → is_open reply.1.system fd ≡ true
  Adds-open (added o r) fd is_used = ground (arith, o.opened fd, is_used)
  Adds-open (failed keeps callbacks longer) fd is_used = keeps fd ∙ is_used

  pub Adds-longer :
      {reply : Option ℕ × NetworkEventLoop C S}
      → Adds is_open before callback reply
      → length before.fd_callbacks ≤ length reply.1.fd_callbacks
  Adds-longer (added o r) = o.no_shorter
  Adds-longer (failed keeps callbacks longer) = longer

module _ {S : Type 0} {net : Network S} {is_open : S → ℕ → Bool}
    (lawful : IsNetwork net is_open) where
  set_non_blocking-KeepsOpen :
      (s : S) (fd : ℕ) → KeepsOpen net is_open s (set_non_blocking net s fd)
  unfolding set_non_blocking
  set_non_blocking-KeepsOpen s fd j = elim (Option-cases (net.get_flags s fd).0) [
    | inl absent ↦ rw (set_non_blocking, absent) (lawful.gets_flags s fd j)
    | inr (flags, present) ↦
        rw (set_non_blocking, present)
          (lawful.sets_flags (net.get_flags s fd).1 fd flags j ∙ lawful.gets_flags s fd j)
  ]

pub true-ne-false : true ≡ false → ⊥
true-ne-false e = cc

module _ {C S : Type 0} {net : Network S} {is_open : S → ℕ → Bool} (lawful : IsNetwork net is_open)
    {before : NetworkEventLoop C S} where
  on-IsOpened :
      {loop : NetworkEventLoop C S} {sock : ℕ} {s : S}
      → IsOpened is_open before loop sock
      → KeepsOpen net is_open loop.system s
      → IsOpened is_open before (on loop s) sock
  on-IsOpened o keeps = record {
    was_closed = o.was_closed;
    opened = λ j. keeps j ∙ o.opened j;
    callbacks = o.callbacks;
    no_shorter = o.no_shorter;
  }

  closed_again :
      {loop : NetworkEventLoop C S} {sock : ℕ}
      → IsOpened is_open before loop sock
      → (j : ℕ) → is_open (net.close loop.system sock) j ≡ is_open before.system j
  closed_again {loop} {sock} o j =
      ground (arith, lawful.closes loop.system sock j, o.opened j, o.was_closed)

  or_close-Adds :
      {callback : C} (ok : Bool) {loop : NetworkEventLoop C S} {sock : ℕ}
      (rest : NetworkEventLoop C S → Option ℕ × NetworkEventLoop C S)
      → IsOpened is_open before loop sock
      → (ok ≡ true → Adds is_open before callback (rest loop))
      → Adds is_open before callback (or_close net ok loop sock rest)
  or_close-Adds true rest o continue = continue refl
  or_close-Adds false rest o continue = failed (closed_again o) o.callbacks o.no_shorter

  register_fd-IsOpened :
      {loop : NetworkEventLoop C S} {sock : ℕ} (callback : C)
      → IsOpened is_open before loop sock
      → Registered loop (register_fd net loop sock callback).1 sock callback
      → IsOpened is_open before (register_fd net loop sock callback).1 sock
  unfolding register_fd
  register_fd-IsOpened {loop} {sock} callback o r = record {
    was_closed = o.was_closed;
    opened = λ j.
        lawful.adds (set_non_blocking net loop.system sock) loop.epoll_fd sock j
        ∙ set_non_blocking-KeepsOpen lawful loop.system sock j
        ∙ o.opened j;
    callbacks = λ j is_used.
        r.others j (λ e. true-ne-false (sym is_used ∙ ap (is_open before.system) e ∙ o.was_closed))
        ∙ o.callbacks j is_used;
    no_shorter = omega (arith, o.no_shorter, r.no_shorter);
  }

  register_or_close-Adds :
      {loop : NetworkEventLoop C S} {sock : ℕ} (callback : C)
      → 0 < length before.fd_callbacks
      → loop.fd_callbacks ≡ before.fd_callbacks
      → IsOpened is_open before loop sock
      → Adds is_open before callback (register_or_close net loop sock callback)
  register_or_close-Adds {loop} {sock} callback some_slot same o =
      let r = register_fd-Registered net loop sock callback (rw same some_slot) in
      let o' = register_fd-IsOpened callback o r in
      or_close-Adds (register_fd net loop sock callback).0 (λ loop. (some sock, loop)) o'
        (λ _. added o' (record {
          in_range = r.in_range;
          there = r.there;
          others = λ j ne. r.others j ne ∙ ap (λ t. get_or t j none) same;
          no_shorter = rw⁻¹ same r.no_shorter;
        }))

  with_socket-Adds :
      {callback : C} (type : SocketType) (reply : Option ℕ × S)
      (rest : ℕ → S → Option ℕ × NetworkEventLoop C S)
      → net.socket before.system type ≡ reply
      → ((sock : ℕ) (s : S)
          → IsOpened is_open before (on before s) sock
          → Adds is_open before callback (rest sock s))
      → Adds is_open before callback (with_socket net before reply rest)
  with_socket-Adds type (none, s) rest e continue =
      failed (lawful.opens_none before.system s type e) (λ j _. refl) (omega arith)
  with_socket-Adds type (some sock, s) rest e continue =
      let (was_closed, opened) = lawful.opens before.system s type sock e in
      continue sock s (record {
        was_closed = was_closed;
        opened = opened;
        callbacks = λ j _. refl;
        no_shorter = omega arith;
      })

module _ {C S : Type 0} {net : Network S} {is_open : S → ℕ → Bool} (lawful : IsNetwork net is_open)
    (loop : NetworkEventLoop C S) (callback : C) (some_slot : 0 < length loop.fd_callbacks) where
  add_udp-Adds :
      (ip : List ℕ) (port : ℕ)
      → Adds is_open loop callback (add_udp_multicast_listener net loop ip port callback)
  unfolding add_udp_multicast_listener
  add_udp-Adds ip port = with_socket-Adds lawful _ (net.socket loop.system _) _ refl (λ sock s o.
      let reusing = net.reuse_address s sock in
      let binding = net.bind reusing.1 sock port in
      let b =
        on-IsOpened lawful (on-IsOpened lawful o (lawful.reuses s sock))
          (lawful.binds reusing.1 sock port) in
      or_close-Adds lawful binding.0 _ b (λ _.
        let joining = net.add_membership binding.1 sock ip in
        let j = on-IsOpened lawful b (lawful.joins binding.1 sock ip) in
        or_close-Adds lawful joining.0 _ j
          (λ _. register_or_close-Adds lawful callback some_slot refl j)))

  add_listener-Adds :
      (port : ℕ) → Adds is_open loop callback (add_tcp_listener net loop port callback)
  unfolding add_tcp_listener
  add_listener-Adds port = with_socket-Adds lawful _ (net.socket loop.system _) _ refl (λ sock s o.
      let reusing = net.reuse_address s sock in
      let binding = net.bind reusing.1 sock port in
      let b =
        on-IsOpened lawful (on-IsOpened lawful o (lawful.reuses s sock))
          (lawful.binds reusing.1 sock port) in
      or_close-Adds lawful binding.0 _ b (λ _.
        let listening = net.listen binding.1 sock in
        let l = on-IsOpened lawful b (lawful.listens binding.1 sock) in
        or_close-Adds lawful listening.0 _ l
          (λ _. register_or_close-Adds lawful callback some_slot refl l)))

  connecting-Adds :
      (sock : ℕ) (s : S) (address : Option ℕ) (port : ℕ)
      → IsOpened is_open loop (on loop s) sock
      → Adds is_open loop callback (connecting net loop sock s callback address port)
  connecting-Adds sock s none port o = failed (closed_again lawful o) o.callbacks o.no_shorter
  connecting-Adds sock s (some address) port o =
      let quiet = set_non_blocking net s sock in
      let connection = net.connect quiet sock address port in
      let c =
        on-IsOpened lawful (on-IsOpened lawful o (set_non_blocking-KeepsOpen lawful s sock))
          (lawful.connects quiet sock address port) in
      or_close-Adds lawful (is_usable connection.0) _ c
        (λ _. register_or_close-Adds lawful callback some_slot refl c)

  add_client-Adds :
      (ip : List ℕ) (port : ℕ)
      → Adds is_open loop callback (add_tcp_client net loop ip port callback)
  unfolding add_tcp_client
  add_client-Adds ip port =
      with_socket-Adds lawful _ (net.socket loop.system _) _ refl
        (λ sock s o. connecting-Adds sock s (net.parse_address ip) port o)

  -- With a network whose calls open and close descriptors as documented, and a table of one slot at
  -- least, each of the three functions that add a socket does one of two things, whichever of their
  -- calls fail: it answers with a descriptor that was not open before, is the only one opened, and has
  -- the callback at its place in the table, every other callback kept; or it answers -1, every
  -- descriptor is open or closed as before, and those that are open keep their callbacks. The table
  -- gets no shorter.
  pub sockets-Adds :
      (ip : List ℕ) (port : ℕ)
      → Adds is_open loop callback (add_udp_multicast_listener net loop ip port callback)
        × Adds is_open loop callback (add_tcp_listener net loop port callback)
        × Adds is_open loop callback (add_tcp_client net loop ip port callback)
  sockets-Adds ip port = (add_udp-Adds ip port, add_listener-Adds port, add_client-Adds ip port)
