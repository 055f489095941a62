-- ===== src/EventLoop/Dispatch.antt =====
-- Which callbacks the loop calls, in which order, and when it ends.
use hft_learning.Prelude.{
  ℕ, zero, suc, ◌≤◌, ◌<◌, ◌≡◌, refl, ap, ◌∙◌, true, false, Option, none, some, List, [], ◌∷◌, arith,
  ltb-eq-true, ltb-eq-false, length, get_or, if_true,
}
use native.Mathlib.Decide.{dec_lt}
use hft_learning.Prelude.Int.{ℤ, pos, negsuc}
use hft_learning.EventLoop.{Network, NetworkEventLoop, on, invoke, handle_event, dispatch, run_from}

-- The calls that events ask for: one for each event whose descriptor has a callback.
abbrev with_handler : {C : Type 0} → Option C → ℕ → List (C × ℕ) → List (C × ℕ)
with_handler none fd rest = rest
with_handler (some callback) fd rest = (callback, fd) ∷ rest

abbrev pub handlers : {C : Type 0} → List (Option C) → List ℤ → List (C × ℕ)
handlers callbacks [] = []
handlers callbacks (negsuc n ∷ events) = handlers callbacks events
handlers callbacks (pos fd ∷ events) =
    with_handler (get_or callbacks fd none) fd (handlers callbacks events)

-- Behind the end of the table there is no callback.
get_or_beyond :
    {C : Type 0} (callbacks : List (Option C)) (fd : ℕ)
    → length callbacks ≤ fd
    → get_or callbacks fd none ≡ none
get_or_beyond [] fd h = refl
get_or_beyond (c ∷ cs) zero h = absurd (omega arith)
get_or_beyond (c ∷ cs) (suc fd) h = get_or_beyond cs fd (omega (arith, h))

-- Within the table it does not matter what memory has behind it.
get_or_inside :
    {C : Type 0} (callbacks : List (Option C)) (fd : ℕ) (default : Option C)
    → fd < length callbacks
    → get_or callbacks fd default ≡ get_or callbacks fd none
get_or_inside [] fd default h = absurd (omega arith)
get_or_inside (c ∷ cs) zero default h = refl
get_or_inside (c ∷ cs) (suc fd) default h = get_or_inside cs fd default (omega (arith, h))

module _ {C S : Type 0} (net : Network S)
    (call : C → ℕ → NetworkEventLoop C S → NetworkEventLoop C S) (behind : ℕ → Option C) where
  abbrev pub call_all : List (C × ℕ) → NetworkEventLoop C S → NetworkEventLoop C S
  call_all [] loop = loop
  call_all ((callback, fd) ∷ calls) loop = call_all calls (call callback fd loop)

  handle_event-pos :
      (loop : NetworkEventLoop C S) (fd : ℕ)
      → handle_event net call behind loop (pos fd)
        ≡ invoke net call behind (get_or loop.fd_callbacks fd none) fd loop
  handle_event-pos loop fd = elim (dec_lt fd (length loop.fd_callbacks)) [
    | yes inside ↦ rw (ltb-eq-true _ _ inside, get_or_inside loop.fd_callbacks fd _ inside) refl
    | no beyond ↦
        let outside : length loop.fd_callbacks ≤ fd = omega (arith, beyond) in
        rw (ltb-eq-false _ _ outside, get_or_beyond loop.fd_callbacks fd outside) refl
  ]

  module _
      (keeps : (callback : C) (fd : ℕ) (loop : NetworkEventLoop C S)
        → (call callback fd loop).fd_callbacks ≡ loop.fd_callbacks) where
    invoke-handlers :
        (handler : Option C) (fd : ℕ) (events : List ℤ) (loop : NetworkEventLoop C S)
        → ((loop : NetworkEventLoop C S)
            → dispatch net call behind loop events
              ≡ call_all (handlers loop.fd_callbacks events) loop)
        → dispatch net call behind (invoke net call behind handler fd loop) events
          ≡ call_all (with_handler handler fd (handlers loop.fd_callbacks events)) loop
    invoke-handlers none fd events loop others = others loop
    invoke-handlers (some callback) fd events loop others =
        others (call callback fd loop)
        ∙ ap (λ table. call_all (handlers table events) (call callback fd loop))
            (keeps callback fd loop)

    -- Where no callback changes the table, whatever memory has behind it, the events of one `epoll_wait` call exactly the callbacks
    -- registered for their descriptors, with these descriptors and in the order of the events;
    -- descriptors that are negative, beyond the table or without a callback call none.
    pub dispatch-handlers :
        (events : List ℤ) (loop : NetworkEventLoop C S)
        → dispatch net call behind loop events ≡ call_all (handlers loop.fd_callbacks events) loop
    unfolding dispatch
    dispatch-handlers [] loop = refl
    dispatch-handlers (negsuc n ∷ events) loop = dispatch-handlers events loop
    dispatch-handlers (pos fd ∷ events) loop =
        ap (λ loop'. dispatch net call behind loop' events) (handle_event-pos loop fd)
        ∙ invoke-handlers (get_or loop.fd_callbacks fd none) fd events loop
            (dispatch-handlers events)

  -- the loop after a number of calls of `epoll_wait`
  abbrev pub rounds : ℕ → NetworkEventLoop C S → NetworkEventLoop C S
  rounds zero loop = loop
  rounds (suc n) loop =
      let (events, system) = net.epoll_wait loop.system loop.epoll_fd 64 in
      rounds n (dispatch net call behind (on loop system) events)

  -- The loop ends behind the first batch of events that clears `running`, as that batch leaves it;
  -- while no batch does, it never ends.
  pub run_from-rounds :
      (n : ℕ) (loop : NetworkEventLoop C S)
      → ((i : ℕ) → i < n → (rounds i loop).running ≡ true)
      → (run_from net call behind n loop ≡ none)
        × ((rounds n loop).running ≡ false
            → run_from net call behind (suc n) loop ≡ some (rounds n loop))
  unfolding run_from
  run_from-rounds zero loop running = (refl, λ stopped. rw stopped refl)
  run_from-rounds (suc n) loop running =
      let first = running 0 (omega arith) in
      let (events, system) = net.epoll_wait loop.system loop.epoll_fd 64 in
      let (never, ends) =
        run_from-rounds n (dispatch net call behind (on loop system) events)
          (λ i lt. running (suc i) (omega (arith, lt))) in
      (
        if_true loop.running _ _ first ∙ never,
        λ stopped. if_true loop.running _ _ first ∙ ends stopped,
      )
