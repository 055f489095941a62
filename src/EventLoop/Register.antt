-- ===== src/EventLoop/Register.antt =====
-- What `registerFd` does to the table of callbacks.
use native.Mathlib.Decide.{dec_lt}
use hft_learning.Prelude.{
  ℕ, ◌*◌, ◌≤◌, ◌<◌, ◌≡◌, ◌≢◌, refl, ◌∙◌, Option, none, some, List, arith, leb-eq-true, leb-eq-false,
  length, get_or,
}
use hft_learning.Prelude.Vectors.{
  length-resized, get_or-resized, length-set_at, get_or-set_at, get_or-set_other,
}
use hft_learning.EventLoop.{Network, NetworkEventLoop, grown, register_fd}

module _ {C S : Type 0} where
  -- What `registerFd` does to the table, whether `epoll_ctl` succeeds or not: the callback is in range
  -- and at its descriptor, and every other callback is where it was.
  pub record Registered (loop loop' : NetworkEventLoop C S) (fd : ℕ) (callback : C) : Type 0 where
    pub in_range : fd < length loop'.fd_callbacks
    pub there : get_or loop'.fd_callbacks fd none ≡ some callback
    pub others :
        (j : ℕ) → j ≢ fd → get_or loop'.fd_callbacks j none ≡ get_or loop.fd_callbacks j none
    pub no_shorter : length loop.fd_callbacks ≤ length loop'.fd_callbacks

grown_lem :
    {C : Type 0} (callbacks : List (Option C)) (fd : ℕ)
    → 0 < length callbacks
    → (fd < length (grown callbacks fd))
      × (length callbacks ≤ length (grown callbacks fd))
      × ((j : ℕ) → get_or (grown callbacks fd) j none ≡ get_or callbacks j none)
grown_lem callbacks fd some_slot = elim (dec_lt fd (length callbacks)) [
  | yes inside ↦ rw (leb-eq-false _ _ inside) (inside, omega arith, λ j. refl)
  | no beyond ↦
      let outside : length callbacks ≤ fd = omega (arith, beyond) in
      rw (leb-eq-true _ _ outside, length-resized none (fd * 2) callbacks)
        (
          omega (arith, some_slot, outside),
          omega (arith, outside),
          λ j. get_or-resized none (fd * 2) callbacks j (omega (arith, outside)),
        )
]

module _ {C S : Type 0} (net : Network S) (loop : NetworkEventLoop C S) (fd : ℕ)
    (callback : C) where
  pub register_fd-Registered :
      0 < length loop.fd_callbacks
      → Registered loop (register_fd net loop fd callback).1 fd callback
  unfolding register_fd
  register_fd-Registered some_slot =
      let (inside, longer, same) = grown_lem loop.fd_callbacks fd some_slot in
      let table = grown loop.fd_callbacks fd in
      record {
        in_range = rw (length-set_at table fd (some callback)) inside;
        there = get_or-set_at table fd (some callback) none inside;
        others = λ j ne. get_or-set_other table fd j (some callback) none ne ∙ same j;
        no_shorter = rw (length-set_at table fd (some callback)) longer;
      }
