-- ===== src/Main/Datagrams.antt =====
-- A step of the network thread: a datagram is received, or its message is pushed, or waits for room.
use mathlib.Core.List.{append_assoc}
use native.Mathlib.Decide.{dec_lt}
use hft_learning.Prelude.{
  ℕ, ◌≤◌, ◌<◌, ◌≡◌, ◌⊎◌, inl, inr, refl, sym, ap, ◌∙◌, Bool, true, false, Option, none, some, List,
  [], ◌∷◌, ◌++◌, arith, length, length-append, ◌==◌, Bool-cases, if◌then◌else◌,
}
use hft_learning.Prelude.Int.{ℤ, pos, negsuc}
use hft_learning.Wire.{Buffer}
use hft_learning.Spsc.{push}
use hft_learning.Spsc.Calls.{push_room, push_full}
use hft_learning.Spsc.Refine.{push-IsValid}
use hft_learning.Book.Store.{Queues}
use hft_learning.Itch.{InternalMessage, parse}
use hft_learning.Risk.{Doubles}
use hft_learning.Strategy.{StrategyEngine}
use hft_learning.Strategy.Dispatch.{IStrategy}
use hft_learning.Main.{
  System, Datagram, datagram, feed_capacity, on_datagram, feed_parsed, feed_from, feed_round,
}
use hft_learning.Main.Feed.{update_all}
use hft_learning.Main.Threads.{
  waiting, accepted, carried, arriving, pending, in_flight, work, feed_capacity-IsCapacity,
}
use hft_learning.Main.Steps.{IsReady, Steps}

pending-feed_parsed :
    (reply : Bool × InternalMessage) → pending (feed_parsed reply) ≡ accepted reply
pending-feed_parsed (true, msg) = refl
pending-feed_parsed (false, msg) = refl

-- What the callback pushes is what the datagram carries.
pending-on_datagram :
    (buffer : Buffer) (bytes_read : ℤ) (stale : InternalMessage)
    → pending (on_datagram buffer bytes_read stale) ≡ carried buffer bytes_read stale
unfolding on_datagram
pending-on_datagram buffer (negsuc n) stale = refl
pending-on_datagram buffer (pos bytes_read) stale = elim (Bool-cases (bytes_read == 0)) [
  | inl none_read ↦ rw none_read refl
  | inr some_read ↦ rw some_read (pending-feed_parsed (parse buffer bytes_read stale))
]

length-pending : (pushing : Option InternalMessage) → length (pending pushing) ≤ 1
length-pending none = omega arith
length-pending (some msg) = omega arith

module _ {doubles : Doubles} {S : Type 0} {strategy : IStrategy doubles S}
    (I : List strategy.Object → StrategyEngine doubles S → Type 0) where
  -- A step of the network thread handles nothing; it gets on, or a message waits for the strategy
  -- thread, or nothing is left to do.
  pub record Feeds (system after : System strategy) : Type 0 where
    pub steps : Steps I system (some after)
    pub gets_on :
        (work steps.after < work system)
        ⊎ ((0 < length (waiting steps.after.queue)) ⊎ (work steps.after ≡ 0))

  module _ (system : System strategy) {q : Queues} {free : List ℕ}
      (ready : IsReady I system q free) where
    quiet :
        (after : System strategy) {levels : Queues} {free_orders : List ℕ}
        → IsReady I after levels free_orders
        → in_flight system ≡ in_flight after
        → after.lob ≡ system.lob
        → work after ≤ work system
        → (work after < work system) ⊎ ((0 < length (waiting after.queue)) ⊎ (work after ≡ 0))
        → Feeds system after
    unfolding update_all
    quiet after {levels} {free_orders} r flight book less progress = record {
      steps = record {
        after = after;
        returns = refl;
        levels = levels;
        free_orders = free_orders;
        ready = r;
        handled = [];
        in_order = flight;
        updated = ap some (sym book);
        space = rw book (omega arith);
        less_work = omega (arith, less);
      };
      gets_on = progress;
    }

    feed_from-Feeds :
        (pushing : Option InternalMessage) (datagrams : List Datagram)
        → system.pushing ≡ pushing
        → system.incoming ≡ datagrams
        → Feeds system (feed_from strategy system pushing datagrams)
    feed_from-Feeds none [] idle none_left =
        quiet system ready refl refl (omega arith)
          (elim (dec_lt 0 (length (waiting system.queue))) [
            | yes some_wait ↦ inr (inl some_wait)
            | no none_wait ↦
                let no_message = ap (λ p. length (pending p)) idle in
                let no_datagram = ap (λ (ds : List Datagram). length ds) none_left in
                inr (inr (omega (arith, none_wait, no_message, no_datagram)))
          ])
    feed_from-Feeds none (datagram buffer bytes_read stale ∷ ds) idle next =
        let msgs = carried buffer bytes_read stale in
        let fed : System strategy = record system {
          incoming = ds;
          pushing = on_datagram buffer bytes_read stale;
        } in
        let no_message = ap (λ p. length (pending p)) idle in
        let counted = ap (λ (ds : List Datagram). length ds) next in
        let one = length-pending (on_datagram buffer bytes_read stale) in
        quiet fed (record { valid = ready.valid; is_book = ready.is_book; safe = ready.safe })
          (ap (λ p. waiting system.queue ++ (pending p ++ arriving system.incoming)) idle
            ∙ ap (λ ds. waiting system.queue ++ arriving ds) next
            ∙ ap (λ msgs. waiting system.queue ++ (msgs ++ arriving ds))
                (sym (pending-on_datagram buffer bytes_read stale)))
          refl (omega (arith, no_message, counted, one))
          (inl (omega (arith, no_message, counted, one)))
    feed_from-Feeds (some msg) ds pushes _ =
        let q = system.queue in
        let reply = push feed_capacity q msg in
        let arrivals = arriving system.incoming in
        let fed : System strategy = record system {
          pushing = if reply.0 then none else some msg;
          queue = reply.1;
        } in
        let one = ap (λ p. length (pending p)) pushes in
        let valid = push-IsValid feed_capacity-IsCapacity q msg ready.valid in
        elim (dec_lt (length (waiting q)) 65535) [
          | yes room ↦
              let (pushed, appended) = push_room feed_capacity-IsCapacity q ready.valid msg room in
              let left = ap (λ ok. length (pending (if ok then none else some msg))) pushed in
              let longer = ap length appended ∙ length-append (waiting q) (msg ∷ []) in
              quiet fed (record { valid = valid; is_book = ready.is_book; safe = ready.safe })
                (ap (λ p. waiting q ++ (pending p ++ arrivals)) pushes
                  ∙ sym (append_assoc (waiting q) (msg ∷ []) arrivals)
                  ∙ ap (λ queued. queued ++ arrivals) (sym appended)
                  ∙ ap
                      (λ ok.
                        waiting (reply.1) ++ (pending (if ok then none else some msg) ++ arrivals))
                      (sym pushed))
                refl (omega (arith, one, left, longer)) (inl (omega (arith, one, left, longer)))
          | no full ↦
              let (refused, kept) =
                push_full feed_capacity-IsCapacity q ready.valid msg (omega (arith, full)) in
              let left = ap (λ ok. length (pending (if ok then none else some msg))) refused in
              let same = ap length kept in
              quiet fed (record { valid = valid; is_book = ready.is_book; safe = ready.safe })
                (ap (λ p. waiting q ++ (pending p ++ arrivals)) pushes
                  ∙ ap (λ queued. queued ++ (msg ∷ arrivals)) (sym kept)
                  ∙ ap
                      (λ ok.
                        waiting (reply.1) ++ (pending (if ok then none else some msg) ++ arrivals))
                      (sym refused))
                refl (omega (arith, one, left, same)) (inr (inl (omega (arith, same, full))))
        ]

    pub feed_round-Feeds : Feeds system (feed_round strategy system)
    unfolding feed_round
    feed_round-Feeds = feed_from-Feeds system.pushing system.incoming refl refl
