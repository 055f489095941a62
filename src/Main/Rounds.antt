-- ===== src/Main/Rounds.antt =====
-- A round of the strategy thread: what it makes of the first message in the queue.
use hft_learning.Prelude.{
  ◌++◌, sym, arith, length, ℕ, ◌+◌, ◌^◌, ◌⊎◌, ◌≤◌, ◌<◌, ◌≡◌, inl, inr, refl, ap, ◌∙◌, Option, some,
  List, [], ◌∷◌, if_true, if_false,
}
use hft_learning.Spsc.{pop}
use hft_learning.Spsc.Calls.{pop_empty, pop_first}
use hft_learning.Spsc.Refine.{IsValid, pop-IsValid}
use hft_learning.Book.Store.{Queues}
use hft_learning.Book.Add.{room}
use hft_learning.Itch.{InternalMessage}
use hft_learning.Risk.{Doubles}
use hft_learning.Strategy.{StrategyEngine}
use hft_learning.Strategy.Dispatch.{IStrategy, IsSafe}
use hft_learning.Main.{System, feed_capacity, update_book, strategy_round, handle_message}
use hft_learning.Main.{Datagram}
use hft_learning.Main.Threads.{waiting, pending, arriving, in_flight, feed_capacity-IsCapacity}
use hft_learning.Main.Steps.{IsReady, Steps}
use mathlib.Core.Path.{subst}
use hft_learning.Main.Feed.{update_all, AllFit, update_book-Leaves}

messages-cases :
    (msgs : List InternalMessage)
    → (msgs ≡ []) ⊎ ((msg : InternalMessage) × (rest : List InternalMessage) × (msgs ≡ msg ∷ rest))
messages-cases [] = inl refl
messages-cases (msg ∷ rest) = inr (msg, rest, refl)

module _ {doubles : Doubles} {S : Type 0} {strategy : IStrategy doubles S}
    (I : List strategy.Object → StrategyEngine doubles S → Type 0) where
  module _ (s : IsSafe strategy I) where
    -- A message is taken from the queue and handled.
    record Handles (system : System strategy) (msg : InternalMessage) (msgs : List InternalMessage)
        (run : Option (System strategy)) : Type 0 where
      after : System strategy
      returns : run ≡ some after
      levels : Queues
      free_orders : List ℕ
      ready : IsReady I after levels free_orders
      rest : waiting after.queue ≡ msgs
      updated : update_book system.lob msg ≡ some after.lob
      space : room system.lob ≤ room after.lob + 1
      pushing_kept : after.pushing ≡ system.pushing
      incoming_kept : after.incoming ≡ system.incoming

    handle_message-Handles :
        (system : System strategy) {q : Queues} {free : List ℕ} (msg : InternalMessage)
        → IsReady I system q free
        → 0 < room system.lob
        → msg.quantity < 2 ^ 64
        → Handles system msg (waiting system.queue) (handle_message strategy system msg)
    handle_message-Handles system msg ready more small =
        let book = update_book-Leaves ready.is_book msg more small in
        let (objects, engine, run, safe) =
          s.update system.strategies msg book.after system.strategy_engine ready.safe in
        record {
          after = record system {
            lob = book.after;
            strategies = objects;
            strategy_engine = engine;
          };
          returns = rw (book.returns, run) refl;
          levels = book.levels;
          free_orders = book.free_orders;
          ready = record { valid = ready.valid; is_book = book.is_book; safe = safe };
          rest = refl;
          updated = book.returns;
          space = book.space;
          pushing_kept = refl;
          incoming_kept = refl;
        }

    strategy_round-Handles :
        (system : System strategy) {q : Queues} {free : List ℕ} (msg : InternalMessage)
        (msgs : List InternalMessage)
        → IsReady I system q free
        → waiting system.queue ≡ msg ∷ msgs
        → 0 < room system.lob
        → msg.quantity < 2 ^ 64
        → Handles system msg msgs (strategy_round strategy system)
    unfolding strategy_round
    strategy_round-Handles system msg msgs ready e more small =
        let (popped, first, rest) =
          pop_first feed_capacity-IsCapacity system.queue ready.valid system.msg e in
        let reply = pop feed_capacity system.queue system.msg in
        let taken : System strategy = record system { queue = reply.2; msg = reply.1 } in
        let h =
          handle_message-Handles taken msg
            (record {
              valid = pop-IsValid feed_capacity-IsCapacity system.queue system.msg ready.valid;
              is_book = ready.is_book;
              safe = ready.safe;
            })
            more small in
        record {
          after = h.after;
          returns =
              if_true reply.0 _ _ popped ∙ ap (handle_message strategy taken) first ∙ h.returns;
          levels = h.levels;
          free_orders = h.free_orders;
          ready = h.ready;
          rest = h.rest ∙ rest;
          updated = h.updated;
          space = h.space;
          pushing_kept = h.pushing_kept;
          incoming_kept = h.incoming_kept;
        }

    idle_round :
        (system : System strategy)
        → IsValid feed_capacity system.queue
        → waiting system.queue ≡ []
        → strategy_round strategy system ≡ some system
    unfolding strategy_round
    idle_round system v e =
        if_false (pop feed_capacity system.queue system.msg).0 _ _
          (pop_empty feed_capacity-IsCapacity system.queue v system.msg e)

    -- A round returns, and handles a message unless the queue is empty.
    pub record Rounds (system : System strategy) : Type 0 where
      pub steps : Steps I system (strategy_round strategy system)
      pub takes : (waiting system.queue ≡ []) ⊎ (0 < length steps.handled)

    pub strategy_round-Rounds :
        (system : System strategy) {q : Queues} {free : List ℕ}
        → IsReady I system q free
        → AllFit (in_flight system)
        → length (in_flight system) ≤ room system.lob
        → Rounds system
    unfolding update_all
    strategy_round-Rounds system {q} {free} ready fit enough =
        let behind = pending system.pushing ++ arriving system.incoming in
        elim (messages-cases (waiting system.queue)) [
          | inl none_waits ↦ record {
            steps = record {
              after = system;
              returns = idle_round system ready.valid none_waits;
              levels = q;
              free_orders = free;
              ready = ready;
              handled = [];
              in_order = refl;
              updated = refl;
              space = omega arith;
              less_work = omega arith;
            };
            takes = inl none_waits;
          }
          | inr (msg, msgs, e) ↦
              let all : in_flight system ≡ msg ∷ msgs ++ behind =
                ap (λ queued. queued ++ behind) e in
              let (fits, _) = subst AllFit all fit in
              let h =
                strategy_round-Handles system msg msgs ready e
                  (omega (arith, enough, ap length all)) fits in
              let queued = ap length e in
              let left = ap length h.rest in
              let same_pushing = ap (λ p. length (pending p)) h.pushing_kept in
              let same_incoming = ap (λ (ds : List Datagram). length ds) h.incoming_kept in
              record {
                steps = record {
                  after = h.after;
                  returns = h.returns;
                  levels = h.levels;
                  free_orders = h.free_orders;
                  ready = h.ready;
                  handled = msg ∷ [];
                  in_order =
                      all
                      ∙ ap (λ queued. msg ∷ queued ++ behind) (sym h.rest)
                      ∙ ap
                          (λ p.
                            msg ∷ waiting h.after.queue ++ (pending p ++ arriving system.incoming))
                          (sym h.pushing_kept)
                      ∙ ap
                          (λ ds.
                            msg ∷ waiting h.after.queue ++ (pending h.after.pushing ++ arriving ds))
                          (sym h.incoming_kept);
                  updated = rw h.updated refl;
                  space = h.space;
                  less_work = omega (arith, queued, left, same_pushing, same_incoming);
                };
                takes = inr (omega arith);
              }
        ]
