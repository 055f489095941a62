-- ===== src/Logger/Delivered.antt =====
-- `shutdown` waits until everything that was logged is in the file.
use mathlib.Core.Path.{subst}
use mathlib.Core.List.{append-nil}
use hft_learning.Prelude.{
  AllDistinct, ℕ, zero, suc, ◌-◌, ◌^◌, ◌<◌, ◌≡◌, inl, inr, refl, sym, ap, ◌∙◌, true, false, Option,
  some, List, [], ◌∷◌, ◌++◌, map, arith, length, take, length-take, Bool-cases, ==-eq-true,
  ==-eq-false,
}
use native.Mathlib.Decide.{ℕ_discrete}
use hft_learning.Wire.{Buffer}
use hft_learning.Egress.Stream.{take_all}
use hft_learning.Logger.Types.{LogMessage, ThreadQueue, AsyncLogger, System}
use hft_learning.Logger.File.{close_file}
use hft_learning.Logger.Background.{
  Poll, is_empty, refresh, poll_queues, go_on, background_loop, shutdown,
}
use hft_learning.Logger.Mapped.{IsSystem, IsAmple}
use hft_learning.Logger.Drained.{lines, IsLog}
use hft_learning.Logger.Drained.Queues.{
  queued, AllQueues, AllEmpty, queued_none, Polled, poll_queues-Polled,
}

-- the addresses of the registered queues
abbrev pub addresses : {S : Type 0} → AsyncLogger S → List ℕ
addresses logger = map (λ (tq : ThreadQueue). tq.queue) logger.thread_queues

length-addresses :
    (tqs : List ThreadQueue) → length (map (λ (tq : ThreadQueue). tq.queue) tqs) ≡ length tqs
length-addresses [] = refl
length-addresses (tq ∷ tqs) = ap suc (length-addresses tqs)

-- The queues that the background thread has seen are the first ones that were registered.
take-prefix : (n : ℕ) (ps : List ℕ) → length (take n ps) ≡ length ps → take n ps ≡ ps
take-prefix n ps e = take_all n ps (omega (arith, e, length-take n ps))

refresh_prefix :
    {S : Type 0} (logger : AsyncLogger S) (n : ℕ)
    → refresh logger (take n (addresses logger)) ≡ addresses logger
refresh_prefix logger n =
    let seen = take n (addresses logger) in
    elim (ℕ_discrete (length seen) (length logger.thread_queues)) [
      | yes same ↦
          rw (==-eq-true _ _ same)
            (take-prefix n (addresses logger) (same ∙ sym (length-addresses logger.thread_queues)))
      | no other ↦ rw (==-eq-false _ _ other)
    ]

refresh_same :
    {S : Type 0} (logger : AsyncLogger S) (ps : List ℕ)
    → addresses logger ≡ ps
    → refresh logger ps ≡ ps
refresh_same logger ps e =
    rw (==-eq-true _ _ (ap length (sym e) ∙ length-addresses logger.thread_queues))

some_address : (n : ℕ) (ps : List ℕ) → is_empty (take n ps) ≡ false → is_empty ps ≡ false
some_address zero ps h = cc
some_address (suc n) [] h = cc
some_address (suc n) (p ∷ ps) h = refl

stop-IsLog :
    {S : Type 0} (logger : AsyncLogger S) (text : List ℕ)
    → IsLog logger text
    → IsLog (record logger { running = false }) text
stop-IsLog logger text l = record {
  holds = record {
    mapping = l.holds.mapping;
    mapped = l.holds.mapped;
    written = l.holds.written;
    within = l.holds.within;
    file_size = l.holds.file_size;
  };
  large = l.large;
}

-- The loop has ended, the log has `text` and every queue is empty.
pub record Stopped {S : Type 0} (run : Option (AsyncLogger S)) (ps : List ℕ) (text : List ℕ)
    : Type 0 where
  pub after : AsyncLogger S
  pub returns : run ≡ some after
  pub is_log : IsLog after text
  pub all_empty : AllEmpty after.heap ps

-- `shutdown` returns, and what it closed held the text.
pub record Delivers {S : Type 0} (os : System S) (logger : AsyncLogger S)
    (run : Option (AsyncLogger S)) (text : List ℕ) : Type 0 where
  pub stopped : AsyncLogger S
  pub returns : run ≡ some (close_file os stopped)
  pub is_log : IsLog stopped text
  pub all_empty : AllEmpty stopped.heap (addresses logger)

module _ {S : Type 0} {os : System S} (lawful : IsSystem os) (ample : IsAmple os)
    (scratch : Buffer) where
  -- A round after `running` was cleared.
  round_lem :
      (fuel : ℕ) (active ps : List ℕ) (msg : LogMessage) (logger : AsyncLogger S) (text : List ℕ)
      (p : Polled
        (poll_queues os scratch (record { idle = true; msg = msg; logger = logger }) ps)
        (record { idle = true; msg = msg; logger = logger })
        ps
        text)
      → logger.running ≡ false
      → is_empty active ≡ false
      → refresh logger active ≡ ps
      → background_loop os scratch (suc fuel) active msg logger
        ≡ go_on p.after (background_loop os scratch fuel ps)
  unfolding background_loop
  round_lem fuel active ps msg logger text p stopping some_queue fresh =
      simp (fresh, some_queue, p.returns, stopping)

  -- The last round finds nothing and breaks the loop.
  go_on_idle :
      (poll : Poll S) (next : LogMessage → AsyncLogger S → Option (AsyncLogger S))
      → poll.logger.running ≡ false
      → poll.idle ≡ true
      → go_on poll next ≡ some poll.logger
  go_on_idle poll next stopping idle = simp (stopping, idle)

  go_on_busy :
      (poll : Poll S) (next : LogMessage → AsyncLogger S → Option (AsyncLogger S))
      → poll.idle ≡ false
      → go_on poll next ≡ next poll.msg poll.logger
  go_on_busy poll next busy = ground arith

  -- A further round behind one that emptied the queues.
  second_round :
      (msg : LogMessage) (logger' : AsyncLogger S) (ps text' : List ℕ)
      → addresses logger' ≡ ps
      → AllDistinct ps
      → AllQueues logger'.heap ps
      → AllEmpty logger'.heap ps
      → IsLog logger' text'
      → length text' < 2 ^ 62 - 286
      → logger'.running ≡ false
      → is_empty ps ≡ false
      → Stopped (background_loop os scratch 1 ps msg logger') ps text'
  second_round msg logger' ps text' e d qs' empty l' fits still some_queue =
      let none_left : text' ++ lines (queued logger'.heap ps) ≡ text' =
        rw (queued_none logger'.heap ps empty, append-nil text') in
      let poll : Poll S = record { idle = true; msg = msg; logger = logger' } in
      let p = poll_queues-Polled lawful ample scratch ps poll text' d qs' l' (rw none_left fits) in
      let again = round_lem 0 ps ps msg logger' _ p still some_queue (refresh_same logger' ps e) in
      record {
        after = p.after.logger;
        returns =
            again
            ∙ go_on_idle p.after (background_loop os scratch 0 ps) (p.running_kept ∙ still)
                (p.idle_kept empty);
        is_log = subst (IsLog p.after.logger) none_left p.is_log;
        all_empty = p.all_empty;
      }

  -- Once `running` is cleared, the loop ends after two rounds at most.
  loop_stops :
      (logger : AsyncLogger S) (text : List ℕ) (msg : LogMessage) (seen : ℕ)
      → AllDistinct (addresses logger)
      → AllQueues logger.heap (addresses logger)
      → IsLog logger text
      → length (text ++ lines (queued logger.heap (addresses logger))) < 2 ^ 62 - 286
      → logger.running ≡ false
      → is_empty (take seen (addresses logger)) ≡ false
      → Stopped
          (background_loop os scratch 2 (take seen (addresses logger)) msg logger)
          (addresses logger)
          (text ++ lines (queued logger.heap (addresses logger)))
  loop_stops logger text msg seen distinct qs l small stopping some_queue =
      let ps = addresses logger in
      let poll : Poll S = record { idle = true; msg = msg; logger = logger } in
      let p = poll_queues-Polled lawful ample scratch ps poll text distinct qs l small in
      let still = p.running_kept ∙ stopping in
      let first =
        round_lem 1 (take seen ps) ps msg logger _ p stopping some_queue
          (refresh_prefix logger seen) in
      elim (Bool-cases p.after.idle) [
        | inl idle ↦ record {
          after = p.after.logger;
          returns = first ∙ go_on_idle p.after (background_loop os scratch 1 ps) still idle;
          is_log = p.is_log;
          all_empty = p.all_empty;
        }
        | inr busy ↦
            let last =
              second_round p.after.msg p.after.logger ps _
                (ap (map (λ (tq : ThreadQueue). tq.queue)) p.queues_kept) distinct p.all_queues
                p.all_empty p.is_log small still (some_address seen ps some_queue) in
            record {
              after = last.after;
              returns =
                  first ∙ go_on_busy p.after (background_loop os scratch 1 ps) busy ∙ last.returns;
              is_log = last.is_log;
              all_empty = last.all_empty;
            }
      ]

  -- On a running logger with an open log whose mapping has 286 bytes at least, and with valid, distinct
  -- queues of messages such as `log` makes, where the background thread has seen one queue at least,
  -- the system behaves as documented and refuses no growth of the file, and the text of the log with
  -- all lines that are to come is shorter than 2^62 - 286, `shutdown` returns, and the file that it
  -- closes has, behind the text that was there, a line for every message that was queued: queue by
  -- queue in the order of registration, and in each queue the oldest first. The queues are empty.
  pub shutdown-Delivers :
      (logger : AsyncLogger S) (text : List ℕ) (msg : LogMessage) (seen : ℕ)
      → logger.running ≡ true
      → AllDistinct (addresses logger)
      → AllQueues logger.heap (addresses logger)
      → IsLog logger text
      → is_empty (take seen (addresses logger)) ≡ false
      → length (text ++ lines (queued logger.heap (addresses logger))) < 2 ^ 62 - 286
      → Delivers os logger
          (shutdown os scratch logger (take seen (addresses logger)) msg)
          (text ++ lines (queued logger.heap (addresses logger)))
  unfolding shutdown
  shutdown-Delivers logger text msg seen running distinct qs l some_queue small =
      let stopping : AsyncLogger S = record logger { running = false } in
      let s =
        loop_stops stopping text msg seen distinct qs (stop-IsLog logger text l) small refl
          some_queue in
      record {
        stopped = s.after;
        returns = simp (running, s.returns);
        is_log = s.is_log;
        all_empty = s.all_empty;
      }
