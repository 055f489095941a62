-- ===== src/Logger/Drained/Queues.antt =====
-- What a poll of all queues writes to the file, in which order, and that it ends.
use mathlib.Core.Path.{subst}
use mathlib.Core.List.{append-nil, append_assoc}
use hft_learning.Prelude.{
  IsFresh, AllDistinct, ℕ, ◌-◌, ◌^◌, ◌<◌, ◌≡◌, ◌≢◌, refl, sym, ap, ◌∙◌, Option, some, List, [], ◌∷◌,
  ◌++◌, arith, length, length-append,
}
use hft_learning.Wire.{Buffer}
use hft_learning.Spsc.{SpscQueue}
use hft_learning.Spsc.Refine.{IsValid}
use hft_learning.Logger.Types.{LogMessage, System, queue_capacity}
use hft_learning.Logger.Background.{Poll, poll_queues}
use hft_learning.Logger.Mapped.{IsSystem, IsAmple}
use hft_learning.Spsc.Calls.{length-contents}
use hft_learning.Logger.Drained.{
  queue_capacity-IsCapacity, messages, lines, lines-append, AllShort, IsLog, drain-Drained,
}

-- the messages of the queues, the first queue first
abbrev pub queued : (ℕ → SpscQueue LogMessage) → List ℕ → List LogMessage
queued heap [] = []
queued heap (p ∷ ps) = messages (heap p) ++ queued heap ps

-- A valid queue of messages that `log` can have made.
pub record IsQueue (q : SpscQueue LogMessage) : Type 0 where
  pub valid : IsValid queue_capacity q
  pub short : AllShort (messages q)

abbrev pub AllQueues : (ℕ → SpscQueue LogMessage) → List ℕ → Type 0
AllQueues heap [] = Unit
AllQueues heap (p ∷ ps) = IsQueue (heap p) × AllQueues heap ps

abbrev pub AllEmpty : (ℕ → SpscQueue LogMessage) → List ℕ → Type 0
AllEmpty heap [] = Unit
AllEmpty heap (p ∷ ps) = (messages (heap p) ≡ []) × AllEmpty heap ps

pub queued_none :
    (heap : ℕ → SpscQueue LogMessage) (ps : List ℕ) → AllEmpty heap ps → queued heap ps ≡ []
queued_none heap [] e = refl
queued_none heap (p ∷ ps) (none_left, e) = rw (none_left, queued_none heap ps e)

module _ {heap heap' : ℕ → SpscQueue LogMessage} {p : ℕ}
    (others : (q : ℕ) → q ≢ p → heap' q ≡ heap q) where
  pub queued_others : (ps : List ℕ) → IsFresh p ps → queued heap' ps ≡ queued heap ps
  queued_others [] fresh = refl
  queued_others (q ∷ qs) (ne, fresh) = rw (others q (λ e. ne (sym e)), queued_others qs fresh)

  pub AllQueues-others : (ps : List ℕ) → IsFresh p ps → AllQueues heap ps → AllQueues heap' ps
  AllQueues-others [] fresh v = tt
  AllQueues-others (q ∷ qs) (ne, fresh) (v, vs) =
      (rw (others q (λ e. ne (sym e))) v, AllQueues-others qs fresh vs)

  pub AllEmpty-others : (ps : List ℕ) → IsFresh p ps → AllEmpty heap ps → AllEmpty heap' ps
  AllEmpty-others [] fresh v = tt
  AllEmpty-others (q ∷ qs) (ne, fresh) (v, vs) =
      (rw (others q (λ e. ne (sym e))) v, AllEmpty-others qs fresh vs)

-- The poll ends; the log has `text`, and the queues are empty.
pub record Polled {S : Type 0} (run : Option (Poll S)) (poll : Poll S) (ps : List ℕ) (text : List ℕ)
    : Type 0 where
  pub after : Poll S
  pub returns : run ≡ some after
  pub is_log : IsLog after.logger text
  pub all_queues : AllQueues after.logger.heap ps
  pub all_empty : AllEmpty after.logger.heap ps
  pub others : (q : ℕ) → IsFresh q ps → after.logger.heap q ≡ poll.logger.heap q
  pub queues_kept : after.logger.thread_queues ≡ poll.logger.thread_queues
  pub running_kept : after.logger.running ≡ poll.logger.running
  pub idle_kept : AllEmpty poll.logger.heap ps → after.idle ≡ poll.idle

module _ {S : Type 0} {os : System S} (lawful : IsSystem os) (ample : IsAmple os)
    (scratch : Buffer) where
  pub poll_queues-Polled :
      (ps : List ℕ) (poll : Poll S) (text : List ℕ)
      → AllDistinct ps
      → AllQueues poll.logger.heap ps
      → IsLog poll.logger text
      → length (text ++ lines (queued poll.logger.heap ps)) < 2 ^ 62 - 286
      → Polled (poll_queues os scratch poll ps) poll ps (text ++ lines (queued poll.logger.heap ps))
  unfolding poll_queues
  poll_queues-Polled [] poll text distinct v l small = rw (append-nil text) (record {
    after = poll;
    returns = refl;
    is_log = l;
    all_queues = tt;
    all_empty = tt;
    others = λ q fresh. refl;
    queues_kept = refl;
    running_kept = refl;
    idle_kept = λ _. refl;
  })
  poll_queues-Polled (p ∷ ps) poll text (fresh, distinct) (v, vs) l small =
      let ms = messages (poll.logger.heap p) in
      let same_text : text ++ lines ms ++ lines (queued poll.logger.heap ps)
          ≡ text ++ lines (ms ++ queued poll.logger.heap ps) =
        append_assoc text (lines ms) (lines (queued poll.logger.heap ps))
        ∙ ap (λ r. text ++ r) (sym (lines-append ms (queued poll.logger.heap ps))) in
      let fits : length (text ++ lines ms ++ lines (queued poll.logger.heap ps)) < 2 ^ 62 - 286 =
        rw same_text small in
      let first =
        drain-Drained lawful ample scratch queue_capacity ms poll p text refl
          (length-contents queue_capacity-IsCapacity (poll.logger.heap p) v.valid) v.valid v.short l
          (omega
            (arith, fits, length-append (text ++ lines ms) (lines (queued poll.logger.heap ps)))) in
      let same_rest = queued_others first.others ps fresh in
      let r =
        poll_queues-Polled ps first.after (text ++ lines ms) distinct
          (AllQueues-others first.others ps fresh vs) first.is_log (rw same_rest fits) in
      let left_alone = r.others p fresh in
      record {
        after = r.after;
        returns = rw first.returns r.returns;
        is_log =
            subst (IsLog r.after.logger)
              (ap (λ qs. text ++ lines ms ++ lines qs) same_rest ∙ same_text) r.is_log;
        all_queues = (
          record { valid = rw left_alone first.valid; short = rw (left_alone, first.emptied) tt },
          r.all_queues,
        );
        all_empty = (rw left_alone first.emptied, r.all_empty);
        others = λ q (ne, fresh_q). r.others q fresh_q ∙ first.others q ne;
        queues_kept = r.queues_kept ∙ first.queues_kept;
        running_kept = r.running_kept ∙ first.running_kept;
        idle_kept = λ (none_left, empty).
            r.idle_kept (AllEmpty-others first.others ps fresh empty) ∙ first.idle_kept none_left;
      }
