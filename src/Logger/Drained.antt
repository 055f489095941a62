-- ===== src/Logger/Drained.antt =====
-- What a poll of the queues writes to the file, and that it ends.
pub mod Queues
use mathlib.Core.Path.{subst}
use mathlib.Core.List.{append-nil, append_assoc}
use hft_learning.Prelude.{
  ℕ, zero, suc, ◌+◌, ◌-◌, ◌^◌, ◌≤◌, ◌<◌, ◌≡◌, ◌≢◌, refl, sym, ap, ◌∙◌, Bool, true, false, Option,
  none, some, List, [], ◌∷◌, ◌++◌, arith, length, length-append,
}
use hft_learning.Prelude.Arrays.{update, update_self, update_ne}
use hft_learning.Prelude.Cycle.{IsCapacity}
use hft_learning.Prelude.Loops.{◌>>=◌}
use hft_learning.Wire.{Buffer}
use hft_learning.Spsc.{SpscQueue, pop}
use hft_learning.Spsc.Fifo
use hft_learning.Spsc.Ring.{length-window}
use hft_learning.Spsc.Calls.{pop_empty, pop_first}
use hft_learning.Spsc.Refine.{IsValid, contents, pop_refines, pop-IsValid}
use hft_learning.Logger.Types.{LogMessage, AsyncLogger, System, queue_capacity}
use hft_learning.Logger.Line.{line}
use hft_learning.Logger.File.{write_to_file}
use hft_learning.Logger.Background.{Poll, drain, poll_queues}
use hft_learning.Logger.Mapped.{Holds, IsSystem, IsAmple, with_heap}
use hft_learning.Logger.Written.{
  write_to_file-appends, write_to_file-grown, write_to_file-KeepsQueues, Holds-current_offset,
}

-- the messages of a queue, oldest first
abbrev pub messages : SpscQueue LogMessage → List LogMessage
messages = contents queue_capacity

abbrev pub lines : List LogMessage → List ℕ
lines [] = []
lines (msg ∷ msgs) = line msg ++ lines msgs

pub lines-append : (ms ns : List LogMessage) → lines (ms ++ ns) ≡ lines ms ++ lines ns
lines-append [] ns = refl
lines-append (m ∷ ms) ns =
    ap (λ r. line m ++ r) (lines-append ms ns) ∙ sym (append_assoc (line m) (lines ms) (lines ns))

abbrev pub AllShort : List LogMessage → Type 0
AllShort [] = Unit
AllShort (msg ∷ msgs) = (length msg.payload < 240) × AllShort msgs

-- The log is open with this text, and its mapping has room for a line.
pub record IsLog {S : Type 0} (logger : AsyncLogger S) (text : List ℕ) : Type 0 where
  pub holds : Holds logger text
  pub large : 286 ≤ logger.mmap_size

pub queue_capacity-IsCapacity : IsCapacity queue_capacity
queue_capacity-IsCapacity = record { some_slot = omega arith; is_size = omega arith }

-- The poll of a queue ends; the log has `text`, and of the queues only this one has changed, which
-- is empty.
pub record Drained {S : Type 0} (run : Option (Poll S)) (poll : Poll S) (p : ℕ)
    (msgs : List LogMessage) (text : List ℕ) : Type 0 where
  pub after : Poll S
  pub returns : run ≡ some after
  pub is_log : IsLog after.logger text
  pub valid : IsValid queue_capacity (after.logger.heap p)
  pub emptied : messages (after.logger.heap p) ≡ []
  pub others : (q : ℕ) → q ≢ p → after.logger.heap q ≡ poll.logger.heap q
  pub queues_kept : after.logger.thread_queues ≡ poll.logger.thread_queues
  pub running_kept : after.logger.running ≡ poll.logger.running
  pub idle_kept : msgs ≡ [] → after.idle ≡ poll.idle

module _ {S : Type 0} {os : System S} (lawful : IsSystem os) (ample : IsAmple os)
    (scratch : Buffer) where
  write_to_file-IsLog :
      {logger : AsyncLogger S} {text : List ℕ} (msg : LogMessage)
      → IsLog logger text
      → length msg.payload < 240
      → length text < 2 ^ 62 - 286
      → IsLog (write_to_file os scratch logger msg) (text ++ line msg)
  write_to_file-IsLog msg l short small = record {
    holds =
        write_to_file-appends lawful scratch l.holds msg short ample l.large
          (omega (arith, small, Holds-current_offset l.holds));
    large = omega (arith, l.large, write_to_file-grown lawful scratch l.holds msg short);
  }

  pub drain-Drained :
      (fuel : ℕ) (msgs : List LogMessage) (poll : Poll S) (p : ℕ) (text : List ℕ)
      → messages (poll.logger.heap p) ≡ msgs
      → length msgs < fuel
      → IsValid queue_capacity (poll.logger.heap p)
      → AllShort msgs
      → IsLog poll.logger text
      → length (text ++ lines msgs) < 2 ^ 62 - 286
      → Drained (drain os scratch fuel poll p) poll p msgs (text ++ lines msgs)
  unfolding drain
  drain-Drained zero msgs poll p text e enough v short l small = absurd (omega arith)
  drain-Drained (suc fuel) [] poll p text e enough v short l small =
      let none_left = pop_empty queue_capacity-IsCapacity (poll.logger.heap p) v poll.msg e in
      rw (none_left, append-nil text)
        (record {
          after = poll;
          returns = refl;
          is_log = l;
          valid = v;
          emptied = e;
          others = λ q ne. refl;
          queues_kept = refl;
          running_kept = refl;
          idle_kept = λ _. refl;
        })
  drain-Drained (suc fuel) (m ∷ ms) poll p text e enough v (short, shorts) l small =
      let q = poll.logger.heap p in
      let (popped, first, rest) = pop_first queue_capacity-IsCapacity q v poll.msg e in
      let heap = update poll.logger.heap p (pop queue_capacity q poll.msg).2 in
      let taken = record poll.logger { heap = heap } in
      let opened : IsLog taken text = record { holds = with_heap l.holds heap; large = l.large } in
      let kept = write_to_file-KeepsQueues os scratch taken m in
      let here : (write_to_file os scratch taken m).heap p ≡ (pop queue_capacity q poll.msg).2 =
        ap (λ h. h p) kept.heap_kept ∙ update_self poll.logger.heap p _ in
      let start_fits : length text < 2 ^ 62 - 286 =
        omega (arith, small, length-append text (line m ++ lines ms)) in
      let same_text : text ++ line m ++ lines ms ≡ text ++ (line m ++ lines ms) =
        append_assoc text (line m) (lines ms) in
      let written = write_to_file-IsLog m opened short start_fits in
      let r =
        drain-Drained fuel ms
          (record { idle = false; msg = m; logger = write_to_file os scratch taken m }) p
          (text ++ line m) (ap messages here ∙ rest) (omega (arith, enough))
          (subst (IsValid queue_capacity) (sym here)
            (pop-IsValid queue_capacity-IsCapacity q poll.msg v))
          shorts written (rw same_text small) in
      rw (popped, first)
        (record {
          after = r.after;
          returns = r.returns;
          is_log = subst (IsLog r.after.logger) same_text r.is_log;
          valid = r.valid;
          emptied = r.emptied;
          others = λ q' ne.
              r.others q' ne ∙ ap (λ h. h q') kept.heap_kept ∙ update_ne poll.logger.heap p _ q' ne;
          queues_kept = r.queues_kept ∙ kept.queues_kept;
          running_kept = r.running_kept ∙ kept.running_kept;
          idle_kept = λ none_left. cc;
        })
