-- ===== src/Logger/Tests.antt =====
-- A run of the logger from `init` to `shutdown`, and its theorems at concrete loggers.
use hft_learning.Prelude.{
  ℕ, ◌^◌, ◌≡◌, ◌⊎◌, refl, ap, true, none, some, List, [], ◌∷◌, ◌++◌, arith, ltb, ltb-eq-true, take,
}
use hft_learning.Prelude.Int.{pos}
use hft_learning.Prelude.Loops.{◌>>=◌}
use hft_learning.Prelude.Cycle.{next_index}
use hft_learning.Wire.{Buffer, read}
use hft_learning.Spsc.{push, pop}
use hft_learning.Spsc.Ring.{window}
use hft_learning.Spsc.{spsc_queue}
use hft_learning.Logger.Types.{info, warn, error, LogMessage, AsyncLogger, System}
use hft_learning.Logger.Line.{line, level_to_string}
use hft_learning.Logger.File.{async_logger, init, close_file, write_to_file}
use hft_learning.Logger.Threads.{LocalThread, find_queue, register_thread, log}
use hft_learning.Logger.Background.{drain, poll_queues, background_loop, shutdown}
use hft_learning.Logger.Mapped.{Holds, IsSystem, IsAmple}
use hft_learning.Logger.Written.{write_to_file-Holds}
use hft_learning.Logger.Drained.{lines}
use hft_learning.Logger.Drained.Queues.{queued}
use hft_learning.Logger.Delivered.{Delivers, shutdown-Delivers}
use hft_learning.Logger.Registered.{IsRegistry, Registers, register_thread-Registers}
use hft_learning.Logger.Logged.{logged, Logs, log-Logs}

-- A system with one file, whose bytes are its state: they are what was mapped, from `munmap` on.
abbrev one_file : System (List ℕ)
one_file = record {
  open_file = λ s path. (pos 3, []);
  ftruncate = λ s fd size. (ltb size (2 ^ 63), take size s);
  mmap = λ s fd size. (some (λ i. 0), s);
  mremap = λ s p old new. (some p, s);
  munmap = λ s p size. read p 0 size;
  close = λ s fd. s;
}

one_file-IsSystem : IsSystem one_file
one_file-IsSystem = record {
  truncated = λ s s' fd size e. ground arith;
  moved = λ s s' p q old new e i lt. let same : q ≡ p = cc in ap (λ f. f i) same;
}

one_file-IsAmple : IsAmple one_file
one_file-IsAmple = record {
  extends = λ s fd size small. (take size s, ap (λ b. (b, take size s)) (ltb-eq-true _ _ small));
  moves = λ s p old new small. (p, s, refl);
}

abbrev blank : LogMessage
blank = record { timestamp = 0; level = info; thread_id = 0; length = 0; payload = [] }

abbrev hello : LogMessage
hello = record { timestamp = 12; level = warn; thread_id = 7; length = 2; payload = 72 ∷ 105 ∷ [] }

abbrev blanks : ℕ → LogMessage
blanks i = blank

-- "[12] [T:7] [WARN] Hi\n"
abbrev hello_line : List ℕ
hello_line =
    91 ∷ 49 ∷ 50 ∷ 93 ∷ 32 ∷ 91 ∷ 84 ∷ 58 ∷ 55 ∷ 93 ∷ 32 ∷ 91 ∷ 87 ∷ 65 ∷ 82 ∷ 78 ∷ 93 ∷ 32 ∷ 72
    ∷ 105 ∷ 10 ∷ []

line-hello : line hello ≡ hello_line
unfolding line level_to_string
line-hello = refl

abbrev zeros : Buffer
zeros i = 0

-- a logger that has started
abbrev started : AsyncLogger (List ℕ)
started = init one_file (async_logger (λ p. spsc_queue blanks) []) (108 ∷ []) 300

whole_run :
    (do
      let (logger, thread) = register_thread started blanks 7
      logger' ← log logger thread blank warn 12 (some (72 ∷ 105 ∷ []))
      stopped ← shutdown one_file zeros logger' (0 ∷ []) blank
      some stopped.system)
    ≡ some hello_line
unfolding init register_thread find_queue log push pop next_index shutdown background_loop
    poll_queues drain write_to_file line level_to_string close_file
whole_run = refl

-- A started logger with room for a line, on which thread 7 has logged.
abbrev busy : AsyncLogger (List ℕ)
busy = record {
  filepath = 108 ∷ [];
  fd = pos 3;
  mmap_size = 300;
  current_offset = 0;
  mmap_ptr = some zeros;
  running = true;
  thread_queues = record { thread_id = 7; queue = 0 } ∷ [];
  heap = λ p. record { write_index = 1; read_index = 0; items = λ i. hello };
  allocated = 1;
  system = [];
}

busy-Holds : Holds busy []
busy-Holds = record {
  mapping = zeros;
  mapped = refl;
  written = refl;
  within = omega arith;
  file_size = omega arith;
}

busy-IsRegistry : IsRegistry busy
unfolding window next_index
busy-IsRegistry = record {
  distinct = (tt, tt);
  known = (omega arith, tt);
  distinct_ids = (tt, tt);
  queues = (record { valid = omega arith; short = (omega arith, tt) }, tt);
}

write_to_file-Holds_example :
    let logger' = write_to_file one_file zeros busy hello in
    Holds logger' [] ⊎ Holds logger' ([] ++ line hello)
write_to_file-Holds_example =
    write_to_file-Holds one_file-IsSystem zeros busy-Holds hello (omega arith)

register_thread-Registers_example : Registers busy 8 (register_thread busy blanks 8)
register_thread-Registers_example = register_thread-Registers busy blanks 8 busy-IsRegistry

abbrev thread_7 : LocalThread
thread_7 = record { local_queue = some 0; local_thread_id = 7 }

log-Logs_example :
    Logs busy 0 (logged thread_7 blank error 13 none) (log busy thread_7 blank error 13 none)
unfolding window next_index
log-Logs_example = log-Logs busy thread_7 0 blank error 13 none refl (omega arith) (omega arith)

shutdown-Delivers_example :
    Delivers one_file busy
      (shutdown one_file zeros busy (0 ∷ []) blank)
      (lines (queued busy.heap (0 ∷ [])))
unfolding window next_index line level_to_string
shutdown-Delivers_example =
    shutdown-Delivers one_file-IsSystem one_file-IsAmple zeros busy [] blank 1 refl
      busy-IsRegistry.distinct busy-IsRegistry.queues
      (record { holds = busy-Holds; large = omega arith }) refl (omega arith)
