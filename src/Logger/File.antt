-- ===== src/Logger/File.antt =====
-- src/AsyncLogger.cpp: the file of the log, from `init` to the last write. `scratch` is what
-- `buffer` holds before `snprintf`.
use hft_learning.Prelude.{
  ℕ, zero, ◌+◌, ◌-◌, ◌*◌, ◌%◌, ◌^◌, Bool, true, false, Option, none, some, List, [], ◌∷◌, ◌++◌, leb,
  if◌then◌else◌, length, take,
}
use hft_learning.Prelude.Int.{ℤ, negsuc}
use hft_learning.Wire.{Buffer, read, write}
use hft_learning.Spsc.{SpscQueue}
use hft_learning.Logger.Types.{LogMessage, AsyncLogger, System}
use hft_learning.Logger.Line.{line}

-- `snprintf` into `size` characters: what fits, and a zero.
abbrev pub snprintf : Buffer → ℕ → List ℕ → Buffer
snprintf buffer size text = write buffer 0 (take (size - 1) text ++ 0 ∷ [])

abbrev pub is_invalid : ℤ → Bool
is_invalid (negsuc zero) = true
is_invalid _ = false

-- `AsyncLogger::AsyncLogger`
abbrev pub async_logger : {S : Type 0} → (ℕ → SpscQueue LogMessage) → S → AsyncLogger S
async_logger heap system = record {
  filepath = [];
  fd = negsuc 0;
  mmap_size = 0;
  current_offset = 0;
  mmap_ptr = none;
  running = false;
  thread_queues = [];
  heap = heap;
  allocated = 0;
  system = system;
}

-- `memcpy` to the end of the log, where there is room.
abbrev pub append_bytes : {S : Type 0} → AsyncLogger S → ℕ → List ℕ → AsyncLogger S
append_bytes logger len bytes = elim logger.mmap_ptr [
  | none ↦ logger
  | some p ↦
      if leb ((logger.current_offset + len) % 2 ^ 64) logger.mmap_size
      then record logger {
        mmap_ptr = some (write p logger.current_offset bytes);
        current_offset = (logger.current_offset + len) % 2 ^ 64;
      }
      else logger
]

module _ {S : Type 0} (os : System S) where
  -- A failure of `init` behind `open`: the file is closed again.
  abbrev pub give_up : AsyncLogger S → S → AsyncLogger S
  give_up logger system = record logger { fd = negsuc 0; system = os.close system logger.fd }

  abbrev pub map_file : AsyncLogger S → Option Buffer × S → AsyncLogger S
  map_file logger (none, system) = give_up (record logger { mmap_ptr = none }) system
  map_file logger (some p, system) = record logger {
    mmap_ptr = some p;
    running = true;
    system = system;
  }

  abbrev pub size_file : AsyncLogger S → Bool × S → AsyncLogger S
  size_file logger (false, system) = give_up logger system
  size_file logger (true, system) = map_file logger (os.mmap system logger.fd logger.mmap_size)

  -- `AsyncLogger::init`; the background thread starts where `running` is set.
  unfoldable pub init : AsyncLogger S → List ℕ → ℕ → AsyncLogger S
  init logger filepath mmap_size =
      let (fd, system) = os.open_file logger.system filepath in
      let logger' = record logger {
        filepath = filepath;
        mmap_size = mmap_size;
        fd = fd;
        system = system;
      } in
      if logger.running
      then logger
      else if is_invalid fd
      then logger'
      else size_file logger' (os.ftruncate system fd mmap_size)

  -- The end of `shutdown`, behind `join`.
  unfoldable pub close_file : AsyncLogger S → AsyncLogger S
  close_file logger = elim logger.mmap_ptr [
    | none ↦ logger
    | some p ↦
        let system = os.munmap logger.system p logger.mmap_size in
        let (_, system') = os.ftruncate system logger.fd logger.current_offset in
        record logger { mmap_ptr = none; fd = negsuc 0; system = os.close system' logger.fd }
  ]

  abbrev pub remapped : AsyncLogger S → ℕ → Option Buffer × S → AsyncLogger S
  remapped logger new_size (none, system) = record logger { system = system }
  remapped logger new_size (some p, system) = record logger {
    mmap_ptr = some p;
    mmap_size = new_size;
    system = system;
  }

  abbrev pub extended : AsyncLogger S → ℕ → Option Buffer → Bool × S → AsyncLogger S
  extended logger new_size p (false, system) = record logger { system = system }
  extended logger new_size p (true, system) =
      remapped logger new_size
        (elim p [ none ↦ (none, system) | some q ↦ os.mremap system q logger.mmap_size new_size ])

  -- `resizeMmap`; `mremap` of `MAP_FAILED` fails.
  unfoldable pub resize_mmap : AsyncLogger S → AsyncLogger S
  resize_mmap logger =
      let new_size = logger.mmap_size * 2 % 2 ^ 64 in
      extended logger new_size logger.mmap_ptr (os.ftruncate logger.system logger.fd new_size)

  -- `writeToFile`; no conversion of its format can fail, so `len` is not negative.
  unfoldable pub write_to_file : Buffer → AsyncLogger S → LogMessage → AsyncLogger S
  write_to_file scratch logger msg =
      let len = length (line msg) in
      let bytes = read (snprintf scratch 512 (line msg)) 0 len in
      if leb ((logger.current_offset + len) % 2 ^ 64) logger.mmap_size
      then append_bytes logger len bytes
      else append_bytes (resize_mmap logger) len bytes
