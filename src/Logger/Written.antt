-- ===== src/Logger/Written.antt =====
-- What `writeToFile` makes of the file of the log.
use native.Mathlib.Decide.{dec_lt}
use hft_learning.Prelude.{
  ℕ, ◌+◌, ◌-◌, ◌%◌, ◌^◌, ◌≤◌, ◌<◌, ◌≡◌, ap, ◌⊎◌, inl, inr, List, [], ◌∷◌, ◌++◌, arith, leb-eq-true,
  leb-eq-false, length, take,
}
use hft_learning.Wire.{Buffer, read}
use hft_learning.Wire.Windows.{read-prefix, length-read}
use hft_learning.Egress.Stream.{take_all}
use hft_learning.Logger.Types.{LogMessage, AsyncLogger, System}
use hft_learning.Logger.Line.{line, length-line}
use hft_learning.Logger.File.{snprintf, append_bytes, resize_mmap, write_to_file}
use hft_learning.Logger.Mapped.{
  Holds, IsSystem, IsAmple, append_bytes-Holds, append_bytes-skips, resize_mmap-Resized,
  resize_mmap-doubles,
}

-- `snprintf` into 512 characters cuts no line short.
snprintf_lem :
    (scratch : Buffer) (text : List ℕ)
    → length text ≤ 286
    → read (snprintf scratch 512 text) 0 (length text) ≡ text
snprintf_lem scratch text h =
    let whole : take 511 text ≡ text = take_all 511 text (omega (arith, h)) in
    rw whole (read-prefix scratch 0 text (0 ∷ []))

append_bytes-grown :
    {S : Type 0} (logger : AsyncLogger S) (len : ℕ) (bytes : List ℕ)
    → logger.mmap_size ≤ (append_bytes logger len bytes).mmap_size
append_bytes-grown logger len bytes = ground arith

-- The parts of the logger that a write leaves alone.
pub record KeepsQueues {S : Type 0} (logger logger' : AsyncLogger S) : Type 0 where
  pub heap_kept : logger'.heap ≡ logger.heap
  pub queues_kept : logger'.thread_queues ≡ logger.thread_queues
  pub running_kept : logger'.running ≡ logger.running

module _ {S : Type 0} (os : System S) where
  -- A write leaves the queues alone.
  pub write_to_file-KeepsQueues :
      (scratch : Buffer) (logger : AsyncLogger S) (msg : LogMessage)
      → KeepsQueues logger (write_to_file os scratch logger msg)
  unfolding write_to_file resize_mmap
  write_to_file-KeepsQueues scratch logger msg = ground arith

module _ {S : Type 0} {os : System S} (lawful : IsSystem os) (scratch : Buffer)
    {logger : AsyncLogger S} {text : List ℕ} (h : Holds logger text) (msg : LogMessage)
    (short : length msg.payload < 240) where
  no_wrap :
      (logger.current_offset + length (line msg)) % 2 ^ 64
      ≡ logger.current_offset + length (line msg)
  no_wrap = omega (arith, h.within, h.file_size, length-line msg short)

  write_fits :
      logger.current_offset + length (line msg) ≤ logger.mmap_size
      → write_to_file os scratch logger msg ≡ append_bytes logger (length (line msg)) (line msg)
  unfolding write_to_file
  write_fits room =
      rw (no_wrap, leb-eq-true _ _ room, snprintf_lem scratch (line msg) (length-line msg short))

  write_full :
      logger.mmap_size < logger.current_offset + length (line msg)
      → write_to_file os scratch logger msg
        ≡ append_bytes (resize_mmap os logger) (length (line msg)) (line msg)
  unfolding write_to_file
  write_full full =
      rw (no_wrap, leb-eq-false _ _ full, snprintf_lem scratch (line msg) (length-line msg short))

  -- On an open log, whose file and mapping behave as documented, `writeToFile` either appends the
  -- whole line of the message or drops it, whatever the system answers: what was written before is
  -- kept, and the offset stays within the mapping.
  pub write_to_file-Holds :
      let logger' = write_to_file os scratch logger msg in
      Holds logger' text ⊎ Holds logger' (text ++ line msg)
  write_to_file-Holds =
      let len = length (line msg) in
      let r = resize_mmap-Resized lawful h in
      elim (dec_lt logger.mmap_size (logger.current_offset + len)) [
        | no fits ↦
            let room : logger.current_offset + length (line msg) ≤ logger.mmap_size =
              omega (arith, fits) in
            rw (write_fits room) (inr (append_bytes-Holds h (line msg) room))
        | yes full ↦
            rw (write_full full)
              (elim (dec_lt (resize_mmap os logger).mmap_size
                ((resize_mmap os logger).current_offset + len)) [
                  | no fits ↦ inr (append_bytes-Holds r.holds (line msg) (omega (arith, fits)))
                  | yes still ↦
                      let skips =
                        append_bytes-skips r.holds (line msg) still (length-line msg short) in
                      rw skips (inl r.holds)
                ])
      ]

  -- On an open log of a reasonable size, where the system refuses no growth, `writeToFile` appends the
  -- line of the message.
  pub write_to_file-appends :
      IsAmple os
      → 286 ≤ logger.mmap_size
      → logger.current_offset < 2 ^ 62 - 286
      → Holds (write_to_file os scratch logger msg) (text ++ line msg)
  write_to_file-appends ample large small =
      let bound = length-line msg short in
      let r = resize_mmap-Resized lawful h in
      elim (dec_lt logger.mmap_size (logger.current_offset + length (line msg))) [
        | no fits ↦
            let room : logger.current_offset + length (line msg) ≤ logger.mmap_size =
              omega (arith, fits) in
            rw (write_fits room) (append_bytes-Holds h (line msg) room)
        | yes full ↦
            let doubled = resize_mmap-doubles lawful h ample (omega (arith, full, bound, small)) in
            rw (write_full full) (
              append_bytes-Holds r.holds (line msg)
                (omega (arith, doubled, r.offset_kept, h.within, large, bound)))
      ]

  pub write_to_file-grown : logger.mmap_size ≤ (write_to_file os scratch logger msg).mmap_size
  write_to_file-grown =
      let len = length (line msg) in
      let r = resize_mmap-Resized lawful h in
      elim (dec_lt logger.mmap_size (logger.current_offset + len)) [
        | no fits ↦
            let room : logger.current_offset + length (line msg) ≤ logger.mmap_size =
              omega (arith, fits) in
            rw (write_fits room) (append_bytes-grown logger len (line msg))
        | yes full ↦
            rw (write_full full)
              (omega (arith, r.grown, append_bytes-grown (resize_mmap os logger) len (line msg)))
      ]

-- What was written says where the next line goes.
pub Holds-current_offset :
    {S : Type 0} {logger : AsyncLogger S} {text : List ℕ}
    → Holds logger text
    → logger.current_offset ≡ length text
Holds-current_offset h = omega (arith, ap length h.written, length-read h.mapping 0 _)
