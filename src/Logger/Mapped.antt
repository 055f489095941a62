-- ===== src/Logger/Mapped.antt =====
-- The mapped file of the log: what is documented of the system calls, and how the mapping grows.
use mathlib.Core.Path.{subst}
use hft_learning.Prelude.{
  ℕ, ◌+◌, ◌*◌, ◌%◌, ◌^◌, ◌≤◌, ◌<◌, ◌≡◌, refl, sym, ap, ◌∙◌, Bool, true, false, Option, none, some,
  List, ◌++◌, arith, leb-eq-true, leb-eq-false, length,
}
use hft_learning.Prelude.Int.{ℤ}
use hft_learning.Wire.{Buffer, read, write}
use hft_learning.Wire.Windows.{read-agree, read-extended}
use hft_learning.Spsc.{SpscQueue}
use hft_learning.Logger.Types.{LogMessage, AsyncLogger, System}
use hft_learning.Logger.File.{append_bytes, remapped, extended, resize_mmap}

-- The file of the log while it is open: `text` is what was written so far, it fits the mapping, and
-- the size of the mapping is one that a file can have.
pub record Holds {S : Type 0} (logger : AsyncLogger S) (text : List ℕ) : Type 0 where
  pub mapping : Buffer
  pub mapped : logger.mmap_ptr ≡ some mapping
  pub written : read mapping 0 logger.current_offset ≡ text
  pub within : logger.current_offset ≤ logger.mmap_size
  pub file_size : logger.mmap_size < 2 ^ 63

-- What is documented of the system calls: a file has no size that `off_t` does not hold, and
-- `mremap` keeps the bytes of the old mapping.
pub record IsSystem {S : Type 0} (os : System S) : Type 0 where
  pub truncated :
      (s s' : S) (fd : ℤ) (size : ℕ) → os.ftruncate s fd size ≡ (true, s') → size < 2 ^ 63
  pub moved :
      (s s' : S) (p q : Buffer) (old new : ℕ)
      → os.mremap s p old new ≡ (some q, s')
      → (i : ℕ) → i < old
      → q i ≡ p i

-- The disk and the memory are large enough: no file that `off_t` can hold is refused.
pub record IsAmple {S : Type 0} (os : System S) : Type 0 where
  pub extends :
      (s : S) (fd : ℤ) (size : ℕ) → size < 2 ^ 63 → (s' : S) × (os.ftruncate s fd size ≡ (true, s'))
  pub moves :
      (s : S) (p : Buffer) (old new : ℕ)
      → new < 2 ^ 63
      → (q : Buffer) × (s' : S) × (os.mremap s p old new ≡ (some q, s'))

module _ {S : Type 0} {logger : AsyncLogger S} {text : List ℕ} (h : Holds logger text) where
  pub append_bytes-Holds :
      (bytes : List ℕ)
      → logger.current_offset + length bytes ≤ logger.mmap_size
      → Holds (append_bytes logger (length bytes) bytes) (text ++ bytes)
  append_bytes-Holds bytes room =
      let wrap : (logger.current_offset + length bytes) % 2 ^ 64
          ≡ logger.current_offset + length bytes =
        omega (arith, room, h.file_size) in
      let offset = logger.current_offset in
      rw (h.mapped, wrap, leb-eq-true _ _ room)
        (record {
          mapping = write h.mapping offset bytes;
          mapped = refl;
          written = read-extended h.mapping offset bytes ∙ ap (λ before. before ++ bytes) h.written;
          within = room;
          file_size = h.file_size;
        })

  -- A write that does not fit is left out.
  pub append_bytes-skips :
      (bytes : List ℕ)
      → logger.mmap_size < logger.current_offset + length bytes
      → length bytes ≤ 286
      → append_bytes logger (length bytes) bytes ≡ logger
  append_bytes-skips bytes full short =
      let wrap : (logger.current_offset + length bytes) % 2 ^ 64
          ≡ logger.current_offset + length bytes =
        omega (arith, short, h.within, h.file_size) in
      rw (h.mapped, wrap, leb-eq-false _ _ full)

  with_system : (s : S) → Holds (record logger { system = s }) text
  with_system s = record {
    mapping = h.mapping;
    mapped = h.mapped;
    written = h.written;
    within = h.within;
    file_size = h.file_size;
  }

  pub with_heap : (heap : ℕ → SpscQueue LogMessage) → Holds (record logger { heap = heap }) text
  with_heap heap = record {
    mapping = h.mapping;
    mapped = h.mapped;
    written = h.written;
    within = h.within;
    file_size = h.file_size;
  }

  -- A larger mapping with the same bytes.
  moved-Holds :
      (s : S) (q : Buffer) (new : ℕ)
      → ((i : ℕ) → i < logger.mmap_size → q i ≡ h.mapping i)
      → logger.mmap_size ≤ new
      → new < 2 ^ 63
      → Holds (record logger { mmap_ptr = some q; mmap_size = new; system = s }) text
  moved-Holds s q new same larger small = record {
    mapping = q;
    mapped = refl;
    written =
        read-agree h.mapping q 0 logger.current_offset logger.mmap_size (omega (arith, h.within))
          same
        ∙ h.written;
    within = omega (arith, h.within, larger);
    file_size = small;
  }

-- What a `resizeMmap` leaves: the text, the offset, and a mapping that has not shrunk.
pub record Resized {S : Type 0} (logger logger' : AsyncLogger S) (text : List ℕ) : Type 0 where
  pub holds : Holds logger' text
  pub offset_kept : logger'.current_offset ≡ logger.current_offset
  pub grown : logger.mmap_size ≤ logger'.mmap_size

module _ {S : Type 0} {os : System S} (lawful : IsSystem os) {logger : AsyncLogger S}
    {text : List ℕ} (h : Holds logger text) where
  remapped-Resized :
      (s : S) (new : ℕ) (reply : Option Buffer × S)
      → os.mremap s h.mapping logger.mmap_size new ≡ reply
      → logger.mmap_size ≤ new
      → new < 2 ^ 63
      → Resized logger (remapped os logger new reply) text
  remapped-Resized s new (none, s') e larger small = record {
    holds = with_system h s';
    offset_kept = refl;
    grown = omega arith;
  }
  remapped-Resized s new (some q, s') e larger small = record {
    holds = moved-Holds h s' q new (lawful.moved s s' h.mapping q _ new e) larger small;
    offset_kept = refl;
    grown = larger;
  }

  extended-Resized :
      (new : ℕ) (reply : Bool × S)
      → os.ftruncate logger.system logger.fd new ≡ reply
      → logger.mmap_size ≤ new
      → Resized logger (extended os logger new (some h.mapping) reply) text
  extended-Resized new (false, s') e larger = record {
    holds = with_system h s';
    offset_kept = refl;
    grown = omega arith;
  }
  extended-Resized new (true, s') e larger =
      remapped-Resized s' new (os.mremap s' h.mapping logger.mmap_size new) refl larger
        (lawful.truncated _ s' _ new e)

  pub resize_mmap-Resized : Resized logger (resize_mmap os logger) text
  unfolding resize_mmap
  resize_mmap-Resized =
      let wrap : logger.mmap_size * 2 % 2 ^ 64 ≡ logger.mmap_size * 2 =
        omega (arith, h.file_size) in
      let reply = os.ftruncate logger.system logger.fd (logger.mmap_size * 2) in
      rw wrap (
        subst (λ p. Resized logger (extended os logger (logger.mmap_size * 2) p reply) text)
          (sym h.mapped) (extended-Resized (logger.mmap_size * 2) reply refl (omega arith)))

  -- Where nothing refuses the growth, the mapping has doubled.
  pub resize_mmap-doubles :
      IsAmple os
      → logger.mmap_size * 2 < 2 ^ 63
      → (resize_mmap os logger).mmap_size ≡ logger.mmap_size * 2
  unfolding resize_mmap
  resize_mmap-doubles ample small =
      let wrap : logger.mmap_size * 2 % 2 ^ 64 ≡ logger.mmap_size * 2 = omega (arith, small) in
      let (s, extends) = ample.extends logger.system logger.fd (logger.mmap_size * 2) small in
      let (q, s', moves) = ample.moves s h.mapping logger.mmap_size (logger.mmap_size * 2) small in
      simp (wrap, extends, h.mapped, moves) refl
