-- ===== src/Wire.antt =====
-- Messages as bytes in a buffer, as src/ITCH5Parser.cpp and src/OUCH42.cpp see them: packed structs
-- laid over a buffer on a little-endian machine, with fields in network order. A buffer is the
-- function from offsets to bytes.
pub mod Words
pub mod Windows
use hft_learning.Prelude.{ℕ, zero, suc, ◌+◌, ◌*◌, ◌/◌, ◌%◌, List, [], ◌∷◌, ◌++◌}
use hft_learning.Prelude.Arrays.{update}

abbrev pub Buffer : Type 0
Buffer = ℕ → ℕ

-- an integer of `w` bytes in memory
abbrev pub to_bytes : ℕ → ℕ → List ℕ
to_bytes zero x = []
to_bytes (suc w) x = x % 256 ∷ to_bytes w (x / 256)

abbrev pub from_bytes : List ℕ → ℕ
from_bytes [] = 0
from_bytes (b ∷ bs) = b + 256 * from_bytes bs

abbrev pub write : Buffer → ℕ → List ℕ → Buffer
write buffer offset [] = buffer
write buffer offset (b ∷ bs) = write (update buffer offset b) (offset + 1) bs

abbrev pub read : Buffer → ℕ → ℕ → List ℕ
read buffer offset zero = []
read buffer offset (suc n) = buffer offset ∷ read buffer (offset + 1) n

abbrev pub reversed : List ℕ → List ℕ
reversed [] = []
reversed (b ∷ bs) = reversed bs ++ b ∷ []

-- `__builtin_bswap16`, `32` and `64` for `w` of 2, 4 and 8
abbrev pub bswap : ℕ → ℕ → ℕ
bswap w x = from_bytes (reversed (to_bytes w x))

-- What is read from, or written to, an integer field of a packed struct.
abbrev pub load : ℕ → Buffer → ℕ → ℕ
load w buffer offset = from_bytes (read buffer offset w)

abbrev pub store : ℕ → Buffer → ℕ → ℕ → Buffer
store w buffer offset x = write buffer offset (to_bytes w x)

abbrev pub first_or : ℕ → List ℕ → ℕ
first_or d [] = d
first_or d (c ∷ cs) = c

abbrev pub rest_of : List ℕ → List ℕ
rest_of [] = []
rest_of (c ∷ cs) = cs

-- A field of `size` characters: the first ones of the string, and spaces behind them.
abbrev pub padded : ℕ → List ℕ → List ℕ
padded zero src = []
padded (suc size) src = first_or 32 src ∷ padded size (rest_of src)
