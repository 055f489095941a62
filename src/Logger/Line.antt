-- ===== src/Logger/Line.antt =====
-- The line that `writeToFile` formats for a message, and how long it can be.
use hft_learning.Prelude.{ℕ, ◌≤◌, ◌<◌, List, [], ◌∷◌, ◌++◌, arith, length, length-append}
use hft_learning.Prelude.Decimal.{decimal, length-decimal}
use hft_learning.Logger.Types.{LogLevel, info, warn, error, fatal, LogMessage}

-- `levelToString`, in ASCII
unfoldable pub level_to_string : LogLevel → List ℕ
level_to_string info = 73 ∷ 78 ∷ 70 ∷ 79 ∷ []
level_to_string warn = 87 ∷ 65 ∷ 82 ∷ 78 ∷ []
level_to_string error = 69 ∷ 82 ∷ 82 ∷ 79 ∷ 82 ∷ []
level_to_string fatal = 70 ∷ 65 ∷ 84 ∷ 65 ∷ 76 ∷ []

-- the format "[%lu] [T:%u] [%s] %s\n"
unfoldable pub line : LogMessage → List ℕ
line msg =
    (91 ∷ [])
    ++ decimal 20 msg.timestamp []
    ++ (93 ∷ 32 ∷ 91 ∷ 84 ∷ 58 ∷ [])
    ++ decimal 10 msg.thread_id []
    ++ (93 ∷ 32 ∷ 91 ∷ [])
    ++ level_to_string msg.level
    ++ (93 ∷ 32 ∷ [])
    ++ msg.payload
    ++ (10 ∷ [])

length-level_to_string : (level : LogLevel) → length (level_to_string level) ≤ 5
unfolding level_to_string
length-level_to_string level = ground arith

-- No line is longer than 286 characters, so that `snprintf` never cuts it at the 511 of its buffer.
pub length-line : (msg : LogMessage) → length msg.payload < 240 → length (line msg) ≤ 286
unfolding line
length-line msg h = simp length-append (
    omega (
      arith,
      length-decimal 20 msg.timestamp [],
      length-decimal 10 msg.thread_id [],
      length-level_to_string msg.level,
    ))
