-- ===== src/Wire/Words.antt =====
-- Integers and their bytes: what is stored is loaded again, and byte swapping undoes itself.
use mathlib.Core.Path.{subst}
use mathlib.Core.List.{append-nil, append_assoc}
use hft_learning.Prelude.{
  ℕ, zero, suc, ◌+◌, ◌*◌, ◌/◌, ◌%◌, ◌^◌, ◌<◌, ◌≡◌, refl, sym, ap, ◌∙◌, List, [], ◌∷◌, ◌++◌, arith,
  length, length-append,
}
use hft_learning.Wire.{to_bytes, from_bytes, reversed, bswap}

-- Every member is a byte.
abbrev pub IsBytes : List ℕ → Type 0
IsBytes [] = Unit
IsBytes (b ∷ bs) = (b < 256) × IsBytes bs

pub to_bytes-IsBytes : (w x : ℕ) → IsBytes (to_bytes w x)
to_bytes-IsBytes zero x = tt
to_bytes-IsBytes (suc w) x = (omega arith, to_bytes-IsBytes w (x / 256))

pub length-to_bytes : (w x : ℕ) → length (to_bytes w x) ≡ w
length-to_bytes zero x = refl
length-to_bytes (suc w) x = ap suc (length-to_bytes w (x / 256))

pub from_bytes-to_bytes : (w x : ℕ) → x < 256 ^ w → from_bytes (to_bytes w x) ≡ x
from_bytes-to_bytes zero x h = omega arith
from_bytes-to_bytes (suc w) x h = omega (arith, from_bytes-to_bytes w (x / 256) (omega arith))

pub to_bytes-from_bytes : (bs : List ℕ) → IsBytes bs → to_bytes (length bs) (from_bytes bs) ≡ bs
to_bytes-from_bytes [] h = refl
to_bytes-from_bytes (b ∷ bs) (lt, h) = rw (head, tail) (ap (λ r. b ∷ r) (to_bytes-from_bytes bs h))
  where
    head : (b + 256 * from_bytes bs) % 256 ≡ b
    head = omega arith

    tail : (b + 256 * from_bytes bs) / 256 ≡ from_bytes bs
    tail = omega arith

reversed-append : (bs cs : List ℕ) → reversed (bs ++ cs) ≡ reversed cs ++ reversed bs
reversed-append [] cs = sym (append-nil (reversed cs))
reversed-append (b ∷ bs) cs =
    ap (λ r. r ++ b ∷ []) (reversed-append bs cs)
    ∙ append_assoc (reversed cs) (reversed bs) (b ∷ [])

reversed-reversed : (bs : List ℕ) → reversed (reversed bs) ≡ bs
reversed-reversed [] = refl
reversed-reversed (b ∷ bs) =
    reversed-append (reversed bs) (b ∷ []) ∙ ap (λ r. b ∷ r) (reversed-reversed bs)

length-reversed : (bs : List ℕ) → length (reversed bs) ≡ length bs
length-reversed [] = refl
length-reversed (b ∷ bs) = omega (arith, length-append (reversed bs) (b ∷ []), length-reversed bs)

IsBytes-append : (bs cs : List ℕ) → IsBytes bs → IsBytes cs → IsBytes (bs ++ cs)
IsBytes-append [] cs h k = k
IsBytes-append (b ∷ bs) cs (lt, h) k = (lt, IsBytes-append bs cs h k)

IsBytes-reversed : (bs : List ℕ) → IsBytes bs → IsBytes (reversed bs)
IsBytes-reversed [] h = tt
IsBytes-reversed (b ∷ bs) (lt, h) =
    IsBytes-append (reversed bs) (b ∷ []) (IsBytes-reversed bs h) (lt, tt)

pub swapped : (w x : ℕ) → to_bytes w (bswap w x) ≡ reversed (to_bytes w x)
swapped w x =
    let bytes = reversed (to_bytes w x) in
    subst (λ n. to_bytes n (from_bytes bytes) ≡ bytes)
      (length-reversed (to_bytes w x) ∙ length-to_bytes w x)
      (to_bytes-from_bytes bytes (IsBytes-reversed (to_bytes w x) (to_bytes-IsBytes w x)))

-- Swapping the bytes of an integer twice gives it back.
pub bswap-bswap : (w x : ℕ) → x < 256 ^ w → bswap w (bswap w x) ≡ x
bswap-bswap w x h =
    ap (λ bs. from_bytes (reversed bs)) (swapped w x)
    ∙ ap from_bytes (reversed-reversed (to_bytes w x))
    ∙ from_bytes-to_bytes w x h

-- An integer field in network order reads back.
pub word : (w x : ℕ) → x < 256 ^ w → bswap w (from_bytes (to_bytes w (bswap w x))) ≡ x
word w x h = ap (λ bs. bswap w (from_bytes bs)) (swapped w x) ∙ bswap-bswap w x h
