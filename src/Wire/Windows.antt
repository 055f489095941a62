-- ===== src/Wire/Windows.antt =====
-- Which bytes of a buffer a read sees and a write touches.
use hft_learning.Prelude.{
  ℕ, zero, suc, ◌+◌, ◌<◌, ◌≤◌, ◌≡◌, refl, ap, ◌∙◌, List, [], ◌∷◌, arith, ◌++◌, length, Bool, true,
  false, ltb, if◌then◌else◌,
}
use hft_learning.Prelude.Arrays.{update, update_ne, update_self}
use hft_learning.Wire.{Buffer, write, read}

-- A write does not touch what stands behind it.
pub write-behind :
    (buffer : Buffer) (offset : ℕ) (bs : List ℕ) (i : ℕ)
    → offset + length bs ≤ i
    → write buffer offset bs i ≡ buffer i
write-behind buffer offset [] i h = refl
write-behind buffer offset (b ∷ bs) i h =
    write-behind (update buffer offset b) (offset + 1) bs i (omega arith)
    ∙ update_ne buffer offset b i (λ e. absurd (omega arith))

-- Nor what stands before it.
pub write-before :
    (buffer : Buffer) (offset : ℕ) (bs : List ℕ) (i : ℕ)
    → i < offset
    → write buffer offset bs i ≡ buffer i
write-before buffer offset [] i h = refl
write-before buffer offset (b ∷ bs) i h =
    write-before (update buffer offset b) (offset + 1) bs i (omega arith)
    ∙ update_ne buffer offset b i (λ e. absurd (omega arith))

-- Two buffers that agree up to a bound read alike below it.
pub read-agree :
    (buffer buffer' : Buffer) (offset n bound : ℕ)
    → offset + n ≤ bound
    → ((i : ℕ) → i < bound → buffer' i ≡ buffer i)
    → read buffer' offset n ≡ read buffer offset n
read-agree buffer buffer' offset zero bound h same = refl
read-agree buffer buffer' offset (suc n) bound h same =
    rw
      (same offset (omega arith), read-agree buffer buffer' (offset + 1) n bound (omega arith) same)

pub length-read : (buffer : Buffer) (offset n : ℕ) → length (read buffer offset n) ≡ n
length-read buffer offset zero = refl
length-read buffer offset (suc n) = ap suc (length-read buffer (offset + 1) n)

pub read-append :
    (buffer : Buffer) (offset m n : ℕ)
    → read buffer offset (m + n) ≡ read buffer offset m ++ read buffer (offset + m) n
read-append buffer offset zero n =
    let here : offset + 0 ≡ offset = omega arith in
    let all : 0 + n ≡ n = omega arith in rw (here, all)
read-append buffer offset (suc m) n =
    let on : offset + suc m ≡ offset + 1 + m = omega arith in
    let more : suc m + n ≡ suc (m + n) = omega arith in
    rw (on, more, read-append buffer (offset + 1) m n)

-- What was written is read.
pub read-write :
    (buffer : Buffer) (offset : ℕ) (bs : List ℕ)
    → read (write buffer offset bs) offset (length bs) ≡ bs
read-write buffer offset [] = refl
read-write buffer offset (b ∷ bs) = rw (
  write-before (update buffer offset b) (offset + 1) bs offset (omega arith),
  update_self buffer offset b,
  read-write (update buffer offset b) (offset + 1) bs,
)

pub write-append :
    (buffer : Buffer) (offset : ℕ) (bs cs : List ℕ)
    → write buffer offset (bs ++ cs) ≡ write (write buffer offset bs) (offset + length bs) cs
write-append buffer offset [] cs = let here : offset + 0 ≡ offset = omega arith in rw here
write-append buffer offset (b ∷ bs) cs =
    let on : offset + suc (length bs) ≡ offset + 1 + length bs = omega arith in
    rw (on, write-append (update buffer offset b) (offset + 1) bs cs)

-- A longer write puts its first bytes where it begins.
pub read-prefix :
    (buffer : Buffer) (offset : ℕ) (bs cs : List ℕ)
    → read (write buffer offset (bs ++ cs)) offset (length bs) ≡ bs
read-prefix buffer offset bs cs = rw write-append (
    read-agree (write buffer offset bs) (write (write buffer offset bs) (offset + length bs) cs)
      offset (length bs) (offset + length bs) (omega arith)
      (λ i h. write-before (write buffer offset bs) (offset + length bs) cs i h)
    ∙ read-write buffer offset bs)

-- What is written behind some bytes is appended to them.
pub read-extended :
    (buffer : Buffer) (offset : ℕ) (bs : List ℕ)
    → read (write buffer offset bs) 0 (offset + length bs) ≡ read buffer 0 offset ++ bs
read-extended buffer offset bs =
    let here : 0 + offset ≡ offset = omega arith in
    rw (
      read-append (write buffer offset bs) 0 offset (length bs),
      here,
      read-write buffer offset bs,
      read-agree buffer (write buffer offset bs) 0 offset offset (omega arith)
          (λ i h. write-before buffer offset bs i h),
    )

-- Code that branches alike on what it reads alike.
pub if-agree :
    {A : Type 0} (t : Bool) {a a' b b' : A}
    → (t ≡ true → a ≡ a')
    → (t ≡ false → b ≡ b')
    → (if t then a else b) ≡ (if t then a' else b')
if-agree true yes_case no_case = yes_case refl
if-agree false yes_case no_case = no_case refl

pub le_of_ltb : (a b : ℕ) → ltb a b ≡ false → b ≤ a
le_of_ltb a b h = ground arith
