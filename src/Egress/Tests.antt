-- ===== src/Egress/Tests.antt =====
-- A socket that takes two bytes at a time, and none once the stream holds four.
use mathlib.Core.Path.{subst₂}
use mathlib.Core.Option.{some-injective}
use hft_learning.Prelude.{
  ℕ, ◌<◌, ◌≤◌, ◌≡◌, refl, sym, ap, false, Option, none, some, List, [], ◌∷◌, ◌++◌, arith, ltb,
  if◌then◌else◌, take, length, min, Bool-cases, inl, inr,
}
use hft_learning.Prelude.Int.{pos}
use hft_learning.Egress.{send, send_from}
use hft_learning.Egress.Stream.{IsSocket, Sends, send-Sends}

abbrev narrow : List ℕ → List ℕ → Option ℕ × List ℕ
narrow stream bytes =
    if ltb (length stream) 4
    then (some (min 2 (length bytes)), stream ++ take (min 2 (length bytes)) bytes)
    else (none, stream)

abbrev Took : List ℕ → List ℕ → ℕ → List ℕ → Type 0
Took s bytes n s' = (n ≤ length bytes) × (0 < length bytes → 0 < n) × (s' ≡ s ++ take n bytes)

narrow-Took : (s s' bytes : List ℕ) (n : ℕ) → narrow s bytes ≡ (some n, s') → Took s bytes n s'
narrow-Took s s' bytes n e = elim (Bool-cases (ltb (length s) 4)) [
  | inl short ↦
      let both : (some (min 2 (length bytes)), s ++ take (min 2 (length bytes)) bytes)
          ≡ (some n, s') =
        rw short at e in
      subst₂ (λ n s'. Took s bytes n s')
        (some-injective (min 2 (length bytes)) n (ap (λ (r : Option ℕ × List ℕ). r.0) both))
        (ap (λ (r : Option ℕ × List ℕ). r.1) both) (omega arith, λ lt. omega (arith, lt), refl)
  | inr long ↦
      let both : (none, s) ≡ (some n, s') = rw long at e in
      cc (ap (λ (r : Option ℕ × List ℕ). r.0) both)
]

narrow-failed : (s s' bytes : List ℕ) → narrow s bytes ≡ (none, s') → s' ≡ s
narrow-failed s s' bytes e = elim (Bool-cases (ltb (length s) 4)) [
  | inl short ↦
      let both : (some (min 2 (length bytes)), s ++ take (min 2 (length bytes)) bytes)
          ≡ (none, s') =
        rw short at e in
      cc (ap (λ (r : Option ℕ × List ℕ). r.0) both)
  | inr long ↦
      let both : (none, s) ≡ (none, s') = rw long at e in
      sym (ap (λ (r : Option ℕ × List ℕ). r.1) both)
]

narrow-IsSocket : IsSocket narrow (λ s. s)
narrow-IsSocket = record { took = narrow-Took; failed = narrow-failed }

abbrev message : List ℕ
message = 1 ∷ 2 ∷ 3 ∷ 4 ∷ 5 ∷ []

send-Sends_example :
    Sends narrow
      (λ s. s)
      (send narrow (record { fd = pos 7 }) [] message (length message))
      []
      message
send-Sends_example = send-Sends narrow-IsSocket (record { fd = pos 7 }) [] message (omega arith)

-- The last byte finds no room: four of the five are on the stream, and `send` returns false.
send-cut : send narrow (record { fd = pos 7 }) [] message 5 ≡ some (false, 1 ∷ 2 ∷ 3 ∷ 4 ∷ [])
unfolding send send_from
send-cut = refl
