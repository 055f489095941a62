-- ===== src/Egress/Stream.antt =====
-- What `TCPEgressGateway::send` puts on the stream.
use mathlib.Core.Path.{subst}
use mathlib.Core.List.{append-nil, append_assoc}
use hft_learning.Prelude.{
  ℕ, zero, suc, ◌+◌, ◌-◌, ◌<◌, ◌≤◌, ◌≡◌, inl, inr, refl, sym, ap, ◌∙◌, Bool, true, false, Option,
  none, some, List, [], ◌∷◌, ◌++◌, arith, ltb, take, drop, length, length-drop, Bool-cases, ltb→lt,
}
use hft_learning.Prelude.Int.{pos, ltb_ℤ}
use hft_learning.Wire.Windows.{le_of_ltb}
use hft_learning.Egress.{TcpEgressGateway, send_from, send, proceed}

module _ {S : Type 0} (send_bytes : S → List ℕ → Option ℕ × S) (stream : S → List ℕ) where
  -- What is documented of `::send` on a stream socket: it appends the first bytes that it is given
  -- to the stream, at least one, and says how many; if it fails it appends none.
  pub record IsSocket : Type 0 where
    pub took :
        (s s' : S) (bytes : List ℕ) (n : ℕ)
        → send_bytes s bytes ≡ (some n, s')
        → (n ≤ length bytes) × (0 < length bytes → 0 < n) × (stream s' ≡ stream s ++ take n bytes)
    pub failed :
        (s s' : S) (bytes : List ℕ) → send_bytes s bytes ≡ (none, s') → stream s' ≡ stream s

  -- The run returns, with `sent` bytes more on the stream: all, if it returns true, and else fewer.
  pub record Sends (run : Option (Bool × S)) (s : S) (bytes : List ℕ) : Type 0 where
    pub answer : Bool
    pub after : S
    pub sent : ℕ
    pub returns : run ≡ some (answer, after)
    pub appended : stream after ≡ stream s ++ take sent bytes
    pub all_sent : answer ≡ true → sent ≡ length bytes
    pub not_all : answer ≡ false → sent < length bytes

pub take_all : (n : ℕ) (bytes : List ℕ) → length bytes ≤ n → take n bytes ≡ bytes
take_all zero [] h = refl
take_all zero (b ∷ bs) h = absurd (omega arith)
take_all (suc n) [] h = refl
take_all (suc n) (b ∷ bs) h = ap (λ r. b ∷ r) (take_all n bs (omega arith))

take_nil : (n : ℕ) → take {A = ℕ} n [] ≡ []
take_nil zero = refl
take_nil (suc n) = refl

drop_nil : (n : ℕ) → drop {A = ℕ} n [] ≡ []
drop_nil zero = refl
drop_nil (suc n) = refl

drop-drop : (m n k : ℕ) (bytes : List ℕ) → m + n ≡ k → drop n (drop m bytes) ≡ drop k bytes
drop-drop zero n k bytes e = ap (λ k. drop k bytes) (omega (arith, e))
drop-drop (suc m) n k [] e = drop_nil n ∙ sym (drop_nil k)
drop-drop (suc m) n zero (b ∷ bs) e = absurd (omega (arith, e))
drop-drop (suc m) n (suc k) (b ∷ bs) e = drop-drop m n k bs (omega (arith, e))

take-append-drop :
    (m n k : ℕ) (bytes : List ℕ) → m + n ≡ k → take m bytes ++ take n (drop m bytes) ≡ take k bytes
take-append-drop zero n k bytes e = ap (λ k. take k bytes) (omega (arith, e))
take-append-drop (suc m) n k [] e = take_nil n ∙ sym (take_nil k)
take-append-drop (suc m) n zero (b ∷ bs) e = absurd (omega (arith, e))
take-append-drop (suc m) n (suc k) (b ∷ bs) e =
    ap (λ r. b ∷ r) (take-append-drop m n k bs (omega (arith, e)))

module _ {S : Type 0} {send_bytes : S → List ℕ → Option ℕ × S} {stream : S → List ℕ}
    (lawful : IsSocket send_bytes stream) where
  -- One round: what `::send` took, and then the rest.
  proceed-Sends :
      (s : S) (bytes : List ℕ) (reply : Option ℕ × S) (continue : ℕ → S → Option (Bool × S))
      → send_bytes s bytes ≡ reply
      → 0 < length bytes
      → ((n : ℕ) (s' : S)
          → n ≤ length bytes
          → 0 < n
          → Sends send_bytes stream (continue n s') s' (drop n bytes))
      → Sends send_bytes stream (proceed send_bytes reply continue) s bytes
  proceed-Sends s bytes (none, s') continue e some_bytes rest = record {
    answer = false;
    after = s';
    sent = 0;
    returns = refl;
    appended = lawful.failed s s' bytes e ∙ sym (append-nil (stream s));
    all_sent = λ e. cc;
    not_all = λ e. some_bytes;
  }
  proceed-Sends s bytes (some n, s') continue e some_bytes rest =
      let (within, progress, streamed) = lawful.took s s' bytes n e in
      let r = rest n s' within (progress some_bytes) in
      record {
        answer = r.answer;
        after = r.after;
        sent = n + r.sent;
        returns = r.returns;
        appended =
            r.appended
            ∙ ap (λ (b : List ℕ). b ++ take r.sent (drop n bytes)) streamed
            ∙ append_assoc (stream s) (take n bytes) (take r.sent (drop n bytes))
            ∙ ap (λ b. stream s ++ b) (take-append-drop n r.sent (n + r.sent) bytes refl);
        all_sent = λ a. omega (arith, r.all_sent a, length-drop n bytes, within);
        not_all = λ a. omega (arith, r.not_all a, length-drop n bytes, within);
      }

  -- The loop from `total` bytes on.
  loop-Sends :
      (buffer : List ℕ) (fuel : ℕ) (s : S) (total : ℕ)
      → length buffer < fuel + total
      → total ≤ length buffer
      → Sends send_bytes stream
          (send_from send_bytes fuel s buffer (length buffer) total)
          s
          (drop total buffer)
  unfolding send_from
  loop-Sends buffer zero s total enough h = absurd (omega arith)
  loop-Sends buffer (suc fuel) s total enough h = elim (Bool-cases (ltb total (length buffer))) [
    | inl more ↦
        let all : take (length buffer - total) (drop total buffer) ≡ drop total buffer =
          take_all (length buffer - total) (drop total buffer)
            (omega (arith, length-drop total buffer)) in
        let below = ltb→lt total (length buffer) more in
        rw (more, all)
          (proceed-Sends s (drop total buffer) (send_bytes s (drop total buffer))
            (λ n s'. send_from send_bytes fuel s' buffer (length buffer) (total + n)) refl
            (omega (arith, length-drop total buffer, below))
            (λ n s' within progress.
              subst
                (λ b.
                  Sends send_bytes stream
                    (send_from send_bytes fuel s' buffer (length buffer) (total + n)) s' b)
                (sym (drop-drop total n (total + n) buffer refl))
                (loop-Sends buffer fuel s' (total + n) (omega arith)
                  (omega (arith, length-drop total buffer, within)))))
    | inr done ↦ record {
      answer = true;
      after = s;
      sent = 0;
      returns = rw done refl;
      appended = sym (append-nil (stream s));
      all_sent = λ _. omega (arith, length-drop total buffer, le_of_ltb total (length buffer) done);
      not_all = λ e. cc;
    }
  ]

  -- With a socket, whose `::send` does what is documented of it, `send` of a buffer that is not empty
  -- returns, whether the gateway has a descriptor or not, and has appended the first bytes of the
  -- buffer to the stream: all of them if it returns true, and fewer, which may be some, if it
  -- returns false.
  pub send-Sends :
      (gateway : TcpEgressGateway) (s : S) (buffer : List ℕ)
      → 0 < length buffer
      → Sends send_bytes stream (send send_bytes gateway s buffer (length buffer)) s buffer
  unfolding send
  send-Sends gateway s buffer some_bytes = elim (Bool-cases (ltb_ℤ gateway.fd (pos 0))) [
    | inl unconnected ↦ record {
      answer = false;
      after = s;
      sent = 0;
      returns = rw unconnected refl;
      appended = sym (append-nil (stream s));
      all_sent = λ e. cc;
      not_all = λ _. some_bytes;
    }
    | inr connected ↦
        rw connected (loop-Sends buffer (length buffer + 1) s 0 (omega arith) (omega arith))
  ]
