-- ===== src/Egress.antt =====
-- include/TCPEgress.hpp and src/TCPEgress.cpp: orders out to the exchange over TCP. The system's
-- `::send` is a parameter: it takes the bytes that are left, and answers how many it took, or `none`
-- for a negative result. `errno` only chooses between two log lines, which are left out.
pub mod Stream
mod Tests
use hft_learning.Prelude.{
  ℕ, zero, suc, ◌+◌, ◌-◌, Bool, true, false, Option, none, some, List, ltb, if◌then◌else◌, take,
  drop,
}
use hft_learning.Prelude.Int.{ℤ, pos, negsuc, ltb_ℤ}

pub record TcpEgressGateway : Type 0 where
  pub fd : ℤ

-- a gateway with no socket
abbrev pub no_socket : TcpEgressGateway
no_socket = record { fd = negsuc 0 }

abbrev pub set_socket_fd : TcpEgressGateway → ℤ → TcpEgressGateway
set_socket_fd gateway fd = record gateway { fd = fd }

module _ {S : Type 0} (send_bytes : S → List ℕ → Option ℕ × S) where
  -- What the loop does with the answer of `::send`.
  abbrev pub proceed : Option ℕ × S → (ℕ → S → Option (Bool × S)) → Option (Bool × S)
  proceed (none, socket) rest = some (false, socket)
  proceed (some bytes_sent, socket) rest = rest bytes_sent socket

  -- The loop; it is `none` if the fuel is used up.
  unfoldable pub send_from : ℕ → S → List ℕ → ℕ → ℕ → Option (Bool × S)
  send_from zero socket buffer length total_sent = none
  send_from (suc fuel) socket buffer length total_sent =
      let rest = λ (bytes_sent : ℕ) (socket : S).
        send_from fuel socket buffer length (total_sent + bytes_sent) in
      if ltb total_sent length
      then proceed (send_bytes socket (take (length - total_sent) (drop total_sent buffer))) rest
      else some (true, socket)

  -- `TCPEgressGateway::send`, with one round for each byte and one to see that all are sent
  unfoldable pub send : TcpEgressGateway → S → List ℕ → ℕ → Option (Bool × S)
  send gateway socket buffer length =
      if ltb_ℤ gateway.fd (pos 0)
      then some (false, socket)
      else send_from (length + 1) socket buffer length 0
