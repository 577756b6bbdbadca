-- ===== src/Transport/Bus/Replies.antt =====
-- What the CH341 answers to a packet. This is the specification: a write command of length 0 sends one byte and
-- answers with one status byte, whose top bit says that nobody acknowledged; the other write commands answer
-- with nothing; and every byte that is read is answered.
use remote_mfi.Prelude.{
  ℕ, zero, suc, ◌+◌, ◌≡◌, bit_and, List, [], ◌∷◌, Option, none, some, ◌==◌, if◌then◌else◌,
}
use remote_mfi.Transport.Bus.{
  bus_command, finish_packet, start_condition, stop_condition, send_next, receive_acked,
  receive_last, set_speed, unknown,
}

-- The status bytes and the data bytes
abbrev pub with_replies : ℕ → ℕ → Option (ℕ × ℕ) → Option (ℕ × ℕ)
with_replies status received none = none
with_replies status received (some (s, r)) = some (status + s, received + r)

-- The answers to a packet's commands, where the next `sending` bytes are data to send
unfoldable pub body_replies : ℕ → List ℕ → Option (ℕ × ℕ)
unfolding bus_command
body_replies (suc sending) [] = none
body_replies (suc sending) (b ∷ rest) = body_replies sending rest
body_replies zero [] = some (0, 0)
body_replies zero (c ∷ rest) = elim (bus_command c) [
  | finish_packet ↦ some (0, 0)
  | start_condition ↦ body_replies 0 rest
  | stop_condition ↦ body_replies 0 rest
  | send_next n ↦ with_replies (if c == 0x80 then 1 else 0) 0 (body_replies n rest)
  | receive_acked n ↦ with_replies 0 n (body_replies 0 rest)
  | receive_last ↦ with_replies 0 1 (body_replies 0 rest)
  | set_speed ↦ body_replies 0 rest
  | unknown ↦ none
]

unfoldable pub packet_replies : List ℕ → Option (ℕ × ℕ)
unfolding body_replies
packet_replies [] = none
packet_replies (b ∷ body) = if b == 0xaa then body_replies 0 body else none

-- The top bit of a status byte is clear.
abbrev pub IsAcked : ℕ → Type 0
IsAcked value = bit_and value 0x80 ≡ 0
