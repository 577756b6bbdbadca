-- ===== src/Transport/Decoder.antt =====
-- internal/transport/ch341.go: how many bytes the CH341 answers to one packet, and its status bytes.
pub mod Replies
use Prim.Native.String.{◌++◌ as append}
use remote_mfi.Fmt.{decimal, hex2}
use remote_mfi.Prelude.{
  ℕ, zero, suc, ◌+◌, bit_and, ◌&&◌, ◌||◌, List, [], ◌∷◌, leb, ◌==◌, if◌then◌else◌,
}
use remote_mfi.Errors.{Result, ok, err, GoError, text, transport, protocol, nack}

abbrev pub length_mask : ℕ
length_mask = 0x3f

abbrev pub ack_bit : ℕ
ack_bit = 0x80

unfoldable pub encoded_length : ℕ → ℕ
encoded_length command =
    let encoded = bit_and command length_mask in if encoded == 0 then 1 else encoded

-- The cases of the `switch` of `instructionLengths`, in its order
pub data CommandCase : Type 0 where
  ends condition writes reads speed unexpected : CommandCase

unfoldable pub command_case : ℕ → CommandCase
command_case command =
    if command == 0x00
    then ends
    else if (command == 0x74) || (command == 0x75)
    then condition
    else if leb 0x80 command && leb command 0xbf
    then writes
    else if leb 0xc0 command && leb command 0xff
    then reads
    else if leb 0x60 command && leb command 0x63
    then speed
    else unexpected

abbrev pub count_status : ℕ → ℕ → ℕ
count_status command written =
    if bit_and command length_mask == 0 then written + encoded_length command else written

abbrev decode_error : GoError → GoError
decode_error e = transport protocol "decode CH341 stream" e

-- The loop, at the bytes `segment[index:]`; `skip` of them are the data of a write command, which
-- `index` passes over. To pass the end is the error "truncated command".
unfoldable pub instruction_lengths_from : ℕ → ℕ → ℕ → List ℕ → Result (ℕ × ℕ)
unfolding command_case encoded_length
instruction_lengths_from written received (suc skip) [] =
    err (decode_error (text "truncated command"))
instruction_lengths_from written received (suc skip) (_ ∷ rest) =
    instruction_lengths_from written received skip rest
instruction_lengths_from written received zero [] = ok (written, received)
instruction_lengths_from written received zero (command ∷ rest) = elim (command_case command) [
  | ends ↦ ok (written, received)
  | condition ↦ instruction_lengths_from written received 0 rest
  | writes ↦
      instruction_lengths_from (count_status command written) received (encoded_length command) rest
  | reads ↦ instruction_lengths_from written (received + encoded_length command) 0 rest
  | speed ↦ instruction_lengths_from written received 0 rest
  | unexpected ↦ err (decode_error (text (append "unexpected command 0x" (hex2 command))))
]

-- The status bytes and the data bytes that the packet makes the CH341 send; its first byte is not read.
unfoldable pub instruction_lengths : List ℕ → Result (ℕ × ℕ)
unfolding instruction_lengths_from
instruction_lengths [] = ok (0, 0)
instruction_lengths (_ ∷ commands) = instruction_lengths_from 0 0 0 commands

-- The loop over the status bytes, at index `offset`: the first one with the top bit set is a NACK.
unfoldable pub check_status_from : ℕ → List ℕ → Result (Unit {0})
check_status_from offset [] = ok tt
check_status_from offset (value ∷ values) =
    if bit_and value ack_bit == 0
    then check_status_from (offset + 1) values
    else err (transport nack "CH341 I2C" (text (append "NACK on byte " (decimal offset))))

unfoldable pub check_status_bytes : List ℕ → Result (Unit {0})
unfolding check_status_from
check_status_bytes status = check_status_from 0 status
