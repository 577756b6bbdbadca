-- ===== src/Transport/Execution.antt =====
-- internal/transport/ch341.go: `execute`, over endpoints of the USB library.
pub mod Answers
pub mod Keeps
pub mod Responses
use Prim.Native.String.{◌++◌ as append}
use remote_mfi.Fmt.{decimal}
use remote_mfi.Prelude.{
  ℕ, ◌+◌, ◌-◌, Bool, true, false, ◌&&◌, not, List, [], ◌∷◌, ◌++◌, length, take, drop, ltb, ◌==◌,
  if◌then◌else◌,
}
use remote_mfi.Errors.{Result, GoError, transport, text, protocol, device_missing}
use remote_mfi.Effects.Action.{Action}
use remote_mfi.Effects.Program.{Program, done, ◌>>=◌, ◌>>◌, return, refuse}
use remote_mfi.Transport.Encoder.{encode_configuration}
use remote_mfi.Transport.Decoder.{instruction_lengths, check_status_bytes}
use remote_mfi.Transport.Faults.{minimum_transfer_timeout}
use remote_mfi.Transport.Segments.{segments}
use remote_mfi.Transport.Transfers.{Endpoints, bulk_write, bulk_read_at_most}

abbrev pub response_quiet_timeout : ℕ
response_quiet_timeout = 25_000_000

abbrev pub select_to_read_gap : ℕ
select_to_read_gap = 5_000_000

-- A call that does not wait, or a value that may be an error, as a part of a program
abbrev pub attempt : {W A : Type 0} → Action W A → Program W A
attempt action w = let (r, w') = action w in done r w'

abbrev pub check : {W A : Type 0} → Result A → Program W A
check r w = done r w

abbrev pub too_short : ℕ → ℕ → GoError
too_short got want = transport device_missing "read CH341 stream response" (
    text (
      append "answered "
        (append (decimal got) (append " bytes; expected " (append (decimal want) " data bytes")))))

abbrev pub wrong_length : ℕ → ℕ → GoError
wrong_length got want =
    transport protocol "CH341 transaction"
      (text (append "returned " (append (decimal got) (append " bytes; expected " (decimal want)))))

module _ (e : Endpoints) where
  open e use {World, sleep}

  -- The answer to a packet: status bytes, of which some may be missing, and then the data bytes
  unfoldable pub receive : ℕ → ℕ × ℕ → Program World (List ℕ)
  receive timeout (written, wanted) = do
    received ←
        bulk_read_at_most e (written + wanted)
          (if ltb 0 wanted then timeout else response_quiet_timeout) response_quiet_timeout
          (wanted == 0)
    refuse (ltb (length received) wanted) (too_short (length received) wanted)
    check (check_status_bytes (take (length received - wanted) received))
    return (drop (length received - wanted) received)

  -- One turn of the loop: the data bytes of the answer to one packet
  unfoldable pub execute_segment : ℕ → List ℕ → Program World (List ℕ)
  execute_segment timeout segment = do
    attempt (bulk_write e segment timeout)
    counts ← check (instruction_lengths segment)
    if ltb 0 (counts.0 + counts.1) then receive timeout counts else return []

  unfoldable pub execute_segments : ℕ → List (List ℕ) → List ℕ → Program World (List ℕ)
  execute_segments timeout [] response = return response
  execute_segments timeout (segment ∷ rest) response = do
    part ← execute_segment timeout segment
    execute_segments timeout rest (response ++ part)

  -- `time.Sleep(selectToReadGap)` before a read without a write
  abbrev pub pause : ℕ → ℕ → Program World (Unit {0})
  pause write_length read_length w =
      if (write_length == 0) && ltb 0 read_length
      then done (Result.ok tt) (sleep select_to_read_gap w)
      else done (Result.ok tt) w

  -- `execute`
  unfoldable pub execute : ℕ → List ℕ → ℕ → ℕ → Program World (List ℕ)
  execute speed stream write_length read_length = do
    let timeout = minimum_transfer_timeout write_length read_length speed
    configuration ← check (encode_configuration speed)
    attempt (bulk_write e configuration timeout)
    pause write_length read_length
    response ← execute_segments timeout (segments stream) []
    refuse (not (length response == read_length)) (wrong_length (length response) read_length)
    return response
