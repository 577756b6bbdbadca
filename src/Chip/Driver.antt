-- ===== src/Chip/Driver.antt =====
-- The operations of the driver that the service calls.
use Prim.Native.String.{String, ◌++◌ as append}
use remote_mfi.Prelude.{
  ℕ, zero, suc, ◌+◌, ◌-◌, ◌*◌, ◌/◌, ◌%◌, min, Bool, false, ◌||◌, List, [], ◌∷◌, ◌++◌, Option, none,
  some, ltb, ◌==◌, if◌then◌else◌, length, get_or,
}
use remote_mfi.Fmt.{decimal}
use remote_mfi.Errors.{
  Result, ok, err, GoError, text, chip, context, ContextError, invalid_data, auth_failed,
}
use remote_mfi.Effects.Program.{Program, Outcome, done, out_of_fuel, ◌>>=◌, ◌>>◌, return, refuse}
use remote_mfi.Chip.Bus.{Bus}
use remote_mfi.Chip.Registers.{
  Driver, maximum_data_bytes, millisecond, read_register, write_register, select_register,
}

abbrev pub protocol_major_register : ℕ
protocol_major_register = 0x02

abbrev pub error_register : ℕ
error_register = 0x05

abbrev pub auth_control_status_register : ℕ
auth_control_status_register = 0x10

abbrev pub response_length_register : ℕ
response_length_register = 0x11

abbrev pub response_data_register : ℕ
response_data_register = 0x12

abbrev pub challenge_length_register : ℕ
challenge_length_register = 0x20

abbrev pub challenge_data_register : ℕ
challenge_data_register = 0x21

abbrev pub certificate_length_register : ℕ
certificate_length_register = 0x30

abbrev pub certificate_data_register : ℕ
certificate_data_register = 0x31

abbrev pub certificate_window_bytes : ℕ
certificate_window_bytes = 128

abbrev pub auth_start_command : ℕ
auth_start_command = 0x01

abbrev pub auth_success_status : ℕ
auth_success_status = 0x10

abbrev pub maximum_challenge_bytes : ℕ
maximum_challenge_bytes = 128

abbrev pub initial_auth_delay : ℕ
initial_auth_delay = 10 * millisecond

abbrev pub auth_poll_interval : ℕ
auth_poll_interval = 10 * millisecond

abbrev pub auth_timeout : ℕ
auth_timeout = 3000 * millisecond

-- Enough polls for the deadline to pass: see Chip/Termination.antt.
abbrev pub poll_rounds : ℕ
poll_rounds = 302

-- `binary.BigEndian.Uint16`
abbrev pub big_endian : List ℕ → ℕ
big_endian bytes = get_or bytes 0 0 * 256 + get_or bytes 1 0

-- `ctx.Err()` at the entry of an operation
abbrev pub check_context : {W : Type 0} → Option ContextError → Program W (Unit {0})
check_context none = return tt
check_context (some e) = λ w. done (err (context e)) w

abbrev pub bad_length : String → String → ℕ → GoError
bad_length op what n =
    chip invalid_data op none
      (text (append what (append " length " (append (decimal n) " is outside 1..65525"))))

module _ (b : Bus) (d : Driver b) where
  open b use {World, transaction, now, sleep}

  unfoldable pub read_unsigned_big_endian_short : ℕ → Program World ℕ
  read_unsigned_big_endian_short register = do
    bytes ← read_register b d register 2
    return (big_endian bytes)

  -- The value is not negative at its one call.
  unfoldable pub write_unsigned_big_endian_short : ℕ → ℕ → Program World (Unit {0})
  write_unsigned_big_endian_short register value w =
      if ltb 0xffff value
      then done
          (err (
            chip invalid_data "write length" none
              (text (append "value " (append (decimal value) " is outside 0..65535")))))
          w
      else write_register b d register ((value / 256 % 256) ∷ (value % 256) ∷ []) w

  unfoldable pub read_byte : ℕ → Program World ℕ
  read_byte register = do bytes ← read_register b d register 1; return (get_or bytes 0 0)

  unfoldable pub protocol_major : Option ContextError → Program World ℕ
  protocol_major ctx = do
    check_context ctx
    value ← read_byte protocol_major_register
    return (value % 256)

  -- The loop of `ReadCertificate`, on fuel. Each window has exactly `count` bytes, so that `copy` at
  -- `offset` is an append to the bytes read so far.
  unfoldable pub read_windows : ℕ → ℕ → ℕ → List ℕ → Program World (List ℕ)
  read_windows zero register remaining certificate w = out_of_fuel
  read_windows (suc fuel) register remaining certificate w =
      let count = min certificate_window_bytes remaining in
      let next = λ (window : List ℕ).
        read_windows fuel (register + 1) (remaining - count) (certificate ++ window) in
      if remaining == 0
      then done (ok certificate) w
      else (read_register b d register count >>= next) w

  unfoldable pub read_certificate : Option ContextError → Program World (List ℕ)
  read_certificate ctx = do
    check_context ctx
    n ← read_unsigned_big_endian_short certificate_length_register
    refuse (ltb n 1 || ltb maximum_data_bytes n) (bad_length "read certificate" "certificate" n)
    read_windows (suc n) certificate_data_register n []

  -- The code, if the read gave one byte
  abbrev pub error_code : Result (List ℕ) → Option ℕ
  error_code (err e) = none
  error_code (ok result) = if length result == 1 then some (get_or result 0 0) else none

  abbrev pub after_selection : Outcome World (Unit {0}) → Outcome World (Option ℕ)
  after_selection out_of_fuel = out_of_fuel
  after_selection (done (err e) w) = done (ok none) w
  after_selection (done (ok u) w) =
      let (result, w') = transaction d.address [] 1 w in done (ok (error_code result)) w'

  -- This read is not retried.
  unfoldable pub best_effort_error_code : Program World (Option ℕ)
  best_effort_error_code w = after_selection (select_register b d error_register w)

  abbrev pub auth_error : Option ℕ → GoError
  auth_error code = chip auth_failed "MFi authentication" code (text "timed out after 3s")

  -- The status was read and is the one of success.
  abbrev pub succeeded : Result ℕ → Bool
  succeeded (ok status) = status == auth_success_status
  succeeded (err e) = false

  -- The deadline of the polling has passed.
  unfoldable pub timed_out : Program World (Unit {0})
  timed_out = best_effort_error_code >>= λ code w. done (err (auth_error code)) w

  -- The polling loop of `SignChallenge`; a failed read of the status is no error, it is polled again.
  unfoldable pub poll_status : ℕ → ℕ → Program World (Unit {0})
  poll_status zero deadline w = out_of_fuel
  poll_status (suc fuel) deadline w = elim (read_byte auth_control_status_register w) [
    | out_of_fuel ↦ out_of_fuel
    | done r w' ↦
        let again = poll_status fuel deadline (sleep auth_poll_interval w') in
        if succeeded r
        then done (ok tt) w'
        else if ltb deadline (now w')
        then timed_out w'
        else again
  ]

  unfoldable pub await_authentication : Program World (Unit {0})
  await_authentication w =
      let w' = sleep initial_auth_delay w in poll_status poll_rounds (now w' + auth_timeout) w'

  -- The three writes of `SignChallenge`: the challenge's length, the challenge, and the start
  unfoldable pub start_authentication : List ℕ → Program World (Unit {0})
  start_authentication challenge = do
    write_unsigned_big_endian_short challenge_length_register (length challenge)
    write_register b d challenge_data_register challenge
    write_register b d auth_control_status_register (auth_start_command ∷ [])

  -- The end of `SignChallenge`: the length of the response, and the response
  unfoldable pub read_signature : Program World (List ℕ)
  read_signature = do
    n ← read_unsigned_big_endian_short response_length_register
    refuse (ltb n 1 || ltb maximum_data_bytes n) (bad_length "read signature" "signature" n)
    read_register b d response_data_register n

  abbrev pub challenge_error : GoError
  challenge_error = chip invalid_data "sign challenge" none (text "challenge must be 1..128 bytes")

  unfoldable pub sign_challenge : Option ContextError → List ℕ → Program World (List ℕ)
  sign_challenge ctx challenge = do
    check_context ctx
    refuse (ltb (length challenge) 1 || ltb maximum_challenge_bytes (length challenge))
        challenge_error
    start_authentication challenge
    await_authentication
    read_signature
