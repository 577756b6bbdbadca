-- ===== src/Chip/Registers.antt =====
-- The register accesses of the driver, each retried while the transport fails.
use Prim.Native.String.{String, ◌++◌ as append}
use remote_mfi.Prelude.{
  ℕ, zero, suc, ◌+◌, ◌*◌, ◌%◌, Bool, true, false, ◌||◌, not, List, [], ◌∷◌, none, some, ltb, ◌==◌,
  if◌then◌else◌, length,
}
use remote_mfi.Fmt.{decimal, hex2}
use remote_mfi.Errors.{Result, ok, err, GoError, text, chip, invalid_data, wrap, as_transport}
use remote_mfi.Effects.Action.{Action, ◌>>=◌, ◌>>◌, return, refuse}
use remote_mfi.Effects.Program.{Program, done, out_of_fuel}
use remote_mfi.Chip.Bus.{Bus}

abbrev pub maximum_data_bytes : ℕ
maximum_data_bytes = 65_525

abbrev pub millisecond : ℕ
millisecond = 1_000_000

abbrev pub io_retry_timeout : ℕ
io_retry_timeout = 2000 * millisecond

abbrev pub io_retry_delay : ℕ
io_retry_delay = 20 * millisecond

-- Enough rounds for the deadline to pass: see Chip/Termination.antt.
abbrev pub retry_rounds : ℕ
retry_rounds = 102

-- `isRetryableTransportError`
unfoldable pub is_retryable : GoError → Bool
is_retryable e = elim (as_transport e) [ some kind ↦ true | none ↦ false ]

-- `fmt.Sprintf("<access> register 0x%02x", register&0xff)`
abbrev pub operation : String → ℕ → String
operation access register = append access (append " register 0x" (hex2 (register % 256)))

-- The driver: its transport and the chip's address, which `NewDriver` has checked
pub record Driver (b : Bus) : Type 0 where
  pub address : ℕ

-- `NewDriver`; the transport is never nil here.
unfoldable pub new_driver : (b : Bus) → ℕ → Result (Driver b)
new_driver b address =
    if ltb 0x7f address
    then err (text "I2C address must be a 7-bit value")
    else ok (record { address = address })

module _ (b : Bus) where
  open b use {World, transaction, now, sleep}

  -- The rounds of `retryIO`
  unfoldable pub retry_until : {A : Type 0} → ℕ → String → ℕ → Action World A → Program World A
  retry_until zero op deadline action w = out_of_fuel
  retry_until (suc fuel) op deadline action w =
      let (r, w') = action w in
      let again = retry_until fuel op deadline action (sleep io_retry_delay w') in
      elim r [
        | ok a ↦ done (ok a) w'
        | err e ↦
            if not (is_retryable e) || ltb deadline (now w')
            then done (err (wrap op e)) w'
            else again
      ]

  unfoldable pub retry_io : {A : Type 0} → String → Action World A → Program World A
  retry_io op action w = retry_until retry_rounds op (now w + io_retry_timeout) action w

  module _ (d : Driver b) where
    unfoldable pub select_register_once : ℕ → Action World (Unit {0})
    select_register_once register = do
      result ← transaction d.address ((register % 256) ∷ []) 0
      refuse (not (length result == 0))
          (chip invalid_data (operation "select" register) none (text "returned unexpected data"))

    unfoldable pub select_register : ℕ → Program World (Unit {0})
    select_register register =
        retry_io (operation "select" register) (select_register_once register)

    -- The error of a read of the wrong size
    abbrev pub wrong_size : ℕ → ℕ → ℕ → GoError
    wrong_size register got want = chip invalid_data (operation "read" register) none (
        text
          (append "returned " (append (decimal got) (append " bytes; expected " (decimal want)))))

    -- The closure that `readRegister` retries: the selection and the read as one
    unfoldable pub read_register_once : ℕ → ℕ → Action World (List ℕ)
    read_register_once register n = do
      select_register_once register
      result ← transaction d.address [] n
      refuse (not (length result == n)) (wrong_size register (length result) n)
      return result

    abbrev pub out_of_range : ℕ → GoError
    out_of_range n =
        chip invalid_data "read register" none
          (text (append "length " (append (decimal n) " is outside 1..65525")))

    unfoldable pub read_register : ℕ → ℕ → Program World (List ℕ)
    read_register register n w =
        if ltb n 1 || ltb maximum_data_bytes n
        then done (err (out_of_range n)) w
        else retry_io (operation "read" register) (read_register_once register n) w

    -- The closure that `writeRegister` retries
    unfoldable pub write_register_once : ℕ → List ℕ → Action World (Unit {0})
    write_register_once register bytes = do
      result ← transaction d.address ((register % 256) ∷ bytes) 0
      refuse (not (length result == 0))
          (chip invalid_data (operation "write" register) none (text "returned unexpected data"))

    unfoldable pub write_register : ℕ → List ℕ → Program World (Unit {0})
    write_register register bytes =
        retry_io (operation "write" register) (write_register_once register bytes)
