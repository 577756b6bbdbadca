-- ===== src/Httpapi/Responses.antt =====
-- internal/httpapi/handlers.go: `serviceErrorResponse`.
pub mod Statuses
use Prim.Native.String.{String, ◌++◌}
use remote_mfi.Prelude.{ℕ, Bool, true, false, ◌||◌, Option, none, some, if◌then◌else◌}
use remote_mfi.Fmt.{hex2}
use remote_mfi.Errors.{
  GoError, as_chip, is_sentinel, is_context, is_transport_kind, is_chip_kind, chip_busy,
  chip_missing, request_id_reuse, challenge_size, request_id_format, canceled, deadline_exceeded,
  permission, busy, timeout, nack, auth_failed, invalid_data, ChipErrorKind,
}
use remote_mfi.Httpapi.Messages.{LibraryTexts, error_text, sentinel_text}

pub record ErrorResponse : Type 0 where
  pub status : ℕ
  pub detail : String
  pub note : String

abbrev pub response : ℕ → String → String → ErrorResponse
response status detail note = record { status = status; detail = detail; note = note }

-- The case of `chip.ErrorAuthFailed`, of the first chip error of the chain
abbrev pub auth_response : Option (ChipErrorKind × Option ℕ) → ErrorResponse
auth_response (some (kind, some code)) = response 500 ("chip auth failed: 0x" ++ hex2 code) "error"
auth_response _ = response 500 "chip auth timeout" "error"

unfoldable pub service_error_response : LibraryTexts → GoError → ErrorResponse
service_error_response texts e =
    if is_sentinel e challenge_size
      || is_sentinel e request_id_format
      || is_sentinel e request_id_reuse
    then response 400 (error_text texts e) "bad request"
    else if is_sentinel e chip_busy
    then response 503 (sentinel_text chip_busy) "chip busy"
    else if is_sentinel e chip_missing
    then response 503 (sentinel_text chip_missing) "error"
    else if is_context e canceled || is_context e deadline_exceeded
    then response 503 "request cancelled" "error"
    else if is_transport_kind e permission
    then response 503 "chip unavailable: permission denied" "error"
    else if is_transport_kind e busy
    then response 503 "chip unavailable: USB device busy" "error"
    else if is_transport_kind e timeout
    then response 500 "chip operation timed out" "error"
    else if is_transport_kind e nack
    then response 500 "I2C NACK" "error"
    else if is_chip_kind e auth_failed
    then auth_response (as_chip e)
    else if is_chip_kind e invalid_data
    then response 500 "invalid data returned by MFi chip" "error"
    else response 500 "MFi hardware operation failed" "error"
