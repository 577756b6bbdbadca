-- ===== src/Httpapi/Messages.antt =====
-- The texts of errors: the methods `Error` of internal/transport/transport.go and internal/chip/driver.go, and
-- the messages of internal/biz/service.go. An error of the two types always wraps another one here.
use Prim.Native.String.{String, ◌++◌}
use remote_mfi.Prelude.{none, some}
use remote_mfi.Fmt.{hex2}
use remote_mfi.Errors.{
  GoError, Sentinel, ContextError, TransferStatus, UsbError, text, sentinel, context, transfer, usb,
  transport, chip, wrap, wrap_detail, chip_busy, chip_missing, request_id_reuse, challenge_size,
  request_id_format,
}

-- The texts of errors of Go's package context and of gousb
pub record LibraryTexts : Type 0 where
  pub context_text : ContextError → String
  pub transfer_text : TransferStatus → String
  pub usb_text : UsbError → String

unfoldable pub sentinel_text : Sentinel → String
sentinel_text chip_busy = "chip busy, retry"
sentinel_text chip_missing = "chip missing"
sentinel_text request_id_reuse = "requestId reuse with different challenge"
sentinel_text challenge_size = "challenge must be 1..128 bytes"
sentinel_text request_id_format = "requestId must be a UUID"

-- `err.Error()`
unfoldable pub error_text : LibraryTexts → GoError → String
unfolding sentinel_text
error_text texts (text s) = s
error_text texts (sentinel s) = sentinel_text s
error_text texts (context c) = texts.context_text c
error_text texts (transfer s) = texts.transfer_text s
error_text texts (usb e) = texts.usb_text e
error_text texts (transport kind op e) = op ++ (": " ++ error_text texts e)
error_text texts (chip kind op none e) = op ++ (": " ++ error_text texts e)
error_text texts (chip kind op (some code) e) = op ++ (" failed with MFi error 0x" ++ hex2 code)
error_text texts (wrap op e) = op ++ (": " ++ error_text texts e)
error_text texts (wrap_detail e detail) = error_text texts e ++ (": " ++ error_text texts detail)
