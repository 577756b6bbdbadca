-- ===== src/Transport/Faults.antt =====
-- internal/transport/ch341.go: the classification of the errors of the USB library, and the time limits.
use Prim.Native.String.{String}
use remote_mfi.Prelude.{ℕ, ◌+◌, ◌-◌, ◌*◌, ◌/◌, max, Bool, true, false, ◌||◌, Option, none, some}
use remote_mfi.Errors

-- `errors.As(err, &transferStatus)`
unfoldable pub as_transfer : Errors.GoError → Option Errors.TransferStatus
as_transfer (Errors.transfer s) = some s
as_transfer (Errors.transport _ _ e) = as_transfer e
as_transfer (Errors.chip _ _ _ e) = as_transfer e
as_transfer (Errors.wrap _ e) = as_transfer e
as_transfer (Errors.wrap_detail e _) = as_transfer e
as_transfer _ = none

-- `errors.As(err, &usbError)`
unfoldable pub as_usb : Errors.GoError → Option Errors.UsbError
as_usb (Errors.usb s) = some s
as_usb (Errors.transport _ _ e) = as_usb e
as_usb (Errors.chip _ _ _ e) = as_usb e
as_usb (Errors.wrap _ e) = as_usb e
as_usb (Errors.wrap_detail e _) = as_usb e
as_usb _ = none

-- The kind of a transfer status that has a case of its own
abbrev pub transfer_kind : Option Errors.TransferStatus → Option Errors.TransportErrorKind
transfer_kind (some Errors.TransferStatus.timed_out) = some Errors.TransportErrorKind.timeout
transfer_kind (some Errors.TransferStatus.cancelled) = some Errors.TransportErrorKind.timeout
transfer_kind (some Errors.TransferStatus.no_device) = some Errors.TransportErrorKind.device_missing
transfer_kind (some Errors.TransferStatus.stall) = some Errors.TransportErrorKind.protocol
transfer_kind (some Errors.TransferStatus.overflow) = some Errors.TransportErrorKind.protocol
transfer_kind (some (Errors.TransferStatus.other_status n)) = none
transfer_kind none = none

-- The kind of a libusb error
abbrev pub usb_kind : Option Errors.UsbError → Errors.TransportErrorKind
usb_kind (some Errors.UsbError.access) = Errors.TransportErrorKind.permission
usb_kind (some Errors.UsbError.busy) = Errors.TransportErrorKind.busy
usb_kind (some Errors.UsbError.no_device) = Errors.TransportErrorKind.device_missing
usb_kind (some Errors.UsbError.not_found) = Errors.TransportErrorKind.device_missing
usb_kind (some Errors.UsbError.timeout) = Errors.TransportErrorKind.timeout
usb_kind (some Errors.UsbError.invalid_param) = Errors.TransportErrorKind.invalid_request
usb_kind (some Errors.UsbError.pipe) = Errors.TransportErrorKind.protocol
usb_kind (some Errors.UsbError.overflow) = Errors.TransportErrorKind.protocol
usb_kind (some (Errors.UsbError.other_error n)) = Errors.TransportErrorKind.io
usb_kind none = Errors.TransportErrorKind.io

abbrev pub fault_kind :
    Bool → Option Errors.TransportErrorKind → Option Errors.UsbError → Errors.TransportErrorKind
fault_kind true of_transfer of_usb = Errors.TransportErrorKind.timeout
fault_kind false (some kind) of_usb = kind
fault_kind false none of_usb = usb_kind of_usb

-- `classifyUSBError`
unfoldable pub classify_usb_error : String → Errors.GoError → Errors.GoError
classify_usb_error op e =
    Errors.transport
      (fault_kind (Errors.is_context e Errors.ContextError.deadline_exceeded)
        (transfer_kind (as_transfer e)) (as_usb e))
      op e

unfoldable pub is_timeout : Errors.GoError → Bool
unfolding classify_usb_error
is_timeout e =
    Errors.is_transport_kind (classify_usb_error "timeout check" e)
      Errors.TransportErrorKind.timeout

unfoldable pub should_invalidate_session : Errors.GoError → Bool
should_invalidate_session e =
    Errors.is_transport_kind e Errors.TransportErrorKind.device_missing
    || Errors.is_transport_kind e Errors.TransportErrorKind.io
    || Errors.is_transport_kind e Errors.TransportErrorKind.protocol

abbrev pub default_transfer_timeout : ℕ
default_transfer_timeout = 1_000_000_000

-- `minimumTransferTimeout`; the speed is in kHz and not 0.
unfoldable pub minimum_transfer_timeout : ℕ → ℕ → ℕ → ℕ
minimum_transfer_timeout write_length read_length speed =
    let bits_per_second = speed * 1000 in
    let bytes_on_wire = write_length + read_length + 8 in
    let wire = (bytes_on_wire * 9 * 1_000_000_000 + bits_per_second - 1) / bits_per_second in
    max default_transfer_timeout (wire + default_transfer_timeout)
