-- ===== src/Transport/Opening.antt =====
-- internal/transport/ch341.go: `openSession`, which claims an interface of a device.
use Prim.Native.String.{String, ◌++◌ as append}
use remote_mfi.Prelude.{ℕ, none, some}
use remote_mfi.Fmt.{hex4}
use remote_mfi.Errors.{ok, err, GoError, transport, text, protocol, device_missing}
use remote_mfi.Effects.Action.{Action}
use remote_mfi.Config.UsbIds.{UsbId}
use remote_mfi.Transport.Faults.{classify_usb_error}
use remote_mfi.Transport.Devices.{find_bulk_endpoints, Choice}
use remote_mfi.Transport.Usb.{Usb}

-- `USBID.String`, as a string
abbrev pub usb_id_string : UsbId → String
usb_id_string id = append (hex4 id.vendor) (append ":" (hex4 id.product))

-- The error of a device that cannot be opened
abbrev pub open_error : String → GoError
open_error message = transport device_missing "open CH341" (text message)

module _ (u : Usb) where
  open u use {
    World, Device, ConfigHandle, Interface, InEndpoint, OutEndpoint, descriptor, device_config,
    config_interface, in_endpoint, out_endpoint, close_interface, close_config,
  }

  -- `ch341Session`; the pointer to it is a number, and no two sessions have the same.
  pub record Session : Type 0 where
    pub pointer : ℕ
    pub device : Device
    pub config : ConfigHandle
    pub iface : Interface
    pub input : InEndpoint
    pub output : OutEndpoint
    pub identity : String

  -- `openSession` behind the claim of the interface
  unfoldable pub open_endpoints :
      Device → ConfigHandle → Interface → Choice → String → ℕ → Action World Session
  open_endpoints device config iface chosen identity pointer w =
      let (r, w₁) = in_endpoint iface chosen.input_number w in
      elim r [
        | err e ↦
            let (closed, w₂) = close_config config (close_interface iface w₁) in
            (err (transport protocol "open CH341 input endpoint" e), w₂)
        | ok input ↦
            let (r, w₂) = out_endpoint iface chosen.output_number w₁ in
            elim r [
              | err e ↦
                  let (closed, w₃) = close_config config (close_interface iface w₂) in
                  (err (transport protocol "open CH341 output endpoint" e), w₃)
              | ok output ↦ (
                ok (record {
                  pointer = pointer;
                  device = device;
                  config = config;
                  iface = iface;
                  input = input;
                  output = output;
                  identity = identity;
                }),
                w₂,
              )
            ]
      ]

  -- `openSession` behind the choice of the endpoints
  unfoldable pub claim : Device → Choice → String → ℕ → Action World Session
  claim device chosen identity pointer w =
      let (r, w₁) = device_config device chosen.config_number w in
      elim r [
        | err e ↦ (err (classify_usb_error "claim CH341 configuration" e), w₁)
        | ok config ↦
            let (r, w₂) = config_interface config chosen.interface_number chosen.alternate w₁ in
            elim r [
              | err e ↦
                  let (closed, w₃) = close_config config w₂ in
                  (err (classify_usb_error "claim CH341 interface" e), w₃)
              | ok iface ↦ open_endpoints device config iface chosen identity pointer w₂
            ]
      ]

  -- `openSession`
  unfoldable pub open_session : Device → String → ℕ → Action World Session
  open_session device identity pointer w = elim (find_bulk_endpoints (descriptor device).configs) [
    | none ↦ (
      err (
          transport protocol "open CH341"
            (text "no USB interface has both bulk IN and OUT endpoints")),
      w,
    )
    | some chosen ↦ claim device chosen identity pointer w
  ]
