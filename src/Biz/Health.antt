-- ===== src/Biz/Health.antt =====
-- internal/biz/service.go: `Health` and `Diagnostics`. What they inspect is a parameter, the interface
-- `transport.USBInspector`.
use Prim.Native.String.{String}
use remote_mfi.Prelude.{Bool, true, false, List}
use remote_mfi.Transport.Inspection.{UsbDeviceInfo, UsbStatus}

-- `HealthStatus`
pub record HealthStatus : Type 0 where
  pub chip : String
  pub reason : String
  pub vidpid : String
  pub devices : List UsbDeviceInfo

-- `USBInspector`
abbrev pub Inspector : Type 0 → Type 0
Inspector W = Bool → W → UsbStatus × W

module _ {W : Type 0} (inspector : Inspector W) where
  -- `Service.inspectUSB`
  unfoldable pub inspect_usb : Bool → W → HealthStatus × W
  inspect_usb strings w =
      let (status, w') = inspector strings w in
      (
        record {
          chip = status.state;
          reason = status.reason;
          vidpid = status.vidpid;
          devices = status.devices;
        },
        w',
      )

  unfoldable pub health : W → HealthStatus × W
  unfolding inspect_usb
  health w = inspect_usb false w

  unfoldable pub diagnostics : W → HealthStatus × W
  unfolding inspect_usb
  diagnostics w = inspect_usb true w
