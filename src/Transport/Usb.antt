-- ===== src/Transport/Usb.antt =====
-- What internal/transport/ch341.go uses of the USB library gousb. A handle is what an open call answers; each
-- is given back by a close call. The devices of `OpenDevices`, which are only listed, and those of
-- `OpenDeviceWithVIDPID`, which are worked with, have types of their own: the source never mixes them.
pub mod Counting
use Prim.Native.String.{String}
use remote_mfi.Prelude.{ℕ, List, Option, Bool}
use remote_mfi.Effects.Action.{Action}
use remote_mfi.Transport.Devices.{Configs}

-- `gousb.DeviceDesc`, as far as the source reads it
pub record DeviceDesc : Type 0 where
  pub bus : ℕ
  pub address : ℕ
  pub vendor : ℕ
  pub product : ℕ
  pub speed : String
  pub class : ℕ
  pub configs : Configs

pub record Usb : Type 1 where
  pub World : Type 0
  pub Device : Type 0
  pub Listed : Type 0
  pub ConfigHandle : Type 0
  pub Interface : Type 0
  pub InEndpoint : Type 0
  pub OutEndpoint : Type 0
  -- `Context.OpenDeviceWithVIDPID`; none is a nil device.
  pub open_device : ℕ → ℕ → Action World (Option Device)
  -- `Context.OpenDevices`, if the callback answers the same for each device: the descriptors
  -- that the callback is shown, and the devices that are opened
  pub open_devices : Bool → World → (List DeviceDesc × List Listed) × World
  pub descriptor : Device → DeviceDesc
  pub listed_descriptor : Listed → DeviceDesc
  pub manufacturer : Listed → World → String × World
  pub product : Listed → World → String × World
  pub close_listed : Listed → Action World (Unit {0})
  pub device_config : Device → ℕ → Action World ConfigHandle
  pub config_interface : ConfigHandle → ℕ → ℕ → Action World Interface
  pub in_endpoint : Interface → ℕ → Action World InEndpoint
  pub out_endpoint : Interface → ℕ → Action World OutEndpoint
  pub max_packet_size : InEndpoint → ℕ
  pub write_context : OutEndpoint → List ℕ → ℕ → Action World ℕ
  pub read_context : InEndpoint → ℕ → ℕ → Action World (List ℕ)
  pub close_interface : Interface → World → World
  pub close_config : ConfigHandle → Action World (Unit {0})
  pub close_device : Device → Action World (Unit {0})
  pub close_context : Action World (Unit {0})
  -- `time.Sleep`
  pub sleep : ℕ → World → World
