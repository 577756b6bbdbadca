-- ===== src/Transport/Usb/Counting.antt =====
-- What the USB library documents of its handles.
use remote_mfi.Prelude.{ℕ, suc, ◌+◌, ◌-◌, ◌≡◌, Bool, List, length, Option, none, some}
use remote_mfi.Errors.{Result, ok, err}
use remote_mfi.Transport.Usb.{Usb}

-- How many devices, configurations and interfaces are open, and how many listed devices
pub record Handles : Type 0 where
  pub devices : ℕ
  pub configs : ℕ
  pub interfaces : ℕ
  pub listed : ℕ

abbrev pub with_device : {D : Type 0} → Result (Option D) → Handles → Handles
with_device (ok (some d)) h = record h { devices = suc h.devices }
with_device (ok none) h = h
with_device (err e) h = h

abbrev pub with_config : {C : Type 0} → Result C → Handles → Handles
with_config (ok c) h = record h { configs = suc h.configs }
with_config (err e) h = h

abbrev pub with_interface : {I : Type 0} → Result I → Handles → Handles
with_interface (ok i) h = record h { interfaces = suc h.interfaces }
with_interface (err e) h = h

-- What the USB library documents of its handles: an open call that succeeds makes one, a close call gives
-- one back, and nothing else changes them. But a configuration is given back only if no interface is claimed, and
-- a device only if no configuration is: nothing is known of a close call that comes too early. A listed device
-- never has a configuration.
pub record Counting (u : Usb) : Type 0 where
  pub handles : u.World → Handles
  pub open_device-handles :
      (vendor product : ℕ) (w : u.World)
      → handles (u.open_device vendor product w).1
        ≡ with_device (u.open_device vendor product w).0 (handles w)
  pub open_devices-handles :
      (strings : Bool) (w : u.World)
      → let ((descs, devices), w') = u.open_devices strings w in
        handles w' ≡ record (handles w) { listed = (handles w).listed + length devices }
  pub manufacturer-handles :
      (d : u.Listed) (w : u.World) → handles (u.manufacturer d w).1 ≡ handles w
  pub product-handles : (d : u.Listed) (w : u.World) → handles (u.product d w).1 ≡ handles w
  pub device_config-handles :
      (d : u.Device) (n : ℕ) (w : u.World)
      → handles (u.device_config d n w).1 ≡ with_config (u.device_config d n w).0 (handles w)
  pub config_interface-handles :
      (c : u.ConfigHandle) (n a : ℕ) (w : u.World)
      → handles (u.config_interface c n a w).1
        ≡ with_interface (u.config_interface c n a w).0 (handles w)
  pub in_endpoint-handles :
      (i : u.Interface) (n : ℕ) (w : u.World) → handles (u.in_endpoint i n w).1 ≡ handles w
  pub out_endpoint-handles :
      (i : u.Interface) (n : ℕ) (w : u.World) → handles (u.out_endpoint i n w).1 ≡ handles w
  pub write_context-handles :
      (o : u.OutEndpoint) (bytes : List ℕ) (timeout : ℕ) (w : u.World)
      → handles (u.write_context o bytes timeout w).1 ≡ handles w
  pub read_context-handles :
      (i : u.InEndpoint) (n timeout : ℕ) (w : u.World)
      → handles (u.read_context i n timeout w).1 ≡ handles w
  pub sleep-handles : (d : ℕ) (w : u.World) → handles (u.sleep d w) ≡ handles w
  pub close_interface-handles :
      (i : u.Interface) (w : u.World)
      → handles (u.close_interface i w)
        ≡ record (handles w) { interfaces = (handles w).interfaces - 1 }
  pub close_config-handles :
      (c : u.ConfigHandle) (w : u.World)
      → (handles w).interfaces ≡ 0
      → handles (u.close_config c w).1 ≡ record (handles w) { configs = (handles w).configs - 1 }
  pub close_device-handles :
      (d : u.Device) (w : u.World)
      → (handles w).configs ≡ 0
      → handles (u.close_device d w).1 ≡ record (handles w) { devices = (handles w).devices - 1 }
  pub close_listed-handles :
      (d : u.Listed) (w : u.World)
      → handles (u.close_listed d w).1 ≡ record (handles w) { listed = (handles w).listed - 1 }
  pub close_context-handles : (w : u.World) → handles (u.close_context w).1 ≡ handles w
