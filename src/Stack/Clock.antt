-- ===== src/Stack/Clock.antt =====
-- internal/transport/ch341.go: no call of the transport puts the clock back.
use Prim.Native.String.{String}
use remote_mfi.Prelude.{ℕ, ◌+◌, ◌≤◌, List, [], ◌∷◌, Option, none, some, inl, inr, Option-cases}
use native.Mathlib.Omega.{arith}
use remote_mfi.Errors.{GoError, Result-cases}
use remote_mfi.Config.UsbIds.{UsbId}
use remote_mfi.Transport.Devices.{Choice, find_bulk_endpoints}
use remote_mfi.Transport.Usb.{Usb}
use remote_mfi.Transport.Session.{
  usb_id_string, open_endpoints, claim, open_session, try_id, try_ids,
}
use remote_mfi.Transport.Session.Handles.{Attempt-cases}

-- A clock that does not go back: `time.Sleep` pauses for at least its duration, and a call of the USB
-- library takes some time or none.
pub record Clock (u : Usb) : Type 0 where
  pub now : u.World → ℕ
  pub now-sleep : (d : ℕ) (w : u.World) → now w + d ≤ now (u.sleep d w)
  pub now-open_device : (v p : ℕ) (w : u.World) → now w ≤ now (u.open_device v p w).1
  pub now-device_config :
      (d : u.Device) (n : ℕ) (w : u.World) → now w ≤ now (u.device_config d n w).1
  pub now-config_interface :
      (c : u.ConfigHandle) (n a : ℕ) (w : u.World) → now w ≤ now (u.config_interface c n a w).1
  pub now-in_endpoint :
      (i : u.Interface) (n : ℕ) (w : u.World) → now w ≤ now (u.in_endpoint i n w).1
  pub now-out_endpoint :
      (i : u.Interface) (n : ℕ) (w : u.World) → now w ≤ now (u.out_endpoint i n w).1
  pub now-write_context :
      (o : u.OutEndpoint) (bytes : List ℕ) (timeout : ℕ) (w : u.World)
      → now w ≤ now (u.write_context o bytes timeout w).1
  pub now-read_context :
      (i : u.InEndpoint) (n timeout : ℕ) (w : u.World)
      → now w ≤ now (u.read_context i n timeout w).1
  pub now-close_interface : (i : u.Interface) (w : u.World) → now w ≤ now (u.close_interface i w)
  pub now-close_config : (c : u.ConfigHandle) (w : u.World) → now w ≤ now (u.close_config c w).1
  pub now-close_device : (d : u.Device) (w : u.World) → now w ≤ now (u.close_device d w).1

module _ (u : Usb) (clock : Clock u) where
  open u use {World}
  open clock use {now}

  open_endpoints-advances :
      (device : u.Device) (config : u.ConfigHandle) (iface : u.Interface) (chosen : Choice)
      (identity : String) (pointer : ℕ) (w : World)
      → now w ≤ now (open_endpoints u device config iface chosen identity pointer w).1
  unfolding open_endpoints
  open_endpoints-advances device config iface chosen identity pointer w =
      let w₁ = (u.in_endpoint iface chosen.input_number w).1 in
      let w₂ = (u.out_endpoint iface chosen.output_number w₁).1 in
      ground (
        arith,
        clock.now-in_endpoint iface chosen.input_number w,
        clock.now-out_endpoint iface chosen.output_number w₁,
        clock.now-close_interface iface w₁,
        clock.now-close_interface iface w₂,
        clock.now-close_config config (u.close_interface iface w₁),
        clock.now-close_config config (u.close_interface iface w₂),
      )

  claim-advances :
      (device : u.Device) (chosen : Choice) (identity : String) (pointer : ℕ) (w : World)
      → now w ≤ now (claim u device chosen identity pointer w).1
  unfolding claim
  claim-advances device chosen identity pointer w =
      let w₁ = (u.device_config device chosen.config_number w).1 in
      let first = clock.now-device_config device chosen.config_number w in
      elim (Result-cases (u.device_config device chosen.config_number w).0) [
        | inr (e, refused) ↦ ground (arith, first)
        | inl (config, e) ↦
            let w₂ = (u.config_interface config chosen.interface_number chosen.alternate w₁).1 in
            let second =
              clock.now-config_interface config chosen.interface_number chosen.alternate w₁ in
            elim (Result-cases
              (u.config_interface config chosen.interface_number chosen.alternate w₁).0) [
                | inr (x, refused) ↦ ground (arith, first, second, clock.now-close_config config w₂)
                | inl (iface, f) ↦ ground (
                  arith,
                  first,
                  second,
                  open_endpoints-advances device config iface chosen identity pointer w₂,
                )
              ]
      ]

  open_session-advances :
      (device : u.Device) (identity : String) (pointer : ℕ) (w : World)
      → now w ≤ now (open_session u device identity pointer w).1
  unfolding open_session
  open_session-advances device identity pointer w =
      elim (Option-cases (find_bulk_endpoints (u.descriptor device).configs)) [
        | inl e ↦ rw (open_session, e) (omega arith)
        | inr (chosen, e) ↦ rw (open_session, e) (claim-advances device chosen identity pointer w)
      ]

  try_id-advances : (pointer : ℕ) (id : UsbId) (w : World) → now w ≤ now (try_id u pointer id w).1
  unfolding try_id
  try_id-advances pointer id w =
      let w₁ = (u.open_device id.vendor id.product w).1 in
      let first = clock.now-open_device id.vendor id.product w in
      elim (Result-cases (u.open_device id.vendor id.product w).0) [
        | inr (e, refused) ↦ ground (arith, first)
        | inl (none, e) ↦ ground (arith, first)
        | inl (some device, e) ↦
            let w₂ = (open_session u device (usb_id_string id) pointer w₁).1 in
            ground (
              arith,
              first,
              open_session-advances device (usb_id_string id) pointer w₁,
              clock.now-close_device device w₂,
            )
      ]

  pub try_ids-advances :
      (pointer : ℕ) (last : Option GoError) (ids : List UsbId) (w : World)
      → now w ≤ now (try_ids u pointer last ids w).1
  unfolding try_ids
  try_ids-advances pointer last [] w = omega arith
  try_ids-advances pointer last (id ∷ ids) w =
      let w₁ = (try_id u pointer id w).1 in
      let first = try_id-advances pointer id w in
      elim (Attempt-cases u (try_id u pointer id w).0) [
        | inl (inl (x, e)) ↦ ground (arith, first, try_ids-advances pointer (some x) ids w₁)
        | inl (inr e) ↦ ground (arith, first, try_ids-advances pointer last ids w₁)
        | inr (s, e) ↦ ground (arith, first)
      ]
