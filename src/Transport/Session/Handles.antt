-- ===== src/Transport/Session/Handles.antt =====
-- What opening a session does to the handles of the USB library that are open.
use Prim.Native.String.{String}
use remote_mfi.Prelude.{
  ℕ, suc, ◌-◌, ◌≡◌, ◌⊎◌, refl, List, [], ◌∷◌, Option, none, some, inl, inr, Option-cases,
}
use native.Mathlib.Omega.{arith}
use remote_mfi.Errors.{Result, ok, err, GoError, Result-cases}
use remote_mfi.Config.UsbIds.{UsbId}
use remote_mfi.Transport.Devices.{Choice, find_bulk_endpoints}
use remote_mfi.Transport.Usb.{Usb}
use remote_mfi.Transport.Usb.Counting.{Handles, Counting}
use remote_mfi.Transport.Session.{
  Session, open_endpoints, claim, open_session, Attempt, failed, opened, absent, try_id, try_ids,
  usb_id_string,
}

-- The configuration and the interface of a session that could be opened
abbrev pub with_claim : {S : Type 0} → Result S → Handles → Handles
with_claim (ok s) h = record h { configs = suc h.configs; interfaces = suc h.interfaces }
with_claim (err e) h = h

-- The handles of a session
abbrev pub with_session : {S : Type 0} → Result S → Handles → Handles
with_session (ok s) h = record h {
  devices = suc h.devices;
  configs = suc h.configs;
  interfaces = suc h.interfaces;
}
with_session (err e) h = h

module _ (u : Usb) where
  pub Attempt-cases :
      (a : Attempt u)
      → (((e : GoError) × (a ≡ failed e)) ⊎ (a ≡ absent)) ⊎ ((s : Session u) × (a ≡ opened s))
  Attempt-cases (failed e) = inl (inl (e, refl))
  Attempt-cases absent = inl (inr refl)
  Attempt-cases (opened s) = inr (s, refl)

module _ (u : Usb) (counting : Counting u) where
  open u use {World}
  open counting use {handles}

  abbrev dropped : {S : Type 0} → Result S → Handles → Handles
  dropped (ok s) h = h
  dropped (err e) h = record h { configs = h.configs - 1; interfaces = h.interfaces - 1 }

  open_endpoints-handles :
      (device : u.Device) (config : u.ConfigHandle) (iface : u.Interface) (chosen : Choice)
      (identity : String) (pointer : ℕ) (w : World)
      → (handles w).interfaces ≡ 1
      → handles (open_endpoints u device config iface chosen identity pointer w).1
        ≡ dropped (open_endpoints u device config iface chosen identity pointer w).0 (handles w)
  unfolding open_endpoints
  open_endpoints-handles device config iface chosen identity pointer w one =
      let w₁ = (u.in_endpoint iface chosen.input_number w).1 in
      let w₂ = (u.out_endpoint iface chosen.output_number w₁).1 in
      ground (
        arith,
        counting.in_endpoint-handles iface chosen.input_number w,
        counting.out_endpoint-handles iface chosen.output_number w₁,
        counting.close_interface-handles iface w₁,
        counting.close_interface-handles iface w₂,
        counting.close_config-handles config (u.close_interface iface w₁),
        counting.close_config-handles config (u.close_interface iface w₂),
      )

  claim-handles :
      (device : u.Device) (chosen : Choice) (identity : String) (pointer : ℕ) (w : World)
      → (handles w).interfaces ≡ 0
      → handles (claim u device chosen identity pointer w).1
        ≡ with_claim (claim u device chosen identity pointer w).0 (handles w)
  unfolding claim
  claim-handles device chosen identity pointer w free =
      let (r, w₁) = u.device_config device chosen.config_number w in
      elim (Result-cases (u.device_config device chosen.config_number w).0) [
        | inr (e, refused) ↦
            ground (arith, counting.device_config-handles device chosen.config_number w)
        | inl (config, e) ↦
            let w₂ = (u.config_interface config chosen.interface_number chosen.alternate w₁).1 in
            elim (Result-cases
              (u.config_interface config chosen.interface_number chosen.alternate w₁).0) [
                | inr (x, refused) ↦ ground (
                  arith,
                  counting.device_config-handles device chosen.config_number w,
                  counting.config_interface-handles config chosen.interface_number chosen.alternate
                      w₁,
                  counting.close_config-handles config w₂,
                )
                | inl (iface, f) ↦ ground (
                  arith,
                  counting.device_config-handles device chosen.config_number w,
                  counting.config_interface-handles config chosen.interface_number chosen.alternate
                      w₁,
                  open_endpoints-handles device config iface chosen identity pointer w₂,
                )
              ]
      ]

  open_session-handles :
      (device : u.Device) (identity : String) (pointer : ℕ) (w : World)
      → (handles w).interfaces ≡ 0
      → handles (open_session u device identity pointer w).1
        ≡ with_claim (open_session u device identity pointer w).0 (handles w)
  unfolding open_session
  open_session-handles device identity pointer w free =
      elim (Option-cases (find_bulk_endpoints (u.descriptor device).configs)) [
        | inl e ↦ rw (open_session, e)
        | inr (chosen, e) ↦
            rw (open_session, e) (claim-handles device chosen identity pointer w free)
      ]

  abbrev of_attempt : Attempt u → Handles → Handles
  of_attempt (opened s) h = record h {
    devices = suc h.devices;
    configs = suc h.configs;
    interfaces = suc h.interfaces;
  }
  of_attempt (failed e) h = h
  of_attempt absent h = h

  pub try_id-handles :
      (pointer : ℕ) (id : UsbId) (w : World)
      → (handles w).configs ≡ 0
      → (handles w).interfaces ≡ 0
      → handles (try_id u pointer id w).1 ≡ of_attempt (try_id u pointer id w).0 (handles w)
  unfolding try_id
  try_id-handles pointer id w none_held free =
      let (r, w₁) = u.open_device id.vendor id.product w in
      elim (Result-cases (u.open_device id.vendor id.product w).0) [
        | inr (e, refused) ↦ ground (arith, counting.open_device-handles id.vendor id.product w)
        | inl (none, e) ↦ ground (arith, counting.open_device-handles id.vendor id.product w)
        | inl (some device, e) ↦
            let w₂ = (open_session u device (usb_id_string id) pointer w₁).1 in
            ground (
              arith,
              counting.open_device-handles id.vendor id.product w,
              open_session-handles device (usb_id_string id) pointer w₁,
              counting.close_device-handles device w₂,
            )
      ]

  pub try_ids-handles :
      (pointer : ℕ) (last : Option GoError) (ids : List UsbId) (w : World)
      → (handles w).configs ≡ 0
      → (handles w).interfaces ≡ 0
      → handles (try_ids u pointer last ids w).1
        ≡ with_session (try_ids u pointer last ids w).0 (handles w)
  unfolding try_ids
  try_ids-handles pointer last [] w none_held free = refl
  try_ids-handles pointer last (id ∷ ids) w none_held free =
      let w₁ = (try_id u pointer id w).1 in
      elim (Attempt-cases u (try_id u pointer id w).0) [
        | inl (inl (x, e)) ↦ ground (
          arith,
          try_id-handles pointer id w none_held free,
          try_ids-handles pointer (some x) ids w₁,
        )
        | inl (inr e) ↦
            ground (
              arith,
              try_id-handles pointer id w none_held free,
              try_ids-handles pointer last ids w₁,
            )
        | inr (s, e) ↦ ground (arith, try_id-handles pointer id w none_held free)
      ]
