-- ===== src/Transport/Inspection/Accounting.antt =====
-- What `InspectUSB` does to the handles of the USB library that are open.
use Prim.Native.String.{String}
use remote_mfi.Prelude.{
  ℕ, ◌-◌, ◌≡◌, Bool, not, List, [], ◌∷◌, length, inl, inr, if-intro, Option-cases,
}
use native.Mathlib.Omega.{arith}
use remote_mfi.Httpapi.Messages.{LibraryTexts}
use remote_mfi.Config.UsbIds.{UsbId}
use remote_mfi.Transport.Usb.{Usb}
use remote_mfi.Prelude.Int.{ℤ}
use remote_mfi.Transport.Execution.Keeps.{Keeps}
use remote_mfi.Transport.Session.{Ch341, transaction, close}
use remote_mfi.Transport.Usb.Counting.{Counting}
use remote_mfi.Transport.Session.Accounting.{
  IsAccounted, IsAccounted-same, ensure_session-IsAccounted, transaction-Keeps, close-IsAccounted,
}
use remote_mfi.Transport.Inspection.{
  UsbDeviceInfo, UsbStatus, Descriptors, info_at, usb_device_key, read_strings, read_devices,
  enumerate_usb, note_devices, inspect_session, inspect_usb,
}

module _ (u : Usb) (counting : Counting u) where
  open u use {World}
  open counting use {handles}

  read_strings-handles :
      (device : u.Listed) (key : String) (infos : Descriptors) (w : World)
      → handles (read_strings u device key infos w).1 ≡ handles w
  unfolding read_strings
  read_strings-handles device key infos w = elim (Option-cases (info_at key infos)) [
    | inl e ↦ ground arith
    | inr (info, e) ↦ ground (
      arith,
      counting.manufacturer-handles device w,
      counting.product-handles device (u.manufacturer device w).1,
    )
  ]

  -- Each device of the list is closed.
  read_devices-handles :
      (devices : List u.Listed) (infos : Descriptors) (w : World)
      → handles (read_devices u devices infos w).1
        ≡ record (handles w) { listed = (handles w).listed - length devices }
  unfolding read_devices
  read_devices-handles [] infos w = ground arith
  read_devices-handles (device ∷ devices) infos w =
      let desc = u.listed_descriptor device in
      let key = usb_device_key desc.bus desc.address in
      let w₁ = (read_strings u device key infos w).1 in
      let w₂ = (u.close_listed device w₁).1 in
      ground (
        arith,
        read_strings-handles device key infos w,
        counting.close_listed-handles device w₁,
        read_devices-handles devices (read_strings u device key infos w).0 w₂,
      )

  enumerate_usb-handles :
      (usb_ids : List UsbId) (strings : Bool) (w : World)
      → handles (enumerate_usb u usb_ids strings w).1 ≡ handles w
  unfolding enumerate_usb
  enumerate_usb-handles usb_ids strings w =
      let listed = (u.open_devices strings w).0 in
      let w₁ = (u.open_devices strings w).1 in
      ground (
        arith,
        counting.open_devices-handles strings w,
        read_devices-handles listed.1 (note_devices usb_ids listed.0 []) w₁,
      )

  module _ (texts : LibraryTexts) (n : ℕ) where
    pub inspect_session-IsAccounted :
        (devices : List UsbDeviceInfo) (t : Ch341 u) (w : World)
        → IsAccounted u counting n (t, w)
        → let (status, t', w') = inspect_session texts u devices t w in
          IsAccounted u counting n (t', w')
    inspect_session-IsAccounted devices t w h =
        if-intro (λ (r : UsbStatus × Ch341 u × World). IsAccounted u counting n (r.1, r.2)) t.closed
          _ _ (λ closed. h) (λ still_open. ensure_session-IsAccounted u counting n t w still_open h)

    inspect_usb-IsAccounted :
        (strings : Bool) (t : Ch341 u) (w : World)
        → IsAccounted u counting n (t, w)
        → let (status, t', w') = inspect_usb texts u strings t w in
          IsAccounted u counting n (t', w')
    unfolding inspect_usb
    inspect_usb-IsAccounted strings t w h =
        let ((devices, found), w') = enumerate_usb u t.usb_ids strings w in
        let h' = IsAccounted-same u counting n h (enumerate_usb-handles t.usb_ids strings w) in
        if-intro (λ (r : UsbStatus × Ch341 u × World). IsAccounted u counting n (r.1, r.2))
          (not found) _ _ (λ missing. h') (λ present. inspect_session-IsAccounted devices t w' h')

-- On a USB library that counts its open handles as documented, and refuses to give back what is still in use:
-- if what is open is one device, one configuration and one interface when the transport has a session, and none of
-- these when it has none or is closed, then it is so after a `Transaction`, whatever it answers, after an
-- `InspectUSB` and after a `Close`, each on its own; and each leaves as many listed devices open as there were.
pub operations-IsAccounted :
    (u : Usb) (counting : Counting u) (texts : LibraryTexts) (n : ℕ) (t : Ch341 u) (w : u.World)
    → IsAccounted u counting n (t, w)
    → ((address : ℕ) (bytes : List ℕ) (read_length : ℤ)
        → Keeps (IsAccounted u counting n) (transaction u address bytes read_length (t, w)))
      × ((strings : Bool)
          → let (status, t', w') = inspect_usb texts u strings t w in
            IsAccounted u counting n (t', w'))
      × (let (r, t', w') = close u t w in IsAccounted u counting n (t', w'))
operations-IsAccounted u counting texts n t w h = (
  (λ address bytes read_length. transaction-Keeps u counting n address bytes read_length t w h),
  (λ strings. inspect_usb-IsAccounted u counting texts n strings t w h),
  close-IsAccounted u counting n t w h,
)
