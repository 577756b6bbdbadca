-- ===== src/Transport/Inspection.antt =====
-- internal/transport/ch341.go: `InspectUSB` and what it lists. The map of the devices is an association list of
-- the keys.
pub mod Accounting
pub mod Ready
use Prim.Native.String.{String, ◌++◌ as append}
use text.Mathlib.Text.{◌==◌ as same_text}
use remote_mfi.Prelude.{
  ℕ, ◌%◌, Bool, true, false, ◌&&◌, ◌||◌, not, List, [], ◌∷◌, Option, none, some, ltb, ◌==◌,
  if◌then◌else◌,
}
use remote_mfi.Fmt.{decimal, hex4}
use remote_mfi.Errors.{Result, ok, err, GoError}
use remote_mfi.Httpapi.Messages.{LibraryTexts, error_text}
use remote_mfi.Config.UsbIds.{UsbId}
use remote_mfi.Transport.Usb.{Usb, DeviceDesc}
use remote_mfi.Transport.Session.{Ch341, Session, ensure_session}

-- `USBDeviceInfo`
pub record UsbDeviceInfo : Type 0 where
  pub bus : ℕ
  pub device : ℕ
  pub vendor : String
  pub product_id : String
  pub manufacturer : String
  pub product : String
  pub speed : String
  pub class : ℕ
  pub candidate : Bool

-- `USBStatus`
pub record UsbStatus : Type 0 where
  pub state : String
  pub reason : String
  pub vidpid : String
  pub devices : List UsbDeviceInfo

-- `matches`
unfoldable pub matches : List UsbId → ℕ → ℕ → Bool
matches [] vendor product = false
matches (id ∷ ids) vendor product =
    (id.vendor == vendor && id.product == product) || matches ids vendor product

abbrev pub usb_device_key : ℕ → ℕ → String
usb_device_key bus address = append (decimal bus) (append ":" (decimal address))

abbrev pub Descriptors : Type 0
Descriptors = List (String × UsbDeviceInfo)

-- `descriptors[key]`
unfoldable pub info_at : String → Descriptors → Option UsbDeviceInfo
info_at key [] = none
info_at key ((k, info) ∷ rest) = if same_text k key then some info else info_at key rest

-- `descriptors[key] = info`
unfoldable pub put_info : String → UsbDeviceInfo → Descriptors → Descriptors
put_info key info [] = (key, info) ∷ []
put_info key info ((k, old) ∷ rest) =
    if same_text k key then (key, info) ∷ rest else (k, old) ∷ put_info key info rest

-- What the callback of `enumerateUSB` notes of a device
abbrev pub device_info : List UsbId → DeviceDesc → UsbDeviceInfo
device_info usb_ids desc = record {
  bus = desc.bus;
  device = desc.address;
  vendor = hex4 (desc.vendor % 65_536);
  product_id = hex4 (desc.product % 65_536);
  manufacturer = "";
  product = "";
  speed = desc.speed;
  class = desc.class;
  candidate = matches usb_ids (desc.vendor % 65_536) (desc.product % 65_536);
}

unfoldable pub note_devices : List UsbId → List DeviceDesc → Descriptors → Descriptors
note_devices usb_ids [] infos = infos
note_devices usb_ids (desc ∷ descs) infos =
    note_devices usb_ids descs
      (put_info (usb_device_key desc.bus desc.address) (device_info usb_ids desc) infos)

-- The order of the list
abbrev pub comes_before : UsbDeviceInfo → UsbDeviceInfo → Bool
comes_before a b = if not (a.bus == b.bus) then ltb a.bus b.bus else ltb a.device b.device

-- `sort.Slice`
unfoldable pub insert_info : UsbDeviceInfo → List UsbDeviceInfo → List UsbDeviceInfo
insert_info info [] = info ∷ []
insert_info info (first ∷ rest) =
    if comes_before first info then first ∷ insert_info info rest else info ∷ first ∷ rest

unfoldable pub sort_infos : Descriptors → List UsbDeviceInfo
sort_infos [] = []
sort_infos ((key, info) ∷ rest) = insert_info info (sort_infos rest)

unfoldable pub candidate_found : Descriptors → Bool
candidate_found [] = false
candidate_found ((key, info) ∷ rest) = info.candidate || candidate_found rest

module _ (u : Usb) where
  open u use {World, Listed}

  -- The strings that an opened device has of itself
  unfoldable pub read_strings : Listed → String → Descriptors → World → Descriptors × World
  read_strings device key infos w = elim (info_at key infos) [
    | none ↦ (infos, w)
    | some info ↦
        let (manufacturer, w₁) = u.manufacturer device w in
        let (product, w₂) = u.product device w₁ in
        (put_info key (record info { manufacturer = manufacturer; product = product }) infos, w₂)
  ]

  -- The loop over the devices that were opened
  unfoldable pub read_devices : List Listed → Descriptors → World → Descriptors × World
  read_devices [] infos w = (infos, w)
  read_devices (device ∷ devices) infos w =
      let desc = u.listed_descriptor device in
      let (infos', w₁) = read_strings device (usb_device_key desc.bus desc.address) infos w in
      let (r, w₂) = u.close_listed device w₁ in read_devices devices infos' w₂

  -- `enumerateUSB`
  unfoldable pub enumerate_usb : List UsbId → Bool → World → (List UsbDeviceInfo × Bool) × World
  enumerate_usb usb_ids strings w =
      let ((descs, opened), w₁) = u.open_devices strings w in
      let (infos, w₂) = read_devices opened (note_devices usb_ids descs []) w₁ in
      ((sort_infos infos, candidate_found infos), w₂)

module _ (texts : LibraryTexts) (u : Usb) where
  open u use {World}

  -- The answer of `InspectUSB` for a session or an error
  abbrev pub session_status : List UsbDeviceInfo → Result (Session u) → UsbStatus
  session_status devices (err e) = record {
    state = "error";
    reason = error_text texts e;
    vidpid = "";
    devices = devices;
  }
  session_status devices (ok session) = record {
    state = "ready";
    reason = "";
    vidpid = session.identity;
    devices = devices;
  }

  -- `InspectUSB` behind the list, with the mutex
  abbrev pub inspect_session : List UsbDeviceInfo → Ch341 u → World → UsbStatus × Ch341 u × World
  inspect_session devices t w =
      let (r, t', w') = ensure_session u t w in
      if t.closed
      then (
        record {
          state = "error";
          reason = "USB context is closed";
          vidpid = "";
          devices = devices;
        },
        t,
        w,
      )
      else (session_status devices r, t', w')

  -- `InspectUSB`
  unfoldable pub inspect_usb : Bool → Ch341 u → World → UsbStatus × Ch341 u × World
  inspect_usb strings t w =
      let ((devices, found), w') = enumerate_usb u t.usb_ids strings w in
      let rest = inspect_session devices t w' in
      if not found
      then (
        record {
          state = "missing";
          reason = "no matching USB device";
          vidpid = "";
          devices = devices;
        },
        t,
        w',
      )
      else rest
