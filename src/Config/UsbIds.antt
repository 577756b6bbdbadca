-- ===== src/Config/UsbIds.antt =====
-- internal/config/config.go: the USB identities, `USBID.String` and `parseUSBIDs`.
pub mod RoundTrip
pub mod Valid
use Prim.Native.String.{String, ◌++◌ as append}
use remote_mfi.Prelude.{
  ℕ, ◌+◌, ◌-◌, ◌/◌, ◌%◌, Bool, true, false, ◌&&◌, ◌||◌, List, [], ◌∷◌, ◌++◌, none, some, ltb, ◌==◌,
  if◌then◌else◌,
}
use remote_mfi.Errors.{Result, ok, err, text}
use remote_mfi.Config.Numbers.{parse_hex16}
use remote_mfi.Config.Texts.{split}

-- `USBID`
pub record UsbId : Type 0 where
  pub vendor : ℕ
  pub product : ℕ

-- A digit of `%04x`
abbrev pub hex_digit : ℕ → ℕ
hex_digit d = if ltb d 10 then b'0' + d else b'a' + (d - 10)

unfoldable pub hex4_text : ℕ → List ℕ
hex4_text n =
    hex_digit (n / 4096 % 16)
    ∷ hex_digit (n / 256 % 16)
    ∷ hex_digit (n / 16 % 16)
    ∷ hex_digit (n % 16)
    ∷ []

-- `USBID.String`
unfoldable pub usb_id_text : UsbId → List ℕ
usb_id_text id = hex4_text id.vendor ++ b':' ∷ hex4_text id.product

abbrev pub same_id : UsbId → UsbId → Bool
same_id a b = a.vendor == b.vendor && a.product == b.product

-- Whether an identity is among those of the list, which are the keys of the map `seen`
unfoldable pub is_seen : UsbId → List UsbId → Bool
is_seen id [] = false
is_seen id (other ∷ ids) = same_id other id || is_seen id ids

-- What the configuration uses of package strings, and the verb `%q` of package fmt
pub record TextLibrary : Type 0 where
  pub trim_space : List ℕ → List ℕ
  pub quote : List ℕ → String

-- The test behind the loop
abbrev pub at_least_one : List UsbId → Result (List UsbId)
at_least_one [] = err (text "at least one vid:pid is required")
at_least_one (id ∷ ids) = ok (id ∷ ids)

module _ (library : TextLibrary) where
  open library use {trim_space, quote}

  -- The identity that the two fields of a part are
  unfoldable pub parse_fields : List ℕ → List (List ℕ) → Result UsbId
  parse_fields part (vendor ∷ product ∷ []) = elim (parse_hex16 vendor) [
    | none ↦ err (text (append "invalid vendor ID " (quote vendor)))
    | some v ↦ elim (parse_hex16 product) [
      | none ↦ err (text (append "invalid product ID " (quote product)))
      | some p ↦ ok (record { vendor = v; product = p })
    ]
  ]
  parse_fields part fields =
      err (text (append (quote part) " must use lowercase hexadecimal vid:pid"))

  -- The body of the loop up to `id`
  unfoldable pub parse_part : List ℕ → Result UsbId
  parse_part part = parse_fields part (split b':' (trim_space part))

  -- The loop over the parts, with the identities so far
  unfoldable pub parse_parts : List (List ℕ) → List UsbId → Result (List UsbId)
  parse_parts [] ids = ok ids
  parse_parts (part ∷ parts) ids = elim (parse_part part) [
    | err e ↦ err e
    | ok id ↦ parse_parts parts (if is_seen id ids then ids else ids ++ id ∷ [])
  ]

  -- `parseUSBIDs`
  unfoldable pub parse_usb_ids : List ℕ → Result (List UsbId)
  parse_usb_ids value = elim (parse_parts (split b',' value) []) [
    | err e ↦ err e
    | ok ids ↦ at_least_one ids
  ]
