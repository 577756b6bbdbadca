-- ===== src/Config/UsbIds/RoundTrip.antt =====
-- `parseUSBIDs` reads what `USBID.String` writes, and answers with identities that stand once each.
use remote_mfi.Prelude.{
  ℕ, ◌≡◌, refl, sym, subst, ap, ◌∙◌, ◌≤◌, ◌<◌, ◌/◌, ◌%◌, false, List, [], ◌∷◌, ◌++◌, some, All, map,
  append_assoc, append-nil, All-append,
}
use native.Mathlib.Omega.{arith}
use remote_mfi.Errors.{ok}
use remote_mfi.Config.Numbers.{digit_value, next_number, scan, parse_hex16}
use remote_mfi.Config.Texts.{
  split, join, contains, split_without, split-append, split-join, contains-append,
}
use remote_mfi.Config.UsbIds.{
  UsbId, hex_digit, hex4_text, usb_id_text, same_id, is_seen, TextLibrary, parse_fields, parse_part,
  parse_parts, parse_usb_ids,
}

digit_value-hex_digit : (d : ℕ) → d < 16 → digit_value (hex_digit d) ≡ some d
unfolding digit_value
digit_value-hex_digit d h = ground arith

parse_hex16-hex4_text : (n : ℕ) → n < 65_536 → parse_hex16 (hex4_text n) ≡ some n
unfolding parse_hex16 hex4_text scan next_number
parse_hex16-hex4_text n h = ground (
  arith,
  digit_value-hex_digit (n / 4096 % 16),
  digit_value-hex_digit (n / 256 % 16),
  digit_value-hex_digit (n / 16 % 16),
  digit_value-hex_digit (n % 16),
)

-- A graphic byte of ASCII
abbrev pub IsGraphic : ℕ → Type 0
IsGraphic c = (33 ≤ c) × (c ≤ 126)

hex_digit-IsGraphic : (d : ℕ) → d < 16 → IsGraphic (hex_digit d)
hex_digit-IsGraphic d h = (ground arith, ground arith)

contains-hex4_text :
    (n : ℕ)
    → (contains b':' (hex4_text n) ≡ false)
      × (contains b',' (hex4_text n) ≡ false)
      × (contains b',' (b':' ∷ hex4_text n) ≡ false)
unfolding contains hex4_text
contains-hex4_text n = (ground arith, ground arith, ground arith)

hex4_text-IsGraphic : (n : ℕ) → All IsGraphic (hex4_text n)
unfolding hex4_text
hex4_text-IsGraphic n =
    (graphic (n / 4096), (graphic (n / 256), (graphic (n / 16), (graphic n, tt))))
  where
    graphic : (m : ℕ) → IsGraphic (hex_digit (m % 16))
    graphic m = hex_digit-IsGraphic (m % 16) (omega arith)

usb_id_text-IsGraphic : (id : UsbId) → All IsGraphic (usb_id_text id)
unfolding usb_id_text
usb_id_text-IsGraphic id =
    All-append IsGraphic (hex4_text id.vendor) (b':' ∷ hex4_text id.product)
      (hex4_text-IsGraphic id.vendor) ((omega arith, omega arith), hex4_text-IsGraphic id.product)

contains-usb_id_text : (id : UsbId) → contains b',' (usb_id_text id) ≡ false
unfolding usb_id_text
contains-usb_id_text id =
    contains-append b',' (hex4_text id.vendor) (b':' ∷ hex4_text id.product)
      (contains-hex4_text id.vendor).1 (contains-hex4_text id.product).2

split-usb_id_text :
    (id : UsbId) → split b':' (usb_id_text id) ≡ hex4_text id.vendor ∷ hex4_text id.product ∷ []
unfolding usb_id_text
split-usb_id_text id =
    rw
      (split-append b':' (hex4_text id.vendor) (hex4_text id.product)
        (contains-hex4_text id.vendor).0)
      (rw (split_without b':' (hex4_text id.product) (contains-hex4_text id.product).0))

-- Both numbers have 16 bits.
abbrev pub Is16Bit : UsbId → Type 0
Is16Bit id = (id.vendor < 65_536) × (id.product < 65_536)

-- No identity stands twice.
abbrev pub IsDistinct : List UsbId → Type 0
IsDistinct [] = Unit
IsDistinct (id ∷ ids) = (is_seen id ids ≡ false) × IsDistinct ids

-- `strings.TrimSpace` changes no text without white space.
abbrev pub KeepsGraphic : TextLibrary → Type 0
KeepsGraphic library = (s : List ℕ) → All IsGraphic s → library.trim_space s ≡ s

module _ (library : TextLibrary) where
  open library use {trim_space}

  parse_part-usb_id_text :
      KeepsGraphic library → (id : UsbId) → Is16Bit id → parse_part library (usb_id_text id) ≡ ok id
  unfolding parse_part parse_fields
  parse_part-usb_id_text keeps id h = rw (keeps (usb_id_text id) (usb_id_text-IsGraphic id)) (
      rw (split-usb_id_text id) (
        rw (
          parse_hex16-hex4_text id.vendor h.0,
          parse_hex16-hex4_text id.product h.1,
          parse_fields,
        )))

is_seen-append :
    (id next : UsbId) (ids rest : List UsbId)
    → is_seen id (ids ++ next ∷ rest) ≡ false
    → same_id next id ≡ false
unfolding is_seen
is_seen-append id next [] rest h = ground arith
is_seen-append id next (first ∷ ids) rest h = ground (arith, is_seen-append id next ids rest)

-- The identity behind the others of a list is none of them.
is_seen_behind :
    (ids : List UsbId) (id : UsbId) (rest : List UsbId)
    → IsDistinct (ids ++ id ∷ rest)
    → is_seen id ids ≡ false
unfolding is_seen
is_seen_behind [] id rest h = refl
is_seen_behind (first ∷ ids) id rest h =
    ground (arith, is_seen_behind ids id rest h.1, is_seen-append first id ids rest h.0)

module _ (library : TextLibrary) (keeps : KeepsGraphic library) where
  parse_parts-usb_id_text :
      (ids rest : List UsbId)
      → All Is16Bit rest
      → IsDistinct (ids ++ rest)
      → parse_parts library (map usb_id_text rest) ids ≡ ok (ids ++ rest)
  unfolding parse_parts
  parse_parts-usb_id_text ids [] h d = rw (parse_parts, append-nil)
  parse_parts-usb_id_text ids (id ∷ rest) h d =
      rw (parse_parts, parse_part-usb_id_text library keeps id h.0, is_seen_behind ids id rest d)
        (parse_parts-usb_id_text (ids ++ id ∷ []) rest h.1
            (subst IsDistinct (sym (append_assoc ids (id ∷ []) rest)) d)
          ∙ ap ok (append_assoc ids (id ∷ []) rest))

  contains-usb_ids : (ids : List UsbId) → All (λ s. contains b',' s ≡ false) (map usb_id_text ids)
  contains-usb_ids [] = tt
  contains-usb_ids (id ∷ ids) = (contains-usb_id_text id, contains-usb_ids ids)

  -- The identities of a list in which none stands twice, each of two 16-bit numbers, are read back
  -- in their order from the text in which they are separated by commas, if `strings.TrimSpace`
  -- changes no text without white space.
  pub parse_usb_ids-usb_id_text :
      (id : UsbId) (ids : List UsbId)
      → All Is16Bit (id ∷ ids)
      → IsDistinct (id ∷ ids)
      → parse_usb_ids library (join b',' (map usb_id_text (id ∷ ids))) ≡ ok (id ∷ ids)
  unfolding parse_usb_ids
  parse_usb_ids-usb_id_text id ids h d =
      rw
        (
          parse_usb_ids,
          split-join b',' (usb_id_text id) (map usb_id_text ids) (contains-usb_ids (id ∷ ids)),
        )
        (rw (parse_parts-usb_id_text [] (id ∷ ids) h d))
