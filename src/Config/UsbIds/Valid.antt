-- ===== src/Config/UsbIds/Valid.antt =====
-- What `parseUSBIDs` answers with, for any text.
use remote_mfi.Prelude.{
  ℕ, ◌≡◌, refl, subst, ◌≤◌, ◌<◌, ◌+◌, ◌*◌, ◌&&◌, ◌==◌, ltb, leb, if◌then◌else◌, Bool, true, false,
  List, [], ◌∷◌, ◌++◌, Option, none, some, All, All-append, inl, inr, Bool-cases, Option-cases,
  length,
}
use native.Mathlib.Omega.{arith}
use remote_mfi.Errors.{ok, Result-cases}
use remote_mfi.Config.Numbers.{digit_value, next_number, scan, parse_hex16}
use remote_mfi.Config.Texts.{split}
use remote_mfi.Config.UsbIds.{
  UsbId, same_id, is_seen, TextLibrary, parse_fields, parse_part, parse_parts, at_least_one,
  parse_usb_ids,
}
use remote_mfi.Config.UsbIds.RoundTrip.{Is16Bit, IsDistinct}

-- A number that is read so far is small.
abbrev IsSmall : ℕ → Option ℕ → Type 0
IsSmall most none = Unit
IsSmall most (some n) = n ≤ most

next_number-IsSmall :
    (base most n : ℕ) (digit : Option ℕ) → IsSmall most (next_number base most n digit)
unfolding next_number
next_number-IsSmall base most n none = tt
next_number-IsSmall base most n (some d) =
    elim (Bool-cases (ltb d base && leb (n * base + d) most)) [
      | inl fits ↦ rw fits (ground arith)
      | inr large ↦ rw large tt
    ]

step-IsSmall :
    (skip : Bool) (base most n c : ℕ)
    → n ≤ most
    → IsSmall most (if skip then some n else next_number base most n (digit_value c))
step-IsSmall true base most n c small = small
step-IsSmall false base most n c small = next_number-IsSmall base most n (digit_value c)

pub scan-le :
    (underscore : Bool) (base most : ℕ) (o : Option ℕ) (s : List ℕ) {n : ℕ}
    → IsSmall most o
    → scan underscore base most o s ≡ some n
    → n ≤ most
unfolding scan
scan-le underscore base most none s small h = cc
scan-le underscore base most (some m) [] small h = ground (arith, small, h)
scan-le underscore base most (some m) (c ∷ s) small h =
    scan-le underscore base most
      (if underscore && (c == b'_') then some m else next_number base most m (digit_value c)) s
      (step-IsSmall (underscore && (c == b'_')) base most m c small) h

parse_hex16-lt : (s : List ℕ) {n : ℕ} → parse_hex16 s ≡ some n → n < 65_536
unfolding parse_hex16
parse_hex16-lt [] h = cc
parse_hex16-lt (c ∷ s) h = omega (arith, scan-le false 16 0xffff (some 0) (c ∷ s) (omega arith) h)

-- A list of identities that stand once each, of 16-bit numbers
pub record IsValid (ids : List UsbId) : Type 0 where
  pub sixteen_bit : All Is16Bit ids
  pub distinct : IsDistinct ids

is_seen_append :
    (id next : UsbId) (ids : List UsbId)
    → is_seen id ids ≡ false
    → same_id next id ≡ false
    → is_seen id (ids ++ next ∷ []) ≡ false
unfolding is_seen
is_seen_append id next [] h k = ground arith
is_seen_append id next (first ∷ ids) h k = ground (arith, is_seen_append id next ids)

IsDistinct-append :
    (ids : List UsbId) (id : UsbId)
    → IsDistinct ids
    → is_seen id ids ≡ false
    → IsDistinct (ids ++ id ∷ [])
unfolding is_seen
IsDistinct-append [] id d h = (refl, tt)
IsDistinct-append (first ∷ ids) id d h =
    (is_seen_append first id ids d.0 (ground arith), IsDistinct-append ids id d.1 (ground arith))

at_least_one_inverse :
    (parsed : List UsbId) {ids : List UsbId}
    → at_least_one parsed ≡ ok ids
    → (parsed ≡ ids) × (1 ≤ length ids)
at_least_one_inverse [] h = cc
at_least_one_inverse (id ∷ parsed) {ids = ids} h =
    let e : id ∷ parsed ≡ ids = cc in (e, subst (λ l. 1 ≤ length l) e (omega arith))

module _ (library : TextLibrary) where
  open library use {trim_space}

  parse_fields-Is16Bit :
      (part : List ℕ) (fields : List (List ℕ)) {id : UsbId}
      → parse_fields library part fields ≡ ok id
      → Is16Bit id
  unfolding parse_fields
  parse_fields-Is16Bit part [] h = cc
  parse_fields-Is16Bit part (vendor ∷ []) h = cc
  parse_fields-Is16Bit part (vendor ∷ product ∷ more ∷ fields) h = cc
  parse_fields-Is16Bit part (vendor ∷ product ∷ []) h = elim (Option-cases (parse_hex16 vendor)) [
    | inl e ↦ cc
    | inr (v, e) ↦ elim (Option-cases (parse_hex16 product)) [
      | inl f ↦ cc
      | inr (p, f) ↦
          (ground (arith, parse_hex16-lt vendor e), ground (arith, parse_hex16-lt product f))
    ]
  ]

  parse_part-Is16Bit : (part : List ℕ) {id : UsbId} → parse_part library part ≡ ok id → Is16Bit id
  unfolding parse_part
  parse_part-Is16Bit part h = parse_fields-Is16Bit part (split b':' (trim_space part)) h

  parse_parts-IsValid :
      (parts : List (List ℕ)) (ids : List UsbId) {result : List UsbId}
      → IsValid ids
      → parse_parts library parts ids ≡ ok result
      → IsValid result
  unfolding parse_parts
  parse_parts-IsValid [] ids {result = result} v h = let e : ids ≡ result = cc in subst IsValid e v
  parse_parts-IsValid (part ∷ parts) ids v h = elim (Result-cases (parse_part library part)) [
    | inr (e, failed) ↦ cc
    | inl (id, parsed) ↦ elim (Bool-cases (is_seen id ids)) [
      | inl seen ↦ parse_parts-IsValid parts ids v (ground arith)
      | inr new ↦
          parse_parts-IsValid parts (ids ++ id ∷ [])
            (record {
              sixteen_bit =
                  All-append Is16Bit ids (id ∷ []) v.sixteen_bit
                    (parse_part-Is16Bit part parsed, tt);
              distinct = IsDistinct-append ids id v.distinct new;
            })
            (ground arith)
    ]
  ]

  -- Whatever is accepted is at least one identity of two 16-bit numbers, and none stands twice.
  pub parse_usb_ids-IsValid :
      (value : List ℕ) {ids : List UsbId}
      → parse_usb_ids library value ≡ ok ids
      → IsValid ids × (1 ≤ length ids)
  unfolding parse_usb_ids
  parse_usb_ids-IsValid value {ids = ids} h =
      elim (Result-cases (parse_parts library (split b',' value) [])) [
        | inr (e, failed) ↦ cc
        | inl (parsed, e) ↦
            let (same, some_id) = at_least_one_inverse parsed (ground arith) in
            (subst IsValid same (parse_parts-IsValid (split b',' value) [] none_yet e), some_id)
      ]
    where
      none_yet : IsValid []
      none_yet = record { sixteen_bit = tt; distinct = tt }
