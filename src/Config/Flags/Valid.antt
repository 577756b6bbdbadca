-- ===== src/Config/Flags/Valid.antt =====
-- internal/config/config.go: what `Parse` answers with, for any command line.
use Prim.Native.String.{String}
use package.text.Mathlib.Text.{◌==◌ as same_text}
use remote_mfi.Prelude.{
  ℕ, ◌≡◌, refl, ◌≤◌, ◌^◌, ◌-◌, Bool, true, false, ◌||◌, ◌&&◌, ◌==◌, if◌then◌else◌, subst, not, List,
  [], ◌∷◌, length, inl, inr, Bool-cases, Option-cases, some,
}
use native.Mathlib.Omega.{arith}
use remote_mfi.Errors.{Result, ok, err, ◌>>=◌, refuse, >>=-eq-ok, refuse-eq-ok, ok_injective}
use remote_mfi.Config.Numbers.{parse_literal, literal, has_underscore, underscore_ok}
use remote_mfi.Config.UsbIds.{parse_usb_ids}
use remote_mfi.Config.UsbIds.Valid.{scan-le, parse_usb_ids-IsValid}
use remote_mfi.Config.UsbIds.Valid
use remote_mfi.Config.Flags.{
  default_values, Library, FlagValues, Config, version, configuration, valid_speed, parse_integer,
  parse_values, parse, of_flag, parse_log_level,
}

-- What the rest of the program relies on
pub record IsValid (c : Config) : Type 0 where
  pub usb_ids : Valid.IsValid c.usb_ids
  pub some_id : 1 ≤ length c.usb_ids
  pub address : c.i2c_address ≤ 0x7f
  pub speed : valid_speed c.i2c_speed_khz ≡ true
  pub format : (same_text c.log_format "json" || same_text c.log_format "text") ≡ true
  pub capacity : 1 ≤ c.recent_capacity

parse_literal-le : (most : ℕ) (s : List ℕ) {n : ℕ} → parse_literal most s ≡ some n → n ≤ most
unfolding parse_literal literal has_underscore
parse_literal-le most [] h = cc
parse_literal-le most (c ∷ rest) h =
    elim (Bool-cases (has_underscore (literal (c ∷ rest)).1 && not (underscore_ok (c ∷ rest)))) [
      | inl misplaced ↦ cc
      | inr fits ↦
          scan-le true (literal (c ∷ rest)).0 most (some 0) (literal (c ∷ rest)).1 (omega arith)
            (ground arith)
    ]

of_not-false : (b : Bool) → not b ≡ false → b ≡ true
of_not-false true h = refl
of_not-false false h = cc

not_version :
    (shown : Bool) (r : Result Config) {c : Config}
    → (if shown then ok version else (r >>= λ config. ok (configuration config)))
      ≡ ok (configuration c)
    → r ≡ ok c
not_version true r h = cc
not_version false (ok config) h = cc
not_version false (err e) h = cc

module _ (library : Library) where
  parse_integer-lt : (s : List ℕ) {n : ℕ} → parse_integer library s 7 ≡ ok n → n ≤ 0x7f
  unfolding parse_integer
  parse_integer-lt s h = elim (Option-cases (parse_literal (2 ^ 7 - 1) s)) [
    | inl none_ ↦ cc
    | inr (m, e) ↦ ground (arith, parse_literal-le (2 ^ 7 - 1) s e)
  ]

  of_flag-eq-ok :
      {A : Type 0} (name : String) (r : Result A) {a : A} → of_flag library name r ≡ ok a → r ≡ ok a
  of_flag-eq-ok name (ok a) h = h
  of_flag-eq-ok name (err e) h = cc

  parse_values-IsValid :
      (values : FlagValues) {c : Config} → parse_values library values ≡ ok c → IsValid c
  unfolding parse_values
  parse_values-IsValid values h =
      let (address, _, h) =
        >>=-eq-ok (of_flag library "--http-addr" (library.split_host_port values.http_addr)) _ h in
      let (ids, e1, h) =
        >>=-eq-ok (of_flag library "--usb-ids" (parse_usb_ids library.texts values.usb_id_list)) _
          h in
      let (address, e2, h) =
        >>=-eq-ok (of_flag library "--i2c-address" (parse_integer library values.i2c_address 7)) _
          h in
      let (_, e3, h) = >>=-eq-ok (refuse (not (valid_speed values.speed)) _) _ h in
      let (level, _, h) =
        >>=-eq-ok (of_flag library "--log-level" (parse_log_level library values.log_level)) _ h in
      let format = library.to_lower values.log_format in
      let (_, e4, h) =
        >>=-eq-ok (refuse (not (same_text format "json" || same_text format "text")) _) _ h in
      let (ids_IsValid, some_id) =
        parse_usb_ids-IsValid library.texts values.usb_id_list (of_flag-eq-ok "--usb-ids" _ e1) in
      let small = parse_integer-lt values.i2c_address (of_flag-eq-ok "--i2c-address" _ e2) in
      subst IsValid (ok_injective h) (record {
        usb_ids = ids_IsValid;
        some_id = some_id;
        address = omega arith;
        speed = of_not-false _ (refuse-eq-ok _ _ e3);
        format = of_not-false _ (refuse-eq-ok _ _ e4);
        capacity = omega arith;
      })

  -- Every configuration that a command line leads to has at least one USB identity, each of two
  -- 16-bit numbers and none twice, an address of 7 bits, one of the four speeds of the bridge, the
  -- log format `json` or `text`, and room for the latest requests.
  pub parse-IsValid :
      (args : List String) {c : Config} → parse library args ≡ ok (configuration c) → IsValid c
  unfolding parse
  parse-IsValid args h =
      let (parsed, _, h) = >>=-eq-ok (library.parse_flags default_values args) _ h in
      let (_, _, h) = >>=-eq-ok (refuse (not (length parsed.1 == 0)) _) _ h in
      parse_values-IsValid parsed.0
        (not_version parsed.0.show_version (parse_values library parsed.0) h)
