-- ===== src/Tests/Config.antt =====
-- The configuration at concrete command lines.
use remote_mfi.Prelude.{◌≡◌, refl, ◌≤◌, [], ◌∷◌, map, arith, length}
use remote_mfi.Prelude.Int.{pos}
use remote_mfi.Errors.{ok}
use remote_mfi.Config.Numbers.{
  parse_hex16, scan, next_number, digit_value, parse_literal, literal, has_underscore,
  underscore_ok, underscores_fit,
}
use remote_mfi.Config.Texts.{bytes, split, join}
use remote_mfi.Config.UsbIds.{
  UsbId, TextLibrary, usb_id_text, hex4_text, is_seen, parse_fields, parse_part, parse_parts,
  parse_usb_ids,
}
use remote_mfi.Config.UsbIds.RoundTrip.{parse_usb_ids-usb_id_text, IsDistinct, KeepsGraphic}
use remote_mfi.Config.UsbIds.Valid.{parse_usb_ids-IsValid}
use remote_mfi.Config.UsbIds.Valid
use remote_mfi.Config.Flags.{
  Library, Config, configuration, info, local, parse, parse_values, parse_integer, parse_log_level,
  valid_speed,
}
use remote_mfi.Config.Flags.Valid.{IsValid, parse-IsValid}

abbrev texts : TextLibrary
texts = record { trim_space = λ s. s; quote = λ s. "?" }

texts-KeepsGraphic : KeepsGraphic texts
texts-KeepsGraphic s h = refl

-- No flag is given.
abbrev pub no_flags : Library
no_flags = record {
  texts = texts;
  parse_flags = λ defaults args. ok (defaults, args);
  split_host_port = λ address. ok ("", "8972");
  to_lower = λ s. s;
  join_strings = λ parts separator. separator;
}

abbrev bridge : UsbId
bridge = record { vendor = 0x1a86; product = 0x5512 }

abbrev other_bridge : UsbId
other_bridge = record { vendor = 0x1a86; product = 0x5523 }

bridge_text : usb_id_text bridge ≡ bytes "1a86:5512"
unfolding usb_id_text hex4_text
bridge_text = refl

-- Upper case and a repeated identity
repeated_run :
    parse_usb_ids texts (bytes "1a86:5512,1A86:5512,1a86:5523") ≡ ok (bridge ∷ other_bridge ∷ [])
unfolding parse_usb_ids parse_parts parse_part parse_fields split parse_hex16 scan next_number
    digit_value is_seen
repeated_run = refl

bridges-IsDistinct : IsDistinct (bridge ∷ other_bridge ∷ [])
unfolding is_seen
bridges-IsDistinct = (refl, (refl, tt))

parse_usb_ids-usb_id_text_example :
    parse_usb_ids texts (join b',' (map usb_id_text (bridge ∷ other_bridge ∷ [])))
    ≡ ok (bridge ∷ other_bridge ∷ [])
parse_usb_ids-usb_id_text_example =
    parse_usb_ids-usb_id_text texts texts-KeepsGraphic bridge (other_bridge ∷ [])
      ((omega arith, omega arith), ((omega arith, omega arith), tt)) bridges-IsDistinct

parse_usb_ids-IsValid_example :
    Valid.IsValid (bridge ∷ other_bridge ∷ []) × (1 ≤ length (bridge ∷ other_bridge ∷ []))
parse_usb_ids-IsValid_example =
    parse_usb_ids-IsValid texts (bytes "1a86:5512,1A86:5512,1a86:5523") repeated_run

abbrev default_config : Config
default_config = record {
  http_addr = ":8972";
  bearer_token = "";
  usb_ids = bridge ∷ [];
  i2c_address = 0x11;
  i2c_speed_khz = pos 100;
  log_level = info;
  log_format = "json";
  location = local;
  recent_capacity = 20;
}

-- `TestParseDefaults`
defaults_run : parse no_flags [] ≡ ok (configuration default_config)
unfolding parse parse_values parse_usb_ids parse_parts parse_part parse_fields split parse_hex16
    scan next_number digit_value is_seen parse_integer parse_literal literal has_underscore
    underscore_ok underscores_fit parse_log_level valid_speed
defaults_run = refl

parse-IsValid_example : IsValid default_config
parse-IsValid_example = parse-IsValid no_flags [] defaults_run
