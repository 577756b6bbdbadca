-- ===== src/Config/Flags.antt =====
-- internal/config/config.go: the flags with their defaults, and `Parse`. The flag package, which fills in the
-- values, is a parameter; the text of the usage is left out. A text that is taken apart is the
-- list of its bytes, any other a string.
pub mod Valid
use Prim.Native.String.{String, ◌++◌ as append}
use package.text.Mathlib.Text.{◌==◌ as same_text}
use remote_mfi.Prelude.{
  ℕ, ◌%◌, ◌+◌, ◌^◌, ◌-◌, Bool, true, false, ◌||◌, not, List, [], ◌∷◌, none, some, ◌==◌,
  if◌then◌else◌, length,
}
use remote_mfi.Prelude.Int.{ℤ, pos, negsuc}
use remote_mfi.Fmt.{decimal}
use remote_mfi.Errors.{Result, ok, err, text, wrap, ◌>>=◌, ◌>>◌, refuse}
use remote_mfi.Config.Numbers.{parse_literal}
use remote_mfi.Config.Texts.{bytes}
use remote_mfi.Config.UsbIds.{UsbId, TextLibrary, parse_usb_ids}

-- `slog.Level`, as far as the source names it
pub data LogLevel : Type 0 where
  debug info warn error : LogLevel

-- `time.Location`, as far as the source names it
pub data Location : Type 0 where
  local : Location

-- The variables that the flags are bound to
pub record FlagValues : Type 0 where
  pub http_addr : String
  pub bearer_token : String
  pub usb_id_list : List ℕ
  pub i2c_address : List ℕ
  pub speed : ℤ
  pub log_level : String
  pub log_format : String
  pub show_version : Bool

abbrev pub default_recent_entries : ℕ
default_recent_entries = 20

abbrev pub default_values : FlagValues
default_values = record {
  http_addr = ":8972";
  bearer_token = "";
  usb_id_list = bytes "1a86:5512";
  i2c_address = bytes "0x11";
  speed = pos 100;
  log_level = "info";
  log_format = "json";
  show_version = false;
}

-- What `Parse` uses of the packages flag, net and strings: the values and the positional arguments that a
-- command line gives, starting from the defaults; the host and the port of an address
pub record Library : Type 0 where
  pub texts : TextLibrary
  pub parse_flags : FlagValues → List String → Result (FlagValues × List String)
  pub split_host_port : String → Result (String × String)
  pub to_lower : String → String
  pub join_strings : List String → String → String

-- `Config`
pub record Config : Type 0 where
  pub http_addr : String
  pub bearer_token : String
  pub usb_ids : List UsbId
  pub i2c_address : ℕ
  pub i2c_speed_khz : ℤ
  pub log_level : LogLevel
  pub log_format : String
  pub location : Location
  pub recent_capacity : ℕ

-- What `Parse` answers without an error: the version is to be shown, or a configuration
pub data Parsed : Type 0 where
  version : Parsed
  configuration : Config → Parsed

-- `validSpeed`
unfoldable pub valid_speed : ℤ → Bool
valid_speed (pos n) = n == 20 || n == 100 || n == 400 || n == 750
valid_speed (negsuc n) = false

module _ (library : Library) where
  open library use {texts, parse_flags, split_host_port, to_lower, join_strings}

  -- `parseInteger`
  unfoldable pub parse_integer : List ℕ → ℕ → Result ℕ
  parse_integer value bits = elim (parse_literal (2 ^ bits - 1) value) [
    | some number ↦ ok number
    | none ↦ err (
        text (
          append (texts.quote value)
            (append " is not a valid " (append (decimal bits) "-bit integer"))))
  ]

  -- `parseLogLevel`
  unfoldable pub parse_log_level : String → Result LogLevel
  parse_log_level value =
      let lower = to_lower value in
      if same_text lower "debug"
      then ok debug
      else if same_text lower "info"
      then ok info
      else if same_text lower "warn"
      then ok warn
      else if same_text lower "error"
      then ok error
      else err (text "must be debug, info, warn, or error")

  -- An error under the name of its flag
  abbrev pub of_flag : {A : Type 0} → String → Result A → Result A
  of_flag name (ok a) = ok a
  of_flag name (err e) = err (wrap name e)

  -- `Parse` behind the test for the version
  unfoldable pub parse_values : FlagValues → Result Config
  parse_values values = do
    of_flag "--http-addr" (split_host_port values.http_addr)
    ids ← of_flag "--usb-ids" (parse_usb_ids texts values.usb_id_list)
    address ← of_flag "--i2c-address" (parse_integer values.i2c_address 7)
    refuse (not (valid_speed values.speed))
        (text "--i2c-speed-khz must be one of 20, 100, 400, 750")
    level ← of_flag "--log-level" (parse_log_level values.log_level)
    let format = to_lower values.log_format
    refuse (not (same_text format "json" || same_text format "text"))
        (text "--log-format must be json or text")
    ok (record {
      http_addr = values.http_addr;
      bearer_token = values.bearer_token;
      usb_ids = ids;
      i2c_address = address % 256;
      i2c_speed_khz = values.speed;
      log_level = level;
      log_format = format;
      location = local;
      recent_capacity = default_recent_entries;
    })

  -- `Parse`
  unfoldable pub parse : List String → Result Parsed
  parse args = do
    parsed ← parse_flags default_values args
    refuse (not (length parsed.1 == 0))
        (text (append "unexpected positional arguments: " (join_strings parsed.1 " ")))
    (if parsed.0.show_version
        then ok version
        else (parse_values parsed.0 >>= λ config. ok (configuration config)))
