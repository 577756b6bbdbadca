-- ===== src/Entry/Exit.antt =====
-- What a configuration that `Parse` accepts is good for.
use Prim.Native.String.{String}
use remote_mfi.Prelude.{
  ℕ, ◌≡◌, ◌≤◌, ◌⊎◌, none, refl, Bool, true, false, List, inl, inr, Bool-cases, ◌==◌, if◌then◌else◌,
}
use native.Mathlib.Omega.{arith}
use remote_mfi.Prelude.Int.{ℤ, pos, negsuc}
use remote_mfi.Errors.{Result, ok, err, GoError, Result-cases}
use remote_mfi.Config.Flags.{Config, Parsed, version, configuration, parse, valid_speed}
use remote_mfi.Config.Flags as Flags
use remote_mfi.Config.Flags.Valid.{IsValid, parse-IsValid}
use remote_mfi.Chip.Bus.{Bus}
use remote_mfi.Chip.Registers.{new_driver}
use remote_mfi.Transport.Encoder.{speed_command}
use remote_mfi.Biz.Service.{new_service}
use remote_mfi.Httpapi.Recent.{new_recent_store}
use remote_mfi.Transport.Usb.{Usb}
use remote_mfi.Transport.Session.{Ch341, new_ch341}
use remote_mfi.Entry.{speed_of, Parts, assemble, run, exit_of, main_exit}

-- The speeds that the flag accepts are the bridge's.
speed_command-ok :
    (speed : ℤ)
    → valid_speed speed ≡ true
    → (command : ℕ) × (speed_command (speed_of speed) ≡ ok command)
unfolding valid_speed speed_command
speed_command-ok (pos n) h = elim (Bool-cases (n == 20)) [
  | inl a ↦ (0x60, ground arith)
  | inr a ↦ elim (Bool-cases (n == 100)) [
    | inl b ↦ (0x61, ground arith)
    | inr b ↦ elim (Bool-cases (n == 400)) [
      | inl c ↦ (0x62, ground arith)
      | inr c ↦ elim (Bool-cases (n == 750)) [
        | inl d ↦ (0x63, ground arith)
        | inr d ↦ absurd (ground arith)
      ]
    ]
  ]
]
speed_command-ok (negsuc n) h = absurd (cc h)

module _ (u : Usb) (b : Bus) where
  new_ch341-ok :
      (config : Config)
      → IsValid config
      → (t : Ch341 u) × (new_ch341 u config.usb_ids (speed_of config.i2c_speed_khz) ≡ ok t)
  unfolding new_ch341
  new_ch341-ok config h =
      let (command, e) = speed_command-ok config.i2c_speed_khz h.speed in
      (
        record {
          usb_ids = config.usb_ids;
          speed = speed_of config.i2c_speed_khz;
          session = none;
          closed = false;
          allocated = 0;
        },
        ground (arith, e, h.some_id),
      )

  new_driver-ok :
      (address : ℕ) → address ≤ 0x7f → new_driver b address ≡ ok (record { address = address })
  unfolding new_driver
  new_driver-ok address h = ground arith

  -- The parts of a valid configuration
  pub assemble-ok :
      (config : Config)
      → IsValid config
      → (parts : Parts u b) × (assemble u b (ok tt) config ≡ ok parts)
  unfolding assemble
  assemble-ok config h =
      let (transport, e) = new_ch341-ok config h in
      let f = new_driver-ok config.i2c_address h.address in
      (
        record {
          transport = transport;
          driver = record { address = config.i2c_address };
          service = new_service;
          bearer_token = config.bearer_token;
          recent = new_recent_store config.recent_capacity;
        },
        rw (assemble, e, f) refl,
      )

  -- On any command line, with templates that parse: either `Parse` refuses it, and the process exits
  -- with 0 if help was asked for and else with 2; or the version is shown, and it exits with 0; or there
  -- is a configuration, all parts can be made of it, and the process exits with 0 or 1 as the server
  -- stops well or not.
  pub main_exit-cases :
      (library : Flags.Library) (is_help : GoError → Bool) (serve : Parts u b → Result (Unit {0}))
      (args : List String)
      → let status = main_exit u b library is_help (ok tt) serve args in
        ((e : GoError) × (parse library args ≡ err e) × (status ≡ (if is_help e then 0 else 2)))
        ⊎ (((parse library args ≡ ok version) × (status ≡ 0))
            ⊎ ((config : Config) × (parts : Parts u b) × (parse library args
                  ≡ ok (configuration config))
                × (assemble u b (ok tt) config ≡ ok parts)
                × (status ≡ exit_of u b (serve parts))))
  unfolding main_exit run
  main_exit-cases library is_help serve args = elim (Result-cases (parse library args)) [
    | inr (e, refused) ↦ inl (e, refused, rw (main_exit, refused) refl)
    | inl (version, shown) ↦ inr (inl (shown, rw (main_exit, shown) refl))
    | inl (configuration config, given) ↦
        let (parts, made) = assemble-ok config (parse-IsValid library args given) in
        inr (inr (config, parts, given, made, rw (main_exit, given, run, made) refl))
  ]
