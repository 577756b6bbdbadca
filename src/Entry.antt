-- ===== src/Entry.antt =====
-- cmd/remote-mfi-for-xcertplay/main.go: `main` and `run`, which put the parts together. The listening server,
-- with its signals and its shutdown, is a parameter; logging and the probe at the start are left out.
pub mod Exit
use Prim.Native.String.{String}
use remote_mfi.Prelude.{ℕ, Bool, true, false, List, if◌then◌else◌}
use remote_mfi.Prelude.Int.{ℤ, pos, negsuc}
use remote_mfi.Errors.{Result, ok, err, GoError, wrap}
use remote_mfi.Config.Flags.{Config, Parsed, version, configuration, parse}
use remote_mfi.Config.Flags as Flags
use remote_mfi.Chip.Bus.{Bus}
use remote_mfi.Chip.Registers.{Driver, new_driver}
use remote_mfi.Biz.Service.{Service, new_service}
use remote_mfi.Httpapi.Recent.{RecentStore, new_recent_store}
use remote_mfi.Transport.Usb.{Usb}
use remote_mfi.Transport.Session.{Ch341, new_ch341, close}

-- `transport.I2CSpeed(speed)`, for which a negative number is as little a speed as 0
abbrev pub speed_of : ℤ → ℕ
speed_of (pos n) = n
speed_of (negsuc n) = 0

module _ (u : Usb) (b : Bus) where
  -- The parts that `run` makes before it serves
  pub record Parts : Type 0 where
    pub transport : Ch341 u
    pub driver : Driver b
    pub service : Service
    pub bearer_token : String
    pub recent : RecentStore

  -- `NewHandler`, as far as it may fail: with the parsing of the embedded templates
  abbrev pub handler_parts : Result (Unit {0}) → Config → Ch341 u → Driver b → Result Parts
  handler_parts (err e) config transport driver = err (wrap "initialize HTTP API" e)
  handler_parts (ok tt) config transport driver = ok (record {
    transport = transport;
    driver = driver;
    service = new_service;
    bearer_token = config.bearer_token;
    recent = new_recent_store config.recent_capacity;
  })

  -- `NewDriver`, on the transport; a failure closes the transport.
  abbrev pub driver_parts : Result (Unit {0}) → Config → Ch341 u → Result (Driver b) → Result Parts
  driver_parts templates config transport (err e) = err (wrap "initialize MFi driver" e)
  driver_parts templates config transport (ok driver) =
      handler_parts templates config transport driver

  -- `run` up to the HTTP server
  unfoldable pub assemble : Result (Unit {0}) → Config → Result Parts
  assemble templates config = elim (new_ch341 u config.usb_ids (speed_of config.i2c_speed_khz)) [
    | err e ↦ err (wrap "initialize CH341 transport" e)
    | ok transport ↦ driver_parts templates config transport (new_driver b config.i2c_address)
  ]

  -- `main`: the status with which the process exits. `serve` runs the server and answers when it has
  -- stopped, and `is_help` is `errors.Is(err, flag.ErrHelp)`.
  abbrev pub exit_of : Result (Unit {0}) → ℕ
  exit_of (ok tt) = 0
  exit_of (err e) = 1

  abbrev pub run_parts : (Parts → Result (Unit {0})) → Result Parts → Result (Unit {0})
  run_parts serve (err e) = err e
  run_parts serve (ok parts) = serve parts

  -- `run`
  unfoldable pub run : Result (Unit {0}) → (Parts → Result (Unit {0})) → Config → Result (Unit {0})
  run templates serve config = run_parts serve (assemble templates config)

  abbrev pub exit_parsed :
      (GoError → Bool) → Result (Unit {0}) → (Parts → Result (Unit {0})) → Result Parsed → ℕ
  exit_parsed is_help templates serve (err e) = if is_help e then 0 else 2
  exit_parsed is_help templates serve (ok version) = 0
  exit_parsed is_help templates serve (ok (configuration config)) =
      exit_of (run templates serve config)

  unfoldable pub main_exit :
      Flags.Library
      → (GoError → Bool)
      → Result (Unit {0})
      → (Parts → Result (Unit {0}))
      → List String
      → ℕ
  main_exit library is_help templates serve args =
      exit_parsed is_help templates serve (parse library args)
