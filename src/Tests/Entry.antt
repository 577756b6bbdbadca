-- ===== src/Tests/Entry.antt =====
-- The whole program at concrete inputs.
use Prim.Native.String.{String}
use remote_mfi.Prelude.{◌≡◌, ◌⊎◌, refl, Bool, false, [], ◌∷◌, if◌then◌else◌}
use remote_mfi.Encoding.{bytes_equal}
use remote_mfi.Errors.{Result, ok, err, GoError, text}
use remote_mfi.Config.Flags.{Config, version, configuration, parse}
use remote_mfi.Httpapi.Server.{fresh_exchange, provided_token, is_business_path}
use remote_mfi.Httpapi.Handlers.{ServiceInterface}
use remote_mfi.Httpapi.Debug.{StatusInterface, routes}
use remote_mfi.Httpapi.Debug.Access.{routes-guarded}
use remote_mfi.Transport.Session.{Ch341}
use remote_mfi.Transport.Usb.Counting.{Handles}
use remote_mfi.Entry.{Parts, assemble, exit_of, main_exit}
use remote_mfi.Entry.Exit.{main_exit-cases}
use remote_mfi.Tests.Chip.{simulated}
use remote_mfi.Tests.Config.{no_flags}
use remote_mfi.Tests.Httpapi.{library, request}
use remote_mfi.Tests.Sessions.{texts, one_bridge, fresh, nothing_open}

abbrev never_help : GoError → Bool
never_help e = false

-- The server cannot listen.
abbrev port_taken : Parts one_bridge simulated → Result (Unit {0})
port_taken parts = err (text "address already in use")

main_exit-cases_example :
    ((e : GoError) × (parse no_flags ("now" ∷ []) ≡ err e)
      × (main_exit one_bridge simulated no_flags never_help (ok tt) port_taken ("now" ∷ [])
          ≡ (if never_help e then 0 else 2)))
    ⊎ (((parse no_flags ("now" ∷ []) ≡ ok version)
          × (main_exit one_bridge simulated no_flags never_help (ok tt) port_taken ("now" ∷ [])
              ≡ 0))
        ⊎ ((config : Config) × (parts : Parts one_bridge simulated) × (parse no_flags ("now" ∷ [])
              ≡ ok (configuration config))
            × (assemble one_bridge simulated (ok tt) config ≡ ok parts)
            × (main_exit one_bridge simulated no_flags never_help (ok tt) port_taken ("now" ∷ [])
                ≡ exit_of one_bridge simulated (port_taken parts))))
main_exit-cases_example =
    main_exit-cases one_bridge simulated no_flags never_help port_taken ("now" ∷ [])

abbrev idle_service : ServiceInterface (Ch341 one_bridge × Handles)
idle_service = record {
  certificate = λ w. (err (text "idle"), w);
  sign = λ id challenge w. (err (text "idle"), w);
  reset = λ w. (ok tt, w);
}

abbrev blank_status : StatusInterface (Ch341 one_bridge × Handles)
blank_status = record {
  health = λ w. (record { chip = ""; reason = ""; vidpid = ""; devices = [] }, w);
  diagnostics = λ w. (record { chip = ""; reason = ""; vidpid = ""; devices = [] }, w);
  runtime = λ w. record { cache_entries = 0; lock_holder = ""; lock_held = 0 };
  now = λ w. 0;
  format_rfc3339 = λ t. "";
  format_current = λ t. "";
}

routes-guarded_example :
    (routes library blank_status texts idle_service "secret" 0 [] request fresh_exchange
      (fresh, nothing_open)).1
    ≡ (fresh, nothing_open)
unfolding provided_token is_business_path bytes_equal
routes-guarded_example =
    routes-guarded texts library idle_service blank_status "secret" 0 [] request fresh_exchange
      (fresh, nothing_open) refl refl refl
