-- ===== src/Httpapi/Debug.antt =====
-- internal/httpapi/handlers.go: the health check and the debug page, and all routes of server.go. The rendering
-- of the page from its data is left out.
pub mod Health
pub mod Access
use Prim.Native.String.{String}
use text.Mathlib.Text.{◌==◌ as same_text}
use remote_mfi.Prelude.{ℕ, ◌-◌, ◌/◌, Bool, true, false, List, Option, none, some, if◌then◌else◌}
use remote_mfi.Biz.Health.{HealthStatus}
use remote_mfi.Biz.Service.{RuntimeStatus}
use remote_mfi.Httpapi.Messages.{LibraryTexts}
use remote_mfi.Httpapi.Recent.{RecentRequest}
use remote_mfi.Httpapi.Server.{
  Request, Exchange, Library, Handler, Body, DebugData, health_body, debug_body, debug_page,
  not_found, set_header, write_body, write_header, write_json, require_method, with_auth,
  accepts_json,
}
use remote_mfi.Httpapi.Handlers.{ServiceInterface, business_routes}

-- The methods of the interface `Service` that only look, `time.Now`, and the layouts of a time in the
-- server's location
pub record StatusInterface (W : Type 0) : Type 0 where
  pub health : W → HealthStatus × W
  pub diagnostics : W → HealthStatus × W
  pub runtime : W → RuntimeStatus
  pub now : W → ℕ
  pub format_rfc3339 : ℕ → String
  pub format_current : ℕ → String

-- `optionalString`
abbrev pub optional_string : String → Option String
optional_string value = if same_text value "" then none else some value

module _ {W : Type 0} (lib : Library) (status : StatusInterface W) where
  -- `handleHealth` behind the test of the method
  abbrev pub answer_health : HealthStatus → Exchange → Exchange
  answer_health health x =
      write_json 200
        (health_body (same_text health.chip "ready") health.chip (optional_string health.reason)) x

  unfoldable pub handle_health : Handler W
  handle_health r x w =
      let (allowed, x') = require_method "GET" r x in
      let (health, w') = status.health w in
      if allowed then (answer_health health x', w') else (x', w)

  -- The data of the debug page; durations are in nanoseconds.
  abbrev pub debug_data : ℕ → HealthStatus → RuntimeStatus → ℕ → List RecentRequest → DebugData
  debug_data started_at health runtime now entries = record {
    status = health.chip;
    reason = health.reason;
    vidpid = health.vidpid;
    started_at = status.format_rfc3339 started_at;
    seconds = (now - started_at) / 1_000_000_000;
    usb_devices = health.devices;
    cache_entries = runtime.cache_entries;
    lock_holder = optional_string runtime.lock_holder;
    lock_held_ms = runtime.lock_held / 1_000_000;
    recent_requests = entries;
    current_time = status.format_current now;
  }

  -- `handleDebug` with its data
  abbrev pub answer_debug : DebugData → Request → Exchange → Exchange
  answer_debug page r x =
      if accepts_json lib r then write_json 200 (debug_body page) x else record x {
        recorder = write_body (debug_page page) (
            set_header "Referrer-Policy" "no-referrer" (
              set_header "Content-Type" "text/html; charset=utf-8"
                (set_header "Cache-Control" "no-store" x.recorder)));
      }

  -- `handleDebug`, with the time at which the server was started and what the store of the latest
  -- requests lists
  unfoldable pub handle_debug : ℕ → List RecentRequest → Handler W
  handle_debug started_at entries r x w =
      let (allowed, x') = require_method "GET" r x in
      let (health, w') = status.diagnostics w in
      let page = debug_data started_at health (status.runtime w') (status.now w') entries in
      if allowed then (answer_debug page r x', w') else (x', w)

  -- What `http.ServeMux` answers for any other path
  abbrev pub handle_other : Handler W
  handle_other r x w =
      (record x { recorder = write_body not_found (write_header 404 x.recorder) }, w)

  -- The routes of `NewHandler`
  unfoldable pub routes :
      LibraryTexts → ServiceInterface W → String → ℕ → List RecentRequest → Handler W
  routes texts service bearer_token started_at entries =
      business_routes texts lib service bearer_token λ r x w.
        if same_text r.path "/debug/usb"
        then with_auth lib bearer_token (handle_debug started_at entries) true r x w
        else if same_text r.path "/healthz"
        then handle_health r x w
        else handle_other r x w
