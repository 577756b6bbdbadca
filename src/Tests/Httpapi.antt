-- ===== src/Tests/Httpapi.antt =====
-- The handlers over the simulated service.
use Prim.Native.String.{String}
use package.text.Mathlib.Text.{◌==◌ as same_text}
use remote_mfi.Prelude.{
  ℕ, ◌↔◌, ◌⊎◌, ◌≡◌, refl, true, ◌||◌, List, [], ◌∷◌, none, some, arith, if◌then◌else◌,
}
use remote_mfi.Encoding.{bytes_equal, base64_encode}
use remote_mfi.Errors.{
  request_id_reuse, GoError, transport, text, wrap, device_missing, is_sentinel, challenge_size,
  request_id_format, is_transport_kind,
}
use remote_mfi.Biz.Gate.{token, timer}
use remote_mfi.Biz.Service.{Service, new_service, normalize_hardware_error}
use remote_mfi.Httpapi.Messages.{LibraryTexts}
use remote_mfi.Httpapi.Recent.{
  RecentRequest, RecentStore, new_recent_store, recent_request, list_newest_first,
}
use remote_mfi.Httpapi.Recent.Newest.{
  Holds, add_all, list_newest_first-latest, new_recent_store-Holds,
}
use remote_mfi.Httpapi.Responses.{service_error_response, response}
use remote_mfi.Httpapi.Responses.Statuses.{
  service_error_response-status, service_error_response-wrap,
}
use remote_mfi.Httpapi.Server.{
  Request, Exchange, Library, fresh_exchange, decode_json, end_of_input, write_json, signature_body,
  detail, set_note, observe, final_note, is_business_path,
}
use remote_mfi.Httpapi.Handlers.{business_routes, handle_sign, set_times}
use remote_mfi.Httpapi.Handlers.Written.{IsAnswered}
use remote_mfi.Httpapi.Handlers.Answers.{observe-answers}
use remote_mfi.Httpapi.Handlers.Signing.{service_of, IsSignRequest, with_id, handle_sign-replay}
use remote_mfi.Tests.Biz.{
  signed_then, between-Later, simulated, alone, challenge, valid, valid_other, sign_run, sign_time,
}

abbrev texts : LibraryTexts
texts = record {
  context_text = λ e. "context canceled";
  transfer_text = λ s. "transfer failed";
  usb_text = λ e. "libusb: error";
}

-- Every challenge decodes to the byte 4.
abbrev pub library : Library
library = record {
  to_lower = λ s. s;
  trim_space = λ bytes. bytes;
  base64_decode = λ s. some (4 ∷ []);
  sha256 = λ s. if same_text s "secret" then 1 ∷ [] else 2 ∷ [];
}

abbrev pub request : Request
request = record {
  method = "POST";
  path = "/mfi/sign";
  authorization = "Bearer guess";
  accept = "";
  query_token = "";
  decoded = some (record { challenge = "BA=="; request_id = "id" });
  extra = end_of_input;
  body = none;
}

request-IsSignRequest : IsSignRequest library request "id" (4 ∷ [])
unfolding decode_json
request-IsSignRequest = record {
  encoded = "BA==";
  posted = refl;
  decodes = refl;
  has_id = refl;
  has_challenge = refl;
  challenge_decodes = refl;
}

handle_sign-replay_example :
    handle_sign texts library (service_of simulated alone timer) request fresh_exchange signed_then
    ≡ (
      (if bytes_equal challenge (4 ∷ [])
          then write_json 200
              (signature_body (base64_encode (3 ∷ 1 ∷ [])))
              (set_times true 0 0 (with_id "id" fresh_exchange))
          else write_json 400
              (detail "requestId reuse with different challenge")
              (set_note "bad request" (with_id "id" fresh_exchange))),
      signed_then,
    )
handle_sign-replay_example =
    handle_sign-replay texts library simulated alone token "id" challenge challenge
      (new_service, 10) valid sign_run refl alone timer (4 ∷ []) (4 ∷ []) signed_then.0 20 request
      fresh_exchange (between-Later _ _ _ (omega (arith, sign_time))) valid_other
      (omega (arith, sign_time)) request-IsSignRequest

observe-answers_example :
    (x : Exchange) × (recent : RecentStore) × (w : Service × ℕ) × (observe
        (business_routes texts library
          (service_of simulated alone token)
          "secret"
          (λ r x w. (x, w)))
        "now"
        5_000_000
        request
        (new_recent_store 2)
        (new_service, 10)
      ≡ (x, some recent, w))
    × IsAnswered x.recorder
    × Holds recent
        (recent_request "now" "POST" "/mfi/sign" x.recorder.status 5_000_000 (final_note x) ∷ [])
unfolding is_business_path
observe-answers_example =
    observe-answers texts library (service_of simulated alone token) "secret" (λ r x w. (x, w))
      "now" 5_000_000 request (new_recent_store 2) [] (new_service, 10) refl
      (new_recent_store-Holds 2 (omega arith))

abbrev request_to : String → RecentRequest
request_to path = recent_request "now" "GET" path 200 1_000_000 "chip"

abbrev requests : List RecentRequest
requests = request_to "/a" ∷ request_to "/b" ∷ request_to "/c" ∷ []

list_newest_first-latest_example :
    (s : RecentStore) × (add_all requests (new_recent_store 2) ≡ some s)
    × (list_newest_first s ≡ some (request_to "/c" ∷ request_to "/b" ∷ []))
list_newest_first-latest_example = list_newest_first-latest 2 requests (omega arith)

abbrev missing : GoError
missing = transport device_missing "open CH341" (text "no matching USB device")

service_error_response-status_example :
    (((service_error_response texts missing).status ≡ 400) ↔ (
      (is_sentinel missing challenge_size
        || is_sentinel missing request_id_format
        || is_sentinel missing request_id_reuse)
      ≡ true))
    × (((service_error_response texts missing).status ≡ 400)
        ⊎ ((service_error_response texts missing).status ≡ 500)
        ⊎ ((service_error_response texts missing).status ≡ 503))
service_error_response-status_example = service_error_response-status texts missing

service_error_response-wrap_example :
    ((service_error_response texts (wrap "read register 0x30" missing)).status
      ≡ (service_error_response texts missing).status)
    × ((service_error_response texts (wrap "read register 0x30" missing)).note
        ≡ (service_error_response texts missing).note)
    × (((service_error_response texts missing).status ≡ 400)
        ⊎ (service_error_response texts (wrap "read register 0x30" missing)
            ≡ service_error_response texts missing))
    × (service_error_response texts (normalize_hardware_error (wrap "read register 0x30" missing))
        ≡ (if is_transport_kind missing device_missing
            then response 503 "chip missing" "error"
            else service_error_response texts (wrap "read register 0x30" missing)))
service_error_response-wrap_example = service_error_response-wrap texts "read register 0x30" missing
