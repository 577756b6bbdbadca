-- ===== src/Httpapi/Handlers.antt =====
-- internal/httpapi/handlers.go: the handlers of the paths under /mfi, and their routes in server.go.
pub mod Written
pub mod Answers
pub mod Signing
use Prim.Native.String.{String}
use text.Mathlib.Text.{◌==◌}
use remote_mfi.Prelude.{ℕ, Bool, true, false, List, [], ◌∷◌, Option, none, some, if◌then◌else◌}
use remote_mfi.Encoding.{base64_encode, bytes_equal}
use remote_mfi.Errors.{Result, ok, err, GoError}
use remote_mfi.Biz.Service.{Certificate, SignResult}
use remote_mfi.Httpapi.Messages.{LibraryTexts}
use remote_mfi.Httpapi.Responses.{ErrorResponse, service_error_response}
use remote_mfi.Httpapi.Server.{
  Request, SignRequest, Exchange, Library, Handler, detail, certificate_body, signature_body,
  write_json, set_note, decode_json, require_method, with_auth,
}

-- The interface `Service` that the handlers use
pub record ServiceInterface (W : Type 0) : Type 0 where
  pub certificate : W → Result Certificate × W
  pub sign : String → List ℕ → W → Result SignResult × W
  pub reset : W → Result (Unit {0}) × W

-- What the handlers keep of an answer of the chip
abbrev pub set_times : Bool → ℕ → ℕ → Exchange → Exchange
set_times cached wait chip x = record x {
  state = record x.state {
    note = if cached then "idempotent-hit" else "chip";
    chip_wait = wait;
    chip_time = chip;
  };
}

unfoldable pub write_service_error : LibraryTexts → GoError → Exchange → Exchange
write_service_error texts e x =
    let answer = service_error_response texts e in
    write_json answer.status (detail answer.detail) (set_note answer.note x)

abbrev pub bad_request : String → Exchange → Exchange
bad_request message x = write_json 400 (detail message) (set_note "bad request" x)

module _ {W : Type 0} (texts : LibraryTexts) (lib : Library) (service : ServiceInterface W) where
  abbrev pub answer_certificate : Result Certificate → Exchange → Exchange
  answer_certificate (ok c) x =
      write_json 200 (certificate_body "mfi" c.protocol_major c.base64 c.sha256_hex)
        (set_times c.cached c.wait_duration c.chip_duration x)
  answer_certificate (err e) x = write_service_error texts e x

  unfoldable pub handle_certificate : Handler W
  handle_certificate r x w =
      let (allowed, x') = require_method "GET" r x in
      let (answer, w') = service.certificate w in
      if allowed then (answer_certificate answer x', w') else (x', w)

  abbrev pub answer_sign : Result SignResult → Exchange → Exchange
  answer_sign (ok result) x =
      write_json 200 (signature_body (base64_encode result.signature))
        (set_times result.cached result.wait_duration result.chip_duration x)
  answer_sign (err e) x = write_service_error texts e x

  -- `handleSign` with the decoded challenge
  abbrev pub sign_challenge : String → Option (List ℕ) → Exchange → W → Exchange × W
  sign_challenge id none x w = (bad_request "challenge is not valid base64" x, w)
  sign_challenge id (some challenge) x w =
      let (answer, w') = service.sign id challenge w in (answer_sign answer x, w')

  -- `handleSign` with the decoded request
  abbrev pub sign_decoded : Option SignRequest → Exchange → W → Exchange × W
  sign_decoded none x w = (bad_request "invalid request body" x, w)
  sign_decoded (some request) x w =
      let x' = record x { state = record x.state { request_id = request.request_id } } in
      let signed = sign_challenge request.request_id (lib.base64_decode request.challenge) x' w in
      if request.request_id == ""
      then (bad_request "requestId is required" x', w)
      else if request.challenge == ""
      then (bad_request "challenge is required" x', w)
      else signed

  unfoldable pub handle_sign : Handler W
  handle_sign r x w =
      let (allowed, x') = require_method "POST" r x in
      if allowed then sign_decoded (decode_json r) x' w else (x', w)

  abbrev pub answer_reset : Result (Unit {0}) → Exchange → Exchange
  answer_reset (ok u) x = write_json 200 (detail "") (set_note "noop" x)
  answer_reset (err e) x = write_service_error texts e x

  -- `{}` is the bytes 123 and 125.
  abbrev pub is_empty_object : Option (List ℕ) → Bool
  is_empty_object none = false
  is_empty_object (some body) = bytes_equal (lib.trim_space body) (123 ∷ 125 ∷ [])

  unfoldable pub handle_reset : Handler W
  handle_reset r x w =
      let (allowed, x') = require_method "POST" r x in
      let (answer, w') = service.reset w in
      if allowed
      then (if is_empty_object r.body
          then (answer_reset answer x', w')
          else (bad_request "body must be {}" x', w))
      else (x', w)

  -- The routes of `NewHandler` for the paths under /mfi, with the handler of the others
  unfoldable pub business_routes : String → Handler W → Handler W
  business_routes bearer_token others r x w =
      if r.path == "/mfi/certificate"
      then with_auth lib bearer_token handle_certificate false r x w
      else if r.path == "/mfi/sign"
      then with_auth lib bearer_token handle_sign false r x w
      else if r.path == "/mfi/reset"
      then with_auth lib bearer_token handle_reset false r x w
      else others r x w
