-- ===== src/Httpapi/Server.antt =====
-- internal/httpapi/server.go: what is around every handler. A handler is given a request, what it may write to
-- (`Exchange`) and the world with the service behind it. The logger is left out.
use Prim.Native.String.{String, len, slice, find}
use text.Mathlib.Text.{◌==◌ as same_text}
use remote_mfi.Prelude.{
  ℕ, Bool, true, false, ◌||◌, ◌&&◌, not, List, [], ◌∷◌, ◌++◌, Option, none, some, ltb, leb, ◌==◌,
  if◌then◌else◌,
}
use remote_mfi.Encoding.{bytes_equal}
use remote_mfi.Transport.Inspection.{UsbDeviceInfo}
use remote_mfi.Httpapi.Recent.{RecentRequest, RecentStore, recent_request, add}

-- `signRequest`
pub record SignRequest : Type 0 where
  pub challenge : String
  pub request_id : String

-- What the JSON decoder answers after the first value
pub data Extra : Type 0 where
  end_of_input another_value malformed : Extra

-- What the handlers read of a `http.Request`; `decoded` is the JSON decoder's answer for the body, with its
-- limit and with unknown fields forbidden, and `body` what `io.ReadAll` answers.
pub record Request : Type 0 where
  pub method : String
  pub path : String
  pub authorization : String
  pub accept : String
  pub query_token : String
  pub decoded : Option SignRequest
  pub extra : Extra
  pub body : Option (List ℕ)

-- `debugData`
pub record DebugData : Type 0 where
  pub status : String
  pub reason : String
  pub vidpid : String
  pub started_at : String
  pub seconds : ℕ
  pub usb_devices : List UsbDeviceInfo
  pub cache_entries : ℕ
  pub lock_holder : Option String
  pub lock_held_ms : ℕ
  pub recent_requests : List RecentRequest
  pub current_time : String

pub data Body : Type 0 where
  detail : String → Body
  certificate_body : String → ℕ → List ℕ → List ℕ → Body
  signature_body : List ℕ → Body
  unauthorized_page : Body
  health_body : Bool → String → Option String → Body
  debug_body debug_page : DebugData → Body
  -- `http.NotFound`
  not_found : Body

pub record RequestState : Type 0 where
  pub note : String
  pub request_id : String
  pub chip_wait : ℕ
  pub chip_time : ℕ

-- `statusRecorder` and what it forwards: the statuses and the bodies; the headers that were set
pub record Recorder : Type 0 where
  pub status : ℕ
  pub forwarded : List ℕ
  pub bodies : List Body
  pub headers : List (String × String)

pub record Exchange : Type 0 where
  pub state : RequestState
  pub recorder : Recorder

-- What the code uses of strings, bytes, encoding/base64 and crypto/sha256
pub record Library : Type 0 where
  pub to_lower : String → String
  pub trim_space : List ℕ → List ℕ
  pub base64_decode : String → Option (List ℕ)
  pub sha256 : String → List ℕ

abbrev pub Handler : Type 0 → Type 0
Handler W = Request → Exchange → W → Exchange × W

unfoldable pub set_header : String → String → Recorder → Recorder
set_header name value r = record r { headers = r.headers ++ (name, value) ∷ [] }

-- `statusRecorder.WriteHeader`
unfoldable pub write_header : ℕ → Recorder → Recorder
write_header status r =
    if r.status == 0
    then record r { status = status; forwarded = r.forwarded ++ status ∷ [] }
    else r

-- `statusRecorder.Write` of a whole body
unfoldable pub write_body : Body → Recorder → Recorder
unfolding write_header
write_body body r =
    let r' = write_header 200 r in
    if r.status == 0
    then record r' { bodies = r'.bodies ++ body ∷ [] }
    else record r { bodies = r.bodies ++ body ∷ [] }

unfoldable pub status_or_ok : Recorder → ℕ
status_or_ok r = if r.status == 0 then 200 else r.status

unfoldable pub write_json : ℕ → Body → Exchange → Exchange
unfolding set_header write_header write_body
write_json status body x = record x {
  recorder = write_body body (
      write_header status (
        set_header "Cache-Control" "no-store"
          (set_header "Content-Type" "application/json; charset=utf-8" x.recorder)));
}

abbrev pub set_note : String → Exchange → Exchange
set_note note x = record x { state = record x.state { note = note } }

-- `decodeJSON`: the value, or an error
unfoldable pub decode_json : Request → Option SignRequest
decode_json r = elim r.decoded [
  | none ↦ none
  | some v ↦ elim r.extra [ end_of_input ↦ some v | _ ↦ none ]
]

-- `requireMethod`: the answer is written already if the method is another one.
unfoldable pub require_method : String → Request → Exchange → Bool × Exchange
unfolding write_json
require_method method r x = if same_text r.method method then (true, x) else (
  false,
  write_json 405 (detail "method not allowed")
      (set_note "bad request" (record x { recorder = set_header "Allow" method x.recorder })),
)

unfoldable pub accepts_json : Library → Request → Bool
accepts_json lib r =
    let accept = lib.to_lower r.accept in leb (find accept "application/json") (len accept)

unfoldable pub is_business_path : String → Bool
is_business_path path =
    same_text path "/mfi/certificate" || same_text path "/mfi/sign" || same_text path "/mfi/reset"

unfoldable pub default_note : ℕ → String
default_note status =
    if status == 401
    then "unauthorized"
    else if leb 400 status && ltb status 500
    then "bad request"
    else if leb 500 status
    then "error"
    else "ok"

-- The token that the request brings: of the header, or else of the query if that is allowed
unfoldable pub provided_token : Bool → Request → String
provided_token allow_query_token r =
    let bearer =
      if same_text (slice r.authorization 0 7) "Bearer "
      then slice r.authorization 7 (len r.authorization)
      else "" in
    if same_text bearer "" && allow_query_token then r.query_token else bearer

-- What `withAuth` answers without a valid token
unfoldable pub refuse_access : Library → Bool → Request → Exchange → Exchange
unfolding set_header write_header write_body write_json accepts_json
refuse_access lib allow_query_token r x =
    let x' = set_note "unauthorized" x in
    if allow_query_token && not (accepts_json lib r)
    then record x' {
      recorder = write_body unauthorized_page (
          write_header 401 (
            set_header "Referrer-Policy" "no-referrer" (
              set_header "Content-Type" "text/html; charset=utf-8"
                (set_header "Cache-Control" "no-store" x'.recorder))));
    }
    else write_json 401 (detail "unauthorized") x'

-- `withAuth`
unfoldable pub with_auth : {W : Type 0} → Library → String → Handler W → Bool → Handler W
with_auth lib bearer_token next allow_query_token r x w =
    let served = next r x w in
    if same_text bearer_token ""
    then served
    else if bytes_equal (lib.sha256 (provided_token allow_query_token r)) (lib.sha256 bearer_token)
    then served
    else (refuse_access lib allow_query_token r x, w)

-- What `observe` gives the handler
abbrev pub fresh_exchange : Exchange
fresh_exchange = record {
  state = record { note = ""; request_id = ""; chip_wait = 0; chip_time = 0 };
  recorder = record { status = 0; forwarded = []; bodies = []; headers = [] };
}

-- The note that `observe` stores
unfoldable pub final_note : Exchange → String
final_note x = if same_text x.state.note "" then default_note x.recorder.status else x.state.note

-- `observe`, with the formatted time of the entry and the duration that the clock gives; `none` if the store
-- panics
unfoldable pub observe :
    {W : Type 0}
    → Handler W
    → String
    → ℕ
    → Request
    → RecentStore
    → W
    → Exchange × Option RecentStore × W
observe next time duration r recent w =
    let (x, w') = next r fresh_exchange w in
    let entry =
      recent_request time r.method r.path (status_or_ok x.recorder) duration (final_note x) in
    (x, (if is_business_path r.path then add entry recent else some recent), w')
