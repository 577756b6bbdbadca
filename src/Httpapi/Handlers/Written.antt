-- ===== src/Httpapi/Handlers/Written.antt =====
-- What the answers of the handlers write.
use Prim.Native.String.{String}
use text.Mathlib.Text.{◌==◌}
use remote_mfi.Prelude.{
  ℕ, ◌≡◌, ◌<◌, ◌&&◌, not, refl, ◌⊎◌, inl, inr, Bool, true, false, ◌∷◌, [], arith, Bool-cases,
}
use remote_mfi.Errors.{GoError}
use remote_mfi.Httpapi.Messages.{LibraryTexts}
use remote_mfi.Httpapi.Responses.{service_error_response}
use remote_mfi.Httpapi.Responses.Statuses.{service_error_response-status}
use remote_mfi.Httpapi.Server.{
  Request, Exchange, Recorder, Library, Body, set_header, write_header, write_body, write_json,
  set_note, require_method, refuse_access, accepts_json, unauthorized_page, detail,
}
use remote_mfi.Httpapi.Handlers.{bad_request, write_service_error}

abbrev IsStatus : ℕ → Type 0
IsStatus s = (s ≡ 200) ⊎ (s ≡ 400) ⊎ (s ≡ 401) ⊎ (s ≡ 405) ⊎ (s ≡ 500) ⊎ (s ≡ 503)

-- Nothing is written yet.
abbrev pub IsUnanswered : Recorder → Type 0
IsUnanswered r = (r.status ≡ 0) × (r.forwarded ≡ []) × (r.bodies ≡ [])

-- One status is sent, with one body.
abbrev pub IsAnswered : Recorder → Type 0
IsAnswered r =
    IsStatus r.status × (r.forwarded ≡ r.status ∷ []) × ((b : Body) × (r.bodies ≡ b ∷ []))

written :
    (status : ℕ) (body : Body) (r : Recorder)
    → 0 < status
    → IsUnanswered r
    → write_body body (write_header status r)
      ≡ record { status = status; forwarded = status ∷ []; bodies = body ∷ []; headers = r.headers }
unfolding write_header write_body
written status body r positive (fresh, silent, empty) = ground (arith, fresh, silent, empty)

pub positive_status : (s : ℕ) → IsStatus s → 0 < s
positive_status s known = ground arith

pub answered :
    (status : ℕ) (body : Body) (r : Recorder)
    → IsStatus status
    → IsUnanswered r
    → IsAnswered (write_body body (write_header status r))
answered status body r known h =
    rw (written status body r (positive_status status known) h) (known, refl, (body, refl))

pub write_json-IsAnswered :
    (status : ℕ) (body : Body) (x : Exchange)
    → IsStatus status
    → IsUnanswered x.recorder
    → IsAnswered (write_json status body x).recorder
unfolding write_json set_header
write_json-IsAnswered status body x known h = answered status body _ known h

pub refuse_access-IsAnswered :
    (lib : Library) (query : Bool) (r : Request) (x : Exchange)
    → IsUnanswered x.recorder
    → IsAnswered (refuse_access lib query r x).recorder
unfolding refuse_access set_header write_json
refuse_access-IsAnswered lib query r x h = elim (Bool-cases (query && not (accepts_json lib r))) [
  | inl page ↦ rw (page, refuse_access) (answered 401 unauthorized_page _ (inr (inr (inl refl))) h)
  | inr json ↦ rw (json, refuse_access) (answered 401 _ _ (inr (inr (inl refl))) h)
]

pub require_method-cases :
    (method : String) (r : Request) (x : Exchange)
    → IsUnanswered x.recorder
    → (require_method method r x ≡ (true, x))
      ⊎ (((require_method method r x).0 ≡ false)
          × IsAnswered (require_method method r x).1.recorder)
unfolding require_method set_header
require_method-cases method r x h = elim (Bool-cases (r.method == method)) [
  | inl same ↦ inl (rw same refl)
  | inr other ↦ inr (
      rw other (
        refl,
        write_json-IsAnswered 405 _
            (set_note "bad request" (record x { recorder = set_header "Allow" method x.recorder }))
            (inr (inr (inr (inl refl)))) h,
      ))
]

pub write_service_error-IsAnswered :
    (texts : LibraryTexts) (e : GoError) (x : Exchange)
    → IsUnanswered x.recorder
    → IsAnswered (write_service_error texts e x).recorder
unfolding write_service_error
write_service_error-IsAnswered texts e x h =
    write_json-IsAnswered _ _ (set_note (service_error_response texts e).note x)
      (known (service_error_response-status texts e).1) h
  where
    known : {s : ℕ} → (s ≡ 400) ⊎ (s ≡ 500) ⊎ (s ≡ 503) → IsStatus s
    known k = ground arith

pub bad_request-IsAnswered :
    (message : String) (x : Exchange)
    → IsUnanswered x.recorder
    → IsAnswered (bad_request message x).recorder
bad_request-IsAnswered message x h =
    write_json-IsAnswered 400 (detail message) (set_note "bad request" x) (inr (inl refl)) h
