-- ===== src/Httpapi/Handlers/Answers.antt =====
-- Every request under /mfi is answered once.
use Prim.Native.String.{String}
use text.Mathlib.Text.{◌==◌}
use remote_mfi.Prelude.{
  ℕ, ◌≡◌, refl, inl, inr, Bool, true, false, ◌∷◌, List, Option, none, some, arith, Bool-cases,
}
use remote_mfi.Encoding.{bytes_equal}
use remote_mfi.Errors.{Result, ok, err}
use remote_mfi.Biz.Service.{Certificate, SignResult}
use remote_mfi.Httpapi.Messages.{LibraryTexts}
use remote_mfi.Httpapi.Recent.{RecentStore, RecentRequest, recent_request}
use remote_mfi.Httpapi.Recent.Newest.{Holds, add-Holds}
use remote_mfi.Httpapi.Server.{
  Request, Exchange, Library, Handler, SignRequest, set_note, decode_json, with_auth,
  fresh_exchange, observe, final_note, status_or_ok, is_business_path, provided_token,
}
use remote_mfi.Httpapi.Handlers.{
  ServiceInterface, set_times, answer_certificate, handle_certificate, answer_sign, sign_challenge,
  sign_decoded, handle_sign, answer_reset, is_empty_object, handle_reset, business_routes,
}
use remote_mfi.Httpapi.Handlers.Written.{
  IsUnanswered, IsAnswered, positive_status, write_json-IsAnswered, refuse_access-IsAnswered,
  require_method-cases, write_service_error-IsAnswered, bad_request-IsAnswered,
}

module _ {W : Type 0} (texts : LibraryTexts) (lib : Library) (service : ServiceInterface W) where
  answer_certificate-IsAnswered :
      (answer : Result Certificate) (x : Exchange)
      → IsUnanswered x.recorder
      → IsAnswered (answer_certificate texts lib service answer x).recorder
  answer_certificate-IsAnswered (ok c) x h =
      write_json-IsAnswered 200 _ (set_times c.cached c.wait_duration c.chip_duration x) (inl refl)
        h
  answer_certificate-IsAnswered (err e) x h = write_service_error-IsAnswered texts e x h

  handle_certificate-IsAnswered :
      (r : Request) (x : Exchange) (w : W)
      → IsUnanswered x.recorder
      → IsAnswered (handle_certificate texts lib service r x w).0.recorder
  unfolding handle_certificate
  handle_certificate-IsAnswered r x w h = elim (require_method-cases "GET" r x h) [
    | inl e ↦
        rw (e, handle_certificate) (answer_certificate-IsAnswered (service.certificate w).0 x h)
    | inr (e, done) ↦ rw (e, handle_certificate) done
  ]

  answer_sign-IsAnswered :
      (answer : Result SignResult) (x : Exchange)
      → IsUnanswered x.recorder
      → IsAnswered (answer_sign texts lib service answer x).recorder
  answer_sign-IsAnswered (ok c) x h =
      write_json-IsAnswered 200 _ (set_times c.cached c.wait_duration c.chip_duration x) (inl refl)
        h
  answer_sign-IsAnswered (err e) x h = write_service_error-IsAnswered texts e x h

  sign_challenge-IsAnswered :
      (id : String) (challenge : Option (List ℕ)) (x : Exchange) (w : W)
      → IsUnanswered x.recorder
      → IsAnswered (sign_challenge texts lib service id challenge x w).0.recorder
  sign_challenge-IsAnswered id none x w h = bad_request-IsAnswered _ x h
  sign_challenge-IsAnswered id (some challenge) x w h =
      answer_sign-IsAnswered (service.sign id challenge w).0 x h

  sign_decoded-IsAnswered :
      (request : Option SignRequest) (x : Exchange) (w : W)
      → IsUnanswered x.recorder
      → IsAnswered (sign_decoded texts lib service request x w).0.recorder
  sign_decoded-IsAnswered none x w h = bad_request-IsAnswered _ x h
  sign_decoded-IsAnswered (some request) x w h =
      let x' = record x { state = record x.state { request_id = request.request_id } } in
      let signed =
        sign_challenge-IsAnswered request.request_id (lib.base64_decode request.challenge) x' w h in
      elim (Bool-cases (request.request_id == "")) [
        | inl e ↦ rw e (bad_request-IsAnswered _ x' h)
        | inr e ↦ elim (Bool-cases (request.challenge == "")) [
          | inl c ↦ rw (e, c) (bad_request-IsAnswered _ x' h)
          | inr c ↦ rw (e, c) signed
        ]
      ]

  handle_sign-IsAnswered :
      (r : Request) (x : Exchange) (w : W)
      → IsUnanswered x.recorder
      → IsAnswered (handle_sign texts lib service r x w).0.recorder
  unfolding handle_sign
  handle_sign-IsAnswered r x w h = elim (require_method-cases "POST" r x h) [
    | inl e ↦ rw (e, handle_sign) (sign_decoded-IsAnswered (decode_json r) x w h)
    | inr (e, done) ↦ rw (e, handle_sign) done
  ]

  answer_reset-IsAnswered :
      (answer : Result (Unit {0})) (x : Exchange)
      → IsUnanswered x.recorder
      → IsAnswered (answer_reset texts lib service answer x).recorder
  answer_reset-IsAnswered (ok u) x h = write_json-IsAnswered 200 _ (set_note "noop" x) (inl refl) h
  answer_reset-IsAnswered (err e) x h = write_service_error-IsAnswered texts e x h

  handle_reset-IsAnswered :
      (r : Request) (x : Exchange) (w : W)
      → IsUnanswered x.recorder
      → IsAnswered (handle_reset texts lib service r x w).0.recorder
  unfolding handle_reset
  handle_reset-IsAnswered r x w h = elim (require_method-cases "POST" r x h) [
    | inl e ↦ elim (Bool-cases (is_empty_object texts lib service r.body)) [
      | inl b ↦ rw (e, b, handle_reset) (answer_reset-IsAnswered (service.reset w).0 x h)
      | inr b ↦ rw (e, b, handle_reset) (bad_request-IsAnswered _ x h)
    ]
    | inr (e, done) ↦ rw (e, handle_reset) done
  ]

with_auth-IsAnswered :
    {W : Type 0} (lib : Library) (token : String) (next : Handler W) (query : Bool) (r : Request)
    (x : Exchange) (w : W)
    → IsUnanswered x.recorder
    → IsAnswered (next r x w).0.recorder
    → IsAnswered (with_auth lib token next query r x w).0.recorder
unfolding with_auth
with_auth-IsAnswered lib token next query r x w h served = elim (Bool-cases (token == "")) [
  | inl e ↦ rw (e, with_auth) served
  | inr e ↦
      elim (Bool-cases (bytes_equal (lib.sha256 (provided_token query r)) (lib.sha256 token))) [
        | inl same ↦ rw (e, same, with_auth) served
        | inr other ↦ rw (e, other, with_auth) (refuse_access-IsAnswered lib query r x h)
      ]
]

pub business_routes-IsAnswered :
    {W : Type 0} (texts : LibraryTexts) (lib : Library) (service : ServiceInterface W)
    (token : String) (others : Handler W) (r : Request) (w : W)
    → is_business_path r.path ≡ true
    → IsAnswered (business_routes texts lib service token others r fresh_exchange w).0.recorder
unfolding business_routes is_business_path
business_routes-IsAnswered texts lib service token others r w business =
    let new : IsUnanswered fresh_exchange.recorder = (refl, refl, refl) in
    let fresh = fresh_exchange in
    elim (Bool-cases (r.path == "/mfi/certificate")) [
      | inl e ↦
          rw (e, business_routes)
            (with_auth-IsAnswered lib token (handle_certificate texts lib service) false r fresh w
              new (handle_certificate-IsAnswered texts lib service r fresh w new))
      | inr a ↦ elim (Bool-cases (r.path == "/mfi/sign")) [
        | inl e ↦
            rw (a, e, business_routes)
              (with_auth-IsAnswered lib token (handle_sign texts lib service) false r fresh w new
                (handle_sign-IsAnswered texts lib service r fresh w new))
        | inr b ↦ elim (Bool-cases (r.path == "/mfi/reset")) [
          | inl e ↦
              rw (a, b, e, business_routes)
                (with_auth-IsAnswered lib token (handle_reset texts lib service) false r fresh w new
                  (handle_reset-IsAnswered texts lib service r fresh w new))
          | inr c ↦ ground arith
        ]
      ]
    ]

-- Whatever the service, the token and the request, a request with one of the three paths under /mfi is
-- answered with one status, of 200, 400, 401, 405, 500 and 503, and one body; and a store of the latest
-- requests that holds a history then holds it with this request, its method, its path and that status as
-- the newest.
pub observe-answers :
    {W : Type 0} (texts : LibraryTexts) (lib : Library) (service : ServiceInterface W)
    (token : String) (others : Handler W) (time : String) (duration : ℕ) (r : Request)
    (recent : RecentStore) (history : List RecentRequest) (w : W)
    → is_business_path r.path ≡ true
    → Holds recent history
    → (x : Exchange) × (recent' : RecentStore) × (w' : W) × (observe
          (business_routes texts lib service token others)
          time
          duration
          r
          recent
          w
        ≡ (x, some recent', w'))
      × IsAnswered x.recorder
      × Holds recent'
          (recent_request time r.method r.path x.recorder.status duration (final_note x) ∷ history)
unfolding observe status_or_ok
observe-answers texts lib service token others time duration r recent history w business h =
    let out = business_routes texts lib service token others r fresh_exchange w in
    let x = out.0 in
    let done = business_routes-IsAnswered texts lib service token others r w business in
    let status : status_or_ok x.recorder ≡ x.recorder.status =
      ground (arith, positive_status x.recorder.status done.0) in
    let entry = recent_request time r.method r.path x.recorder.status duration (final_note x) in
    let (recent', added, held) = add-Holds recent entry history h in
    (x, recent', out.1, rw (observe, business, status) (rw added refl), done, held)
