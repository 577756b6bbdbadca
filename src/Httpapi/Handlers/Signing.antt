-- ===== src/Httpapi/Handlers/Signing.antt =====
-- internal/httpapi/handlers.go: what a client of /mfi/sign is told when it repeats a request.
use Prim.Native.String.{String}
use text.Mathlib.Text.{◌==◌}
use remote_mfi.Prelude.{
  ℕ, ◌≡◌, ◌+◌, ◌≤◌, if◌then◌else◌, true, false, arith, Bool-cases, inl, inr, List, some,
}
use remote_mfi.Encoding.{base64_encode, bytes_equal}
use remote_mfi.Httpapi.Responses.{service_error_response}
use remote_mfi.Errors.{ok, is_sentinel}
use remote_mfi.Biz.Service.{
  Environment, Service, Waiting, SignResult, certificate, sign, reset, check_request, cache_ttl,
}
use remote_mfi.Biz.Gate.{Ready}
use remote_mfi.Biz.Later.{State, after, Later}
use remote_mfi.Biz.Replay.{sign-replay}
use text.Mathlib.TextEquality.{eq_iff}
use remote_mfi.Httpapi.Messages.{LibraryTexts, error_text, sentinel_text}
use remote_mfi.Httpapi.Server.{
  Request, Exchange, Library, decode_json, require_method, write_json, signature_body, detail,
  set_note,
}
use remote_mfi.Httpapi.Handlers.{
  ServiceInterface, handle_sign, answer_sign, set_times, write_service_error,
}

-- The service of internal/biz behind the handlers, while others act as given when a request waits
unfoldable pub service_of :
    (env : Environment) → Waiting env → Ready → ServiceInterface (Service × Environment.World env)
service_of env others ready = record {
  certificate = λ st. let (r, s, w) = certificate env others ready st in (r, (s, w));
  sign = λ id challenge st. let (r, s, w) = sign env others ready id challenge st in (r, (s, w));
  reset = λ st. let (r, s, w) = reset env st in (r, (s, w));
}

-- A request that passes the checks of `handleSign`, with the id and the bytes of the challenge
pub record IsSignRequest (lib : Library) (r : Request) (id : String) (challenge : List ℕ)
    : Type 0 where
  pub encoded : String
  pub posted : r.method ≡ "POST"
  pub decodes : decode_json r ≡ some (record { challenge = encoded; request_id = id })
  pub has_id : (id == "") ≡ false
  pub has_challenge : (encoded == "") ≡ false
  pub challenge_decodes : lib.base64_decode encoded ≡ some challenge

-- The exchange after `handleSign` has stored the request id
abbrev pub with_id : String → Exchange → Exchange
with_id id x = record x { state = record x.state { request_id = id } }

handle_sign-valid :
    {W : Type 0} (texts : LibraryTexts) (lib : Library) (service : ServiceInterface W) (r : Request)
    {id : String} {challenge : List ℕ} (x : Exchange) (w : W)
    → IsSignRequest lib r id challenge
    → handle_sign texts lib service r x w ≡ (
      answer_sign texts lib service (service.sign id challenge w).0 (with_id id x),
      (service.sign id challenge w).1,
    )
unfolding handle_sign require_method
handle_sign-valid texts lib service r {id} {challenge} x w v = ground (
  arith,
  eq_iff r.method "POST",
  v.posted,
  v.decodes,
  v.has_id,
  v.has_challenge,
  v.challenge_decodes,
)

-- Once the service has signed for a request id with a new signature of the chip, a valid request to /mfi/sign
-- with that id that arrives before the lifetime of the entry is over (60 s) changes neither the service nor the
-- world, so the chip is not called, whatever requests the service has served in between (those for signatures
-- before the lifetime is over). If its challenge has the same digest, it is answered with status 200 and the same
-- signature, and its note is `idempotent-hit`; if not, with status 400 and the message of a reused id.
pub handle_sign-replay :
    (texts : LibraryTexts) (lib : Library) (env : Environment) (others : Waiting env)
    (ready : Ready) (id : String) (challenge digest : List ℕ) (st : State env) {v : SignResult}
    → check_request env id challenge ≡ ok digest
    → (sign env others ready id challenge st).0 ≡ ok v
    → v.cached ≡ false
    → (others' : Waiting env) (ready' : Ready) (challenge' digest' : List ℕ) (s' : Service)
      (w' : Environment.World env) (r : Request) (x : Exchange)
    → let until = Environment.now env (sign env others ready id challenge st).2 + cache_ttl in
      Later env
        (λ w. Environment.now env w ≤ until)
        (after env (sign env others ready id challenge st))
        (s', w')
      → check_request env id challenge' ≡ ok digest'
      → Environment.now env w' ≤ until
      → IsSignRequest lib r id challenge'
      → handle_sign texts lib (service_of env others' ready') r x (s', w') ≡ (
        (if bytes_equal digest digest'
            then write_json 200
                (signature_body (base64_encode v.signature))
                (set_times true 0 0 (with_id id x))
            else write_json 400
                (detail "requestId reuse with different challenge")
                (set_note "bad request" (with_id id x))),
        (s', w'),
      )
unfolding service_of write_service_error service_error_response error_text sentinel_text is_sentinel
handle_sign-replay texts lib env others ready id challenge digest st {v} valid h fresh others'
      ready' challenge' digest' s' w' r x later valid' live request =
    let again =
      sign-replay env others ready id challenge digest st valid h fresh others' ready' challenge'
        digest' s' w' later valid' live in
    let answered =
      handle_sign-valid texts lib (service_of env others' ready') r x (s', w') request in
    elim (Bool-cases (bytes_equal digest digest')) [
      | inl same ↦ ground (arith, answered, again, same)
      | inr other ↦ ground (arith, answered, again, other)
    ]
