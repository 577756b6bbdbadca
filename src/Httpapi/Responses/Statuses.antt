-- ===== src/Httpapi/Responses/Statuses.antt =====
-- The statuses of the error responses.
use Prim.Native.String.{String}
use remote_mfi.Prelude.{
  if◌then◌else◌, ℕ, ◌≡◌, refl, ◌↔◌, ◌⊎◌, true, ◌||◌, arith, Option, none, some,
}
use remote_mfi.Errors.{
  GoError, ChipErrorKind, as_chip, is_sentinel, is_context, is_transport_kind, is_chip_kind,
  request_id_reuse, challenge_size, request_id_format, device_missing, wrap, as_transport,
}
use remote_mfi.Biz.Service.{normalize_hardware_error}
use remote_mfi.Httpapi.Messages.{LibraryTexts, sentinel_text}
use remote_mfi.Httpapi.Responses.{auth_response, response, service_error_response}

auth_response-status : (o : Option (ChipErrorKind × Option ℕ)) → (auth_response o).status ≡ 500
auth_response-status none = refl
auth_response-status (some (kind, none)) = refl
auth_response-status (some (kind, some code)) = refl

-- An error of the service is answered with status 400 exactly if it is one of the three that are the
-- client's fault (the size of the challenge, the form of the request id, an id used again), wrapped or not;
-- and every other error with 500 or 503.
pub service_error_response-status :
    (texts : LibraryTexts) (e : GoError)
    → (((service_error_response texts e).status ≡ 400) ↔ (
        (is_sentinel e challenge_size
          || is_sentinel e request_id_format
          || is_sentinel e request_id_reuse)
        ≡ true))
      × (((service_error_response texts e).status ≡ 400)
          ⊎ ((service_error_response texts e).status ≡ 500)
          ⊎ ((service_error_response texts e).status ≡ 503))
unfolding service_error_response
service_error_response-status texts e = ground (arith, auth_response-status (as_chip e))

-- What the driver's retries wrap around an error (`fmt.Errorf("%w")`) changes neither the status of the
-- answer nor its note, and the detail only of a status 400; and an error of the transport because of a
-- missing device, which the service normalizes, is answered with 503 and `chip missing`.
pub service_error_response-wrap :
    (texts : LibraryTexts) (operation : String) (e : GoError)
    → ((service_error_response texts (wrap operation e)).status
        ≡ (service_error_response texts e).status)
      × ((service_error_response texts (wrap operation e)).note
          ≡ (service_error_response texts e).note)
      × (((service_error_response texts e).status ≡ 400)
          ⊎ (service_error_response texts (wrap operation e) ≡ service_error_response texts e))
      × (service_error_response texts (normalize_hardware_error (wrap operation e)) ≡ (
          if is_transport_kind e device_missing
          then response 503 "chip missing" "error"
          else service_error_response texts (wrap operation e)))
unfolding service_error_response is_sentinel is_context is_transport_kind is_chip_kind as_chip
    as_transport normalize_hardware_error sentinel_text
service_error_response-wrap texts operation e =
    (ground arith, ground arith, ground arith, ground arith)
