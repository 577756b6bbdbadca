-- ===== src/Tests/Biz.antt =====
-- The service over a driver that is simulated: the world is the time.
use remote_mfi.Prelude.{
  ℕ, ◌+◌, ◌≤◌, ◌≡◌, refl, true, false, List, [], ◌∷◌, ◌++◌, arith, All, if◌then◌else◌,
}
use remote_mfi.Encoding.{bytes_equal, base64_encode, hex_encode}
use remote_mfi.Errors.{Result, ok, err, sentinel, request_id_reuse}
use remote_mfi.Biz.Cache.{SignatureEntry, lookup, get, put, delete}
use remote_mfi.Biz.Gate.{token, timer, acquire, release, new_chip_gate}
use remote_mfi.Biz.Service.{
  Environment, Service, reset, SignResult, Certificate, new_service, sign, certificate,
  check_request, look_up, with_gate, sign_on_chip, sign_holding, certificate_holding, Waiting,
}
use remote_mfi.Biz.Later.{here, State, after, Later, passes, signs, certifies, resets}
use remote_mfi.Biz.Replay.{sign-replay, certificate-replay}
use remote_mfi.Biz.Interleaving.{
  System, Reach, start, here as reached, next, act, tick, arrive, first_miss, enter, second_miss,
  chip_signs, leave, finished, Call, holders,
}
use remote_mfi.Biz.Interleaving.Exclusion.{tokens, Reach-exclusive}
use remote_mfi.Biz.Interleaving.Memory.{IsSpaced, IsRemembered}
use remote_mfi.Biz.Interleaving.Idempotence.{Reach-idempotent}

-- Signs by appending a byte; the digest of a text is the text.
abbrev pub simulated : Environment
simulated = record {
  World = ℕ;
  now = λ w. w;
  driver_protocol_major = λ w. (ok 2, w + 1);
  driver_read_certificate = λ w. (ok (7 ∷ []), w + 1);
  driver_sign_challenge = λ challenge w. (ok (challenge ++ 1 ∷ []), w + 1);
  is_uuid = λ id. true;
  sha256 = λ bytes. bytes;
}

-- While a request waits, nobody else acts.
abbrev pub alone : Waiting simulated
alone st = st

abbrev pub challenge : List ℕ
challenge = 3 ∷ []

abbrev pub signed : SignResult
signed = record { signature = 3 ∷ 1 ∷ []; cached = false; wait_duration = 0; chip_duration = 1 }

pub valid : check_request simulated "id" challenge ≡ ok challenge
unfolding check_request
valid = refl

pub valid_other : check_request simulated "id" (4 ∷ []) ≡ ok (4 ∷ [])
unfolding check_request
valid_other = refl

pub sign_run : (sign simulated alone token "id" challenge (new_service, 10)).0 ≡ ok signed
unfolding sign look_up get lookup with_gate sign_holding sign_on_chip acquire release new_service
    check_request
sign_run = refl

pub sign_time : (sign simulated alone token "id" challenge (new_service, 10)).2 ≡ 11
unfolding sign look_up get lookup with_gate sign_holding sign_on_chip acquire release new_service
    check_request
sign_time = refl

-- A signature for another id, the certificate and a reset come in between; then it is 20.
abbrev pub in_between : State simulated → State simulated
in_between (s, w) =
    let (s₁, w₁) = after simulated (sign simulated alone token "other" (9 ∷ []) (s, w)) in
    let (s₂, w₂) = after simulated (certificate simulated alone token (s₁, w₁)) in
    let (s₃, w₃) = after simulated (reset simulated (s₂, w₂)) in (s₃, 20)

pub between-Later :
    (Fits : ℕ → Type 0) (s : Service) (w : ℕ)
    → Fits w
    → Later simulated Fits (s, w) (in_between (s, w))
between-Later Fits s w fits = passes 20 (
    resets (
      certifies alone token (signs alone token "other" (9 ∷ []) here fits (λ x. here)) (λ x. here)))

abbrev pub signed_then : State simulated
signed_then =
    in_between (after simulated (sign simulated alone token "id" challenge (new_service, 10)))

sign-replay_example : sign simulated alone timer "id" (4 ∷ []) signed_then ≡ (
  if bytes_equal challenge (4 ∷ [])
      then ok
          (record { signature = 3 ∷ 1 ∷ []; cached = true; wait_duration = 0; chip_duration = 0 })
      else err (sentinel request_id_reuse),
  signed_then.0,
  20,
)
sign-replay_example =
    sign-replay simulated alone token "id" challenge challenge (new_service, 10) valid sign_run refl
      alone timer (4 ∷ []) (4 ∷ []) signed_then.0 20
      (between-Later _ _ _ (omega (arith, sign_time))) valid_other (omega (arith, sign_time))

abbrev read : Certificate
read = record {
  protocol_major = 2;
  contents = 7 ∷ [];
  base64 = base64_encode (7 ∷ []);
  sha256_hex = hex_encode (7 ∷ []);
  cached = false;
  wait_duration = 0;
  chip_duration = 2;
}

certificate_run : (certificate simulated alone token (new_service, 10)).0 ≡ ok read
unfolding certificate with_gate certificate_holding acquire release new_service
certificate_run = refl

abbrev read_then : State simulated
read_then = in_between (after simulated (certificate simulated alone token (new_service, 10)))

certificate-replay_example :
    certificate simulated alone timer read_then
    ≡ (ok (record read { cached = true; wait_duration = 0; chip_duration = 0 }), read_then.0, 20)
certificate-replay_example =
    certificate-replay simulated alone token (new_service, 10) certificate_run refl alone timer
      read_then.0 20 (between-Later _ _ _ tt)

abbrev answer : ℕ → Result SignResult
answer byte =
    ok (record { signature = byte ∷ []; cached = false; wait_duration = 0; chip_duration = 3 })

abbrev entry : ℕ → ℕ → SignatureEntry
entry byte expiry = record {
  challenge_digest = challenge;
  signature = byte ∷ [];
  expires_at = expiry;
}

abbrev first_call : Call
first_call = record { id = "id"; signed_at = 13 }

abbrev second_call : Call
second_call = record { id = "id"; signed_at = 70_000_000_016 }

-- After a request
abbrev once : System
once = record {
  shared = record {
    gate = record { taken = false; holder = ""; acquired_at = 0 };
    cache = ("id", entry 5 60_000_000_013) ∷ [];
    clock = 13;
    calls = first_call ∷ [];
  };
  threads = finished (answer 5) ∷ [];
}

-- After the same request again, 70 s later
abbrev twice : System
twice = record {
  shared = record {
    gate = record { taken = false; holder = ""; acquired_at = 0 };
    cache = ("id", entry 6 130_000_000_016) ∷ [];
    clock = 70_000_000_016;
    calls = second_call ∷ first_call ∷ [];
  };
  threads = finished (answer 6) ∷ finished (answer 5) ∷ [];
}

once-Reach : Reach simulated (start 10) once
unfolding check_request look_up get lookup delete put start acquire release new_chip_gate
once-Reach =
    next
      (next
        (next
          (next
            (next
              (next (next reached (arrive "id" challenge))
                (act [] [] refl (first_miss challenge refl refl)))
              (act [] [] refl (enter refl)))
            (act [] [] refl (second_miss refl)))
          (tick 3))
        (act [] [] refl (chip_signs (5 ∷ []))))
      (act [] [] refl leave)

twice-Reach : Reach simulated (start 10) twice
unfolding check_request look_up get lookup delete put acquire release
twice-Reach =
    let rest = finished (answer 5) ∷ [] in
    next
      (next
        (next
          (next
            (next
              (next (next (next once-Reach (tick 70_000_000_000)) (arrive "id" challenge))
                (act [] rest refl (first_miss challenge refl refl)))
              (act [] rest refl (enter refl)))
            (act [] rest refl (second_miss refl)))
          (tick 3))
        (act [] rest refl (chip_signs (6 ∷ []))))
      (act [] rest refl leave)

Reach-exclusive_example :
    (holders twice.threads ≡ tokens twice.shared.gate.taken) × (holders twice.threads ≤ 1)
Reach-exclusive_example = Reach-exclusive simulated 10 twice-Reach

Reach-idempotent_example :
    IsSpaced (second_call ∷ first_call ∷ [])
    × All
        (IsRemembered 70_000_000_016 (("id", entry 6 130_000_000_016) ∷ []))
        (second_call ∷ first_call ∷ [])
Reach-idempotent_example = Reach-idempotent simulated 10 twice-Reach
