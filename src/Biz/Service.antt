-- ===== src/Biz/Service.antt =====
-- The operations of `Service`. The state that the requests share is passed explicitly; while a request
-- waits for the chip, others may change it.
use Prim.Native.String.{String}
use remote_mfi.Prelude.{
  ℕ, ◌+◌, ◌-◌, Bool, true, false, ◌||◌, List, [], Option, none, some, length, ltb, if◌then◌else◌,
}
use remote_mfi.Encoding.{base64_encode, hex_encode, bytes_equal}
use remote_mfi.Errors.{
  Result, ok, err, GoError, sentinel, chip_missing, request_id_reuse, challenge_size,
  request_id_format, wrap_detail, is_transport_kind, device_missing,
}
use remote_mfi.Effects.Action.{Action}
use remote_mfi.Biz.Cache.{SignatureEntry, Entries, get, put}
use remote_mfi.Biz.Gate.{Gate, Ready, acquire, release, new_chip_gate, gate_status}

-- Durations are nanoseconds.
abbrev pub cache_ttl : ℕ
cache_ttl = 60_000_000_000

pub record Certificate : Type 0 where
  pub protocol_major : ℕ
  pub contents : List ℕ
  pub base64 : List ℕ
  pub sha256_hex : List ℕ
  pub cached : Bool
  pub wait_duration : ℕ
  pub chip_duration : ℕ

pub record SignResult : Type 0 where
  pub signature : List ℕ
  pub cached : Bool
  pub wait_duration : ℕ
  pub chip_duration : ℕ

pub record RuntimeStatus : Type 0 where
  pub cache_entries : ℕ
  pub lock_holder : String
  pub lock_held : ℕ

-- The fields of `Service` that change
pub record Service : Type 0 where
  pub gate : Gate
  pub cache : Entries
  pub certificate : Option Certificate

unfoldable pub new_service : Service
unfolding new_chip_gate
new_service = record { gate = new_chip_gate; cache = []; certificate = none }

-- What the service uses of its surroundings: the driver, the clock, and the packages uuid and sha256
pub record Environment : Type 1 where
  pub World : Type 0
  pub now : World → ℕ
  pub driver_protocol_major : Action World ℕ
  pub driver_read_certificate : Action World (List ℕ)
  pub driver_sign_challenge : List ℕ → Action World (List ℕ)
  pub is_uuid : String → Bool
  pub sha256 : List ℕ → List ℕ

unfoldable pub normalize_hardware_error : GoError → GoError
normalize_hardware_error e =
    if is_transport_kind e device_missing then wrap_detail (sentinel chip_missing) e else e

unfoldable pub cached_result : List ℕ → SignatureEntry → Result SignResult
cached_result digest entry =
    if bytes_equal entry.challenge_digest digest
    then ok (record {
      signature = entry.signature;
      cached = true;
      wait_duration = 0;
      chip_duration = 0;
    })
    else err (sentinel request_id_reuse)

-- `if entry, ok := s.cache.get(requestID); ok { return cachedResult(entry, challengeDigest) }`
abbrev pub hit_result : List ℕ → Option SignatureEntry → Option (Result SignResult)
hit_result digest none = none
hit_result digest (some entry) = some (cached_result digest entry)

unfoldable pub look_up : ℕ → String → List ℕ → Entries → Option (Result SignResult) × Entries
look_up now id digest es = let (hit, es') = get now id es in (hit_result digest hit, es')

module _ (env : Environment) where
  open env use {
    World, now, driver_protocol_major, driver_read_certificate, driver_sign_challenge, is_uuid,
    sha256,
  }

  -- What other requests and the passing of time do while this one waits
  abbrev pub Waiting : Type 0
  Waiting = Service × World → Service × World

  -- Takes the gate, runs the rest with the time waited, and releases it: `defer release()`.
  unfoldable pub with_gate :
      {A : Type 0}
      → String
      → Waiting
      → Ready
      → (ℕ → Service × World → Result A × Service × World)
      → Service × World
      → Result A × Service × World
  with_gate holder others ready body (s, w) =
      let (s₁, w₁) = others (s, w) in
      let (taken, gate) = acquire (now w₁) holder ready s₁.gate in
      let (r, s₂, w₂) = body (now w₁ - now w) (record s₁ { gate = gate }, w₁) in
      elim taken [
        | err e ↦ (err e, record s₁ { gate = gate }, w₁)
        | ok u ↦ (r, record s₂ { gate = release s₂.gate }, w₂)
      ]

  -- The checks of `Sign` before the cache is asked
  unfoldable pub check_request : String → List ℕ → Result (List ℕ)
  check_request id challenge =
      if is_uuid id
      then (if ltb (length challenge) 1 || ltb 128 (length challenge)
          then err (sentinel challenge_size)
          else ok (sha256 challenge))
      else err (sentinel request_id_format)

  -- The entry for a signature that the chip has made
  abbrev pub new_entry : List ℕ → List ℕ → World → SignatureEntry
  new_entry digest signature w = record {
    challenge_digest = digest;
    signature = signature;
    expires_at = now w + cache_ttl;
  }

  -- With the token, after the second look found nothing
  unfoldable pub sign_on_chip :
      String → List ℕ → List ℕ → ℕ → Service × World → Result SignResult × Service × World
  sign_on_chip id challenge digest waited (s, w) =
      let (r, w') = driver_sign_challenge challenge w in
      elim r [
        | err e ↦ (err (normalize_hardware_error e), s, w')
        | ok signature ↦ (
          ok (record {
            signature = signature;
            cached = false;
            wait_duration = waited;
            chip_duration = now w' - now w;
          }),
          record s { cache = put id (new_entry digest signature w') s.cache },
          w',
        )
      ]

  unfoldable pub sign_holding :
      String → List ℕ → List ℕ → ℕ → Service × World → Result SignResult × Service × World
  sign_holding id challenge digest waited (s, w) =
      let (hit, es) = look_up (now w) id digest s.cache in
      elim hit [
        | some r ↦ (r, record s { cache = es }, w)
        | none ↦ sign_on_chip id challenge digest waited (record s { cache = es }, w)
      ]

  -- `Service.Sign`
  unfoldable pub sign :
      Waiting → Ready → String → List ℕ → Service × World → Result SignResult × Service × World
  sign others ready id challenge (s, w) = elim (check_request id challenge) [
    | err e ↦ (err e, s, w)
    | ok digest ↦
        let (hit, es) = look_up (now w) id digest s.cache in
        elim hit [
          | some r ↦ (r, record s { cache = es }, w)
          | none ↦
              with_gate id others ready (sign_holding id challenge digest)
                (record s { cache = es }, w)
        ]
  ]

  -- A certificate as `Certificate` stores it
  abbrev pub stored_certificate : ℕ → List ℕ → Certificate
  stored_certificate major contents = record {
    protocol_major = major;
    contents = contents;
    base64 = base64_encode contents;
    sha256_hex = hex_encode (sha256 contents);
    cached = false;
    wait_duration = 0;
    chip_duration = 0;
  }

  abbrev keep_certificate :
      ℕ → ℕ → ℕ → Service → Result (List ℕ) × World → Result Certificate × Service × World
  keep_certificate started waited major s (err e, w) = (err (normalize_hardware_error e), s, w)
  keep_certificate started waited major s (ok contents, w) =
      let stored = stored_certificate major contents in
      (
        ok (record stored { wait_duration = waited; chip_duration = now w - started }),
        record s { certificate = some stored },
        w,
      )

  abbrev read_after_major :
      ℕ → ℕ → Service → Result ℕ × World → Result Certificate × Service × World
  read_after_major started waited s (err e, w) = (err (normalize_hardware_error e), s, w)
  read_after_major started waited s (ok major, w) =
      keep_certificate started waited major s (driver_read_certificate w)

  unfoldable pub certificate_holding : ℕ → Service × World → Result Certificate × Service × World
  certificate_holding waited (s, w) = elim s.certificate [
    | some c ↦ (ok (record c { cached = true; wait_duration = waited }), s, w)
    | none ↦ read_after_major (now w) waited s (driver_protocol_major w)
  ]

  -- `Service.Certificate`
  unfoldable pub certificate :
      Waiting → Ready → Service × World → Result Certificate × Service × World
  certificate others ready (s, w) = elim s.certificate [
    | some c ↦ (ok (record c { cached = true }), s, w)
    | none ↦ with_gate "certificate" others ready certificate_holding (s, w)
  ]

  -- `Service.Reset`
  unfoldable pub reset : Service × World → Result (Unit {0}) × Service × World
  reset (s, w) = (ok tt, s, w)

  abbrev normalized : Result ℕ → Result ℕ
  normalized (ok n) = ok n
  normalized (err e) = err (normalize_hardware_error e)

  -- `Service.Probe`
  unfoldable pub probe : Waiting → Ready → Service × World → Result ℕ × Service × World
  probe others ready (s, w) =
      with_gate "startup-probe" others ready
        (λ waited st. let (r, w') = driver_protocol_major st.1 in (normalized r, st.0, w')) (s, w)

  -- `Service.Runtime`
  unfoldable pub runtime : Service × World → RuntimeStatus
  runtime (s, w) =
      let (holder, held) = gate_status (now w) s.gate in
      record { cache_entries = length s.cache; lock_holder = holder; lock_held = held }
