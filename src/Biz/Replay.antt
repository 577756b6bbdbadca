-- ===== src/Biz/Replay.antt =====
-- What `Sign` and `Certificate` answer when they are asked again.
use Prim.Native.String.{String}
use remote_mfi.Prelude.{
  ℕ, ◌+◌, ◌-◌, ◌≤◌, ◌≡◌, refl, ap, ◌∙◌, true, false, List, Option, none, some, arith, Option-cases,
  inl, inr, if◌then◌else◌,
}
use text.Mathlib.TextEquality.{eq_iff}
use remote_mfi.Encoding.{bytes_equal}
use remote_mfi.Errors.{Result, ok, err, sentinel, request_id_reuse, Result-cases}
use remote_mfi.Biz.Cache.{SignatureEntry, Entries, lookup, get, lookup-put, get-found}
use remote_mfi.Biz.Gate.{Ready, token, timer, ctx_done, acquire, release}
use remote_mfi.Biz.Later.{State, after, Later, Later-keeps}
use remote_mfi.Biz.Keeping.{Remembers, Remembers-IsKept, HasCertificate, HasCertificate-IsKept}
use remote_mfi.Biz.Service.{
  Environment, Service, SignResult, Certificate, Waiting, cache_ttl, cached_result, hit_result,
  look_up, with_gate, check_request, sign_on_chip, sign_holding, sign, certificate_holding,
  certificate, new_entry,
}

hit-cached :
    (digest : List ℕ) (entry : Option SignatureEntry) {r : SignResult}
    → hit_result digest entry ≡ some (ok r)
    → r.cached ≡ true
unfolding cached_result
hit-cached digest none h = ground arith
hit-cached digest (some e) h = ground arith

module _ (env : Environment) where
  open env use {
    World, now, driver_sign_challenge, driver_protocol_major, driver_read_certificate, sha256,
  }

  -- The entry of a result of the chip is in the cache.
  abbrev Kept : String → List ℕ → Result SignResult × Service × World → Type 0
  Kept id digest out =
      (v : SignResult)
      → out.0 ≡ ok v
      → v.cached ≡ false
      → lookup id out.1.cache
        ≡ some (record {
          challenge_digest = digest;
          signature = v.signature;
          expires_at = now out.2 + cache_ttl;
        })

  sign_on_chip-Kept :
      (id : String) (challenge digest : List ℕ) (waited : ℕ) (st : Service × World)
      → Kept id digest (sign_on_chip env id challenge digest waited st)
  unfolding sign_on_chip
  sign_on_chip-Kept id challenge digest waited (s, w) v h c =
      elim (Result-cases (driver_sign_challenge challenge w).0) [
        | inl (sig, e) ↦
            let entry = new_entry env digest sig (driver_sign_challenge challenge w).1 in
            ground (arith, e, lookup-put id id entry s.cache, eq_iff id id)
        | inr (x, e) ↦ ground (arith, e)
      ]

  hit-Kept :
      (id : String) (digest : List ℕ) (entry : Option SignatureEntry) (r : Result SignResult)
      (s : Service) (w : World)
      → hit_result digest entry ≡ some r
      → Kept id digest (r, s, w)
  hit-Kept id digest entry r s w e v h c =
      let cached = hit-cached digest entry {r = v} (e ∙ ap (λ x. some x) h) in ground arith

  sign_holding-Kept :
      (id : String) (challenge digest : List ℕ) (waited : ℕ) (st : Service × World)
      → Kept id digest (sign_holding env id challenge digest waited st)
  unfolding sign_holding look_up
  sign_holding-Kept id challenge digest waited (s, w) =
      let (hit, es) = get (now w) id s.cache in go hit es
    where
      go :
          (hit : Option SignatureEntry) (es : Entries)
          → Kept id digest (elim (hit_result digest hit) [
            | some r ↦ (r, record s { cache = es }, w)
            | none ↦ sign_on_chip env id challenge digest waited (record s { cache = es }, w)
          ])
      go none es = sign_on_chip-Kept id challenge digest waited (record s { cache = es }, w)
      go (some entry) es =
          hit-Kept id digest (some entry) (cached_result digest entry) (record s { cache = es }) w
            refl

  with_gate-Kept :
      (id : String) (digest : List ℕ) (others : Waiting env) (ready : Ready)
      (body : ℕ → Service × World → Result SignResult × Service × World) (st : Service × World)
      → ((waited : ℕ) (st : Service × World) → Kept id digest (body waited st))
      → Kept id digest (with_gate env id others ready body st)
  unfolding with_gate acquire release
  with_gate-Kept id digest others token body (s, w) kept v h c =
      let (s₁, w₁) = others (s, w) in
      kept (now w₁ - now w) (record s₁ { gate = (acquire (now w₁) id token s₁.gate).1 }, w₁) v h c
  with_gate-Kept id digest others timer body (s, w) kept v h c = ground arith
  with_gate-Kept id digest others (ctx_done x) body (s, w) kept v h c = ground arith

  sign-Kept :
      (others : Waiting env) (ready : Ready) (id : String) (challenge digest : List ℕ)
      (st : Service × World)
      → check_request env id challenge ≡ ok digest
      → Kept id digest (sign env others ready id challenge st)
  unfolding sign look_up
  sign-Kept others ready id challenge digest (s, w) valid =
      rw (valid, sign) (let (hit, es) = get (now w) id s.cache in go hit es)
    where
      go :
          (hit : Option SignatureEntry) (es : Entries)
          → Kept id digest (elim (hit_result digest hit) [
            | some r ↦ (r, record s { cache = es }, w)
            | none ↦
                with_gate env id others ready
                  (sign_holding env id challenge digest)
                  (record s { cache = es }, w)
          ])
      go none es =
          with_gate-Kept id digest others ready (sign_holding env id challenge digest)
            (record s { cache = es }, w)
            (λ waited st. sign_holding-Kept id challenge digest waited st)
      go (some entry) es =
          hit-Kept id digest (some entry) (cached_result digest entry) (record s { cache = es }) w
            refl

  -- A live entry answers the request, and nothing changes.
  sign-live :
      (others : Waiting env) (ready : Ready) (id : String) (challenge digest : List ℕ) (s : Service)
      (w : World) {entry : SignatureEntry}
      → check_request env id challenge ≡ ok digest
      → lookup id s.cache ≡ some entry
      → now w ≤ entry.expires_at
      → sign env others ready id challenge (s, w) ≡ (cached_result digest entry, s, w)
  unfolding sign look_up
  sign-live others ready id challenge digest s w valid found live =
      let hit = get-found (now w) id s.cache found live in ground (arith, valid, hit)

  stored-again :
      (others : Waiting env) (ready : Ready) (s : Service) (w : World) {c : Certificate}
      → s.certificate ≡ some c
      → certificate env others ready (s, w) ≡ (ok (record c { cached = true }), s, w)
  unfolding certificate
  stored-again others ready s w e = ground (arith, e)

  -- The certificate that was read is stored.
  abbrev Stored : Result Certificate × Service × World → Type 0
  Stored out =
      (c : Certificate)
      → out.0 ≡ ok c
      → c.cached ≡ false
      → out.1.certificate ≡ some (record c { wait_duration = 0; chip_duration = 0 })

  certificate_holding-Stored :
      (waited : ℕ) (st : Service × World) → Stored (certificate_holding env waited st)
  unfolding certificate_holding
  certificate_holding-Stored waited (s, w) c h fresh = elim (Option-cases s.certificate) [
    | inr (k, e) ↦ ground (arith, e)
    | inl e ↦ elim (Result-cases (driver_protocol_major w).0) [
      | inr (x, p) ↦ ground (arith, e, p)
      | inl (major, p) ↦
          elim (Result-cases (driver_read_certificate (driver_protocol_major w).1).0) [
            | inl (bytes, q) ↦ ground (arith, e, p, q)
            | inr (x, q) ↦ ground (arith, e, p, q)
          ]
    ]
  ]

  certificate-Stored :
      (others : Waiting env) (ready : Ready) (st : Service × World)
      → Stored (certificate env others ready st)
  unfolding certificate with_gate acquire release
  certificate-Stored others token (s, w) c h fresh = elim (Option-cases s.certificate) [
    | inr (k, e) ↦ ground (arith, e)
    | inl e ↦
        let (s₁, w₁) = others (s, w) in
        let kept =
          certificate_holding-Stored (now w₁ - now w)
            (record s₁ { gate = (acquire (now w₁) "certificate" token s₁.gate).1 }, w₁) c in
        ground (arith, e, kept)
  ]
  certificate-Stored others timer (s, w) c h fresh = ground arith
  certificate-Stored others (ctx_done x) (s, w) c h fresh = ground arith

-- Once `Sign` has answered with a new signature of the chip, a request with the same id that arrives
-- before the lifetime of the entry is over (60 s) is answered from the cache: with the same signature, marked as
-- cached, if the challenge's digest is the same, and with the error of a reused id if not. Neither the service
-- nor the world changes, so the chip is not called. In between, any requests may have been served, for signatures
-- (that arrive before the lifetime is over), the certificate, a reset or a probe, each with others that act while it
-- waits.
pub sign-replay :
    (env : Environment) (others : Waiting env) (ready : Ready) (id : String)
    (challenge digest : List ℕ) (st : State env) {v : SignResult}
    → check_request env id challenge ≡ ok digest
    → (sign env others ready id challenge st).0 ≡ ok v
    → v.cached ≡ false
    → (others' : Waiting env) (ready' : Ready) (challenge' digest' : List ℕ) (s' : Service)
      (w' : Environment.World env)
    → let until = Environment.now env (sign env others ready id challenge st).2 + cache_ttl in
      Later env
        (λ w. Environment.now env w ≤ until)
        (after env (sign env others ready id challenge st))
        (s', w')
      → check_request env id challenge' ≡ ok digest'
      → Environment.now env w' ≤ until
      → sign env others' ready' id challenge' (s', w') ≡ (
        if bytes_equal digest digest'
            then ok (record {
              signature = v.signature;
              cached = true;
              wait_duration = 0;
              chip_duration = 0;
            })
            else err (sentinel request_id_reuse),
        s',
        w',
      )
unfolding cached_result
sign-replay env others ready id challenge digest st {v} valid h fresh others' ready' challenge'
      digest' s' w' later valid' live =
    let entry : SignatureEntry = record {
      challenge_digest = digest;
      signature = v.signature;
      expires_at = Environment.now env (sign env others ready id challenge st).2 + cache_ttl;
    } in
    let kept =
      Later-keeps env _ (Remembers env id entry) (Remembers-IsKept env id entry) later
        (sign-Kept env others ready id challenge digest st valid v h fresh) in
    sign-live env others' ready' id challenge' digest' s' w' valid' kept live

-- Once `Certificate` has answered with a certificate that it read from the chip, every later call, however
-- long after and whatever requests (for signatures, the certificate, a reset or a probe, each with others that
-- act while it waits) have been served in between, answers with the same contents, encodings and protocol
-- version, marked as cached, and neither the service nor the world changes, so the chip is not called.
pub certificate-replay :
    (env : Environment) (others : Waiting env) (ready : Ready) (st : State env) {c : Certificate}
    → (certificate env others ready st).0 ≡ ok c
    → c.cached ≡ false
    → (others' : Waiting env) (ready' : Ready) (s' : Service) (w' : Environment.World env)
    → Later env (λ w. Unit {0}) (after env (certificate env others ready st)) (s', w')
    → certificate env others' ready' (s', w')
      ≡ (ok (record c { cached = true; wait_duration = 0; chip_duration = 0 }), s', w')
certificate-replay env others ready st {c} h fresh others' ready' s' w' later =
    let stored = record c { wait_duration = 0; chip_duration = 0 } in
    let kept =
      Later-keeps env (λ w. Unit {0}) (HasCertificate env stored) (HasCertificate-IsKept env stored)
        later (certificate-Stored env others ready st c h fresh) in
    stored-again env others' ready' s' w' kept
