-- ===== src/Biz/Keeping.antt =====
-- internal/biz/service.go: no request takes away a signature that is kept, before its time is over, or the
-- certificate.
use Prim.Native.String.{String}
use text.Mathlib.Text.{◌==◌}
use text.Mathlib.TextEquality.{eq_iff}
use remote_mfi.Prelude.{
  ℕ, ◌≤◌, ◌≡◌, ap, ◌∙◌, false, List, Option, none, some, arith, Option-cases, Bool-cases, inl, inr,
  ◌⊎◌,
}
use remote_mfi.Errors.{Result, Result-cases}
use remote_mfi.Biz.Cache.{
  SignatureEntry, Entries, lookup, get, lookup-put, lookup-delete, get-found, get-live,
}
use remote_mfi.Biz.Gate.{Ready}
use remote_mfi.Biz.Service.{
  Environment, Service, SignResult, Certificate, Waiting, hit_result, look_up, check_request,
  new_entry, sign_on_chip, sign_holding, sign, certificate_holding, certificate, probe, with_gate,
}
use remote_mfi.Biz.Later.{State, after, IsKept, with_gate-keeps}

get-other :
    (time : ℕ) (id k : String) (es : Entries) {e : SignatureEntry}
    → (id == k) ≡ false
    → lookup k es ≡ some e
    → lookup k (get time id es).1 ≡ some e
unfolding get
get-other time id k es other h = ground (arith, lookup-delete id k es)

module _ (env : Environment) where
  open env use {World, now, driver_sign_challenge, driver_protocol_major, driver_read_certificate}

  -- The cache has the entry for the id.
  abbrev pub Remembers : String → SignatureEntry → State env → Type 0
  Remembers k entry (s, w) = lookup k s.cache ≡ some entry

  module _ (k : String) (entry : SignatureEntry) where
    sign_on_chip-Remembers :
        (id : String) (challenge digest : List ℕ) (waited : ℕ) (s : Service) (w : World)
        → (id == k) ≡ false
        → Remembers k entry (s, w)
        → Remembers k entry (after env (sign_on_chip env id challenge digest waited (s, w)))
    unfolding sign_on_chip
    sign_on_chip-Remembers id challenge digest waited s w other h =
        elim (Result-cases (driver_sign_challenge challenge w).0) [
          | inl (sig, e) ↦
              let made = new_entry env digest sig (driver_sign_challenge challenge w).1 in
              ground (arith, e, lookup-put id k made s.cache)
          | inr (x, e) ↦ ground (arith, e)
        ]

    sign_holding-Remembers :
        (id : String) (challenge digest : List ℕ) (waited : ℕ) (s : Service) (w : World)
        → (id == k) ≡ false
        → Remembers k entry (s, w)
        → Remembers k entry (after env (sign_holding env id challenge digest waited (s, w)))
    unfolding sign_holding look_up
    sign_holding-Remembers id challenge digest waited s w other h =
        let (hit, es) = get (now w) id s.cache in go hit es (get-other (now w) id k s.cache other h)
      where
        go :
            (hit : Option SignatureEntry) (es : Entries)
            → lookup k es ≡ some entry
            → Remembers k entry (
                after env {A = Result SignResult} (elim (hit_result digest hit) [
                  | some r ↦ (r, record s { cache = es }, w)
                  | none ↦ sign_on_chip env id challenge digest waited (record s { cache = es }, w)
                ]))
        go none es e =
            sign_on_chip-Remembers id challenge digest waited (record s { cache = es }) w other e
        go (some x) es e = e

    sign-Remembers :
        (s : Service) (w : World) (others : Waiting env) (ready : Ready) (id : String)
        (challenge : List ℕ)
        → now w ≤ entry.expires_at
        → ((x : State env) → Remembers k entry x → Remembers k entry (others x))
        → Remembers k entry (s, w)
        → Remembers k entry (after env (sign env others ready id challenge (s, w)))
    unfolding sign look_up
    sign-Remembers s w others ready id challenge live meanwhile h =
        elim (Result-cases (check_request env id challenge)) [
          | inr (e, refused) ↦ rw (sign, refused) h
          | inl (digest, valid) ↦
              let (hit, es) = get (now w) id s.cache in
              rw (sign, valid)
                (elim (Bool-cases (id == k)) [
                  | inl same ↦
                      let own : lookup id s.cache ≡ some entry =
                        ap (λ j. lookup j s.cache) ((eq_iff id k).0 same) ∙ h in
                      go digest (inr (entry, ap (λ r. r.0) (get-found (now w) id s.cache own live)))
                        es (get-live (now w) id k s.cache h live)
                  | inr other ↦ go digest (inl other) es (get-other (now w) id k s.cache other h)
                ])
        ]
      where
        go :
            (digest : List ℕ) {hit : Option SignatureEntry}
            → ((id == k) ≡ false) ⊎ ((x : SignatureEntry) × (hit ≡ some x))
            → (es : Entries) → lookup k es ≡ some entry
            → Remembers k entry (
                after env {A = Result SignResult} (elim (hit_result digest hit) [
                  | some r ↦ (r, record s { cache = es }, w)
                  | none ↦
                      with_gate env id others ready
                        (sign_holding env id challenge digest)
                        (record s { cache = es }, w)
                ]))
        go digest {hit = none} (inr (x, found)) es e = absurd (cc found)
        go digest {hit = none} (inl other) es e =
            with_gate-keeps env (Remembers k entry) id others ready
              (sign_holding env id challenge digest) (record s { cache = es }) w (λ s w g h. h)
              meanwhile
              (λ waited s w h. sign_holding-Remembers id challenge digest waited s w other h) e
        go digest {hit = some x} reason es e = e

    certificate_holding-stays :
        (waited : ℕ) (s : Service) (w : World)
        → (after env (certificate_holding env waited (s, w))).0.cache ≡ s.cache
    unfolding certificate_holding
    certificate_holding-stays waited s w = elim (Option-cases s.certificate) [
      | inr (c, e) ↦ ground (arith, e)
      | inl e ↦ elim (Result-cases (driver_protocol_major w).0) [
        | inr (x, p) ↦ ground (arith, e, p)
        | inl (major, p) ↦
            elim (Result-cases (driver_read_certificate (driver_protocol_major w).1).0) [
              | inl (bytes, q) ↦ ground (arith, e, p, q)
              | inr (x, q) ↦ ground (arith, e, p, q)
            ]
      ]
    ]

    certificate-Remembers :
        (s : Service) (w : World) (others : Waiting env) (ready : Ready)
        → ((x : State env) → Remembers k entry x → Remembers k entry (others x))
        → Remembers k entry (s, w)
        → Remembers k entry (after env (certificate env others ready (s, w)))
    unfolding certificate
    certificate-Remembers s w others ready meanwhile h = elim (Option-cases s.certificate) [
      | inr (c, e) ↦ rw (certificate, e) h
      | inl e ↦
          rw (certificate, e)
            (with_gate-keeps env (Remembers k entry) "certificate" others ready
              (certificate_holding env) s w (λ s w g h. h) meanwhile
              (λ waited s w h. ap (lookup k) (certificate_holding-stays waited s w) ∙ h) h)
    ]

    probe-Remembers :
        (s : Service) (w : World) (others : Waiting env) (ready : Ready)
        → ((x : State env) → Remembers k entry x → Remembers k entry (others x))
        → Remembers k entry (s, w)
        → Remembers k entry (after env (probe env others ready (s, w)))
    unfolding probe
    probe-Remembers s w others ready meanwhile h =
        with_gate-keeps env (Remembers k entry) "startup-probe" others ready _ s w (λ s w g h. h)
          meanwhile (λ waited s w h. h) h

    pub Remembers-IsKept : IsKept env (λ w. now w ≤ entry.expires_at) (Remembers k entry)
    Remembers-IsKept = record {
      passing = λ s w w' h. h;
      signing = λ s w others ready id challenge live meanwhile h.
          sign-Remembers s w others ready id challenge live meanwhile h;
      certifying =
          λ s w others ready meanwhile h. certificate-Remembers s w others ready meanwhile h;
      probing = λ s w others ready meanwhile h. probe-Remembers s w others ready meanwhile h;
    }

  -- The certificate is stored.
  abbrev pub HasCertificate : Certificate → State env → Type 0
  HasCertificate c (s, w) = s.certificate ≡ some c

  module _ (c : Certificate) where
    sign_on_chip-HasCertificate :
        (id : String) (challenge digest : List ℕ) (waited : ℕ) (s : Service) (w : World)
        → HasCertificate c (s, w)
        → HasCertificate c (after env (sign_on_chip env id challenge digest waited (s, w)))
    unfolding sign_on_chip
    sign_on_chip-HasCertificate id challenge digest waited s w h =
        elim (Result-cases (driver_sign_challenge challenge w).0) [
          | inl (sig, e) ↦ ground (arith, e)
          | inr (x, e) ↦ ground (arith, e)
        ]

    sign_holding-HasCertificate :
        (id : String) (challenge digest : List ℕ) (waited : ℕ) (s : Service) (w : World)
        → HasCertificate c (s, w)
        → HasCertificate c (after env (sign_holding env id challenge digest waited (s, w)))
    unfolding sign_holding look_up
    sign_holding-HasCertificate id challenge digest waited s w h =
        let (hit, es) = get (now w) id s.cache in go hit es
      where
        go :
            (hit : Option SignatureEntry) (es : Entries)
            → HasCertificate c (
                after env {A = Result SignResult} (elim (hit_result digest hit) [
                  | some r ↦ (r, record s { cache = es }, w)
                  | none ↦ sign_on_chip env id challenge digest waited (record s { cache = es }, w)
                ]))
        go none es =
            sign_on_chip-HasCertificate id challenge digest waited (record s { cache = es }) w h
        go (some x) es = h

    sign-HasCertificate :
        (s : Service) (w : World) (others : Waiting env) (ready : Ready) (id : String)
        (challenge : List ℕ)
        → ((x : State env) → HasCertificate c x → HasCertificate c (others x))
        → HasCertificate c (s, w)
        → HasCertificate c (after env (sign env others ready id challenge (s, w)))
    unfolding sign look_up
    sign-HasCertificate s w others ready id challenge meanwhile h =
        elim (Result-cases (check_request env id challenge)) [
          | inr (e, refused) ↦ rw (sign, refused) h
          | inl (digest, valid) ↦
              let (hit, es) = get (now w) id s.cache in rw (sign, valid) (go digest hit es)
        ]
      where
        go :
            (digest : List ℕ) (hit : Option SignatureEntry) (es : Entries)
            → HasCertificate c (
                after env {A = Result SignResult} (elim (hit_result digest hit) [
                  | some r ↦ (r, record s { cache = es }, w)
                  | none ↦
                      with_gate env id others ready
                        (sign_holding env id challenge digest)
                        (record s { cache = es }, w)
                ]))
        go digest none es =
            with_gate-keeps env (HasCertificate c) id others ready
              (sign_holding env id challenge digest) (record s { cache = es }) w (λ s w g h. h)
              meanwhile
              (λ waited s w h. sign_holding-HasCertificate id challenge digest waited s w h) h
        go digest (some x) es = h

    certificate-HasCertificate :
        (s : Service) (w : World) (others : Waiting env) (ready : Ready)
        → HasCertificate c (s, w)
        → HasCertificate c (after env (certificate env others ready (s, w)))
    unfolding certificate
    certificate-HasCertificate s w others ready h = rw (certificate, h) h

    probe-HasCertificate :
        (s : Service) (w : World) (others : Waiting env) (ready : Ready)
        → ((x : State env) → HasCertificate c x → HasCertificate c (others x))
        → HasCertificate c (s, w)
        → HasCertificate c (after env (probe env others ready (s, w)))
    unfolding probe
    probe-HasCertificate s w others ready meanwhile h =
        with_gate-keeps env (HasCertificate c) "startup-probe" others ready _ s w (λ s w g h. h)
          meanwhile (λ waited s w h. h) h

    pub HasCertificate-IsKept : IsKept env (λ w. Unit {0}) (HasCertificate c)
    HasCertificate-IsKept = record {
      passing = λ s w w' h. h;
      signing = λ s w others ready id challenge fits meanwhile h.
          sign-HasCertificate s w others ready id challenge meanwhile h;
      certifying = λ s w others ready meanwhile h. certificate-HasCertificate s w others ready h;
      probing = λ s w others ready meanwhile h. probe-HasCertificate s w others ready meanwhile h;
    }
