-- ===== src/Chip/Signing.antt =====
-- internal/chip/driver.go: what has happened on the transport when `SignChallenge` returns a signature.
use remote_mfi.Prelude.{
  ℕ, zero, suc, ◌+◌, ◌≤◌, ◌≡◌, ap, ◌∙◌, true, List, Option, none, arith, length, Bool-cases, ltb,
  inl, inr, some, false, [], ◌∷◌, ◌/◌, ◌%◌, sym, subst, ◌||◌, ==_iff,
}
use remote_mfi.Errors.{Result, ok, err, ContextError}
use remote_mfi.Effects.Program.{done, resume-eq-ok, refuse, refuse-eq-ok, Outcome-cases}
use remote_mfi.Chip.Bus.{Bus}
use remote_mfi.Chip.Registers.{Driver, write_register, read_register}
use remote_mfi.Chip.Driver.{
  read_byte, sign_challenge, poll_status, timed_out, check_context, await_authentication,
  start_authentication, succeeded, best_effort_error_code, auth_poll_interval,
  write_unsigned_big_endian_short, read_unsigned_big_endian_short, read_signature,
  initial_auth_delay, auth_timeout,
}
use remote_mfi.Chip.Results.{sign_challenge-bounds, read_register-length}

module _ (b : Bus) (d : Driver b) where
  open b use {World, transaction, now, sleep}

  not-timed_out-ok : (w : World) {u : Unit {0}} {w' : World} → timed_out b d w ≡ done (ok u) w' → ⊥
  unfolding timed_out
  not-timed_out-ok w h =
      let (code, w₁, _, h₁) = resume-eq-ok (best_effort_error_code b d w) _ h in cc h₁

  -- The status that the chip reports once it has signed
  abbrev pub ReportsSuccess : World → World → Type 0
  ReportsSuccess w w' = read_byte b d 0x10 w ≡ done (ok 0x10) w'

  succeeded-status : (r : Result ℕ) → succeeded b d r ≡ true → r ≡ ok 0x10
  succeeded-status (ok status) h = ap ok ((==_iff status 0x10).0 h)
  succeeded-status (err e) h = absurd (cc h)

  -- A run of the polling: sleeps and reads of the status, whatever they answer
  pub data Polls (w : World) : World → Type 0 where
    here : Polls w w
    slept : (d : ℕ) {w' : World} → Polls w w' → Polls w (sleep d w')
    polled :
        (r : Result ℕ) {w' w'' : World}
        → Polls w w'
        → read_byte b d 0x10 w' ≡ done r w''
        → Polls w w''

  poll_status-success :
      (fuel deadline : ℕ) (start w : World) {u : Unit {0}} {w' : World}
      → Polls start w
      → poll_status b d fuel deadline w ≡ done (ok u) w'
      → (w₀ : World) × Polls start w₀ × ReportsSuccess w₀ w'
  unfolding poll_status
  poll_status-success zero deadline start w p h = absurd (cc h)
  poll_status-success (suc fuel) deadline start w {u} {w'} p h =
      elim (Outcome-cases (read_byte b d 0x10 w)) [
        | inl cut ↦ absurd (ground arith)
        | inr (r, w₁, e) ↦ elim (Bool-cases (succeeded b d r)) [
          | inl success ↦
              let status = succeeded-status r success in
              let here : w₁ ≡ w' = ground arith in
              (w, p, e ∙ ap (λ s. done s w₁) status ∙ ap (done (ok 0x10)) here)
          | inr failure ↦ elim (Bool-cases (ltb deadline (now w₁))) [
            | inl over ↦ absurd (not-timed_out-ok w₁ {u = u} {w' = w'} (ground arith))
            | inr early ↦
                poll_status-success fuel deadline start (sleep auth_poll_interval w₁) {u = u}
                  {w' = w'} (slept auth_poll_interval (polled r p e)) (ground arith)
          ]
        ]
      ]

  -- What the transport has seen between `w` and `w'`, in this order: the length of the challenge, the
  -- challenge and the start were written; then the status was polled until it was read as success; and then the
  -- length of the signature and the signature were read.
  pub record IsSigned (challenge : List ℕ) (w : World) (signature : List ℕ) (w' : World)
      : Type 0 where
    pub with_length : World
    pub with_challenge : World
    pub started : World
    pub polling : World
    pub reported : World
    pub with_size : World
    pub size : ℕ
    pub writes_length :
        write_register b d 0x20 (length challenge / 256 % 256 ∷ length challenge % 256 ∷ []) w
        ≡ done (ok tt) with_length
    pub writes_challenge :
        write_register b d 0x21 challenge with_length ≡ done (ok tt) with_challenge
    pub starts : write_register b d 0x10 (1 ∷ []) with_challenge ≡ done (ok tt) started
    pub polls : Polls started polling
    pub reports_success : ReportsSuccess polling reported
    pub reads_size : read_unsigned_big_endian_short b d 0x11 reported ≡ done (ok size) with_size
    pub reads_signature : read_register b d 0x12 size with_size ≡ done (ok signature) w'
    pub sized : length signature ≡ size

  start_authentication-eq-ok :
      (challenge : List ℕ) (w : World) {u : Unit {0}} {w' : World}
      → length challenge ≤ 128
      → start_authentication b d challenge w ≡ done (ok u) w'
      → (w₁ : World) × (w₂ : World) × (write_register b d 0x20
            (length challenge / 256 % 256 ∷ length challenge % 256 ∷ [])
            w
          ≡ done (ok tt) w₁)
        × (write_register b d 0x21 challenge w₁ ≡ done (ok tt) w₂)
        × (write_register b d 0x10 (1 ∷ []) w₂ ≡ done (ok tt) w')
  unfolding start_authentication write_unsigned_big_endian_short
  start_authentication-eq-ok challenge w small h =
      let (_, w₁, first, h₁) =
        resume-eq-ok (write_unsigned_big_endian_short b d 0x20 (length challenge) w) _ h in
      let (_, w₂, second, third) = resume-eq-ok (write_register b d 0x21 challenge w₁) _ h₁ in
      let fits : ltb 0xffff (length challenge) ≡ false = ground arith in
      (w₁, w₂, rw fits at first, second, third)

  read_signature-eq-ok :
      (w : World) {signature : List ℕ} {w' : World}
      → read_signature b d w ≡ done (ok signature) w'
      → (n : ℕ) × (w₁ : World) × (read_unsigned_big_endian_short b d 0x11 w ≡ done (ok n) w₁)
        × (read_register b d 0x12 n w₁ ≡ done (ok signature) w')
  unfolding read_signature
  read_signature-eq-ok w {signature} {w'} h =
      let (n, w₁, size, h₁) = resume-eq-ok (read_unsigned_big_endian_short b d 0x11 w) _ h in
      let (_, w₂, fits, h₂) = resume-eq-ok (refuse (ltb n 1 || ltb 65_525 n) _ w₁) _ h₁ in
      let (_, still) = refuse-eq-ok (ltb n 1 || ltb 65_525 n) _ w₁ fits in
      (n, w₁, size, subst (λ x. read_register b d 0x12 n x ≡ done (ok signature) w') (sym still) h₂)

  check_context-stays :
      (ctx : Option ContextError) (w : World) {u : Unit {0}} {w' : World}
      → check_context ctx w ≡ done (ok u) w'
      → w ≡ w'
  check_context-stays none w h = cc h
  check_context-stays (some e) w h = absurd (cc h)

-- When `SignChallenge` returns a signature, on any transport: the challenge has 1 to 128 bytes and the
-- signature 1 to 65525; and the transport was called in this order: the length of the challenge, the challenge and
-- the start command were written, then the status was polled, and nothing else done but sleep, until it was read as
-- 0x10 (success), and then the signature was read, with the length that the chip gave for it.
pub sign_challenge-authenticated :
    (b : Bus) (d : Driver b) (ctx : Option ContextError) (challenge : List ℕ) (w : b.World)
    {signature : List ℕ} {w' : b.World}
    → sign_challenge b d ctx challenge w ≡ done (ok signature) w'
    → (1 ≤ length challenge)
      × (length challenge ≤ 128)
      × IsSigned b d challenge w signature w'
      × (1 ≤ length signature)
      × (length signature ≤ 65_525)
unfolding sign_challenge await_authentication
sign_challenge-authenticated b d ctx challenge w {signature} {w'} h =
    let bad = ltb (length challenge) 1 || ltb 128 (length challenge) in
    let (_, w₁, checked, h₁) = resume-eq-ok (check_context ctx w) _ h in
    let (_, w₂, good, h₂) = resume-eq-ok (refuse bad _ w₁) _ h₁ in
    let (sized, unmoved) = refuse-eq-ok bad _ w₁ good in
    let same : w₂ ≡ w = sym (check_context-stays b d ctx w checked ∙ unmoved) in
    let (_, w₃, begun, h₃) = resume-eq-ok (start_authentication b d challenge w₂) _ h₂ in
    let (a₁, a₂, first, second, third) =
      start_authentication-eq-ok b d challenge w (ground (arith, sized))
        (subst (λ x. start_authentication b d challenge x ≡ done (ok tt) w₃) same begun) in
    let (_, w₄, waited, h₄) = resume-eq-ok (await_authentication b d w₃) _ h₃ in
    let w₃' = b.sleep initial_auth_delay w₃ in
    let (w₀, polls, status) =
      poll_status-success b d 302 (b.now w₃' + auth_timeout) w₃ w₃' (slept initial_auth_delay here)
        waited in
    let (n, w₅, size, signed) = read_signature-eq-ok b d w₄ h₄ in
    let (low, high) = sign_challenge-bounds b d ctx challenge w h in
    (
      ground (arith, sized),
      ground (arith, sized),
      record {
        with_length = a₁;
        with_challenge = a₂;
        started = w₃;
        polling = w₀;
        reported = w₄;
        with_size = w₅;
        size = n;
        writes_length = first;
        writes_challenge = second;
        starts = third;
        polls = polls;
        reports_success = status;
        reads_size = size;
        reads_signature = signed;
        sized = (read_register-length b d 0x12 n w₅ signed).0;
      },
      low,
      high,
    )
