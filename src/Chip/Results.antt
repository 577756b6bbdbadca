-- ===== src/Chip/Results.antt =====
-- What a result of the driver's operations tells, on any transport.
use Prim.Native.String.{String}
use remote_mfi.Prelude.{
  ℕ, zero, suc, ◌+◌, ◌-◌, ◌≤◌, ◌≡◌, ap, List, [], ◌++◌, Option, arith, length, Bool-cases, ltb, inl,
  inr, min, ◌||◌, ◌==◌, not, length-append,
}
use remote_mfi.Errors.{Result-cases, ok, ContextError}
use remote_mfi.Effects.Action.{Action}
use remote_mfi.Effects.Program.{done, resume-eq-ok, refuse, refuse-eq-ok}
use remote_mfi.Chip.Bus.{Bus}
use remote_mfi.Chip.Registers.{
  Driver, retry_until, retry_io, is_retryable, io_retry_delay, io_retry_timeout, read_register_once,
  read_register,
}
use remote_mfi.Chip.Driver.{
  read_unsigned_big_endian_short, read_windows, read_certificate, sign_challenge, read_signature,
  check_context, await_authentication, start_authentication,
}

module _ (b : Bus) where
  open b use {World, transaction, now, sleep}

  -- What `retryIO` returns is what the action returned when it was last called.
  retry_until-eq-ok :
      {A : Type 0} (fuel : ℕ) (op : String) (deadline : ℕ) (action : Action World A) (w : World)
      {a : A} {w' : World}
      → retry_until b fuel op deadline action w ≡ done (ok a) w'
      → (w₀ : World) × ((action w₀).0 ≡ ok a)
  unfolding retry_until
  retry_until-eq-ok zero op deadline action w h = absurd (cc h)
  retry_until-eq-ok (suc fuel) op deadline action w {a} {w'} h = elim (Result-cases (action w).0) [
    | inl (a', e) ↦ (w, ground arith)
    | inr (e, failed) ↦
        elim (Bool-cases (not (is_retryable e) || ltb deadline (now (action w).1))) [
          | inl stop ↦ absurd (ground arith)
          | inr go ↦
              retry_until-eq-ok fuel op deadline action (sleep io_retry_delay (action w).1) {a = a}
                {w' = w'} (ground arith)
        ]
  ]

  module _ (d : Driver b) where
    read_register_once-length :
        (register n : ℕ) (w : World) {bytes : List ℕ}
        → (read_register_once b d register n w).0 ≡ ok bytes
        → length bytes ≡ n
    unfolding read_register_once
    read_register_once-length register n w h = ground arith

    -- A register read has the length that was asked for.
    pub read_register-length :
        (register n : ℕ) (w : World) {bytes : List ℕ} {w' : World}
        → read_register b d register n w ≡ done (ok bytes) w'
        → (length bytes ≡ n) × (1 ≤ n) × (n ≤ 65_525)
    unfolding read_register retry_io
    read_register-length register n w h = elim (Bool-cases (ltb n 1 || ltb 65_525 n)) [
      | inl bad ↦ absurd (ground arith)
      | inr good ↦
          let (w₀, e) =
            retry_until-eq-ok 102 _ (now w + io_retry_timeout) (read_register_once b d register n) w
              (rw good at h) in
          (read_register_once-length register n w₀ e, ground arith, ground arith)
    ]

    windows-length :
        (fuel register remaining : ℕ) (acc : List ℕ) (w : World) {bytes : List ℕ} {w' : World}
        → read_windows b d fuel register remaining acc w ≡ done (ok bytes) w'
        → length bytes ≡ length acc + remaining
    unfolding read_windows
    windows-length zero register remaining acc w h = absurd (cc h)
    windows-length (suc fuel) register remaining acc w {bytes} {w'} h =
        elim (Bool-cases (remaining == 0)) [
          | inl all ↦
              let same : acc ≡ bytes = ground arith in
              let none_left : remaining ≡ 0 = ground arith in omega (arith, ap length same)
          | inr more ↦
              let k = min 128 remaining in
              let (window, w₁, one, rest) =
                resume-eq-ok (read_register b d register k w)
                  (λ (window : List ℕ).
                    read_windows b d fuel (register + 1) (remaining - k) (acc ++ window))
                  {v = bytes} {w = w'} (rw more at h) in
              omega (
                arith,
                windows-length fuel (register + 1) (remaining - k) (acc ++ window) w₁ rest,
                length-append acc window,
                (read_register-length register k w one).0,
              )
        ]

-- A certificate that is read has 1 to 65525 bytes, on any transport.
pub read_certificate-bounds :
    (b : Bus) (d : Driver b) (ctx : Option ContextError) (w : b.World) {bytes : List ℕ}
    {w' : b.World}
    → read_certificate b d ctx w ≡ done (ok bytes) w'
    → (1 ≤ length bytes) × (length bytes ≤ 65_525)
unfolding read_certificate
read_certificate-bounds b d ctx w h =
    let (_, w₁, _, h₁) = resume-eq-ok (check_context ctx w) _ h in
    let (n, w₂, _, h₂) = resume-eq-ok (read_unsigned_big_endian_short b d 0x30 w₁) _ h₁ in
    let (_, w₃, good, h₃) = resume-eq-ok (refuse (ltb n 1 || ltb 65_525 n) _ w₂) _ h₂ in
    let (small, _) = refuse-eq-ok (ltb n 1 || ltb 65_525 n) _ w₂ good in
    let total = windows-length b d (suc n) 0x31 n [] w₃ h₃ in ground (arith, total, small)

-- A signature that is returned has 1 to 65525 bytes, on any transport.
pub sign_challenge-bounds :
    (b : Bus) (d : Driver b) (ctx : Option ContextError) (challenge : List ℕ) (w : b.World)
    {bytes : List ℕ} {w' : b.World}
    → sign_challenge b d ctx challenge w ≡ done (ok bytes) w'
    → (1 ≤ length bytes) × (length bytes ≤ 65_525)
unfolding sign_challenge read_signature
sign_challenge-bounds b d ctx challenge w h =
    let (_, w₁, _, h₁) = resume-eq-ok (check_context ctx w) _ h in
    let (_, w₂, _, h₂) =
      resume-eq-ok (refuse (ltb (length challenge) 1 || ltb 128 (length challenge)) _ w₁) _ h₁ in
    let (_, w₃, _, h₃) = resume-eq-ok (start_authentication b d challenge w₂) _ h₂ in
    let (_, w₄, _, h₄) = resume-eq-ok (await_authentication b d w₃) _ h₃ in
    let (n, w₅, _, h₅) = resume-eq-ok (read_unsigned_big_endian_short b d 0x11 w₄) _ h₄ in
    let (_, w₆, good, h₆) = resume-eq-ok (refuse (ltb n 1 || ltb 65_525 n) _ w₅) _ h₅ in
    let (got, low, high) = read_register-length b d 0x12 n w₆ h₆ in (omega arith, omega arith)
