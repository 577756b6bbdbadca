-- ===== src/Chip/Totality.antt =====
-- The operations that the service calls return, on every bus with a clock.
use remote_mfi.Prelude.{
  ℕ, zero, suc, ◌+◌, ◌-◌, ◌*◌, ◌/◌, ◌%◌, ◌≤◌, ◌<◌, subst, true, false, List, [], ◌∷◌, ◌++◌, Option,
  none, some, arith, length, Bool-cases, ltb, ltb→le, if◌then◌else◌, inl, inr, min, Bool, ◌||◌,
  ◌==◌,
}
use remote_mfi.Errors.{Result, ok, err, GoError, ContextError}
use remote_mfi.Effects.Program.{Outcome, done, out_of_fuel, refuse, Outcome-cases}
use remote_mfi.Chip.Bus.{Bus, IsClocked}
use remote_mfi.Chip.Registers.{Driver, read_register, write_register, select_register}
use remote_mfi.Chip.Driver.{
  read_unsigned_big_endian_short, write_unsigned_big_endian_short, read_byte, protocol_major,
  read_windows, read_certificate, best_effort_error_code, after_selection, timed_out, poll_status,
  await_authentication, start_authentication, read_signature, sign_challenge, check_context,
  auth_poll_interval, initial_auth_delay, auth_timeout, succeeded,
}
use remote_mfi.Chip.Termination.{
  ReturnsAfter, weaken, resume-returns, read_register-returns, write_register-returns,
  select_register-returns, read_short-returns, read_byte-returns,
}

module _ (b : Bus) (c : IsClocked b) where
  open b use {World, transaction, now, sleep}

  check_context-returns :
      (ctx : Option ContextError) (w : World) → ReturnsAfter b (now w) (check_context ctx w)
  check_context-returns none w = omega arith
  check_context-returns (some e) w = omega arith

  refuse-returns :
      (test : Bool) (e : GoError) (w : World) → ReturnsAfter b (now w) (refuse test e w)
  refuse-returns true e w = omega arith
  refuse-returns false e w = omega arith

  module _ (d : Driver b) where
    protocol_major-returns :
        (ctx : Option ContextError) (w : World) → ReturnsAfter b (now w) (protocol_major b d ctx w)
    unfolding protocol_major
    protocol_major-returns ctx w =
        resume-returns b c (now w) (check_context ctx w) _ (check_context-returns ctx w) λ _ w₁.
          resume-returns b c (now w₁) (read_byte b d 0x02 w₁) _ (read_byte-returns b c d 0x02 w₁)
            λ v w₂. omega arith

    read_windows-returns :
        (fuel register remaining : ℕ) (certificate : List ℕ) (w : World)
        → remaining < fuel
        → ReturnsAfter b (now w) (read_windows b d fuel register remaining certificate w)
    unfolding read_windows
    read_windows-returns zero register remaining certificate w h = absurd (omega arith)
    read_windows-returns (suc fuel) register remaining certificate w h =
        elim (Bool-cases (remaining == 0)) [
          | inl all ↦ rw all (omega arith)
          | inr more ↦ rw more (
              resume-returns b c (now w) (read_register b d register (min 128 remaining) w) _
                (read_register-returns b c d register (min 128 remaining) w)
                (λ window w'.
                  read_windows-returns fuel (register + 1) (remaining - min 128 remaining)
                    (certificate ++ window) w' (ground arith)))
        ]

    read_certificate-returns :
        (ctx : Option ContextError) (w : World)
        → ReturnsAfter b (now w) (read_certificate b d ctx w)
    unfolding read_certificate
    read_certificate-returns ctx w =
        resume-returns b c (now w) (check_context ctx w) _ (check_context-returns ctx w) λ _ w₁.
          resume-returns b c (now w₁) (read_unsigned_big_endian_short b d 0x30 w₁) _
            (read_short-returns b c d 0x30 w₁)
            λ n w₂.
              resume-returns b c (now w₂) (refuse (ltb n 1 || ltb 65_525 n) _ w₂) _
                (refuse-returns (ltb n 1 || ltb 65_525 n) _ w₂)
                λ _ w₃. read_windows-returns (suc n) 0x31 n [] w₃ (omega arith)

    after_selection-returns :
        (t : ℕ) (o : Outcome World (Unit {0}))
        → ReturnsAfter b t o
        → ReturnsAfter b t (after_selection b d o)
    after_selection-returns t out_of_fuel h = h
    after_selection-returns t (done (err e) w) h = h
    after_selection-returns t (done (ok u) w) h = omega (arith, c.now-transaction d.address [] 1 w)

    best_effort_error_code-returns :
        (w : World) → ReturnsAfter b (now w) (best_effort_error_code b d w)
    unfolding best_effort_error_code
    best_effort_error_code-returns w =
        after_selection-returns (now w) (select_register b d 0x05 w)
          (select_register-returns b c d 0x05 w)

    timed_out-returns : (w : World) → ReturnsAfter b (now w) (timed_out b d w)
    unfolding timed_out
    timed_out-returns w =
        resume-returns b c (now w) (best_effort_error_code b d w) _
          (best_effort_error_code-returns w) (λ code v. omega arith)

    -- One round, when it goes on with `again`
    poll_round-returns :
        (deadline : ℕ) (w w' : World) (r : Result ℕ) (again : Outcome World (Unit {0}))
        → now w ≤ now w'
        → (now w' ≤ deadline → ReturnsAfter b (now w) again)
        → ReturnsAfter b (now w) (
            if succeeded b d r
            then done (ok tt) w'
            else if ltb deadline (now w')
            then timed_out b d w'
            else again)
    poll_round-returns deadline w w' r again later k = elim (Bool-cases (succeeded b d r)) [
      | inl success ↦ rw success later
      | inr failure ↦ elim (Bool-cases (ltb deadline (now w'))) [
        | inl over ↦ rw (failure, over) (weaken b c (timed_out b d w') later (timed_out-returns w'))
        | inr early ↦ rw (failure, early) (k (ltb→le deadline (now w') early))
      ]
    ]

    poll_first :
        (fuel deadline : ℕ) (w : World)
        → ((w' : World)
            → now w ≤ now w'
            → now w' ≤ deadline
            → ReturnsAfter b (now w) (poll_status b d fuel deadline (sleep auth_poll_interval w')))
        → ReturnsAfter b (now w) (poll_status b d (suc fuel) deadline w)
    unfolding poll_status
    poll_first fuel deadline w k = elim (Outcome-cases (read_byte b d 0x10 w)) [
      | inl cut ↦ absurd (subst (ReturnsAfter b (now w)) cut (read_byte-returns b c d 0x10 w))
      | inr (r, w', e) ↦
          let later : now w ≤ now w' =
            subst (ReturnsAfter b (now w)) e (read_byte-returns b c d 0x10 w) in
          rw (poll_status, e) (poll_round-returns deadline w w' r _ later (k w' later))
    ]

    poll_status-returns :
        (fuel deadline : ℕ) (w : World)
        → deadline < now w + fuel * auth_poll_interval
        → ReturnsAfter b (now w) (poll_status b d (suc fuel) deadline w)
    poll_status-returns zero deadline w h =
        poll_first zero deadline w (λ w' later early. absurd (omega arith))
    poll_status-returns (suc fuel) deadline w h = poll_first (suc fuel) deadline w λ w' later early.
        weaken b c (poll_status b d (suc fuel) deadline (sleep auth_poll_interval w'))
          (omega (arith, c.now-sleep auth_poll_interval w'))
          (poll_status-returns fuel deadline (sleep auth_poll_interval w')
            (omega (arith, c.now-sleep auth_poll_interval w')))

    await_authentication-returns : (w : World) → ReturnsAfter b (now w) (await_authentication b d w)
    unfolding await_authentication
    await_authentication-returns w =
        let w' = sleep initial_auth_delay w in
        weaken b c (poll_status b d 302 (now w' + auth_timeout) w')
          (omega (arith, c.now-sleep initial_auth_delay w))
          (poll_status-returns 301 (now w' + auth_timeout) w' (omega arith))

    write_short-returns :
        (register value : ℕ) (w : World)
        → ReturnsAfter b (now w) (write_unsigned_big_endian_short b d register value w)
    unfolding write_unsigned_big_endian_short
    write_short-returns register value w = elim (Bool-cases (ltb 0xffff value)) [
      | inl big ↦ rw big (omega arith)
      | inr small ↦
          rw small
            (write_register-returns b c d register ((value / 256 % 256) ∷ (value % 256) ∷ []) w)
    ]

    start_authentication-returns :
        (challenge : List ℕ) (w : World)
        → ReturnsAfter b (now w) (start_authentication b d challenge w)
    unfolding start_authentication
    start_authentication-returns challenge w =
        resume-returns b c (now w) (write_unsigned_big_endian_short b d 0x20 (length challenge) w) _
          (write_short-returns 0x20 (length challenge) w)
          λ _ w₁.
            resume-returns b c (now w₁) (write_register b d 0x21 challenge w₁) _
              (write_register-returns b c d 0x21 challenge w₁)
              λ _ w₂. write_register-returns b c d 0x10 (0x01 ∷ []) w₂

    read_signature-returns : (w : World) → ReturnsAfter b (now w) (read_signature b d w)
    unfolding read_signature
    read_signature-returns w =
        resume-returns b c (now w) (read_unsigned_big_endian_short b d 0x11 w) _
          (read_short-returns b c d 0x11 w)
          λ n w₁.
            resume-returns b c (now w₁) (refuse (ltb n 1 || ltb 65_525 n) _ w₁) _
              (refuse-returns (ltb n 1 || ltb 65_525 n) _ w₁)
              λ _ w₂. read_register-returns b c d 0x12 n w₂

    sign_challenge-returns :
        (ctx : Option ContextError) (challenge : List ℕ) (w : World)
        → ReturnsAfter b (now w) (sign_challenge b d ctx challenge w)
    unfolding sign_challenge
    sign_challenge-returns ctx challenge w =
        let bad = ltb (length challenge) 1 || ltb 128 (length challenge) in
        resume-returns b c (now w) (check_context ctx w) _ (check_context-returns ctx w) λ _ w₁.
          resume-returns b c (now w₁) (refuse bad _ w₁) _ (refuse-returns bad _ w₁) λ _ w₂.
            resume-returns b c (now w₂) (start_authentication b d challenge w₂) _
              (start_authentication-returns challenge w₂)
              λ _ w₃.
                resume-returns b c (now w₃) (await_authentication b d w₃) _
                  (await_authentication-returns w₃) λ _ w₄. read_signature-returns w₄

-- On every transport, whatever it answers, and with a clock that does not go back, the driver's three
-- operations return, and not before they were called: no retry, no polling and no loop over windows
-- goes on for ever.
pub operations_return :
    (b : Bus)
    → IsClocked b
    → (d : Driver b) (ctx : Option ContextError) (challenge : List ℕ) (w : b.World)
    → ReturnsAfter b (b.now w) (protocol_major b d ctx w)
      × ReturnsAfter b (b.now w) (read_certificate b d ctx w)
      × ReturnsAfter b (b.now w) (sign_challenge b d ctx challenge w)
operations_return b c d ctx challenge w = (
  protocol_major-returns b c d ctx w,
  read_certificate-returns b c d ctx w,
  sign_challenge-returns b c d ctx challenge w,
)
