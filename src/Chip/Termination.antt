-- ===== src/Chip/Termination.antt =====
-- Every operation of the driver returns: the deadlines of `retryIO` and of the polling pass after a
-- bounded number of rounds, on any transport, if the clock does not go back.
use Prim.Native.String.{String}
use remote_mfi.Prelude.{
  ℕ, zero, suc, ◌+◌, ◌*◌, ◌%◌, ◌≤◌, ◌<◌, List, [], ◌∷◌, arith, Bool-cases, ltb, inl, inr, ◌||◌,
}
use remote_mfi.Errors.{ok, err}
use remote_mfi.Effects.Action.{Action}
use remote_mfi.Effects.Program.{Program, Outcome, done, out_of_fuel, resume}
use remote_mfi.Chip.Bus.{Bus, IsClocked}
use remote_mfi.Chip.Registers.{
  Driver, retry_until, retry_io, io_retry_delay, io_retry_timeout, select_register_once,
  select_register, read_register_once, read_register, write_register_once, write_register,
}
use remote_mfi.Chip.Driver.{read_unsigned_big_endian_short, read_byte}

-- The run ends, at a time that is not before `t`.
abbrev pub ReturnsAfter : (b : Bus) {A : Type 0} → ℕ → Outcome b.World A → Type 0
ReturnsAfter b t (done r w) = t ≤ b.now w
ReturnsAfter b t out_of_fuel = ⊥

module _ (b : Bus) (c : IsClocked b) where
  open b use {World, transaction, now, sleep}

  -- An action that the clock outlives
  abbrev Advances : {A : Type 0} → Action World A → Type 0
  Advances action = (w : World) → now w ≤ now (action w).1

  retry_until-returns :
      {A : Type 0} (fuel : ℕ) (op : String) (deadline : ℕ) (action : Action World A)
      → Advances action
      → (w : World) → deadline < now w + fuel * io_retry_delay
      → ReturnsAfter b (now w) (retry_until b (suc fuel) op deadline action w)
  unfolding retry_until
  retry_until-returns zero op deadline action adv w h = ground (arith, adv w)
  retry_until-returns (suc fuel) op deadline action adv w h =
      let w' = (action w).1 in
      ground (
        arith,
        adv w,
        c.now-sleep io_retry_delay w',
        retry_until-returns fuel op deadline action adv (sleep io_retry_delay w'),
      )

  pub weaken :
      {A : Type 0} {t u : ℕ} (o : Outcome World A) → t ≤ u → ReturnsAfter b u o → ReturnsAfter b t o
  weaken (done r w) h k = omega arith
  weaken out_of_fuel h k = k

  pub resume-returns :
      {A B : Type 0} (t : ℕ) (o : Outcome World A) (f : A → Program World B)
      → ReturnsAfter b t o
      → ((a : A) (w : World) → ReturnsAfter b (now w) (f a w))
      → ReturnsAfter b t (resume o f)
  resume-returns t (done (ok a) w) f h k = weaken (f a w) h (k a w)
  resume-returns t (done (err e) w) f h k = h
  resume-returns t out_of_fuel f h k = h

  pub retry_io-returns :
      {A : Type 0} (op : String) (action : Action World A)
      → Advances action
      → (w : World) → ReturnsAfter b (now w) (retry_io b op action w)
  unfolding retry_io
  retry_io-returns op action adv w =
      retry_until-returns 101 op (now w + io_retry_timeout) action adv w (omega arith)

  module _ (d : Driver b) where
    select_register_once-Advances : (register : ℕ) → Advances (select_register_once b d register)
    unfolding select_register_once
    select_register_once-Advances register w =
        ground (arith, c.now-transaction d.address ((register % 256) ∷ []) 0 w)

    read_register_once-Advances : (register n : ℕ) → Advances (read_register_once b d register n)
    unfolding read_register_once
    read_register_once-Advances register n w =
        let w' = (select_register_once b d register w).1 in
        ground
          (arith, select_register_once-Advances register w, c.now-transaction d.address [] n w')

    write_register_once-Advances :
        (register : ℕ) (bytes : List ℕ) → Advances (write_register_once b d register bytes)
    unfolding write_register_once
    write_register_once-Advances register bytes w =
        ground (arith, c.now-transaction d.address ((register % 256) ∷ bytes) 0 w)

    pub select_register-returns :
        (register : ℕ) (w : World) → ReturnsAfter b (now w) (select_register b d register w)
    unfolding select_register
    select_register-returns register w =
        retry_io-returns _ _ (select_register_once-Advances register) w

    pub write_register-returns :
        (register : ℕ) (bytes : List ℕ) (w : World)
        → ReturnsAfter b (now w) (write_register b d register bytes w)
    unfolding write_register
    write_register-returns register bytes w =
        retry_io-returns _ _ (write_register_once-Advances register bytes) w

    pub read_register-returns :
        (register n : ℕ) (w : World) → ReturnsAfter b (now w) (read_register b d register n w)
    unfolding read_register
    read_register-returns register n w = elim (Bool-cases (ltb n 1 || ltb 65_525 n)) [
      | inl bad ↦ rw bad (omega arith)
      | inr good ↦ rw good (retry_io-returns _ _ (read_register_once-Advances register n) w)
    ]

    pub read_short-returns :
        (register : ℕ) (w : World)
        → ReturnsAfter b (now w) (read_unsigned_big_endian_short b d register w)
    unfolding read_unsigned_big_endian_short
    read_short-returns register w =
        resume-returns (now w) (read_register b d register 2 w) _
          (read_register-returns register 2 w) (λ bytes w'. omega arith)

    pub read_byte-returns :
        (register : ℕ) (w : World) → ReturnsAfter b (now w) (read_byte b d register w)
    unfolding read_byte
    read_byte-returns register w =
        resume-returns (now w) (read_register b d register 1 w) _
          (read_register-returns register 1 w) (λ bytes w'. omega arith)
