-- ===== src/Stack/Returns.antt =====
-- The driver of internal/chip/driver.go returns on the transport of internal/transport/ch341.go.
use remote_mfi.Prelude.{ℕ, ◌≤◌, List, length, Option, none, inl, inr, Option-cases, if-intro}
use native.Mathlib.Omega.{arith}
use remote_mfi.Prelude.Int.{ℤ, pos}
use remote_mfi.Errors.{Result, ok, err, ContextError, Result-cases}
use remote_mfi.Effects.Program.{Outcome, done, out_of_fuel}
use remote_mfi.Chip.Bus.{IsClocked}
use remote_mfi.Chip.Registers.{Driver}
use remote_mfi.Chip.Driver.{protocol_major, read_certificate, sign_challenge}
use remote_mfi.Chip.Termination.{ReturnsAfter}
use remote_mfi.Chip.Totality.{operations_return}
use remote_mfi.Transport.Encoder.{encode_transaction}
use remote_mfi.Transport.Faults.{should_invalidate_session}
use remote_mfi.Transport.Transfers.Bounds.{IsBounded}
use remote_mfi.Transport.Execution.Keeps.{Keeps, execute-Keeps}
use remote_mfi.Transport.Session.Ending.{Ends, transaction-Ends}
use remote_mfi.Transport.Usb.{Usb}
use remote_mfi.Transport.Session.{
  Session, Ch341, unsigned, ensure_session, current_session, close_session, invalidate_session,
  endpoints, finish, run_session, transaction,
}
use remote_mfi.Stack.{bus_of, ended}
use remote_mfi.Stack.Clock.{Clock, try_ids-advances}

module _ (u : Usb) (clock : Clock u) where
  open u use {World}
  open clock use {now}

  current_session-advances : (t : Ch341 u) (w : World) → now w ≤ now (current_session u t w).2
  unfolding current_session ensure_session
  current_session-advances t w =
      ground (arith, try_ids-advances u clock t.allocated none t.usb_ids w)

  close_session-advances : (s : Session u) (w : World) → now w ≤ now (close_session u s w).1
  unfolding close_session
  close_session-advances s w =
      let w₁ = u.close_interface s.iface w in
      let w₂ = (u.close_config s.config w₁).1 in
      ground (
        arith,
        clock.now-close_interface s.iface w,
        clock.now-close_config s.config w₁,
        clock.now-close_device s.device w₂,
      )

  invalidate_session-advances :
      (s : Session u) (t : Ch341 u) (w : World) → now w ≤ now (invalidate_session u s t w).1
  unfolding invalidate_session
  invalidate_session-advances s t w = elim (Option-cases t.session) [
    | inl e ↦ ground (arith, e)
    | inr (current, e) ↦ ground (arith, e, close_session-advances current w)
  ]

  -- From a time on
  abbrev IsFrom : ℕ → Ch341 u × World → Type 0
  IsFrom start s = start ≤ now s.1

  finish-Keeps :
      (start : ℕ) (s : Session u) (t : Ch341 u) (o : Outcome World (List ℕ))
      → Keeps (λ w. start ≤ now w) o
      → Keeps (IsFrom start) (finish u s t o)
  finish-Keeps start s t out_of_fuel h = tt
  finish-Keeps start s t (done (ok response) w) h = h
  finish-Keeps start s t (done (err e) w) h =
      if-intro (IsFrom start) (should_invalidate_session e) (invalidate_session u s t w) (t, w)
        (λ broken. omega (arith, invalidate_session-advances s t w)) (λ sound. h)

  run_session-Keeps :
      (start : ℕ) (stream : List ℕ) (write_length read_length : ℕ)
      (r : Result (Session u) × Ch341 u × World)
      → start ≤ now r.2
      → Keeps (IsFrom start) (run_session u stream write_length read_length r)
  run_session-Keeps start stream write_length read_length (err e, t, w) h = h
  run_session-Keeps start stream write_length read_length (ok s, t, w) h =
      finish-Keeps start s t _ (
        execute-Keeps (endpoints u s) (λ w'. start ≤ now w')
          (λ bytes timeout w h. omega (arith, clock.now-write_context s.output bytes timeout w))
          (λ n timeout w h. omega (arith, clock.now-read_context s.input n timeout w))
          (λ d w h. omega (arith, clock.now-sleep d w)) t.speed stream write_length read_length w h)

  transaction-Keeps :
      (address : ℕ) (bytes : List ℕ) (n : ℤ) (t : Ch341 u) (w : World)
      → Keeps (IsFrom (now w)) (transaction u address bytes n (t, w))
  unfolding transaction
  transaction-Keeps address bytes n t w = elim (Result-cases (encode_transaction address bytes n)) [
    | inr (e, refused) ↦ rw (transaction, refused) (omega arith)
    | inl (stream, e) ↦
        rw (transaction, e)
          (run_session-Keeps (now w) stream (length bytes) (unsigned n) (current_session u t w)
            (current_session-advances t w))
  ]

  ended-advances :
      (start : ℕ) (s : Ch341 u × World) (o : Outcome (Ch341 u × World) (List ℕ))
      → start ≤ now s.1
      → Keeps (IsFrom start) o
      → start ≤ now (ended s o).1.1
  ended-advances start s out_of_fuel h k = h
  ended-advances start s (done r w) h k = k

  bus_of-IsClocked : IsClocked (bus_of u now)
  bus_of-IsClocked = record {
    now-sleep = λ d s. clock.now-sleep d s.1;
    now-transaction = λ address bytes n s.
        ended-advances (now s.1) s (transaction u address bytes (pos n) s) (omega arith)
          (transaction-Keeps address bytes (pos n) s.0 s.1);
  }

-- On every USB library whose reads fit their buffers and whose clock does not go back, whatever else it
-- answers: every `Transaction` of the transport ends, from every state and for every request; and the
-- driver's three operations on the transport return, and not before they were called.
pub driver-returns :
    (u : Usb) (clock : Clock u)
    → ((s : Session u) → IsBounded (endpoints u s))
    → (d : Driver (bus_of u clock.now)) (ctx : Option ContextError) (challenge : List ℕ)
      (s : Ch341 u × u.World)
    → let stack = bus_of u clock.now in
      ((address : ℕ) (bytes : List ℕ) (n : ℤ) (s' : Ch341 u × u.World)
        → Ends (transaction u address bytes n s'))
      × ReturnsAfter stack (clock.now s.1) (protocol_major stack d ctx s)
      × ReturnsAfter stack (clock.now s.1) (read_certificate stack d ctx s)
      × ReturnsAfter stack (clock.now s.1) (sign_challenge stack d ctx challenge s)
driver-returns u clock bounded d ctx challenge s =
    let (major, certificate, signature) =
      operations_return (bus_of u clock.now) (bus_of-IsClocked u clock) d ctx challenge s in
    (transaction-Ends u bounded, major, certificate, signature)
