-- ===== src/Transport/Session/Ending.antt =====
-- internal/transport/ch341.go: every `Transaction` ends, if a read never puts more into a buffer than fits.
use remote_mfi.Prelude.{ℕ, List, length, inl, inr}
use remote_mfi.Prelude.Int.{ℤ}
use remote_mfi.Errors.{Result, ok, err, Result-cases}
use remote_mfi.Effects.Program.{Outcome, done, out_of_fuel}
use remote_mfi.Transport.Encoder.{encode_transaction, encode_configuration}
use remote_mfi.Transport.Execution.{execute}
use remote_mfi.Transport.Transfers.{Endpoints}
use remote_mfi.Transport.Transfers.Bounds.{IsBounded}
use remote_mfi.Transport.Execution.Answers.{IsAnswer, execute-IsAnswer}
use remote_mfi.Transport.Usb.{Usb}
use remote_mfi.Transport.Session.{
  Session, Ch341, unsigned, current_session, endpoints, finish, run_session, transaction,
}

-- The run ends.
abbrev pub Ends : {W A : Type 0} → Outcome W A → Type 0
Ends (done r w) = Unit {0}
Ends out_of_fuel = ⊥

answer-Ends : {W A : Type 0} (P : A → Type 0) (o : Outcome W A) → IsAnswer P o → Ends o
answer-Ends P (done r w) h = tt
answer-Ends P out_of_fuel h = h

-- `execute` ends, also at a speed that the bridge does not support.
execute-Ends :
    (e : Endpoints)
    → IsBounded e
    → (speed : ℕ) (stream : List ℕ) (write_length read_length : ℕ) (w : e.World)
    → Ends (execute e speed stream write_length read_length w)
unfolding execute
execute-Ends e bounded speed stream write_length read_length w =
    elim (Result-cases (encode_configuration speed)) [
      | inl (configuration, supported) ↦
          answer-Ends _ _
            (execute-IsAnswer e bounded speed stream write_length read_length w supported)
      | inr (x, refused) ↦ rw (execute, refused) tt
    ]

module _ (u : Usb) (bounded : (s : Session u) → IsBounded (endpoints u s)) where
  open u use {World}

  finish-Ends :
      (s : Session u) (t : Ch341 u) (o : Outcome World (List ℕ)) → Ends o → Ends (finish u s t o)
  finish-Ends s t (done (ok response) w) h = tt
  finish-Ends s t (done (err e) w) h = tt
  finish-Ends s t out_of_fuel h = h

  run_session-Ends :
      (stream : List ℕ) (write_length read_length : ℕ) (r : Result (Session u) × Ch341 u × World)
      → Ends (run_session u stream write_length read_length r)
  run_session-Ends stream write_length read_length (err e, t, w) = tt
  run_session-Ends stream write_length read_length (ok s, t, w) =
      finish-Ends s t _
        (execute-Ends (endpoints u s) (bounded s) t.speed stream write_length read_length w)

  pub transaction-Ends :
      (address : ℕ) (bytes : List ℕ) (n : ℤ) (s : Ch341 u × World)
      → Ends (transaction u address bytes n s)
  unfolding transaction
  transaction-Ends address bytes n (t, w) =
      elim (Result-cases (encode_transaction address bytes n)) [
        | inr (e, refused) ↦ rw (transaction, refused) tt
        | inl (stream, e) ↦
            rw (transaction, e)
              (run_session-Ends stream (length bytes) (unsigned n) (current_session u t w))
      ]
