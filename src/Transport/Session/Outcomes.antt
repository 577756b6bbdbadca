-- ===== src/Transport/Session/Outcomes.antt =====
-- internal/transport/ch341.go: what `Transaction` leaves of its session, for each of its answers.
use remote_mfi.Prelude.{
  suc, ℕ, ◌≡◌, refl, sym, ◌∙◌, true, false, inl, inr, ◌⊎◌, none, some, List, length, Bool-cases,
  Option-cases, arith,
}
use remote_mfi.Prelude.Int.{ℤ}
use remote_mfi.Errors.{Result, ok, err, GoError, Result-cases, is_transport_kind, invalid_request}
use remote_mfi.Effects.Program.{Outcome, done, out_of_fuel}
use remote_mfi.Transport.Encoder.Correct.{encode_transaction-cases}
use remote_mfi.Transport.Faults.{should_invalidate_session}
use remote_mfi.Transport.Usb.{Usb}
use remote_mfi.Transport.Transfers.Bounds.{IsBounded}
use remote_mfi.Transport.Session.Ending.{Ends, transaction-Ends}
use remote_mfi.Transport.Session.Answers.{current_session-held}
use remote_mfi.Transport.Session.{
  Session, Ch341, unsigned, endpoints, try_ids, ensure_session, current_session, invalidate_session,
  finish, run_session, transaction,
}

module _ (u : Usb) where
  open u use {World}

  -- What is left of the session of `t`: a request that is answered leaves a session; an error that tells of
  -- a broken session leaves none; and every other error leaves the session that was there before, if there
  -- was one.
  abbrev pub IsSettled : Ch341 u → Result (List ℕ) → Ch341 u → Type 0
  IsSettled t (ok response) t' = (s : Session u) × (t'.session ≡ some s)
  IsSettled t (err e) t' =
      ((should_invalidate_session e ≡ true) × (t'.session ≡ none))
      ⊎ ((should_invalidate_session e ≡ false) × ((t'.session ≡ t.session) ⊎ (t.session ≡ none)))

  abbrev pub Settles : Ch341 u → Outcome (Ch341 u × World) (List ℕ) → Type 0
  Settles t out_of_fuel = Unit {0}
  Settles t (done r s) = IsSettled t r s.0

  invalidate_session-none :
      (t : Ch341 u) (s : Session u) (w : World)
      → t.session ≡ some s
      → (invalidate_session u s t w).0.session ≡ none
  unfolding invalidate_session
  invalidate_session-none t s w held = ground arith

  finish-Settles :
      (t t' : Ch341 u) (s : Session u) (o : Outcome World (List ℕ))
      → t'.session ≡ some s
      → (t.session ≡ some s) ⊎ (t.session ≡ none)
      → Settles t (finish u s t' o)
  finish-Settles t t' s out_of_fuel held before = tt
  finish-Settles t t' s (done (ok response) w) held before = (s, held)
  finish-Settles t t' s (done (err e) w) held before =
      elim (Bool-cases (should_invalidate_session e)) [
        | inl broken ↦ rw (broken) (inl (refl, invalidate_session-none t' s w held))
        | inr sound ↦
            rw (sound)
              (inr (refl, elim before [ inl e ↦ inl (held ∙ sym e) | inr nothing ↦ inr nothing ]))
      ]

  -- What `currentSession` answers while the transport is open
  current_session-cases :
      (t : Ch341 u) (w : World)
      → t.closed ≡ false
      → ((s : Session u) × (t' : Ch341 u) × (w' : World) × (current_session u t w ≡ (ok s, t', w'))
          × (t'.session ≡ some s)
          × ((t.session ≡ some s) ⊎ (t.session ≡ none)))
        ⊎ ((e : GoError) × (w' : World) × (current_session u t w ≡ (err e, t, w'))
            × (t.session ≡ none))
  unfolding current_session ensure_session
  current_session-cases t w still_open = elim (Option-cases t.session) [
    | inr (s, held) ↦ inl (s, t, w, current_session-held u t w s held still_open, held, inl held)
    | inl nothing ↦
        let (r, w') = try_ids u t.allocated none t.usb_ids w in
        elim (Result-cases r) [
          | inl (s, found) ↦ inl (
            s,
            record t { session = some s; allocated = suc t.allocated },
            w',
            ground arith,
            refl,
            inr nothing,
          )
          | inr (e, refused) ↦ inr (e, w', ground arith, nothing)
        ]
  ]

  -- An error of a transport that had no session
  without : (e : GoError) (t : Ch341 u) → t.session ≡ none → IsSettled t (err e) t
  without e t nothing = elim (Bool-cases (should_invalidate_session e)) [
    | inl broken ↦ inl (broken, nothing)
    | inr sound ↦ inr (sound, inl refl)
  ]

  run_session-Settles :
      (t : Ch341 u) (stream : List ℕ) (write_length read_length : ℕ) (w : World)
      → t.closed ≡ false
      → Settles t (run_session u stream write_length read_length (current_session u t w))
  run_session-Settles t stream write_length read_length w still_open =
      elim (current_session-cases t w still_open) [
        | inl (s, t', w', current, held, before) ↦
            rw (current) (finish-Settles t t' s _ held before)
        | inr (e, w', refused, nothing) ↦ rw (refused) (without e t nothing)
      ]

  refused_sound :
      (e : GoError)
      → is_transport_kind e invalid_request ≡ true
      → should_invalidate_session e ≡ false
  unfolding should_invalidate_session is_transport_kind
  refused_sound e h = ground arith

  transaction-Settles :
      (address : ℕ) (bytes : List ℕ) (n : ℤ) (t : Ch341 u) (w : World)
      → t.closed ≡ false
      → Settles t (transaction u address bytes n (t, w))
  unfolding transaction
  transaction-Settles address bytes n t w still_open =
      elim (encode_transaction-cases address bytes n) [
        | inl (stream, encoded, rest) ↦
            rw (transaction, encoded)
              (run_session-Settles t stream (length bytes) (unsigned n) w still_open)
        | inr (e, refused, kind, rest) ↦
            rw (transaction, refused) (inr (refused_sound e kind, inl refl))
      ]

module _ (u : Usb) where
  -- The answer of a run that ends
  settled :
      (t : Ch341 u) (o : Outcome (Ch341 u × u.World) (List ℕ))
      → Ends o
      → Settles u t o
      → (r : Result (List ℕ)) × (t' : Ch341 u) × (w' : u.World) × (o ≡ done r (t', w'))
        × IsSettled u t r t'
  settled t out_of_fuel ends h = absurd ends
  settled t (done r (t', w')) ends h = (r, t', w', refl, h)

-- On a USB library whose reads fit their buffers, `Transaction` of a transport that is not closed ends for
-- every request: an answer leaves the transport with a session; an error of the kinds that tell of a
-- broken session (`shouldInvalidateSession`) leaves it without one, so that the next call opens the bridge
-- anew; and every other error, a NACK or a timeout, leaves the session that was there, if there was one.
pub transaction-IsSettled :
    (u : Usb)
    → ((s : Session u) → IsBounded (endpoints u s))
    → (address : ℕ) (bytes : List ℕ) (n : ℤ) (t : Ch341 u) (w : u.World) → t.closed ≡ false
    → (r : Result (List ℕ)) × (t' : Ch341 u) × (w' : u.World) × (transaction u address bytes n
          (t, w)
        ≡ done r (t', w'))
      × IsSettled u t r t'
transaction-IsSettled u bounded address bytes n t w still_open =
    settled u t (transaction u address bytes n (t, w))
      (transaction-Ends u bounded address bytes n (t, w))
      (transaction-Settles u address bytes n t w still_open)
