-- ===== src/Transport/Session/Accounting.antt =====
-- What a transport does to the handles of the USB library that are open: it holds exactly those of its session.
use remote_mfi.Prelude.{
  ℕ, ap, ◌≡◌, refl, ◌∙◌, true, false, List, Option, none, some, inl, inr, Bool-cases, if-intro,
  length, Option-cases, ◌==◌,
}
use native.Mathlib.Omega.{arith}
use remote_mfi.Errors.{Result, ok, err, Result-cases}
use remote_mfi.Prelude.Int.{ℤ}
use remote_mfi.Effects.Program.{Outcome, done, out_of_fuel}
use remote_mfi.Transport.Encoder.{encode_transaction}
use remote_mfi.Transport.Faults.{should_invalidate_session}
use remote_mfi.Transport.Execution.{execute}
use remote_mfi.Transport.Execution.Keeps.{Keeps, execute-Keeps}
use remote_mfi.Transport.Usb.{Usb}
use remote_mfi.Transport.Session.{
  unsigned, open_error, Session, Ch341, try_ids, current_session, ensure_session, close_session,
  invalidate_session, close, close_held, transaction, run_session, finish, endpoints,
}
use remote_mfi.Transport.Usb.Counting.{Handles, Counting}
use remote_mfi.Transport.Session.Handles.{try_ids-handles}

-- The handles of a transport that has a session or none, and of so many listed devices
abbrev pub held : {S : Type 0} → ℕ → Option S → Handles
held listed (some s) = record { devices = 1; configs = 1; interfaces = 1; listed = listed }
held listed none = record { devices = 0; configs = 0; interfaces = 0; listed = listed }

relisted : {S : Type 0} (n m : ℕ) (o : Option S) → record (held n o) { listed = m } ≡ held m o
relisted n m none = refl
relisted n m (some s) = refl

module _ (u : Usb) (counting : Counting u) (listed : ℕ) where
  open u use {World}
  open counting use {handles}

  -- What is open is what the session of the transport is made of, and the listed devices.
  pub record IsAccounted (state : Ch341 u × World) : Type 0 where
    pub all_held : handles state.1 ≡ held listed state.0.session
    pub closed_empty : state.0.closed ≡ true → state.0.session ≡ none

  pub ensure_session-IsAccounted :
      (t : Ch341 u) (w : World)
      → t.closed ≡ false
      → IsAccounted (t, w)
      → IsAccounted ((ensure_session u t w).1, (ensure_session u t w).2)
  unfolding ensure_session
  ensure_session-IsAccounted t w opened h = elim (Option-cases t.session) [
    | inr (s, e) ↦ record {
      all_held = ground (arith, h.all_held);
      closed_empty = λ c. ground arith;
    }
    | inl e ↦
        let facts =
          try_ids-handles u counting t.allocated none t.usb_ids w (ground (arith, h.all_held))
            (ground (arith, h.all_held)) in
        elim (Result-cases (try_ids u t.allocated none t.usb_ids w).0) [
          | inr (x, f) ↦ record {
            all_held = ground (arith, facts, h.all_held);
            closed_empty = λ c. ground arith;
          }
          | inl (s, f) ↦ record {
            all_held = ground (arith, facts, h.all_held);
            closed_empty = λ c. ground arith;
          }
        ]
  ]

  pub current_session-IsAccounted :
      (t : Ch341 u) (w : World)
      → IsAccounted (t, w)
      → IsAccounted ((current_session u t w).1, (current_session u t w).2)
  unfolding current_session
  current_session-IsAccounted t w h =
      if-intro (λ r. IsAccounted (r.1, r.2)) t.closed
        (err (open_error "USB context is closed"), t, w) (ensure_session u t w) (λ closed. h)
        (λ opened. ensure_session-IsAccounted t w opened h)

  close_session-handles :
      (s : Session u) (w : World)
      → handles w ≡ held listed (some s)
      → handles (close_session u s w).1
        ≡ record { devices = 0; configs = 0; interfaces = 0; listed = listed }
  unfolding close_session
  close_session-handles s w h =
      let w₁ = u.close_interface s.iface w in
      let w₂ = (u.close_config s.config w₁).1 in
      ground (
        arith,
        counting.close_interface-handles s.iface w,
        counting.close_config-handles s.config w₁,
        counting.close_device-handles s.device w₂,
      )

  pub invalidate_session-IsAccounted :
      (s : Session u) (t : Ch341 u) (w : World)
      → IsAccounted (t, w)
      → IsAccounted (invalidate_session u s t w)
  unfolding invalidate_session
  invalidate_session-IsAccounted s t w h = elim (Option-cases t.session) [
    | inl e ↦ rw (invalidate_session, e) h
    | inr (current, e) ↦ elim (Bool-cases (current.pointer == s.pointer)) [
      | inl same ↦ record {
        all_held = ground (arith, close_session-handles current w, h.all_held);
        closed_empty = λ c. ground arith;
      }
      | inr other ↦ rw (invalidate_session, e, other) h
    ]
  ]

  close_held-IsAccounted :
      (o : Option (Session u)) (t : Ch341 u) (w : World)
      → handles w ≡ held listed o
      → IsAccounted ((close_held u o t w).1, (close_held u o t w).2)
  close_held-IsAccounted none t w h = record {
    all_held = ground (arith, counting.close_context-handles w);
    closed_empty = λ c. refl;
  }
  close_held-IsAccounted (some s) t w h =
      let w₁ = (close_session u s w).1 in
      record {
        all_held = ground (arith, counting.close_context-handles w₁, close_session-handles s w h);
        closed_empty = λ c. refl;
      }

  pub close-IsAccounted :
      (t : Ch341 u) (w : World)
      → IsAccounted (t, w)
      → IsAccounted ((close u t w).1, (close u t w).2)
  unfolding close
  close-IsAccounted t w h =
      if-intro (λ r. IsAccounted (r.1, r.2)) t.closed (ok tt, t, w) (close_held u t.session t w)
        (λ closed. h) (λ opened. close_held-IsAccounted t.session t w h.all_held)

  -- Where the open handles are the same, nothing changes.
  pub IsAccounted-same :
      {t : Ch341 u} {w w' : World}
      → IsAccounted (t, w)
      → handles w' ≡ handles w
      → IsAccounted (t, w')
  IsAccounted-same h e = record { all_held = e ∙ h.all_held; closed_empty = h.closed_empty }

  execute-held :
      (s : Session u) (t : Ch341 u) (stream : List ℕ) (write_length read_length : ℕ) (w : World)
      → IsAccounted (t, w)
      → Keeps
          (λ w'. IsAccounted (t, w'))
          (execute (endpoints u s) t.speed stream write_length read_length w)
  execute-held s t stream write_length read_length w h =
      execute-Keeps (endpoints u s) (λ w'. IsAccounted (t, w'))
        (λ bytes timeout w h.
          IsAccounted-same h (counting.write_context-handles s.output bytes timeout w))
        (λ n timeout w h. IsAccounted-same h (counting.read_context-handles s.input n timeout w))
        (λ d w h. IsAccounted-same h (counting.sleep-handles d w)) t.speed stream write_length
        read_length w h

  finish-Keeps :
      (s : Session u) (t : Ch341 u) (o : Outcome World (List ℕ))
      → Keeps (λ w. IsAccounted (t, w)) o
      → Keeps IsAccounted (finish u s t o)
  finish-Keeps s t out_of_fuel h = tt
  finish-Keeps s t (done (ok response) w) h = h
  finish-Keeps s t (done (err e) w) h =
      if-intro IsAccounted (should_invalidate_session e) (invalidate_session u s t w) (t, w)
        (λ broken. invalidate_session-IsAccounted s t w h) (λ sound. h)

  run_session-Keeps :
      (stream : List ℕ) (write_length read_length : ℕ) (r : Result (Session u) × Ch341 u × World)
      → IsAccounted (r.1, r.2)
      → Keeps IsAccounted (run_session u stream write_length read_length r)
  run_session-Keeps stream write_length read_length (err e, t, w) h = h
  run_session-Keeps stream write_length read_length (ok s, t, w) h =
      finish-Keeps s t _ (execute-held s t stream write_length read_length w h)

  pub transaction-Keeps :
      (address : ℕ) (bytes : List ℕ) (read_length : ℤ) (t : Ch341 u) (w : World)
      → IsAccounted (t, w)
      → Keeps IsAccounted (transaction u address bytes read_length (t, w))
  unfolding transaction
  transaction-Keeps address bytes read_length t w h =
      elim (Result-cases (encode_transaction address bytes read_length)) [
        | inr (e, refused) ↦ rw (transaction, refused) h
        | inl (stream, e) ↦
            rw (transaction, e)
              (run_session-Keeps stream (length bytes) (unsigned read_length)
                (current_session u t w) (current_session-IsAccounted t w h))
      ]

module _ (u : Usb) (counting : Counting u) where
  open u use {World}
  open counting use {handles}

  -- Where only the count of the listed devices changes
  pub IsAccounted-listed :
      (n : ℕ) {t : Ch341 u} {w : World} → IsAccounted u counting n (t, w) → (handles w).listed ≡ n
  IsAccounted-listed n {t = t} h = elim (Option-cases t.session) [
    | inl e ↦ ground (arith, h.all_held)
    | inr (s, e) ↦ ground (arith, h.all_held)
  ]

  pub IsAccounted-relisted :
      (n m : ℕ) {t : Ch341 u} {w w' : World}
      → IsAccounted u counting n (t, w)
      → handles w' ≡ record (handles w) { listed = m }
      → IsAccounted u counting m (t, w')
  IsAccounted-relisted n m {t = t} h e = record {
    all_held =
        e ∙ ap {A = Handles} (λ x. record x { listed = m }) h.all_held ∙ relisted n m t.session;
    closed_empty = h.closed_empty;
  }
