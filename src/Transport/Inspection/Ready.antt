-- ===== src/Transport/Inspection/Ready.antt =====
-- internal/transport/ch341.go: when `InspectUSB` answers with the state `ready`.
use Prim.Native.String.{String}
use package.text.Mathlib.Text.{◌==◌ as same_text}
use remote_mfi.Prelude.{
  ◌≡◌, ◌↔◌, ◌⊎◌, refl, subst, Bool, true, false, none, some, inl, inr, Bool-cases, Option-cases,
}
use native.Mathlib.Omega.{arith}
use remote_mfi.Errors.{ok, err, GoError, Result-cases}
use remote_mfi.Httpapi.Messages.{LibraryTexts}
use remote_mfi.Transport.Usb.{Usb}
use remote_mfi.Transport.Session.{Session, Ch341, ensure_session, try_ids}
use remote_mfi.Transport.Inspection.{enumerate_usb, inspect_usb}

module _ (u : Usb) where
  open u use {World}

  -- The session is the transport's, if there is one, and else the transport has none.
  pub ensure_session-cases :
      (t : Ch341 u) (w : World)
      → ((s : Session u) × ((ensure_session u t w).0 ≡ ok s)
          × ((ensure_session u t w).1.session ≡ some s))
        ⊎ ((e : GoError) × ((ensure_session u t w).0 ≡ err e)
            × ((ensure_session u t w).1.session ≡ none))
  unfolding ensure_session
  ensure_session-cases t w = elim (Option-cases t.session) [
    | inr (s, e) ↦ inl (s, ground arith, ground arith)
    | inl e ↦ elim (Result-cases (try_ids u t.allocated none t.usb_ids w).0) [
      | inl (s, f) ↦ inl (s, ground arith, ground arith)
      | inr (x, f) ↦ inr (x, ground arith, ground arith)
    ]
  ]

is_not-ready :
    {state : String} (word : String)
    → same_text word "ready" ≡ false
    → state ≡ word
    → same_text state "ready" ≡ true
    → ⊥
is_not-ready word h e ready =
    let f : same_text word "ready" ≡ true = subst (λ s. same_text s "ready" ≡ true) e ready in cc

module _ (texts : LibraryTexts) (u : Usb) where
  open u use {World}

  -- One of the listed devices has the USB id of a bridge, the transport is not closed, and it holds a
  -- session after the call, a new one or one that it had before.
  pub record IsUsable (strings : Bool) (t : Ch341 u) (w : World) : Type 0 where
    pub attached : (enumerate_usb u t.usb_ids strings w).0.1 ≡ true
    pub still_open : t.closed ≡ false
    pub session : (s : Session u) × ((inspect_usb texts u strings t w).1.session ≡ some s)

  pub inspect_usb-ready :
      (strings : Bool) (t : Ch341 u) (w : World)
      → (same_text (inspect_usb texts u strings t w).0.state "ready" ≡ true) ↔ IsUsable strings t w
  unfolding inspect_usb
  inspect_usb-ready strings t w =
      let ((devices, found), w') = enumerate_usb u t.usb_ids strings w in
      elim (Bool-cases (enumerate_usb u t.usb_ids strings w).0.1) [
        | inr missing ↦ (
          (λ h. absurd (is_not-ready "missing" refl (rw (inspect_usb, missing) refl) h)),
          (λ h. ground (arith, h.attached)),
        )
        | inl present ↦ elim (Bool-cases t.closed) [
          | inl closed ↦ (
            (λ h. absurd (is_not-ready "error" refl (rw (inspect_usb, present, closed) refl) h)),
            (λ h. ground (arith, h.still_open)),
          )
          | inr still_open ↦ elim (ensure_session-cases u t w') [
            | inl (s, e, f) ↦ (
              (λ h. record {
                attached = present;
                still_open = still_open;
                session = (s, ground arith);
              }),
              (λ h. rw (inspect_usb, present, e, still_open) refl),
            )
            | inr (x, e, f) ↦ (
              (λ h.
                  absurd
                    (is_not-ready "error" refl (rw (inspect_usb, present, e, still_open) refl) h)),
              (λ h. absurd (ground (arith, h.session.1))),
            )
          ]
        ]
      ]
