-- ===== src/Transport/Interleaving/Sound.antt =====
-- What holds however the calls interleave.
use remote_mfi.Prelude.{
  ℕ, ◌+◌, [], ◌∷◌, ◌++◌, length, refl, ◌≡◌, sym, ap, subst, ◌∙◌, false, List, Option, none, some,
  inl, inr, if-intro, Bool-cases, Option-cases,
}
use native.Mathlib.Omega.{arith}
use remote_mfi.Errors.{ok, Result-cases}
use remote_mfi.Httpapi.Messages.{LibraryTexts}
use remote_mfi.Config.UsbIds.{UsbId}
use remote_mfi.Transport.Encoder.{speed_command}
use remote_mfi.Transport.Usb.{Usb}
use remote_mfi.Transport.Session.{Session, Ch341, current_session, ensure_session, new_ch341}
use remote_mfi.Transport.Usb.Counting.{Counting}
use remote_mfi.Transport.Session.Accounting.{
  IsAccounted, IsAccounted-same, IsAccounted-listed, IsAccounted-relisted, held,
  current_session-IsAccounted, invalidate_session-IsAccounted, close-IsAccounted,
}
use remote_mfi.Transport.Inspection.{UsbDeviceInfo, UsbStatus, inspect_session}
use remote_mfi.Transport.Inspection.Accounting.{inspect_session-IsAccounted}
use remote_mfi.Transport.Interleaving

-- How many listed devices all calls still have to close
abbrev pub handed : {A : Type 0} → List (List A) → ℕ
handed [] = 0
handed (devices ∷ rest) = length devices + handed rest

handed-insert :
    {A : Type 0} (before after : List (List A)) (devices : List A)
    → handed (before ++ devices ∷ after) ≡ length devices + handed (before ++ after)
handed-insert [] after devices = refl
handed-insert (first ∷ before) after devices = omega (arith, handed-insert before after devices)

-- A call that has closed all its devices
finished :
    {A : Type 0} (before after : List (List A)) {all : List (List A)}
    → all ≡ before ++ [] ∷ after
    → handed all ≡ handed (before ++ after)
finished before after e = ap handed e ∙ handed-insert before after [] ∙ omega arith

module _ (texts : LibraryTexts) (u : Usb) (counting : Counting u) where
  open u use {World}
  open counting use {handles}

  -- A transaction works on the session that the transport has.
  abbrev pub UsesCurrent : Option (Session u) → Interleaving.Section texts u → Type 0
  UsesCurrent session Interleaving.Section.idle = Unit
  UsesCurrent session Interleaving.Section.opening = Unit
  UsesCurrent session (Interleaving.Section.executing s) = session ≡ some s
  UsesCurrent session (Interleaving.Section.invalidating s) = session ≡ some s

  pub record IsSound (x : Interleaving.System texts u) : Type 0 where
    pub accounted : IsAccounted u counting (handed x.inspections) (x.transport, x.world)
    pub uses_current : UsesCurrent x.transport.session x.section

  -- A session stays, whoever asks for one.
  ensure_session-stays :
      (t : Ch341 u) (w : World) (s : Session u)
      → t.session ≡ some s
      → (ensure_session u t w).1.session ≡ some s
  unfolding ensure_session
  ensure_session-stays t w s h = ground arith

  current_session-ok :
      (t : Ch341 u) (w : World) (s : Session u)
      → (current_session u t w).0 ≡ ok s
      → (current_session u t w).1.session ≡ some s
  unfolding current_session ensure_session
  current_session-ok t w s h = elim (Bool-cases t.closed) [
    | inl closed ↦ absurd (ground arith)
    | inr still_open ↦ elim (Option-cases t.session) [
      | inr (current, e) ↦ ground arith
      | inl e ↦ ground arith
    ]
  ]

  inspect_session-stays :
      (devices : List UsbDeviceInfo) (t : Ch341 u) (w : World) (s : Session u)
      → t.session ≡ some s
      → (inspect_session texts u devices t w).1.session ≡ some s
  inspect_session-stays devices t w s h =
      if-intro (λ (r : UsbStatus × Ch341 u × World). r.1.session ≡ some s) t.closed _ _
        (λ closed. h) (λ still_open. ensure_session-stays t w s h)

  UsesCurrent-stays :
      (before after : Option (Session u)) (x : Interleaving.Section texts u)
      → ((s : Session u) → before ≡ some s → after ≡ some s)
      → UsesCurrent before x
      → UsesCurrent after x
  UsesCurrent-stays before after Interleaving.Section.idle stays h = tt
  UsesCurrent-stays before after Interleaving.Section.opening stays h = tt
  UsesCurrent-stays before after (Interleaving.Section.executing s) stays h = stays s h
  UsesCurrent-stays before after (Interleaving.Section.invalidating s) stays h = stays s h

  Step-IsSound :
      {x y : Interleaving.System texts u} → IsSound x → Interleaving.Step texts u x y → IsSound y
  Step-IsSound h (Interleaving.begin e) = record { accounted = h.accounted; uses_current = tt }
  Step-IsSound {x} h (Interleaving.refused e p c) = record {
    accounted =
        subst (λ r. IsAccounted u counting (handed x.inspections) (r.1, r.2)) c
          (current_session-IsAccounted u counting (handed x.inspections) x.transport x.world
            h.accounted);
    uses_current = tt;
  }
  Step-IsSound {x} h (Interleaving.opened s p c) = record {
    accounted =
        subst (λ r. IsAccounted u counting (handed x.inspections) (r.1, r.2)) c
          (current_session-IsAccounted u counting (handed x.inspections) x.transport x.world
            h.accounted);
    uses_current =
        subst (λ r. r.1.session ≡ some s) c
          (current_session-ok x.transport x.world s (ap (λ r. r.0) c));
  }
  Step-IsSound {x} h (Interleaving.write s bytes timeout p) = record {
    accounted =
        IsAccounted-same u counting (handed x.inspections) h.accounted
          (counting.write_context-handles s.output bytes timeout x.world);
    uses_current = h.uses_current;
  }
  Step-IsSound {x} h (Interleaving.read s n timeout p) = record {
    accounted =
        IsAccounted-same u counting (handed x.inspections) h.accounted
          (counting.read_context-handles s.input n timeout x.world);
    uses_current = h.uses_current;
  }
  Step-IsSound {x} h (Interleaving.sleep s d p) = record {
    accounted =
        IsAccounted-same u counting (handed x.inspections) h.accounted
          (counting.sleep-handles d x.world);
    uses_current = h.uses_current;
  }
  Step-IsSound h (Interleaving.answer s p) = record { accounted = h.accounted; uses_current = tt }
  Step-IsSound {x} h (Interleaving.fault s e p b) = record {
    accounted = h.accounted;
    uses_current = subst (UsesCurrent x.transport.session) p h.uses_current;
  }
  Step-IsSound {x} h (Interleaving.invalidate s p c) = record {
    accounted = subst (IsAccounted u counting (handed x.inspections)) c (
        invalidate_session-IsAccounted u counting (handed x.inspections) s x.transport x.world
          h.accounted);
    uses_current = tt;
  }
  Step-IsSound {x} h (Interleaving.list strings) = record {
    accounted = IsAccounted-relisted u counting (handed x.inspections) _ h.accounted (
        counting.open_devices-handles strings x.world
        ∙ ap (λ n. record (handles x.world) { listed = n })
            (omega (arith, IsAccounted-listed u counting (handed x.inspections) h.accounted)));
    uses_current = h.uses_current;
  }
  Step-IsSound {x} h (Interleaving.ask_manufacturer before after device devices e) = record {
    accounted =
        IsAccounted-same u counting (handed x.inspections) h.accounted
          (counting.manufacturer-handles device x.world);
    uses_current = h.uses_current;
  }
  Step-IsSound {x} h (Interleaving.ask_product before after device devices e) = record {
    accounted =
        IsAccounted-same u counting (handed x.inspections) h.accounted
          (counting.product-handles device x.world);
    uses_current = h.uses_current;
  }
  Step-IsSound {x} h (Interleaving.close_listed before after device devices e) = record {
    accounted = IsAccounted-relisted u counting (handed x.inspections) _ h.accounted (
        counting.close_listed-handles device x.world
        ∙ ap (λ n. record (handles x.world) { listed = n })
            (omega (
              arith,
              IsAccounted-listed u counting (handed x.inspections) h.accounted,
              ap handed e,
              handed-insert before after (device ∷ devices),
              handed-insert before after devices,
            )));
    uses_current = h.uses_current;
  }
  Step-IsSound {x} h (Interleaving.missing before after e) = record {
    accounted =
        subst (λ n. IsAccounted u counting n (x.transport, x.world)) (finished before after e)
          h.accounted;
    uses_current = h.uses_current;
  }
  Step-IsSound {x} h (Interleaving.look {t = t} {w = w} before after devices status e c) = record {
    accounted =
        subst (λ n. IsAccounted u counting n (t, w)) (finished before after e)
          (subst (λ r. IsAccounted u counting (handed x.inspections) (r.1, r.2)) c
            (inspect_session-IsAccounted u counting texts (handed x.inspections) devices x.transport
              x.world h.accounted));
    uses_current =
        UsesCurrent-stays x.transport.session t.session x.section
          (λ s e.
            subst (λ r. r.1.session ≡ some s) c
              (inspect_session-stays devices x.transport x.world s e))
          h.uses_current;
  }
  Step-IsSound {x} h (Interleaving.close_all {t = t} r p c) = record {
    accounted =
        subst (λ r. IsAccounted u counting (handed x.inspections) (r.1, r.2)) c
          (close-IsAccounted u counting (handed x.inspections) x.transport x.world h.accounted);
    uses_current = subst (UsesCurrent t.session) (sym p) tt;
  }

new_ch341-empty :
    (u : Usb) (usb_ids : List UsbId) (speed : ℕ) {t : Ch341 u}
    → new_ch341 u usb_ids speed ≡ ok t
    → (t.session ≡ none) × (t.closed ≡ false)
unfolding new_ch341
new_ch341-empty u usb_ids speed made = elim (Result-cases (speed_command speed)) [
  | inr (e, refused) ↦ absurd (ground arith)
  | inl (command, e) ↦ (ground arith, ground arith)
]

-- However calls of `Transaction`, `InspectUSB` and `Close` interleave, each call of the USB library being a step
-- where no mutex is held, on a library that counts its open handles as documented, and refuses to give back
-- what is still in use: a transaction that executes does so on the session that the transport has, which no other
-- call closes; and what is open is one device, one configuration and one interface if the transport has a session,
-- and none of these if it has none or is closed; and besides, exactly the devices that calls of `InspectUSB` have
-- opened and still have to close.
pub Reach-IsSound :
    (texts : LibraryTexts) (u : Usb) (counting : Counting u) (usb_ids : List UsbId) (speed : ℕ)
    {t : Ch341 u} {w : u.World} {x : Interleaving.System texts u}
    → new_ch341 u usb_ids speed ≡ ok t
    → counting.handles w ≡ record { devices = 0; configs = 0; interfaces = 0; listed = 0 }
    → Interleaving.Reach texts u (Interleaving.at_rest texts u t w) x
    → IsSound texts u counting x
Reach-IsSound texts u counting usb_ids speed {t = t} made empty Interleaving.here =
    let (fresh, still_open) = new_ch341-empty u usb_ids speed made in
    record {
      accounted = record {
        all_held = empty ∙ ap (held 0) (sym fresh);
        closed_empty = λ closed. fresh;
      };
      uses_current = tt;
    }
Reach-IsSound texts u counting usb_ids speed made empty (Interleaving.next r s) =
    Step-IsSound texts u counting (Reach-IsSound texts u counting usb_ids speed made empty r) s
