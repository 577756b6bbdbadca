-- ===== src/Transport/Session.antt =====
-- internal/transport/ch341.go: the sessions of `Ch341Transport`: opening, `Transaction`, invalidation and
-- `Close`. The mutexes are in Transport/Interleaving.
pub mod Handles
pub mod Accounting
pub mod Answers
pub mod Ending
pub mod Outcomes
use Prim.Native.String.{String, ◌++◌ as append}
use remote_mfi.Prelude.{
  ℕ, suc, Bool, true, false, ◌&&◌, List, [], ◌∷◌, Option, none, some, length, ◌==◌, if◌then◌else◌,
}
use remote_mfi.Prelude.Int.{ℤ, pos, negsuc}
use remote_mfi.Fmt.{hex4}
use remote_mfi.Errors.{Result, ok, err, GoError, transport, text, protocol, device_missing}
use remote_mfi.Effects.Action.{Action}
use remote_mfi.Effects.Program.{Program, Outcome, done, out_of_fuel}
use remote_mfi.Config.UsbIds.{UsbId}
use remote_mfi.Transport.Encoder.{speed_command, encode_transaction}
use remote_mfi.Transport.Faults.{classify_usb_error, should_invalidate_session}
use remote_mfi.Transport.Devices.{find_bulk_endpoints, Choice}
use remote_mfi.Transport.Transfers.{Endpoints}
use remote_mfi.Transport.Execution.{execute}
pub use remote_mfi.Transport.Opening.{Session}
unfoldable pub use remote_mfi.Transport.Opening.{
  usb_id_string, open_error, open_endpoints, claim, open_session,
}
use remote_mfi.Transport.Usb.{Usb, DeviceDesc}

-- A length that is not negative: `encodeTransaction` refuses the others.
abbrev pub unsigned : ℤ → ℕ
unsigned (pos n) = n
unsigned (negsuc n) = 0

module _ (u : Usb) where
  open u use {
    World, Device, ConfigHandle, Interface, InEndpoint, OutEndpoint, open_device, descriptor,
    device_config, config_interface, in_endpoint, out_endpoint, close_interface, close_config,
    close_device, close_context,
  }

  -- `Ch341Transport`; `allocated` is how many sessions have been made.
  pub record Ch341 : Type 0 where
    pub usb_ids : List UsbId
    pub speed : ℕ
    pub session : Option (Session u)
    pub closed : Bool
    pub allocated : ℕ

  -- `NewCh341`
  unfoldable pub new_ch341 : List UsbId → ℕ → Result Ch341
  new_ch341 usb_ids speed =
      if length usb_ids == 0
      then err (text "at least one CH341 USB identity is required")
      else elim (speed_command speed) [
        | err e ↦ err e
        | ok command ↦ ok (record {
          usb_ids = usb_ids;
          speed = speed;
          session = none;
          closed = false;
          allocated = 0;
        })
      ]

  -- What one turn of the loop of `ensureSessionLocked` comes to: an error to note, nothing, or a
  -- session
  pub data Attempt : Type 0 where
    failed : GoError → Attempt
    absent : Attempt
    opened : Session u → Attempt

  unfoldable pub try_id : ℕ → UsbId → World → Attempt × World
  try_id pointer id w =
      let (r, w₁) = open_device id.vendor id.product w in
      elim r [
        | err e ↦ (failed (classify_usb_error (append "open CH341 " (usb_id_string id)) e), w₁)
        | ok none ↦ (absent, w₁)
        | ok (some device) ↦
            let (r, w₂) = open_session u device (usb_id_string id) pointer w₁ in
            elim r [
              | err e ↦ let (closed, w₃) = close_device device w₂ in (failed e, w₃)
              | ok session ↦ (opened session, w₂)
            ]
      ]

  -- What is answered when no identity has led to a session
  abbrev pub last_or_missing : Option GoError → GoError
  last_or_missing (some e) = e
  last_or_missing none = open_error "no matching USB device"

  -- The loop of `ensureSessionLocked`, with `lastError`
  unfoldable pub try_ids : ℕ → Option GoError → List UsbId → Action World (Session u)
  try_ids pointer last [] w = (err (last_or_missing last), w)
  try_ids pointer last (id ∷ ids) w =
      let (attempt, w₁) = try_id pointer id w in
      elim attempt [
        | failed e ↦ try_ids pointer (some e) ids w₁
        | absent ↦ try_ids pointer last ids w₁
        | opened session ↦ (ok session, w₁)
      ]

  -- `ensureSessionLocked`
  unfoldable pub ensure_session : Ch341 → World → Result (Session u) × Ch341 × World
  ensure_session t w = elim t.session [
    | some session ↦ (ok session, t, w)
    | none ↦
        let (r, w') = try_ids t.allocated none t.usb_ids w in
        elim r [
          | err e ↦ (err e, t, w')
          | ok session ↦
              (ok session, record t { session = some session; allocated = suc t.allocated }, w')
        ]
  ]

  -- `currentSession`
  unfoldable pub current_session : Ch341 → World → Result (Session u) × Ch341 × World
  current_session t w =
      let next = ensure_session t w in
      if t.closed then (err (open_error "USB context is closed"), t, w) else next

  -- `ch341Session.close`
  unfoldable pub close_session : Session u → Action World (Unit {0})
  close_session s w =
      let (r, w₁) = close_config s.config (close_interface s.iface w) in
      let (r', w₂) = close_device s.device w₁ in elim r [ err e ↦ (err e, w₂) | ok tt ↦ (r', w₂) ]

  -- `invalidateSession`
  unfoldable pub invalidate_session : Session u → Ch341 → World → Ch341 × World
  invalidate_session session t w = elim t.session [
    | none ↦ (t, w)
    | some current ↦
        let (r, w') = close_session current w in
        if current.pointer == session.pointer then (record t { session = none }, w') else (t, w)
  ]

  -- The endpoints of a session
  abbrev pub endpoints : Session u → Endpoints
  endpoints s = record {
    World = u.World;
    write_context = u.write_context s.output;
    read_context = u.read_context s.input;
    max_packet_size = u.max_packet_size s.input;
    sleep = u.sleep;
  }

  -- What `Transaction` does with the answer of `execute`
  abbrev pub finish : Session u → Ch341 → Outcome World (List ℕ) → Outcome (Ch341 × World) (List ℕ)
  finish session t out_of_fuel = out_of_fuel
  finish session t (done (ok response) w) = done (ok response) (t, w)
  finish session t (done (err e) w) =
      done (err e) (if should_invalidate_session e then invalidate_session session t w else (t, w))

  -- `Transaction` behind `currentSession`
  abbrev pub run_session :
      List ℕ → ℕ → ℕ → Result (Session u) × Ch341 × World → Outcome (Ch341 × World) (List ℕ)
  run_session stream write_length read_length (err e, t, w) = done (err e) (t, w)
  run_session stream write_length read_length (ok session, t, w) =
      finish session t (execute (endpoints session) t.speed stream write_length read_length w)

  -- `Transaction`
  unfoldable pub transaction : ℕ → List ℕ → ℤ → Program (Ch341 × World) (List ℕ)
  transaction address bytes read_length (t, w) =
      elim (encode_transaction address bytes read_length) [
        | err e ↦ done (err e) (t, w)
        | ok stream ↦ run_session stream (length bytes) (unsigned read_length) (current_session t w)
      ]

  -- The end of `Close`, with the error of closing the session
  abbrev pub close_after : Result (Unit {0}) → Ch341 → World → Result (Unit {0}) × Ch341 × World
  close_after r t w =
      let (r', w') = close_context w in
      (elim r [ err e ↦ err e | ok tt ↦ r' ], record t { closed = true; session = none }, w')

  -- `Close` behind the first test
  abbrev pub close_held : Option (Session u) → Ch341 → World → Result (Unit {0}) × Ch341 × World
  close_held none t w = close_after (ok tt) t w
  close_held (some session) t w = let (r, w') = close_session session w in close_after r t w'

  -- `Close`
  unfoldable pub close : Ch341 → World → Result (Unit {0}) × Ch341 × World
  close t w = let closing = close_held t.session t w in if t.closed then (ok tt, t, w) else closing
