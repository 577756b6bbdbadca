-- ===== src/Transport/Interleaving.antt =====
-- internal/transport/ch341.go: concurrent calls of `Transaction`, `InspectUSB` and `Close`. `ioMu` is held by one
-- call at a time, and `sessionMu` within a step. While a transaction executes, the others may take steps
-- between its transfers, and `enumerateUSB`, which holds no mutex, takes a step for each call of the library.
pub mod Sound
use remote_mfi.Prelude.{ℕ, ◌≡◌, Bool, true, List, [], ◌∷◌, ◌++◌}
use remote_mfi.Errors.{Result, ok, err, GoError}
use remote_mfi.Httpapi.Messages.{LibraryTexts}
use remote_mfi.Config.UsbIds.{UsbId}
use remote_mfi.Transport.Faults.{should_invalidate_session}
use remote_mfi.Transport.Usb.{Usb}
use remote_mfi.Transport.Session.{
  Session, Ch341, current_session, invalidate_session, close, new_ch341,
}
use remote_mfi.Transport.Inspection.{UsbDeviceInfo, UsbStatus, inspect_session}

module _ (texts : LibraryTexts) (u : Usb) where
  -- What the holder of `ioMu` is doing; `Close` takes it within a step.
  pub data Section : Type 0 where
    idle : Section
    -- before `currentSession`
    opening : Section
    -- in `execute`, with the session
    executing : Session u → Section
    -- behind an error that invalidates the session
    invalidating : Session u → Section

  pub record System : Type 0 where
    pub transport : Ch341 u
    pub world : u.World
    pub section : Section
    -- For each call of `InspectUSB` that lists, the devices that it has opened and still has to close
    pub inspections : List (List u.Listed)

  pub data Step (x : System) : System → Type 0 where
    begin : x.section ≡ idle → Step x (record x { section = opening })
    refused :
        {t : Ch341 u} {w : u.World} (e : GoError)
        → x.section ≡ opening
        → current_session u x.transport x.world ≡ (err e, t, w)
        → Step x (record x { transport = t; world = w; section = idle })
    opened :
        {t : Ch341 u} {w : u.World} (s : Session u)
        → x.section ≡ opening
        → current_session u x.transport x.world ≡ (ok s, t, w)
        → Step x (record x { transport = t; world = w; section = executing s })
    write :
        (s : Session u) (bytes : List ℕ) (timeout : ℕ)
        → x.section ≡ executing s
        → Step x (record x { world = (u.write_context s.output bytes timeout x.world).1 })
    read :
        (s : Session u) (n timeout : ℕ)
        → x.section ≡ executing s
        → Step x (record x { world = (u.read_context s.input n timeout x.world).1 })
    sleep :
        (s : Session u) (d : ℕ)
        → x.section ≡ executing s
        → Step x (record x { world = u.sleep d x.world })
    -- an answer, or an error that leaves the session alone
    answer : (s : Session u) → x.section ≡ executing s → Step x (record x { section = idle })
    fault :
        (s : Session u) (e : GoError)
        → x.section ≡ executing s
        → should_invalidate_session e ≡ true
        → Step x (record x { section = invalidating s })
    invalidate :
        {t : Ch341 u} {w : u.World} (s : Session u)
        → x.section ≡ invalidating s
        → invalidate_session u s x.transport x.world ≡ (t, w)
        → Step x (record x { transport = t; world = w; section = idle })
    -- `InspectUSB`: `OpenDevices`; then for each device its strings, if it is still known, and `Close`; and
    -- then the end, if no bridge is attached, or what it does with `sessionMu`. What it lists is left open.
    list :
        (strings : Bool)
        → Step x (record x {
          world = (u.open_devices strings x.world).1;
          inspections = (u.open_devices strings x.world).0.1 ∷ x.inspections;
        })
    ask_manufacturer :
        (before after : List (List u.Listed)) (device : u.Listed) (devices : List u.Listed)
        → x.inspections ≡ before ++ (device ∷ devices) ∷ after
        → Step x (record x { world = (u.manufacturer device x.world).1 })
    ask_product :
        (before after : List (List u.Listed)) (device : u.Listed) (devices : List u.Listed)
        → x.inspections ≡ before ++ (device ∷ devices) ∷ after
        → Step x (record x { world = (u.product device x.world).1 })
    close_listed :
        (before after : List (List u.Listed)) (device : u.Listed) (devices : List u.Listed)
        → x.inspections ≡ before ++ (device ∷ devices) ∷ after
        → Step x (record x {
          world = (u.close_listed device x.world).1;
          inspections = before ++ devices ∷ after;
        })
    missing :
        (before after : List (List u.Listed))
        → x.inspections ≡ before ++ [] ∷ after
        → Step x (record x { inspections = before ++ after })
    look :
        {t : Ch341 u} {w : u.World} (before after : List (List u.Listed))
        (devices : List UsbDeviceInfo) (status : UsbStatus)
        → x.inspections ≡ before ++ [] ∷ after
        → inspect_session texts u devices x.transport x.world ≡ (status, t, w)
        → Step x (record x { transport = t; world = w; inspections = before ++ after })
    close_all :
        {t : Ch341 u} {w : u.World} (r : Result (Unit {0}))
        → x.section ≡ idle
        → close u x.transport x.world ≡ (r, t, w)
        → Step x (record x { transport = t; world = w })

  pub data Reach (x : System) : System → Type 0 where
    here : Reach x x
    next : {y z : System} → Reach x y → Step y z → Reach x z

  -- Nobody holds `ioMu`, and no call lists.
  abbrev pub at_rest : Ch341 u → u.World → System
  at_rest t w = record { transport = t; world = w; section = idle; inspections = [] }
