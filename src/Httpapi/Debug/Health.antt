-- ===== src/Httpapi/Debug/Health.antt =====
-- The health check, from the request down to the sessions of the transport.
use Prim.Native.String.{String}
use package.text.Mathlib.Text.{◌==◌ as same_text}
use remote_mfi.Biz.Health.{Inspector, inspect_usb, health, diagnostics}
use remote_mfi.Httpapi.Messages.{LibraryTexts}
use remote_mfi.Httpapi.Debug.{StatusInterface}
use remote_mfi.Transport.Usb.{Usb}
use remote_mfi.Transport.Session.{Ch341}
use remote_mfi.Transport.Inspection

-- `Ch341Transport` as the `USBInspector` of the service
abbrev pub inspector : (texts : LibraryTexts) (u : Usb) → Inspector (Ch341 u × u.World)
inspector texts u strings (t, w) =
    let (status, t', w') = Inspection.inspect_usb texts u strings t w in (status, (t', w'))

-- The interface with the methods that look at the transport
abbrev pub looking :
    (texts : LibraryTexts) (u : Usb)
    → StatusInterface (Ch341 u × u.World)
    → StatusInterface (Ch341 u × u.World)
looking texts u status = record status {
  health = health (inspector texts u);
  diagnostics = diagnostics (inspector texts u);
}
