-- ===== src/Stack.antt =====
-- internal/chip/driver.go on internal/transport/ch341.go: `Ch341Transport` as the `transport.I2CTransport` of the
-- driver, as cmd/remote-mfi-for-xcertplay/main.go puts them together.
pub mod Clock
pub mod Returns
use remote_mfi.Prelude.{ℕ, ◌+◌, ◌≤◌, List}
use remote_mfi.Prelude.Int.{pos}
use remote_mfi.Errors.{Result, err, text}
use remote_mfi.Effects.Action.{Action}
use remote_mfi.Effects.Program.{Outcome, done, out_of_fuel}
use remote_mfi.Chip.Bus.{Bus}
use remote_mfi.Transport.Usb.{Usb}
use remote_mfi.Transport.Session.{Ch341, transaction}

-- The call of a run that has ended; by Transport/Session/Ending, a `Transaction` ends if reads fit their buffers.
abbrev pub ended : {W A : Type 0} → W → Outcome W A → Result A × W
ended w (done r w') = (r, w')
ended w out_of_fuel = (err (text "out of fuel"), w)

-- The transport, and the clock of the world that it acts in
abbrev pub bus_of : (u : Usb) → (u.World → ℕ) → Bus
bus_of u now = record {
  World = Ch341 u × u.World;
  transaction = λ address bytes n s. ended s (transaction u address bytes (pos n) s);
  now = λ s. now s.1;
  sleep = λ d s. (s.0, u.sleep d s.1);
}
