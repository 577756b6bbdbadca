-- ===== src/Chip/Bus.antt =====
-- What the driver uses of its surroundings: the interface `transport.I2CTransport`, and the clock of
-- the package time. Times and durations are nanoseconds.
use remote_mfi.Prelude.{ℕ, ◌+◌, ◌≤◌, List}
use remote_mfi.Effects.Action.{Action}

pub record Bus : Type 1 where
  pub World : Type 0
  -- `Transaction(address7Bit, writeData, readLength)`
  pub transaction : ℕ → List ℕ → ℕ → Action World (List ℕ)
  -- `time.Now()` and `time.Sleep(d)`
  pub now : World → ℕ
  pub sleep : ℕ → World → World

-- A clock that does not go back: `time.Sleep` pauses for at least its duration, and a transaction
-- takes some time or none.
pub record IsClocked (b : Bus) : Type 0 where
  pub now-sleep : (d : ℕ) (w : b.World) → b.now w + d ≤ b.now (b.sleep d w)
  pub now-transaction :
      (address : ℕ) (bytes : List ℕ) (n : ℕ) (w : b.World)
      → b.now w ≤ b.now (b.transaction address bytes n w).1
