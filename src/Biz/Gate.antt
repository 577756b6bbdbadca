-- ===== src/Biz/Gate.antt =====
-- `chipGate`: the token that one caller holds at a time, and who holds it.
use Prim.Native.String.{String}
use text.Mathlib.Text.{◌==◌}
use remote_mfi.Prelude.{ℕ, ◌-◌, Bool, true, false, if◌then◌else◌}
use remote_mfi.Errors.{Result, ok, err, sentinel, chip_busy, context, ContextError}

pub record Gate : Type 0 where
  -- whether the channel `token` is full
  pub taken : Bool
  pub holder : String
  pub acquired_at : ℕ

unfoldable pub new_chip_gate : Gate
new_chip_gate = record { taken = false; holder = ""; acquired_at = 0 }

-- Which case of the `select` of `acquire` was ready. The token can be sent only while it is free.
pub data Ready : Type 0 where
  token timer : Ready
  ctx_done : ContextError → Ready

unfoldable pub acquire : ℕ → String → Ready → Gate → Result (Unit {0}) × Gate
acquire now holder token g = (ok tt, record { taken = true; holder = holder; acquired_at = now })
acquire now holder timer g = (err (sentinel chip_busy), g)
acquire now holder (ctx_done e) g = (err (context e), g)

-- The function that `acquire` returns
unfoldable pub release : Gate → Gate
release g = record { taken = false; holder = ""; acquired_at = 0 }

-- `status`: the holder, and for how long
unfoldable pub gate_status : ℕ → Gate → String × ℕ
gate_status now g = if g.holder == "" then ("", 0) else (g.holder, now - g.acquired_at)
