-- ===== src/Transport/Transfers.antt =====
-- internal/transport/ch341.go: `bulkWrite` and `bulkReadAtMost`, over endpoints of the USB library.
pub mod Bounds
use Prim.Native.String.{◌++◌ as append}
use remote_mfi.Fmt.{decimal}
use remote_mfi.Prelude.{
  ℕ, zero, suc, ◌+◌, ◌-◌, min, max, Bool, true, false, ◌||◌, ◌&&◌, not, List, [], ◌∷◌, ◌++◌, length,
  ltb, ◌==◌, if◌then◌else◌,
}
use remote_mfi.Errors.{Result, ok, err, transport, text, protocol, device_missing}
use remote_mfi.Effects.Action.{Action}
use remote_mfi.Effects.Program.{Program, Outcome, done, out_of_fuel}
use remote_mfi.Transport.Faults.{classify_usb_error, is_timeout}

-- A pair of bulk endpoints: `WriteContext` of the data with a time limit answers how many bytes it has sent;
-- `ReadContext` of a buffer of some length with a time limit answers the bytes that it has put there.
pub record Endpoints : Type 1 where
  pub World : Type 0
  pub write_context : List ℕ → ℕ → Action World ℕ
  pub read_context : ℕ → ℕ → Action World (List ℕ)
  pub max_packet_size : ℕ
  -- `time.Sleep`
  pub sleep : ℕ → World → World

abbrev pub max_usb_packet_bytes : ℕ
max_usb_packet_bytes = 32

module _ (e : Endpoints) where
  open e use {World, write_context, read_context, max_packet_size}

  abbrev written : ℕ → Result ℕ → Result (Unit {0})
  written n (err x) = err (classify_usb_error "CH341 bulk write" x)
  written n (ok transferred) =
      if transferred == n
      then ok tt
      else err (
          transport protocol "CH341 bulk write" (
            text (
              append "transferred "
                (append (decimal transferred) (append " of " (append (decimal n) " bytes"))))))

  -- `bulkWrite`
  unfoldable pub bulk_write : List ℕ → ℕ → Action World (Unit {0})
  bulk_write bytes timeout w =
      let (r, w') = write_context bytes timeout w in (written (length bytes) r, w')

  abbrev pub packet_size : ℕ
  packet_size = min (max max_packet_size 1) max_usb_packet_bytes

  -- The loop of `bulkReadAtMost`, with the bytes read so far; each turn reads at least one byte.
  unfoldable pub read_packets : ℕ → ℕ → ℕ → ℕ → Bool → List ℕ → Program World (List ℕ)
  read_packets zero max_length first quiet allow_empty received w = out_of_fuel
  read_packets (suc fuel) max_length first quiet allow_empty received w =
      let timeout = if length received == 0 then first else quiet in
      let (r, w') = read_context (min (max_length - length received) packet_size) timeout w in
      let more = λ (packet : List ℕ).
        read_packets fuel max_length first quiet allow_empty (received ++ packet) w' in
      let some_or_allowed = ltb 0 (length received) || allow_empty in
      if ltb (length received) max_length
      then elim r [
        | err x ↦
            if some_or_allowed && is_timeout x
            then done (ok received) w'
            else done (err (classify_usb_error "CH341 bulk read" x)) w'
        | ok packet ↦
            if length packet == 0
            then (if some_or_allowed
                then done (ok received) w'
                else done
                    (err (transport device_missing "CH341 bulk read" (text "returned no data"))) w')
            else more packet
      ]
      else done (ok received) w

  -- `bulkReadAtMost`
  unfoldable pub bulk_read_at_most : ℕ → ℕ → ℕ → Bool → Program World (List ℕ)
  bulk_read_at_most max_length first quiet allow_empty w =
      if max_length == 0
      then done (ok []) w
      else read_packets (suc max_length) max_length first quiet allow_empty [] w
