-- ===== src/Transport/Bus.antt =====
-- What a stream of CH341 packets does on the I2C bus, and what a transaction should do there.
-- This is the specification: the command set as the chip documents it, read byte by byte, with no
-- reference to how the encoder builds a stream or counts answers.
pub mod Replies
use remote_mfi.Prelude.{
  ℕ, zero, suc, ◌+◌, ◌-◌, ◌*◌, Bool, true, false, ◌&&◌, List, [], ◌∷◌, ◌++◌, map, Option, none,
  some, leb, ◌==◌, if◌then◌else◌, replicate,
}
use remote_mfi.Transport.Segments.{segments}

pub data BusEvent : Type 0 where
  start stop : BusEvent
  send : ℕ → BusEvent
  -- a byte read; the host acknowledges it, or not
  receive : Bool → BusEvent

pub data BusCommand : Type 0 where
  finish_packet start_condition stop_condition : BusCommand
  send_next : ℕ → BusCommand
  receive_acked : ℕ → BusCommand
  receive_last set_speed unknown : BusCommand

unfoldable pub bus_command : ℕ → BusCommand
bus_command c =
    if c == 0x00
    then finish_packet
    else if c == 0x74
    then start_condition
    else if c == 0x75
    then stop_condition
    else if c == 0x80
    then send_next 1
    else if leb 0x81 c && leb c 0xbf
    then send_next (c - 0x80)
    else if c == 0xc0
    then receive_last
    else if leb 0xc1 c && leb c 0xff
    then receive_acked (c - 0xc0)
    else if leb 0x60 c && leb c 0x63
    then set_speed
    else unknown

abbrev pub prepend : List BusEvent → Option (List BusEvent) → Option (List BusEvent)
prepend es none = none
prepend es (some fs) = some (es ++ fs)

-- The events of a packet's commands, where the next `sending` bytes are data to send; `none` for a
-- command that is not known, or data that is cut off.
unfoldable pub packet_body : ℕ → List ℕ → Option (List BusEvent)
unfolding bus_command
packet_body (suc sending) [] = none
packet_body (suc sending) (b ∷ rest) = prepend (send b ∷ []) (packet_body sending rest)
packet_body zero [] = some []
packet_body zero (c ∷ rest) = elim (bus_command c) [
  | finish_packet ↦ some []
  | start_condition ↦ prepend (start ∷ []) (packet_body 0 rest)
  | stop_condition ↦ prepend (stop ∷ []) (packet_body 0 rest)
  | send_next n ↦ packet_body n rest
  | receive_acked n ↦ prepend (replicate n (receive true)) (packet_body 0 rest)
  | receive_last ↦ prepend (receive false ∷ []) (packet_body 0 rest)
  | set_speed ↦ packet_body 0 rest
  | unknown ↦ none
]

-- A packet begins with 0xaa.
unfoldable pub packet_events : List ℕ → Option (List BusEvent)
unfolding packet_body
packet_events [] = none
packet_events (b ∷ body) = if b == 0xaa then packet_body 0 body else none

unfoldable pub packets_events : List (List ℕ) → Option (List BusEvent)
unfolding packet_events
packets_events [] = some []
packets_events (p ∷ ps) = elim (packet_events p) [
  | none ↦ none
  | some es ↦ prepend es (packets_events ps)
]

-- The events of a stream, cut into packets of 32 bytes
unfoldable pub stream_events : List ℕ → Option (List BusEvent)
unfolding packets_events
stream_events stream = packets_events (segments stream)

-- The bytes that a write sends: the address with the lowest bit clear, then the data
abbrev pub write_events : ℕ → List ℕ → List BusEvent
write_events address [] = []
write_events address (v ∷ vs) = start ∷ send (address * 2) ∷ map send (v ∷ vs)

-- A read: every byte is acknowledged but the last.
abbrev pub read_events : ℕ → ℕ → List BusEvent
read_events address zero = []
read_events address (suc n) =
    start ∷ send (address * 2 + 1) ∷ replicate n (receive true) ++ receive false ∷ []

-- An I2C transaction: a write, a read behind a repeated start, and one stop
unfoldable pub transaction_events : ℕ → List ℕ → ℕ → List BusEvent
transaction_events address write_data read_length =
    write_events address write_data ++ (read_events address read_length ++ stop ∷ [])
