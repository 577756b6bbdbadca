-- ===== src/Transport/Encoder.antt =====
-- internal/transport/ch341_encoder.go: the bytes that are sent to the CH341 for one I2C transaction.
-- A byte is a number; what Go computes in a `byte` or `uint8` keeps its wrap-around.
pub mod Commands
pub mod Packets
pub mod Emission
pub mod Program
pub mod Streams
pub mod Readings
pub mod Correct
pub mod Framing
use Prim.Native.String.{◌++◌ as append}
use remote_mfi.Fmt.{decimal}
use remote_mfi.Prelude.{
  ℕ, zero, suc, ◌+◌, ◌-◌, ◌*◌, ◌%◌, bit_or, Bool, true, false, ◌&&◌, ◌||◌, List, [], ◌∷◌, ◌++◌,
  Option, none, some, ltb, ◌==◌, if◌then◌else◌, length,
}
use remote_mfi.Prelude.Int.{ℤ, pos, negsuc}
use remote_mfi.Errors.{Result, ok, err, GoError, text, transport, invalid_request, ◌>>=◌}

abbrev pub max_stream_packet_bytes : ℕ
max_stream_packet_bytes = 32

abbrev pub max_transaction_bytes : ℕ
max_transaction_bytes = 0xffff

abbrev pub max_read_block_bytes : ℕ
max_read_block_bytes = 32

abbrev pub max_write_command_bytes : ℕ
max_write_command_bytes = 0x3f

abbrev pub stream_start : ℕ
stream_start = 0xaa

abbrev pub stream_end : ℕ
stream_end = 0x00

abbrev pub stream_i2c_start : ℕ
stream_i2c_start = 0x74

abbrev pub stream_i2c_stop : ℕ
stream_i2c_stop = 0x75

abbrev pub stream_write : ℕ
stream_write = 0x80

abbrev pub stream_read : ℕ
stream_read = 0xc0

abbrev pub stream_end_bytes : ℕ
stream_end_bytes = 1

abbrev pub stream_stop_and_end_bytes : ℕ
stream_stop_and_end_bytes = 2

abbrev pub stream_start_address_bytes : ℕ
stream_start_address_bytes = 3

-- The conversion `byte(n)`
abbrev pub byte : ℕ → ℕ
byte n = n % 256

-- `I2CSpeed.command`; a speed is a number of kHz.
unfoldable pub speed_command : ℕ → Result ℕ
speed_command s =
    if s == 20
    then ok 0x60
    else if s == 100
    then ok 0x61
    else if s == 400
    then ok 0x62
    else if s == 750
    then ok 0x63
    else err (text (append (append "unsupported CH341 I2C speed " (decimal s)) " kHz"))

unfoldable pub encode_configuration : ℕ → Result (List ℕ)
unfolding speed_command
encode_configuration speed = do
  command ← speed_command speed
  ok (stream_start ∷ command ∷ stream_end ∷ [])

-- `address7Bit << 1` in a `uint8`, with the lowest bit set for a read
unfoldable pub address_byte : ℕ → Bool → ℕ
address_byte address read = let value = byte (address * 2) in if read then bit_or value 1 else value

-- The loop of the closure `write`: each value after a write command for one byte
unfoldable pub append_values : List ℕ → List ℕ → List ℕ
append_values bytes [] = bytes
append_values bytes (value ∷ values) = append_values (bytes ++ stream_write ∷ value ∷ []) values

-- The closure `write` of `encodeLegacyTransaction`
unfoldable pub legacy_write : List ℕ → ℕ → List ℕ → List ℕ
legacy_write bytes address values = append_values (bytes ++ stream_write ∷ address ∷ []) values

unfoldable pub legacy_write_part : ℕ → List ℕ → List ℕ → List ℕ
legacy_write_part address [] bytes = bytes
legacy_write_part address (v ∷ vs) bytes =
    legacy_write (bytes ++ stream_i2c_start ∷ []) (address_byte address false) (v ∷ vs)

-- The command that reads all bytes but the last, if there are any
abbrev legacy_count : ℕ → List ℕ → List ℕ
legacy_count read_length bytes =
    if ltb 1 read_length then bytes ++ byte (stream_read + read_length - 1) ∷ [] else bytes

unfoldable pub legacy_read_part : ℕ → ℕ → List ℕ → List ℕ
legacy_read_part address read_length bytes =
    if ltb 0 read_length
    then legacy_count read_length
        (legacy_write (bytes ++ stream_i2c_start ∷ []) (address_byte address true) [])
      ++ stream_read ∷ []
    else bytes

-- `none` is the nil slice, where one packet is not enough.
unfoldable pub encode_legacy_transaction : ℕ → List ℕ → ℕ → Option (List ℕ)
encode_legacy_transaction address write_data read_length =
    if ltb max_read_block_bytes read_length || ltb max_write_command_bytes (length write_data + 1)
    then none
    else let bytes =
        legacy_read_part address read_length
          (legacy_write_part address write_data (stream_start ∷ []))
        ++ stream_i2c_stop ∷ stream_end ∷ [] in
      if ltb max_stream_packet_bytes (length bytes) then none else some bytes

pub record SegmentedStream : Type 0 where
  pub result : List ℕ
  pub segment : List ℕ

unfoldable pub new_segmented_stream : SegmentedStream
new_segmented_stream = record { result = []; segment = stream_start ∷ [] }

-- The padding loop of `finishIntermediate`, on fuel
unfoldable pub pad_segment : ℕ → List ℕ → List ℕ
pad_segment zero segment = segment
pad_segment (suc fuel) segment =
    let padded = pad_segment fuel (segment ++ 0 ∷ []) in
    if ltb (length segment) max_stream_packet_bytes then padded else segment

unfoldable pub finish_intermediate : SegmentedStream → SegmentedStream
finish_intermediate s = record {
  result = s.result ++ pad_segment max_stream_packet_bytes (s.segment ++ stream_end ∷ []);
  segment = stream_start ∷ [];
}

-- Appends to the open segment.
abbrev pub append_segment : List ℕ → SegmentedStream → SegmentedStream
append_segment bytes s = record s { segment = s.segment ++ bytes }

unfoldable pub command : List ℕ → SegmentedStream → SegmentedStream
command bytes s = append_segment bytes (
    if ltb max_stream_packet_bytes (length s.segment + length bytes + stream_end_bytes)
    then finish_intermediate s
    else s)

unfoldable pub write_values : List ℕ → SegmentedStream → SegmentedStream
write_values [] s = s
write_values (value ∷ values) s = write_values values (command (stream_write ∷ value ∷ []) s)

unfoldable pub write : ℕ → List ℕ → SegmentedStream → SegmentedStream
write address [] s = command ((stream_write + 1) ∷ address ∷ []) s
write address (v ∷ vs) s = write_values (v ∷ vs) (command (stream_write ∷ address ∷ []) s)

unfoldable pub start_and_write : ℕ → List ℕ → SegmentedStream → SegmentedStream
start_and_write address values s =
    let room =
      if ltb max_stream_packet_bytes
        (length s.segment + stream_start_address_bytes + stream_end_bytes)
      then finish_intermediate s
      else s in
    write address values (append_segment (stream_i2c_start ∷ []) room)

-- The loop of `read`, on fuel: full blocks while more than one block remains
unfoldable pub read_blocks : ℕ → ℕ → SegmentedStream → SegmentedStream × ℕ
read_blocks zero remaining s = (s, remaining)
read_blocks (suc fuel) remaining s =
    let rest =
      read_blocks fuel (remaining - max_read_block_bytes)
        (finish_intermediate (command ((stream_read + max_read_block_bytes) ∷ []) s)) in
    if ltb max_read_block_bytes remaining then rest else (s, remaining)

unfoldable pub read : ℕ → SegmentedStream → SegmentedStream
read read_length s =
    let (blocks, remaining) = read_blocks read_length read_length s in
    let counted =
      if ltb 1 remaining
      then command (byte (stream_read + remaining - 1) ∷ []) blocks
      else blocks in
    command (stream_read ∷ []) counted

unfoldable pub finish : SegmentedStream → List ℕ
finish s =
    let room =
      if ltb max_stream_packet_bytes (length s.segment + stream_stop_and_end_bytes)
      then finish_intermediate s
      else s in
    room.result ++ (room.segment ++ stream_i2c_stop ∷ stream_end ∷ [])

abbrev invalid : GoError → GoError
invalid e = transport invalid_request "encode transaction" e

unfoldable pub segmented_transaction : ℕ → List ℕ → ℕ → List ℕ
segmented_transaction address write_data read_length =
    let written =
      if ltb 0 (length write_data)
      then start_and_write (address_byte address false) write_data new_segmented_stream
      else new_segmented_stream in
    let stream =
      if ltb 0 read_length
      then read read_length (start_and_write (address_byte address true) [] written)
      else written in
    finish stream

-- What `encodeTransaction` does with a read length that is not negative
unfoldable pub encode_checked : ℕ → List ℕ → ℕ → Result (List ℕ)
encode_checked address write_data read_length =
    if (length write_data == 0) && (read_length == 0)
    then err (invalid (text "transaction must read or write data"))
    else if ltb max_transaction_bytes (length write_data) || ltb max_transaction_bytes read_length
    then err (invalid (text "transaction supports at most 65535 bytes per read or write"))
    else elim (encode_legacy_transaction address write_data read_length) [
      | some legacy ↦ ok legacy
      | none ↦ ok (segmented_transaction address write_data read_length)
    ]

unfoldable pub encode_length : ℕ → List ℕ → ℤ → Result (List ℕ)
encode_length address write_data (negsuc n) =
    err (invalid (text "read length must not be negative"))
encode_length address write_data (pos n) = encode_checked address write_data n

unfoldable pub encode_transaction : ℕ → List ℕ → ℤ → Result (List ℕ)
encode_transaction address write_data read_length =
    if ltb 0x7f address
    then err (invalid (text "I2C address must be a 7-bit value"))
    else encode_length address write_data read_length
