-- ===== src/Tests/Transport.antt =====
-- The encoder at concrete requests.
use remote_mfi.Prelude.{
  length-replicate, length, false, arith, ℕ, ◌+◌, ◌≡◌, refl, ◌≤◌, ◌⊎◌, true, List, [], ◌∷◌, ◌++◌,
  some, All, replicate,
}
use remote_mfi.Prelude.Int.{pos}
use remote_mfi.Errors.{ok, err, GoError, invalid_request, is_transport_kind}
use remote_mfi.Transport.Bus.{stream_events, transaction_events}
use remote_mfi.Transport.Transfers.{Endpoints, bulk_read_at_most}
use remote_mfi.Transport.Transfers.Bounds.{IsBounded, IsReading, bulk_read_at_most-IsReading}
use remote_mfi.Transport.Execution.{execute}
use remote_mfi.Transport.Execution.Answers.{IsAnswer, execute-IsAnswer}
use remote_mfi.Transport.Segments.{segments}
use remote_mfi.Transport.Encoder.Readings.{answers}
use remote_mfi.Transport.Encoder.Program.{written_count}
use remote_mfi.Transport.Encoder.{
  encode_configuration, encode_transaction, encode_length, encode_checked,
  encode_legacy_transaction, legacy_write, legacy_write_part, legacy_read_part, address_byte,
  append_values,
}
use remote_mfi.Transport.Encoder.Correct.{
  IsRequest, encode_transaction-events, encode_transaction-cases, encode_transaction-answers,
}
use remote_mfi.Transport.Encoder.Framing.{IsFramed, encode_transaction-framing}

-- Writes a register number and reads two bytes.
abbrev register : List ℕ
register = 0x30 ∷ []

-- A write that needs several packets
abbrev long : List ℕ
long = replicate 100 7

register-IsRequest : IsRequest 0x11 register 2
register-IsRequest = omega arith

long-IsRequest : IsRequest 0x11 long 60
long-IsRequest = omega arith

-- The stream of the short request, byte for byte
abbrev register_stream : List ℕ
register_stream =
    0xaa ∷ 0x74 ∷ 0x80 ∷ 0x22 ∷ 0x80 ∷ 0x30 ∷ 0x74 ∷ 0x80 ∷ 0x23 ∷ 0xc1 ∷ 0xc0 ∷ 0x75 ∷ 0x00 ∷ []

register_run : encode_transaction 0x11 register (pos 2) ≡ ok register_stream
unfolding encode_transaction encode_checked encode_length encode_legacy_transaction legacy_write
    legacy_write_part legacy_read_part address_byte append_values
register_run = refl

encode_transaction-events_example :
    (stream : List ℕ) × (encode_transaction 0x11 long (pos 60) ≡ ok stream)
    × (stream_events stream ≡ some (transaction_events 0x11 long 60))
encode_transaction-events_example = encode_transaction-events 0x11 long 60 long-IsRequest

-- The stream of the long request
abbrev long_stream : List ℕ
long_stream = (encode_transaction-events 0x11 long 60 long-IsRequest).0

long_run : encode_transaction 0x11 long (pos 60) ≡ ok long_stream
long_run = (encode_transaction-events 0x11 long 60 long-IsRequest).1

encode_transaction-framing_example :
    (front : List (List ℕ)) × (last : List ℕ) × (n : ℕ) × (segments long_stream
      ≡ front ++ last ∷ [])
    × All (IsFramed 32) front
    × IsFramed n last
    × (n ≤ 32)
encode_transaction-framing_example = encode_transaction-framing 0x11 long 60 long-IsRequest long_run

encode_transaction-answers_example :
    (count : ℕ) × (answers (segments register_stream) ≡ ok (count, 2))
    × (written_count register ≤ count)
    × (count ≤ written_count register + 1)
encode_transaction-answers_example =
    encode_transaction-answers 0x11 register 2 register-IsRequest register_run

encode_transaction-cases_example :
    ((stream : List ℕ) × (encode_transaction 0x80 register (pos 2) ≡ ok stream)
      × ((n : ℕ) × (pos 2 ≡ pos n) × IsRequest 0x80 register n))
    ⊎ ((e : GoError) × (encode_transaction 0x80 register (pos 2) ≡ err e)
        × (is_transport_kind e invalid_request ≡ true)
        × (¬ ((n : ℕ) × (pos 2 ≡ pos n) × IsRequest 0x80 register n)))
encode_transaction-cases_example = encode_transaction-cases 0x80 register (pos 2)

-- Endpoints that send everything and fill every buffer with sevens
abbrev sevens : Endpoints
sevens = record {
  World = ℕ;
  write_context = λ bytes timeout w. (ok (length bytes), w + 1);
  read_context = λ n timeout w. (ok (replicate n 7), w + 1);
  max_packet_size = 64;
  sleep = λ d w. w + d;
}

sevens-IsBounded : IsBounded sevens
sevens-IsBounded n timeout w bytes h = ground (arith, length-replicate {A = ℕ} n 7)

bulk_read_at_most-IsReading_example :
    IsReading 40 false (bulk_read_at_most sevens 40 1_000_000_000 25_000_000 false 0)
bulk_read_at_most-IsReading_example =
    bulk_read_at_most-IsReading sevens sevens-IsBounded 40 1_000_000_000 25_000_000 false 0

configuration_run : encode_configuration 100 ≡ ok (0xaa ∷ 0x61 ∷ 0x00 ∷ [])
unfolding encode_configuration
configuration_run = refl

execute-IsAnswer_example :
    IsAnswer (λ response. length response ≡ 2) (execute sevens 100 register_stream 1 2 0)
execute-IsAnswer_example =
    execute-IsAnswer sevens sevens-IsBounded 100 register_stream 1 2 0 configuration_run
