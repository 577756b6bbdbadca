-- ===== src/Transport/Encoder/Correct.antt =====
-- What `encodeTransaction` promises: exactly the valid requests are accepted, and the stream of one
-- does on the bus what the transaction should, in well-formed packets.
use remote_mfi.Prelude.{
  ℕ, ◌+◌, ◌≤◌, ◌<◌, ◌≡◌, refl, ap, sym, subst, ◌∙◌, ◌⊎◌, inl, inr, true, List, arith, length, some,
  Option-cases,
}
use remote_mfi.Prelude.Int.{ℤ, pos, negsuc}
use remote_mfi.Errors.{Result-cases, Result, ok, err, GoError, invalid_request, is_transport_kind}
use remote_mfi.Transport.Segments.{segments}
use remote_mfi.Transport.Bus.{stream_events, transaction_events}
use remote_mfi.Transport.Encoder.{
  encode_transaction, encode_length, encode_checked, encode_legacy_transaction,
  segmented_transaction,
}
use remote_mfi.Transport.Encoder.Commands.{Command, status}
use remote_mfi.Transport.Encoder.Program.{Rendered, Program, written_count}
use remote_mfi.Transport.Encoder.Streams.{legacy-Rendered, segmented-Rendered}
use remote_mfi.Transport.Encoder.Readings.{answers, stream_events-Rendered, answers-Rendered}

-- A request that the CH341 can carry out
pub record IsRequest (address : ℕ) (w : List ℕ) (r : ℕ) : Type 0 where
  pub seven_bits : address ≤ 0x7f
  pub not_empty : 0 < length w + r
  pub write_le : length w ≤ 0xffff
  pub read_le : r ≤ 0xffff

encode_checked-program :
    (address : ℕ) (w : List ℕ) (r : ℕ)
    → IsRequest address w r
    → (stream : List ℕ) × (encode_checked address w r ≡ ok stream)
      × ((cs : List Command) × Rendered stream cs × Program address w r cs)
unfolding encode_checked
encode_checked-program address w r v = elim (Option-cases (encode_legacy_transaction address w r)) [
  | inl long ↦
      (segmented_transaction address w r, ground arith, segmented-Rendered address w r v.seven_bits)
  | inr (stream, e) ↦ (stream, ground arith, legacy-Rendered address w r v.seven_bits e)
]

encode_transaction-pos :
    (address : ℕ) (w : List ℕ) (r : ℕ)
    → address ≤ 0x7f
    → encode_transaction address w (pos r) ≡ encode_checked address w r
unfolding encode_transaction encode_length
encode_transaction-pos address w r h = ground arith

-- A valid request is encoded, and the stream renders its program.
pub encode_transaction-program :
    (address : ℕ) (w : List ℕ) (r : ℕ)
    → IsRequest address w r
    → (stream : List ℕ) × (encode_transaction address w (pos r) ≡ ok stream)
      × ((cs : List Command) × Rendered stream cs × Program address w r cs)
encode_transaction-program address w r v =
    let (stream, e, p) = encode_checked-program address w r v in
    (stream, encode_transaction-pos address w r v.seven_bits ∙ e, p)

-- Every valid request is encoded into a stream which, cut into packets of 32 bytes, does on the I2C
-- bus exactly the transaction: start, address and data bytes of the write, a repeated start and the
-- read with every byte but the last acknowledged, and one stop at the end.
pub encode_transaction-events :
    (address : ℕ) (w : List ℕ) (r : ℕ)
    → IsRequest address w r
    → (stream : List ℕ) × (encode_transaction address w (pos r) ≡ ok stream)
      × (stream_events stream ≡ some (transaction_events address w r))
encode_transaction-events address w r v =
    let (stream, e, (cs, rendered, p)) = encode_transaction-program address w r v in
    (stream, e, stream_events-Rendered rendered ∙ ap some p.events_eq)

encode_checked-err :
    (address : ℕ) (w : List ℕ) (r : ℕ) {e : GoError}
    → encode_checked address w r ≡ err e
    → (is_transport_kind e invalid_request ≡ true)
      × ((length w + r ≡ 0) ⊎ ((0xffff < length w) ⊎ (0xffff < r)))
unfolding encode_checked is_transport_kind
encode_checked-err address w r h = ground arith

accepted_not_refused :
    (address : ℕ) (w : List ℕ) (r : ℕ) {e : GoError}
    → IsRequest address w r
    → encode_transaction address w (pos r) ≡ err e
    → ⊥
accepted_not_refused address w r v h =
    let (stream, accepted, p) = encode_transaction-program address w r v in cc (sym accepted ∙ h)

encode_transaction-err :
    (address : ℕ) (w : List ℕ) (r : ℤ) {e : GoError}
    → encode_transaction address w r ≡ err e
    → (is_transport_kind e invalid_request ≡ true)
      × (¬ ((n : ℕ) × (r ≡ pos n) × IsRequest address w n))
unfolding encode_transaction encode_length is_transport_kind
encode_transaction-err address w (negsuc n) h = (ground arith, λ v. cc (v.1))
encode_transaction-err address w (pos n) {e} h = (
  ground (arith, encode_checked-err address w n {e = e}),
  λ v. accepted_not_refused address w v.0 v.2 (ap (encode_transaction address w) (sym v.1) ∙ h),
)

encode_checked-ok :
    (address : ℕ) (w : List ℕ) (r : ℕ) {stream : List ℕ}
    → address ≤ 0x7f
    → encode_checked address w r ≡ ok stream
    → IsRequest address w r
unfolding encode_checked
encode_checked-ok address w r seven h = record {
  seven_bits = seven;
  not_empty = ground arith;
  write_le = ground arith;
  read_le = ground arith;
}

encode_transaction-ok :
    (address : ℕ) (w : List ℕ) (r : ℤ) {stream : List ℕ}
    → encode_transaction address w r ≡ ok stream
    → (n : ℕ) × (r ≡ pos n) × IsRequest address w n
unfolding encode_transaction encode_length
encode_transaction-ok address w (negsuc n) h = absurd (ground arith)
encode_transaction-ok address w (pos n) {stream} h =
    (n, refl, encode_checked-ok address w n {stream = stream} (ground arith) (ground arith))

-- The valid requests are accepted and all others refused, with an error of the kind invalid_request: an
-- address of more than 7 bits, a negative read length, a transaction with nothing to write or read, and
-- more than 65535 bytes either way.
pub encode_transaction-cases :
    (address : ℕ) (w : List ℕ) (r : ℤ)
    → ((stream : List ℕ) × (encode_transaction address w r ≡ ok stream)
        × ((n : ℕ) × (r ≡ pos n) × IsRequest address w n))
      ⊎ ((e : GoError) × (encode_transaction address w r ≡ err e)
          × (is_transport_kind e invalid_request ≡ true)
          × (¬ ((n : ℕ) × (r ≡ pos n) × IsRequest address w n)))
encode_transaction-cases address w r = elim (Result-cases (encode_transaction address w r)) [
  | inl (stream, h) ↦ inl (stream, h, encode_transaction-ok address w r h)
  | inr (e, h) ↦ let (kind, bad) = encode_transaction-err address w r h in inr (e, h, kind, bad)
]

-- For the stream of a valid request, the instruction lengths that `execute` reads from the packets
-- add up to as many data bytes as were asked for, and to one status byte for the address and each
-- byte of a write, with at most one more for the address of a read.
pub encode_transaction-answers :
    (address : ℕ) (w : List ℕ) (r : ℕ) {stream : List ℕ}
    → IsRequest address w r
    → encode_transaction address w (pos r) ≡ ok stream
    → (count : ℕ) × (answers (segments stream) ≡ ok (count, r))
      × (written_count w ≤ count)
      × (count ≤ written_count w + 1)
encode_transaction-answers address w r {stream} v h =
    let (stream', e, (cs, rendered, p)) = encode_transaction-program address w r v in
    let same : ◌≡◌ {A = Result (List ℕ)} (ok stream') (ok stream) = sym e ∙ h in
    let same' : stream' ≡ stream = cc same in
    (
      status cs,
      subst (λ s. answers (segments s) ≡ ok (status cs, r)) same'
          (answers-Rendered rendered ∙ ap (λ n. ok (status cs, n)) p.received_eq),
      p.status_ge,
      p.status_le,
    )
