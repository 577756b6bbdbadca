-- ===== src/Transport/Execution/Answers.antt =====
-- What `execute` may answer.
use remote_mfi.Prelude.{
  if◌then◌else◌, ℕ, zero, suc, ◌+◌, ◌-◌, ◌≡◌, refl, Bool, true, false, not, inl, inr, List, [], ◌∷◌,
  ◌++◌, some, arith, length, ltb, ◌==◌, ◌&&◌, Bool-cases, take,
}
use remote_mfi.Errors.{
  Result, ok, err, GoError, TransportErrorKind, as_transport, protocol, nack, Result-cases,
}
use remote_mfi.Effects.Program.{Outcome, Program, done, out_of_fuel, resume, refuse}
use remote_mfi.Transport.Encoder.{encode_configuration}
use remote_mfi.Transport.Decoder.{
  instruction_lengths, instruction_lengths_from, check_status_bytes, check_status_from,
  count_status, encoded_length,
}
use remote_mfi.Transport.Faults.{classify_usb_error, minimum_transfer_timeout}
use remote_mfi.Transport.Segments.{segments}
use remote_mfi.Transport.Transfers.{Endpoints, bulk_write, bulk_read_at_most}
use remote_mfi.Transport.Transfers.Bounds.{IsBounded, IsReading, bulk_read_at_most-IsReading}
use remote_mfi.Transport.Execution.{
  attempt, check, too_short, wrong_length, receive, execute_segment, execute_segments, pause,
  execute, response_quiet_timeout,
}

-- The run ends, with a value that has the property or with an error of the transport.
abbrev pub IsAnswer : {W A : Type 0} → (A → Type 0) → Outcome W A → Type 0
IsAnswer P out_of_fuel = ⊥
IsAnswer P (done (ok a) w) = P a
IsAnswer P (done (err x) w) = (kind : TransportErrorKind) × (as_transport x ≡ some kind)

resume-IsAnswer :
    {W A B : Type 0} (P : A → Type 0) (Q : B → Type 0) (o : Outcome W A) (k : A → Program W B)
    → IsAnswer P o
    → ((a : A) (w : W) → P a → IsAnswer Q (k a w))
    → IsAnswer Q (resume o k)
resume-IsAnswer P Q out_of_fuel k h f = h
resume-IsAnswer P Q (done (ok a) w) k h f = f a w h
resume-IsAnswer P Q (done (err x) w) k h f = h

-- Nothing is said of the value.
abbrev Any : {A : Type 0} → A → Type 0
Any a = Unit {0}

refuse-IsAnswer :
    {W : Type 0} (bad : Bool) (x : GoError) (w : W)
    → (kind : TransportErrorKind) × (as_transport x ≡ some kind)
    → IsAnswer (λ (u : Unit {0}). bad ≡ false) (refuse bad x w)
refuse-IsAnswer true x w h = h
refuse-IsAnswer false x w h = refl

check-IsAnswer :
    {W A : Type 0} (r : Result A) (kind : TransportErrorKind) (w : W)
    → ((x : GoError) → r ≡ err x → as_transport x ≡ some kind)
    → IsAnswer Any (check r w)
check-IsAnswer (ok a) kind w h = tt
check-IsAnswer (err x) kind w h = (kind, h x refl)

check_status_from-err :
    (offset : ℕ) (status : List ℕ) (x : GoError)
    → check_status_from offset status ≡ err x
    → as_transport x ≡ some nack
unfolding check_status_from as_transport
check_status_from-err offset [] x h = ground arith
check_status_from-err offset (value ∷ values) x h =
    ground (arith, check_status_from-err (offset + 1) values x)

instruction_lengths_from-err :
    (written received skip : ℕ) (segment : List ℕ) (x : GoError)
    → instruction_lengths_from written received skip segment ≡ err x
    → as_transport x ≡ some protocol
unfolding instruction_lengths_from as_transport
instruction_lengths_from-err written received zero [] x h = ground arith
instruction_lengths_from-err written received (suc skip) [] x h = ground arith
instruction_lengths_from-err written received (suc skip) (b ∷ rest) x h =
    instruction_lengths_from-err written received skip rest x h
instruction_lengths_from-err written received zero (command ∷ rest) x h = ground (
  arith,
  instruction_lengths_from-err written received 0 rest x,
  instruction_lengths_from-err (count_status command written) received (encoded_length command) rest
      x,
  instruction_lengths_from-err written (received + encoded_length command) 0 rest x,
)

instruction_lengths-err :
    (segment : List ℕ) (x : GoError)
    → instruction_lengths segment ≡ err x
    → as_transport x ≡ some protocol
unfolding instruction_lengths
instruction_lengths-err [] x h = ground arith
instruction_lengths-err (b ∷ commands) x h = instruction_lengths_from-err 0 0 0 commands x h

pub check_status_bytes-err :
    (status : List ℕ) (x : GoError) → check_status_bytes status ≡ err x → as_transport x ≡ some nack
unfolding check_status_bytes
check_status_bytes-err status x h = check_status_from-err 0 status x h

module _ (e : Endpoints) (bounded : IsBounded e) where
  open e use {World, write_context}

  bulk_write-IsAnswer :
      (bytes : List ℕ) (timeout : ℕ) (w : World)
      → IsAnswer Any (attempt (bulk_write e bytes timeout) w)
  unfolding bulk_write classify_usb_error as_transport
  bulk_write-IsAnswer bytes timeout w = elim (Result-cases (write_context bytes timeout w).0) [
    | inl (n, sent) ↦ elim (Bool-cases (n == length bytes)) [
      | inl all ↦ rw (bulk_write, sent, all) tt
      | inr part ↦ rw (bulk_write, sent, part) (protocol, refl)
    ]
    | inr (x, failed) ↦ rw (bulk_write, failed) (_, refl)
  ]

  reading :
      (most : ℕ) (allow_empty : Bool) (o : Outcome World (List ℕ))
      → IsReading most allow_empty o
      → IsAnswer Any o
  reading most allow_empty out_of_fuel h = h
  reading most allow_empty (done (ok bytes) w) h = tt
  reading most allow_empty (done (err x) w) h = h

  receive-IsAnswer :
      (timeout : ℕ) (counts : ℕ × ℕ) (w : World) → IsAnswer Any (receive e timeout counts w)
  unfolding receive as_transport
  receive-IsAnswer timeout (written, wanted) w =
      let first = if ltb 0 wanted then timeout else response_quiet_timeout in
      let most = written + wanted in
      resume-IsAnswer Any Any
        (bulk_read_at_most e most first response_quiet_timeout (wanted == 0) w) _
        (reading most (wanted == 0) _
          (bulk_read_at_most-IsReading e bounded most first response_quiet_timeout (wanted == 0) w))
        (λ received w₁ u.
          let bad = ltb (length received) wanted in
          resume-IsAnswer (λ v. bad ≡ false) Any
            (refuse bad (too_short (length received) wanted) w₁) _
            (refuse-IsAnswer bad (too_short (length received) wanted) w₁ (_, refl))
            (λ v w₂ enough.
              let status = take (length received - wanted) received in
              resume-IsAnswer Any Any (check (check_status_bytes status) w₂) _
                (check-IsAnswer (check_status_bytes status) nack w₂ (check_status_bytes-err status))
                (λ t w₃ z. tt)))

  execute_segment-IsAnswer :
      (timeout : ℕ) (segment : List ℕ) (w : World)
      → IsAnswer Any (execute_segment e timeout segment w)
  unfolding execute_segment
  execute_segment-IsAnswer timeout segment w =
      resume-IsAnswer Any Any (attempt (bulk_write e segment timeout) w) _
        (bulk_write-IsAnswer segment timeout w)
        (λ u w₁ z.
          resume-IsAnswer Any Any (check (instruction_lengths segment) w₁) _
            (check-IsAnswer (instruction_lengths segment) protocol w₁
              (instruction_lengths-err segment))
            (λ counts w₂ z'. answer counts w₂))
    where
      answer :
          (counts : ℕ × ℕ) (w₂ : World)
          → IsAnswer Any (
              (if ltb 0 (counts.0 + counts.1)
                  then receive e timeout counts
                  else (λ w. done (ok []) w))
                w₂)
      answer counts w₂ = elim (Bool-cases (ltb 0 (counts.0 + counts.1))) [
        | inl wanted ↦ rw wanted (receive-IsAnswer timeout counts w₂)
        | inr nothing ↦ rw nothing tt
      ]

  execute_segments-IsAnswer :
      (timeout : ℕ) (packets : List (List ℕ)) (response : List ℕ) (w : World)
      → IsAnswer Any (execute_segments e timeout packets response w)
  unfolding execute_segments
  execute_segments-IsAnswer timeout [] response w = tt
  execute_segments-IsAnswer timeout (segment ∷ rest) response w =
      resume-IsAnswer Any Any (execute_segment e timeout segment w) _
        (execute_segment-IsAnswer timeout segment w)
        (λ part w₁ z. execute_segments-IsAnswer timeout rest (response ++ part) w₁)

  pause-IsAnswer :
      (write_length read_length : ℕ) (w : World) → IsAnswer Any (pause e write_length read_length w)
  pause-IsAnswer write_length read_length w =
      elim (Bool-cases ((write_length == 0) && ltb 0 read_length)) [
        | inl waits ↦ rw waits tt
        | inr goes_on ↦ rw goes_on tt
      ]

  answered :
      (speed : ℕ) (stream : List ℕ) (write_length read_length : ℕ) (w : World)
      {configuration : List ℕ}
      → encode_configuration speed ≡ ok configuration
      → IsAnswer
          (λ response. length response ≡ read_length)
          (execute e speed stream write_length read_length w)
  unfolding execute as_transport
  answered speed stream write_length read_length w {configuration} supported =
      let timeout = minimum_transfer_timeout write_length read_length speed in
      let Right = λ (response : List ℕ). length response ≡ read_length in
      rw (supported, execute)
        (resume-IsAnswer Any Right (attempt (bulk_write e configuration timeout) w) _
          (bulk_write-IsAnswer configuration timeout w)
          (λ u w₁ z.
            resume-IsAnswer Any Right (pause e write_length read_length w₁) _
              (pause-IsAnswer write_length read_length w₁)
              (λ v w₂ z'.
                resume-IsAnswer Any Right (execute_segments e timeout (segments stream) [] w₂) _
                  (execute_segments-IsAnswer timeout (segments stream) [] w₂)
                  (λ response w₃ z''.
                    let bad = not (length response == read_length) in
                    resume-IsAnswer (λ y. bad ≡ false) Right
                      (refuse bad (wrong_length (length response) read_length) w₃) _
                      (refuse-IsAnswer bad (wrong_length (length response) read_length) w₃
                        (_, refl))
                      (λ y w₄ right. ground arith)))))

-- On endpoints that put no more bytes into a buffer than it has room for, and at a speed that the bridge
-- supports, `execute` ends for every stream: with as many bytes as were to be read, or with an error of the
-- transport.
pub execute-IsAnswer :
    (e : Endpoints)
    → IsBounded e
    → (speed : ℕ) (stream : List ℕ) (write_length read_length : ℕ) (w : Endpoints.World e)
      {configuration : List ℕ}
    → encode_configuration speed ≡ ok configuration
    → IsAnswer
        (λ response. length response ≡ read_length)
        (execute e speed stream write_length read_length w)
execute-IsAnswer e bounded speed stream write_length read_length w supported =
    answered e bounded speed stream write_length read_length w supported
