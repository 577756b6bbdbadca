-- ===== src/Transport/Execution/Keeps.antt =====
-- What sending, receiving and waiting keep, `execute` keeps.
use remote_mfi.Prelude.{
  ℕ, zero, suc, ◌+◌, ◌-◌, min, Bool, true, false, ◌&&◌, not, inl, inr, List, [], ◌∷◌, ◌++◌, length,
  ltb, ◌==◌, if◌then◌else◌, if-intro, take,
}
use remote_mfi.Errors.{Result, ok, err, GoError, Result-cases}
use remote_mfi.Effects.Program.{Outcome, Program, done, out_of_fuel, resume, refuse}
use remote_mfi.Transport.Encoder.{encode_configuration}
use remote_mfi.Transport.Decoder.{instruction_lengths, check_status_bytes}
use remote_mfi.Transport.Faults.{minimum_transfer_timeout}
use remote_mfi.Transport.Segments.{segments}
use remote_mfi.Transport.Transfers.{
  Endpoints, bulk_write, bulk_read_at_most, read_packets, packet_size,
}
use remote_mfi.Transport.Execution.{
  attempt, check, too_short, wrong_length, receive, execute_segment, execute_segments, pause,
  execute, response_quiet_timeout,
}

-- The world after a run, if it ends, has the property.
abbrev pub Keeps : {W A : Type 0} → (W → Type 0) → Outcome W A → Type 0
Keeps P out_of_fuel = Unit
Keeps P (done r w) = P w

pub resume-Keeps :
    {W A B : Type 0} (P : W → Type 0) (o : Outcome W A) (k : A → Program W B)
    → Keeps P o
    → ((a : A) (w : W) → P w → Keeps P (k a w))
    → Keeps P (resume o k)
resume-Keeps P out_of_fuel k h f = tt
resume-Keeps P (done (ok a) w) k h f = f a w h
resume-Keeps P (done (err e) w) k h f = h

refuse-Keeps :
    {W : Type 0} (P : W → Type 0) (test : Bool) (e : GoError) (w : W)
    → P w
    → Keeps P (refuse test e w)
refuse-Keeps P true e w h = h
refuse-Keeps P false e w h = h

done_if-Keeps :
    {W A : Type 0} (P : W → Type 0) (b : Bool) (r r' : Result A) (w : W)
    → P w
    → Keeps P (if b then done r w else done r' w)
done_if-Keeps P true r r' w h = h
done_if-Keeps P false r r' w h = h

module _ (e : Endpoints) (P : e.World → Type 0)
    (write-keeps : (bytes : List ℕ) (timeout : ℕ) (w : e.World)
      → P w
      → P (e.write_context bytes timeout w).1)
    (read-keeps : (n timeout : ℕ) (w : e.World) → P w → P (e.read_context n timeout w).1)
    (sleep-keeps : (d : ℕ) (w : e.World) → P w → P (e.sleep d w)) where
  open e use {World}

  read_packets-Keeps :
      (fuel most first quiet : ℕ) (allow : Bool) (received : List ℕ) (w : World)
      → P w
      → Keeps P (read_packets e fuel most first quiet allow received w)
  unfolding read_packets
  read_packets-Keeps zero most first quiet allow received w h = tt
  read_packets-Keeps (suc fuel) most first quiet allow received w h =
      let n = min (most - length received) (packet_size e) in
      let timeout = if length received == 0 then first else quiet in
      let h' = read-keeps n timeout w h in
      if-intro (Keeps P) (ltb (length received) most) _ (done (ok received) w)
        (λ room. elim (Result-cases (e.read_context n timeout w).0) [
          | inr (x, f) ↦ rw f (done_if-Keeps P _ _ _ _ h')
          | inl (packet, f) ↦ rw f (
              if-intro (Keeps P) (length packet == 0) _ _ (λ nothing. done_if-Keeps P _ _ _ _ h')
                (λ something.
                  read_packets-Keeps fuel most first quiet allow (received ++ packet)
                    (e.read_context n timeout w).1 h'))
        ])
        (λ full. h)

  bulk_read_at_most-Keeps :
      (most first quiet : ℕ) (allow : Bool) (w : World)
      → P w
      → Keeps P (bulk_read_at_most e most first quiet allow w)
  unfolding bulk_read_at_most
  bulk_read_at_most-Keeps most first quiet allow w h =
      if-intro (Keeps P) (most == 0) (done (ok []) w)
        (read_packets e (suc most) most first quiet allow [] w) (λ none. h)
        (λ some. read_packets-Keeps (suc most) most first quiet allow [] w h)

  attempt-Keeps :
      (bytes : List ℕ) (timeout : ℕ) (w : World)
      → P w
      → Keeps P (attempt (bulk_write e bytes timeout) w)
  unfolding bulk_write
  attempt-Keeps bytes timeout w h = write-keeps bytes timeout w h

  receive-Keeps :
      (timeout : ℕ) (counts : ℕ × ℕ) (w : World) → P w → Keeps P (receive e timeout counts w)
  unfolding receive
  receive-Keeps timeout (written, wanted) w h =
      resume-Keeps P _ _
        (bulk_read_at_most-Keeps (written + wanted)
          (if ltb 0 wanted then timeout else response_quiet_timeout) response_quiet_timeout
          (wanted == 0) w h)
        λ received w₁ h₁.
          resume-Keeps P _ _
            (refuse-Keeps P (ltb (length received) wanted) (too_short (length received) wanted) w₁
              h₁)
            λ _ w₂ h₂.
              resume-Keeps P
                (check (check_status_bytes (take (length received - wanted) received)) w₂) _ h₂
                λ _ w₃ h₃. h₃

  execute_segment-Keeps :
      (timeout : ℕ) (segment : List ℕ) (w : World)
      → P w
      → Keeps P (execute_segment e timeout segment w)
  unfolding execute_segment
  execute_segment-Keeps timeout segment w h =
      resume-Keeps P (attempt (bulk_write e segment timeout) w) _
        (attempt-Keeps segment timeout w h)
        λ _ w₁ h₁. resume-Keeps P (check (instruction_lengths segment) w₁) _ h₁ λ counts w₂ h₂.
          if-intro (λ (p : Program World (List ℕ)). Keeps P (p w₂)) (ltb 0 (counts.0 + counts.1))
            (receive e timeout counts) (λ w. done (ok []) w)
            (λ some. receive-Keeps timeout counts w₂ h₂) (λ none. h₂)

  execute_segments-Keeps :
      (timeout : ℕ) (packets : List (List ℕ)) (response : List ℕ) (w : World)
      → P w
      → Keeps P (execute_segments e timeout packets response w)
  unfolding execute_segments
  execute_segments-Keeps timeout [] response w h = h
  execute_segments-Keeps timeout (packet ∷ packets) response w h =
      resume-Keeps P (execute_segment e timeout packet w) _
        (execute_segment-Keeps timeout packet w h)
        λ part w₁ h₁. execute_segments-Keeps timeout packets (response ++ part) w₁ h₁

  pub execute-Keeps :
      (speed : ℕ) (stream : List ℕ) (write_length read_length : ℕ) (w : World)
      → P w
      → Keeps P (execute e speed stream write_length read_length w)
  unfolding execute
  execute-Keeps speed stream write_length read_length w h =
      let timeout = minimum_transfer_timeout write_length read_length speed in
      resume-Keeps P (check (encode_configuration speed) w) _ h λ configuration w₁ h₁.
        resume-Keeps P (attempt (bulk_write e configuration timeout) w₁) _
          (attempt-Keeps configuration timeout w₁ h₁)
          λ _ w₂ h₂.
            resume-Keeps P (pause e write_length read_length w₂) _
              (if-intro (Keeps P) (write_length == 0 && ltb 0 read_length) _ _
                (λ waits. sleep-keeps _ w₂ h₂) (λ goes_on. h₂))
              λ _ w₃ h₃.
                resume-Keeps P (execute_segments e timeout (segments stream) [] w₃) _
                  (execute_segments-Keeps timeout (segments stream) [] w₃ h₃)
                  λ response w₄ h₄.
                    resume-Keeps P
                      (refuse (not (length response == read_length))
                        (wrong_length (length response) read_length) w₄)
                      _
                      (refuse-Keeps P (not (length response == read_length))
                        (wrong_length (length response) read_length) w₄ h₄)
                      λ _ w₅ h₅. h₅
