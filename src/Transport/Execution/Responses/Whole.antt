-- ===== src/Transport/Execution/Responses/Whole.antt =====
-- `execute` of a whole stream on a bridge that answers.
use remote_mfi.Prelude.{
  ℕ, All, some, ◌+◌, ◌≡◌, refl, sym, ap, subst, ◌∙◌, true, ◌&&◌, inl, inr, List, [], ◌∷◌, ◌++◌,
  length, ltb, ◌==◌, Bool-cases, append-nil, append_assoc, length-append, drop_of_length-le, ==_iff,
  ltb→le,
}
use native.Mathlib.Omega.{arith}
use remote_mfi.Errors.{Result, ok, >>=-eq-ok, ok_injective}
use remote_mfi.Effects.Program.{done}
use remote_mfi.Transport.Encoder.{stream_start, stream_end, encode_configuration, speed_command}
use remote_mfi.Transport.Encoder.Readings.{answers}
use remote_mfi.Transport.Decoder.{instruction_lengths}
use remote_mfi.Transport.Bus.Replies.{packet_replies, body_replies}
use remote_mfi.Transport.Bus.{bus_command}
use remote_mfi.Transport.Decoder.Replies.{IsReplied, check_status_bytes_iff}
use remote_mfi.Transport.Faults.{minimum_transfer_timeout}
use remote_mfi.Transport.Segments.{segments}
use remote_mfi.Transport.Transfers.{Endpoints, bulk_write}
use remote_mfi.Transport.Execution.{
  attempt, execute_segment, execute_segments, pause, execute, select_to_read_gap,
}
use remote_mfi.Transport.Execution.Responses.{IsBridge, Drains, receive-Drains}

-- The bridge answers nothing to the configuration.
packet_replies-configuration :
    (speed : ℕ) {configuration : List ℕ}
    → encode_configuration speed ≡ ok configuration
    → packet_replies configuration ≡ some (0, 0)
unfolding encode_configuration speed_command packet_replies body_replies bus_command
packet_replies-configuration speed h = elim (Bool-cases (speed == 20)) [
  | inl a ↦ silent 0x60 refl (ground arith) h
  | inr a ↦ elim (Bool-cases (speed == 100)) [
    | inl b ↦ silent 0x61 refl (ground arith) h
    | inr b ↦ elim (Bool-cases (speed == 400)) [
      | inl c ↦ silent 0x62 refl (ground arith) h
      | inr c ↦ elim (Bool-cases (speed == 750)) [
        | inl d ↦ silent 0x63 refl (ground arith) h
        | inr d ↦ absurd (ground arith)
      ]
    ]
  ]
]
  where
    silent :
        {r : Result (List ℕ)} {configuration : List ℕ} (command : ℕ)
        → packet_replies (stream_start ∷ command ∷ stream_end ∷ []) ≡ some (0, 0)
        → r ≡ ok (stream_start ∷ command ∷ stream_end ∷ [])
        → r ≡ ok configuration
        → packet_replies configuration ≡ some (0, 0)
    silent command counts e h =
        subst (λ c. packet_replies c ≡ some (0, 0)) (ok_injective (sym e ∙ h)) counts

module _ (e : Endpoints) (bridge : IsBridge e) where
  open e use {World}
  open bridge use {pending, sent}

  -- A packet that is sent whole
  attempt-taken :
      (packet : List ℕ) (timeout : ℕ) (w : World)
      → (e.write_context packet timeout w).0 ≡ ok (length packet)
      → attempt (bulk_write e packet timeout) w ≡ done (ok tt) (e.write_context packet timeout w).1
  unfolding bulk_write
  attempt-taken packet timeout w taken =
      let whole : (length packet == length packet) ≡ true =
        (==_iff (length packet) (length packet)).1 refl in
      rw (taken, whole) refl

  -- One packet
  execute_segment-Drains :
      (timeout : ℕ) (packet : List ℕ) (w : World) (counts : ℕ × ℕ)
      → pending w ≡ []
      → instruction_lengths packet ≡ ok counts
      → packet_replies packet ≡ some counts
      → (data_bytes : List ℕ) × Drains e bridge
          (execute_segment e timeout packet w)
          data_bytes
          (sent w ++ data_bytes)
        × (length data_bytes ≡ counts.1)
  unfolding execute_segment
  execute_segment-Drains timeout packet w counts nothing h k =
      let r = bridge.write-replies packet timeout w counts k in
      let w₁ = (e.write_context packet timeout w).1 in
      let queue : pending w₁ ≡ r.status ++ r.data_bytes =
        r.queued ∙ ap (λ x. x ++ (r.status ++ r.data_bytes)) nothing in
      let start = attempt-taken packet timeout w r.taken in
      elim (Bool-cases (ltb 0 (counts.0 + counts.1))) [
        | inl awaited ↦
            let d =
              receive-Drains e bridge timeout counts r.status r.data_bytes w₁
                ((check_status_bytes_iff r.status).1 r.good) r.status_count r.data_count queue in
            (
              r.data_bytes,
              record {
                world = d.world;
                ends = rw (start, h, awaited) d.ends;
                empty = d.empty;
                sent_now = d.sent_now ∙ r.counted;
              },
              r.data_count,
            )
        | inr silent ↦
            let no_status : r.status ≡ [] =
              drop_of_length-le 0 r.status
                (omega (arith, r.status_count, ltb→le 0 (counts.0 + counts.1) silent)) in
            let no_data : r.data_bytes ≡ [] =
              drop_of_length-le 0 r.data_bytes
                (omega (arith, r.data_count, ltb→le 0 (counts.0 + counts.1) silent)) in
            (
              r.data_bytes,
              record {
                world = w₁;
                ends = rw (start, h, silent, no_data) refl;
                empty = queue ∙ rw (no_status, no_data) refl;
                sent_now = r.counted;
              },
              r.data_count,
            )
      ]

  -- All packets: what is answered comes behind what there was.
  execute_segments-Drains :
      (timeout : ℕ) (packets : List (List ℕ)) (response : List ℕ) (w : World) (counts : ℕ × ℕ)
      → pending w ≡ []
      → answers packets ≡ ok counts
      → All IsReplied packets
      → (data_bytes : List ℕ) × Drains e bridge
          (execute_segments e timeout packets response w)
          (response ++ data_bytes)
          (sent w ++ data_bytes)
        × (length data_bytes ≡ counts.1)
  unfolding execute_segments answers
  execute_segments-Drains timeout [] response w counts nothing h all = (
    [],
    record {
      world = w;
      ends = rw (append-nil) refl;
      empty = nothing;
      sent_now = sym (append-nil (sent w));
    },
    ground arith,
  )
  execute_segments-Drains timeout (packet ∷ packets) response w counts nothing h all =
      let (first, f, h₁) = >>=-eq-ok (instruction_lengths packet) _ h in
      let (more, g, h₂) = >>=-eq-ok (answers packets) _ h₁ in
      let (counts', same, replies) = all.0 in
      let replied : packet_replies packet ≡ some first =
        replies ∙ ap (λ c. some c) (ok_injective (sym same ∙ f)) in
      let (data_bytes, d, n) = execute_segment-Drains timeout packet w first nothing f replied in
      let (rest, d', m) =
        execute_segments-Drains timeout packets (response ++ data_bytes) d.world more d.empty g
          all.1 in
      (
        data_bytes ++ rest,
        record {
          world = d'.world;
          ends =
              rw d.ends
                (d'.ends ∙ ap (λ x. done (ok x) d'.world) (append_assoc response data_bytes rest));
          empty = d'.empty;
          sent_now =
              d'.sent_now ∙ ap (λ x. x ++ rest) d.sent_now ∙ append_assoc (sent w) data_bytes rest;
        },
        omega (arith, length-append data_bytes rest, ap (λ c. c.1) (ok_injective h₂)),
      )

  -- Waiting changes neither the queue nor what was sent.
  pause-quiet :
      (write_length read_length : ℕ) (w : World)
      → (w' : World) × (pause e write_length read_length w ≡ done (ok tt) w')
        × (pending w' ≡ pending w)
        × (sent w' ≡ sent w)
  pause-quiet write_length read_length w =
      elim (Bool-cases (write_length == 0 && ltb 0 read_length)) [
        | inl waits ↦
            let (p, q) = bridge.sleep-keeps select_to_read_gap w in
            (e.sleep select_to_read_gap w, rw waits refl, p, q)
        | inr goes_on ↦ (w, rw goes_on refl, refl, refl)
      ]

  pub execute-Drains :
      (speed : ℕ) (stream : List ℕ) (write_length count n : ℕ) (w : World) {configuration : List ℕ}
      → encode_configuration speed ≡ ok configuration
      → answers (segments stream) ≡ ok (count, n)
      → All IsReplied (segments stream)
      → pending w ≡ []
      → (response : List ℕ) × Drains e bridge
          (execute e speed stream write_length n w)
          response
          (sent w ++ response)
        × (length response ≡ n)
  unfolding execute
  execute-Drains speed stream write_length count n w {configuration} c h all nothing =
      let timeout = minimum_transfer_timeout write_length n speed in
      let silent = packet_replies-configuration speed c in
      let r = bridge.write-replies configuration timeout w (0, 0) silent in
      let no_status : r.status ≡ [] =
        drop_of_length-le 0 r.status (omega (arith, r.status_count)) in
      let no_data : r.data_bytes ≡ [] =
        drop_of_length-le 0 r.data_bytes (omega (arith, r.data_count)) in
      let w₁ = (e.write_context configuration timeout w).1 in
      let (w₂, paused, p, q) = pause-quiet write_length n w₁ in
      let queue : pending w₂ ≡ [] = p ∙ r.queued ∙ rw (nothing, no_status, no_data) refl in
      let sent_before : sent w₂ ≡ sent w = q ∙ r.counted ∙ rw (no_data, append-nil) refl in
      let (response, d, m) =
        execute_segments-Drains timeout (segments stream) [] w₂ (count, n) queue h all in
      let complete : (length response == n) ≡ true = (==_iff (length response) n).1 m in
      (
        response,
        record {
          world = d.world;
          ends =
              rw (c, attempt-taken configuration timeout w r.taken, paused, d.ends, complete) refl;
          empty = d.empty;
          sent_now = d.sent_now ∙ ap (λ x. x ++ response) sent_before;
        },
        m,
      )
