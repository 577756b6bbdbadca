-- ===== src/Transport/Decoder/Replies.antt =====
-- internal/transport/ch341.go: what the program reads from the packets that it sends is what the CH341 answers.
use remote_mfi.Prelude.{
  ℕ, ◌+◌, ◌-◌, ◌≡◌, ◌↔◌, refl, ap, ap₂, subst, sym, ◌∙◌, bit_and, List, [], ◌∷◌, ◌++◌, Option, none,
  some, arith, inl, inr, ◌==◌, All, All-append, Bool-cases, map, length, append_assoc, replicate,
}
use remote_mfi.Errors.{ok}
use remote_mfi.Transport.Segments.{segments}
use remote_mfi.Transport.Bus.Replies.{with_replies, body_replies, packet_replies, IsAcked}
use remote_mfi.Transport.Decoder.{instruction_lengths, check_status_bytes, check_status_from}
use remote_mfi.Transport.Encoder.Commands.{
  Command, IsCommand, start_condition, stop_condition, send_checked, send_unchecked, read_acked,
  read_last, bytes, bytes_of, status, status_of, received, received_of, bus_command-read,
}
use remote_mfi.Transport.Encoder.Packets.{Fits, full}
use remote_mfi.Transport.Encoder.Program.{Rendered}
use remote_mfi.Transport.Encoder.Readings.{
  segments-Rendered, last_packet, instruction_lengths-ended,
}

check_status_from_iff :
    (offset : ℕ) (status : List ℕ) → (check_status_from offset status ≡ ok tt) ↔ All IsAcked status
unfolding check_status_from
check_status_from_iff offset [] = ((λ h. tt), (λ h. refl))
check_status_from_iff offset (value ∷ values) =
    let (there, back) = check_status_from_iff (offset + 1) values in
    elim (Bool-cases (bit_and value 0x80 == 0)) [
      | inl clear ↦ rw clear ((λ h. (ground arith, there h)), (λ h. back h.1))
      | inr set ↦ rw set ((λ h. absurd (cc h)), (λ h. absurd (ground (arith, h.0))))
    ]

-- `checkStatusBytes` passes exactly the status bytes of which none says that nobody acknowledged.
pub check_status_bytes_iff :
    (status : List ℕ) → (check_status_bytes status ≡ ok tt) ↔ All IsAcked status
unfolding check_status_bytes
check_status_bytes_iff status = check_status_from_iff 0 status

-- The program reads from the packet what the CH341 answers to it.
abbrev pub IsReplied : List ℕ → Type 0
IsReplied packet =
    (counts : ℕ × ℕ) × (instruction_lengths packet ≡ ok counts)
    × (packet_replies packet ≡ some counts)

with_replies-with_replies :
    (a b c d : ℕ) (o : Option (ℕ × ℕ))
    → with_replies a b (with_replies c d o) ≡ with_replies (a + c) (b + d) o
with_replies-with_replies a b c d none = refl
with_replies-with_replies a b c d (some (s, r)) =
    ap₂ (λ x y. some (x, y)) (omega arith) (omega arith)

with_replies-zero : (o : Option (ℕ × ℕ)) → o ≡ with_replies 0 0 o
with_replies-zero none = refl
with_replies-zero (some (s, r)) = ap₂ (λ x y. some (x, y)) (omega arith) (omega arith)

body_replies-command :
    (c : Command) (rest : List ℕ)
    → IsCommand c
    → body_replies 0 (bytes_of c ++ rest)
      ≡ with_replies (status_of c) (received_of c) (body_replies 0 rest)
unfolding body_replies
body_replies-command start_condition rest h = with_replies-zero (body_replies 0 rest)
body_replies-command stop_condition rest h = with_replies-zero (body_replies 0 rest)
body_replies-command (send_checked b) rest h = refl
body_replies-command (send_unchecked b) rest h = refl
body_replies-command (read_acked n) rest h = rw (body_replies, bus_command-read n h.0 h.1)
body_replies-command read_last rest h = refl

body_replies-bytes :
    (cs : List Command) (rest : List ℕ)
    → All IsCommand cs
    → body_replies 0 (bytes cs ++ rest)
      ≡ with_replies (status cs) (received cs) (body_replies 0 rest)
body_replies-bytes [] rest h = with_replies-zero (body_replies 0 rest)
body_replies-bytes (c ∷ cs) rest h =
    ap (body_replies 0) (append_assoc (bytes_of c) (bytes cs) rest)
    ∙ body_replies-command c (bytes cs ++ rest) h.0
    ∙ ap (with_replies (status_of c) (received_of c)) (body_replies-bytes cs rest h.1)
    ∙ with_replies-with_replies (status_of c) (received_of c) (status cs) (received cs)
        (body_replies 0 rest)

-- One packet, whatever follows the end marker
ended-IsReplied :
    (cs : List Command) (rest : List ℕ) → Fits cs → IsReplied (0xaa ∷ (bytes cs ++ 0x00 ∷ rest))
unfolding packet_replies
ended-IsReplied cs rest h = (
  (status cs, received cs),
  instruction_lengths-ended cs rest h,
  body_replies-bytes cs (0x00 ∷ rest) h.1 ∙ ap₂ (λ x y. some (x, y)) (omega arith) (omega arith),
)

full-IsReplied : (css : List (List Command)) → All Fits css → All IsReplied (map full css)
unfolding full
full-IsReplied [] h = tt
full-IsReplied (cs ∷ css) h =
    (ended-IsReplied cs (replicate (30 - length (bytes cs)) 0) h.0, full-IsReplied css h.1)

-- So it is for every packet of a rendered stream.
pub segments-IsReplied :
    {stream : List ℕ} {cs : List Command} → Rendered stream cs → All IsReplied (segments stream)
segments-IsReplied r = subst (All IsReplied) (sym (segments-Rendered r)) (
    All-append IsReplied (map full r.closed) (last_packet r.final ∷ [])
      (full-IsReplied r.closed r.fits) (ended-IsReplied r.final [] r.final_fits, tt))
