-- ===== src/Transport/Encoder/Packets.antt =====
-- The segmented encoder as a list of commands cut into packets: what each step of
-- `segmentedStream` adds, and that no command is split between two packets.
use mathlib.Core.List.{map-append}
use remote_mfi.Prelude.{
  ℕ, zero, suc, ◌+◌, ◌-◌, ◌≤◌, ◌≡◌, refl, ap, ap₂, sym, ◌∙◌, true, List, [], ◌∷◌, ◌++◌, append-nil,
  append_assoc, map, arith, length, length-append, length-replicate, replicate, flatten,
  flatten-append, All, All-append, ltb, Bool-cases, ltb→lt, ltb→le, inl, inr,
}
use remote_mfi.Transport.Encoder.{
  SegmentedStream, new_segmented_stream, pad_segment, finish_intermediate, command,
}
use remote_mfi.Transport.Encoder.Commands.{Command, IsCommand, bytes, bytes_of, bytes-append}

-- A packet that another one follows: its commands, the end marker and zeros up to 32 bytes
unfoldable pub full : List Command → List ℕ
full cs = 0xaa ∷ bytes cs ++ 0x00 ∷ replicate (30 - length (bytes cs)) 0

abbrev pub Fits : List Command → Type 0
Fits cs = (length (bytes cs) ≤ 30) × All IsCommand cs

pub full-length : (cs : List Command) → Fits cs → length (full cs) ≡ 32
unfolding full
full-length cs h = omega (
  arith,
  length-append (bytes cs) (0x00 ∷ replicate (30 - length (bytes cs)) 0),
  length-replicate {A = ℕ} (30 - length (bytes cs)) 0,
)

zeros : (xs : List ℕ) (m n : ℕ) → m ≡ n → xs ++ replicate m 0 ≡ xs ++ replicate n 0
zeros xs m n e = ap (λ k. xs ++ replicate k 0) e

-- The padding loop adds as many zeros as are missing.
pad_segment_lem :
    (fuel : ℕ) (segment : List ℕ)
    → 32 ≤ fuel + length segment
    → pad_segment fuel segment ≡ segment ++ replicate (32 - length segment) 0
unfolding pad_segment
pad_segment_lem zero segment h =
    sym (append-nil segment) ∙ zeros segment 0 (32 - length segment) (omega arith)
pad_segment_lem (suc fuel) segment h = elim (Bool-cases (ltb (length segment) 32)) [
  | inl more ↦ rw more (
      pad_segment_lem fuel (segment ++ 0 ∷ []) (omega (arith, length-append segment (0 ∷ [])))
      ∙ append_assoc segment (0 ∷ []) _
      ∙ ap (λ zs. segment ++ zs) (replicate_step more))
  | inr done ↦ rw done (
      sym (append-nil segment)
      ∙ zeros segment 0 (32 - length segment) (omega (arith, ltb→le (length segment) 32 done)))
]
  where
    replicate_step :
        ltb (length segment) 32 ≡ true
        → ◌≡◌ {A = List ℕ}
            (0 ∷ replicate (32 - length (segment ++ 0 ∷ [])) 0)
            (replicate (32 - length segment) 0)
    replicate_step more =
        zeros [] (suc (32 - length (segment ++ 0 ∷ []))) (32 - length segment)
          (omega (arith, length-append segment (0 ∷ []), ltb→lt (length segment) 32 more))

-- The stream's state, when the commands `cs` have been given to it
pub record Emitted (s : SegmentedStream) (cs : List Command) : Type 0 where
  pub closed : List (List Command)
  pub opened : List Command
  pub result_eq : s.result ≡ flatten (map full closed)
  pub segment_eq : s.segment ≡ 0xaa ∷ bytes opened
  pub order : flatten closed ++ opened ≡ cs
  pub fits : All Fits closed
  pub opened_fits : Fits opened

pub new-Emitted : Emitted new_segmented_stream []
unfolding new_segmented_stream
new-Emitted = record {
  closed = [];
  opened = [];
  result_eq = refl;
  segment_eq = refl;
  order = refl;
  fits = tt;
  opened_fits = (omega arith, tt);
}

map-snoc :
    (css : List (List Command)) (cs : List Command)
    → flatten (map full (css ++ cs ∷ [])) ≡ flatten (map full css) ++ full cs
map-snoc css cs =
    ap flatten (map-append full css (cs ∷ []))
    ∙ flatten-append (map full css) (full cs ∷ [])
    ∙ ap (◌++◌ (flatten (map full css))) (append-nil (full cs))

flatten-snoc :
    (css : List (List Command)) (cs : List Command)
    → flatten (css ++ cs ∷ []) ++ [] ≡ flatten css ++ cs
flatten-snoc css cs =
    append-nil (flatten (css ++ cs ∷ []))
    ∙ flatten-append css (cs ∷ [])
    ∙ ap (◌++◌ (flatten css)) (append-nil cs)

close_packet :
    {segment : List ℕ} (cs : List Command)
    → segment ≡ 0xaa ∷ bytes cs
    → length (bytes cs) ≤ 30
    → pad_segment 32 (segment ++ 0x00 ∷ []) ≡ full cs
unfolding full
close_packet {segment} cs e h =
    ap (λ bs. pad_segment 32 (bs ++ 0x00 ∷ [])) e
    ∙ pad_segment_lem 32 (0xaa ∷ bytes cs ++ 0x00 ∷ []) (omega arith)
    ∙ ap (◌∷◌ 0xaa) (append_assoc (bytes cs) (0x00 ∷ []) _)
    ∙ ap (λ zs. 0xaa ∷ bytes cs ++ zs)
        (zeros (0x00 ∷ []) (32 - length (0xaa ∷ bytes cs ++ 0x00 ∷ [])) (30 - length (bytes cs))
          (omega (arith, length-append (bytes cs) (0x00 ∷ []))))

-- Closing the open packet moves its commands behind the closed ones.
pub finish_intermediate-Emitted :
    {s : SegmentedStream} {cs : List Command} → Emitted s cs → Emitted (finish_intermediate s) cs
unfolding finish_intermediate
finish_intermediate-Emitted {s} e = record {
  closed = e.closed ++ e.opened ∷ [];
  opened = [];
  result_eq =
      ap₂ ◌++◌ e.result_eq (close_packet e.opened e.segment_eq e.opened_fits.0)
      ∙ sym (map-snoc e.closed e.opened);
  segment_eq = refl;
  order = flatten-snoc e.closed e.opened ∙ e.order;
  fits = All-append Fits e.closed (e.opened ∷ []) e.fits (e.opened_fits, tt);
  opened_fits = (omega arith, tt);
}

pub bytes-snoc : (cs : List Command) (c : Command) → bytes (cs ++ c ∷ []) ≡ bytes cs ++ bytes_of c
bytes-snoc cs c = bytes-append cs (c ∷ []) ∙ ap (◌++◌ (bytes cs)) (append-nil (bytes_of c))

-- A command that fits the open packet goes behind the commands there.
pub append-Emitted :
    {s : SegmentedStream} {cs : List Command} (c : Command)
    → IsCommand c
    → Emitted s cs
    → length s.segment + length (bytes_of c) ≤ 31
    → Emitted (record s { segment = s.segment ++ bytes_of c }) (cs ++ c ∷ [])
append-Emitted {s} {cs} c k e h = record {
  closed = e.closed;
  opened = e.opened ++ c ∷ [];
  result_eq = e.result_eq;
  segment_eq =
      ap (λ bs. bs ++ bytes_of c) e.segment_eq ∙ ap (◌∷◌ 0xaa) (sym (bytes-snoc e.opened c));
  order = sym (append_assoc (flatten e.closed) e.opened (c ∷ [])) ∙ ap (λ ds. ds ++ c ∷ []) e.order;
  fits = e.fits;
  opened_fits = (
    omega (
      arith,
      ap length e.segment_eq,
      ap length (bytes-snoc e.opened c),
      length-append (bytes e.opened) (bytes_of c),
    ),
    All-append IsCommand e.opened (c ∷ []) e.opened_fits.1 (k, tt),
  );
}

bytes_of-length : (c : Command) → length (bytes_of c) ≤ 2
bytes_of-length Command.start_condition = omega arith
bytes_of-length Command.stop_condition = omega arith
bytes_of-length (Command.send_checked b) = omega arith
bytes_of-length (Command.send_unchecked b) = omega arith
bytes_of-length (Command.read_acked n) = omega arith
bytes_of-length Command.read_last = omega arith

pub length-finish_intermediate : (s : SegmentedStream) → length (finish_intermediate s).segment ≡ 1
unfolding finish_intermediate
length-finish_intermediate s = refl

-- `command` closes the open packet first, if the command does not fit.
pub command-Emitted :
    {s : SegmentedStream} {cs : List Command} (c : Command)
    → IsCommand c
    → Emitted s cs
    → Emitted (command (bytes_of c) s) (cs ++ c ∷ [])
unfolding command
command-Emitted {s} {cs} c k e =
    elim (Bool-cases (ltb 32 (length s.segment + length (bytes_of c) + 1))) [
      | inl over ↦ rw over (
          append-Emitted c k (finish_intermediate-Emitted e)
            (omega (arith, length-finish_intermediate s, bytes_of-length c)))
      | inr fit ↦ rw fit (append-Emitted c k e (omega (arith, ltb→le 32 _ fit)))
    ]
