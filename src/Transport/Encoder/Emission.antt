-- ===== src/Transport/Encoder/Emission.antt =====
-- What the methods of `segmentedStream` put into the stream, as commands.
use remote_mfi.Prelude.{
  ℕ, zero, suc, ◌+◌, ◌-◌, ◌≤◌, ◌<◌, ◌≡◌, refl, ap, ap₂, sym, subst, ◌∙◌, true, false, List, [], ◌∷◌,
  ◌++◌, append-nil, append_assoc, map, arith, length, replicate, replicate-append, ltb, Bool-cases,
  ltb→lt, ltb→le, inl, inr, if◌then◌else◌,
}
use remote_mfi.Transport.Bus.{receive}
use remote_mfi.Transport.Encoder.{
  SegmentedStream, command, write_values, write, start_and_write, read_blocks, read, byte,
}
use remote_mfi.Transport.Encoder.Commands.{
  Command, start_condition, send_checked, send_unchecked, read_acked, read_last, events, status,
  received, events-append, status-append, received-append,
}
use remote_mfi.Transport.Encoder.Packets.{
  Emitted, finish_intermediate-Emitted, append-Emitted, command-Emitted, length-finish_intermediate,
}

-- The bytes of a write, behind a start: the address is reported back only if data follows.
abbrev pub write_commands : ℕ → List ℕ → List Command
write_commands address [] = send_unchecked address ∷ []
write_commands address (v ∷ vs) = send_checked address ∷ map send_checked (v ∷ vs)

pub regroup :
    {s : SegmentedStream} (cs ds es : List Command)
    → Emitted s ((cs ++ ds) ++ es)
    → Emitted s (cs ++ (ds ++ es))
regroup {s} cs ds es e = subst (Emitted s) (append_assoc cs ds es) e

pub write_values-Emitted :
    (vs : List ℕ) {s : SegmentedStream} (cs : List Command)
    → Emitted s cs
    → Emitted (write_values vs s) (cs ++ map send_checked vs)
unfolding write_values
write_values-Emitted [] {s} cs e = subst (Emitted s) (sym (append-nil cs)) e
write_values-Emitted (v ∷ vs) cs e =
    regroup cs (send_checked v ∷ []) (map send_checked vs)
      (write_values-Emitted vs (cs ++ send_checked v ∷ []) (command-Emitted (send_checked v) tt e))

pub write-Emitted :
    (address : ℕ) (vs : List ℕ) {s : SegmentedStream} (cs : List Command)
    → Emitted s cs
    → Emitted (write address vs s) (cs ++ write_commands address vs)
unfolding write
write-Emitted address [] cs e = command-Emitted (send_unchecked address) tt e
write-Emitted address (v ∷ vs) cs e =
    regroup cs (send_checked address ∷ []) (map send_checked (v ∷ vs)) (
      write_values-Emitted (v ∷ vs) (cs ++ send_checked address ∷ [])
        (command-Emitted (send_checked address) tt e))

-- The start condition stands in one packet with the address that it selects.
pub start_and_write-Emitted :
    (address : ℕ) (vs : List ℕ) {s : SegmentedStream} (cs : List Command)
    → Emitted s cs
    → Emitted (start_and_write address vs s) (cs ++ (start_condition ∷ write_commands address vs))
unfolding start_and_write
start_and_write-Emitted address vs {s} cs e =
    elim (Bool-cases (ltb 32 (length s.segment + 3 + 1))) [
      | inl over ↦ rw over (
          behind (
            append-Emitted start_condition tt (finish_intermediate-Emitted e)
              (omega (arith, length-finish_intermediate s))))
      | inr fit ↦
          rw fit (behind (append-Emitted start_condition tt e (omega (arith, ltb→le 32 _ fit))))
    ]
  where
    behind :
        {t : SegmentedStream}
        → Emitted t (cs ++ start_condition ∷ [])
        → Emitted (write address vs t) (cs ++ (start_condition ∷ write_commands address vs))
    behind et =
        regroup cs (start_condition ∷ []) (write_commands address vs)
          (write-Emitted address vs (cs ++ start_condition ∷ []) et)

-- The blocks of a long read: acknowledged bytes only, until at most one block is left
pub record Blocks (total left : ℕ) (ds : List Command) : Type 0 where
  pub events_eq : events ds ≡ replicate (received ds) (receive true)
  pub status_eq : status ds ≡ 0
  pub total_eq : received ds + left ≡ total
  pub left_pos : 0 < left
  pub left_le : left ≤ 32

pub read_blocks-Emitted :
    (fuel total : ℕ) {s : SegmentedStream} (cs : List Command)
    → 0 < total
    → total ≤ fuel
    → Emitted s cs
    → let (t, left) = read_blocks fuel total s in
      (ds : List Command) × Emitted t (cs ++ ds) × Blocks total left ds
unfolding read_blocks
read_blocks-Emitted zero total cs h k e = absurd (omega arith)
read_blocks-Emitted (suc fuel) total {s} cs h k e = elim (Bool-cases (ltb 32 total)) [
  | inl more ↦
      let long : 32 < total = ltb→lt 32 total more in
      let one = command-Emitted (read_acked 32) (omega arith, omega arith) e in
      let (ds, et, b) =
        read_blocks-Emitted fuel (total - 32) (cs ++ read_acked 32 ∷ []) (omega arith) (omega arith)
          (finish_intermediate-Emitted one) in
      rw more (
        read_acked 32 ∷ ds,
        regroup cs (read_acked 32 ∷ []) ds et,
        record {
          events_eq =
              ap (λ es. replicate 32 (receive true) ++ es) b.events_eq
              ∙ replicate-append 32 (received ds) (32 + received ds) (receive true) refl;
          status_eq = omega (arith, b.status_eq);
          total_eq = omega (arith, b.total_eq);
          left_pos = b.left_pos;
          left_le = b.left_le;
        },
      )
  | inr short ↦ rw short (
    [],
    subst (Emitted s) (sym (append-nil cs)) e,
    record {
      events_eq = refl;
      status_eq = refl;
      total_eq = omega arith;
      left_pos = h;
      left_le = ltb→le 32 total short;
    },
  )
]

-- The commands of a whole read
pub record Reads (total : ℕ) (ds : List Command) : Type 0 where
  pub events_eq : events ds ≡ replicate (total - 1) (receive true) ++ receive false ∷ []
  pub status_eq : status ds ≡ 0
  pub received_eq : received ds ≡ total

-- The commands after the blocks of a read, of which `left` bytes are left
abbrev pub last_commands : ℕ → List Command
last_commands left = if ltb 1 left then read_acked (left - 1) ∷ read_last ∷ [] else read_last ∷ []

pub last_commands-Reads : (left : ℕ) → 0 < left → left ≤ 32 → Reads left (last_commands left)
last_commands-Reads left h k = elim (Bool-cases (ltb 1 left)) [
  | inl many ↦ rw many (record {
    events_eq = refl;
    status_eq = refl;
    received_eq = omega (arith, ltb→lt 1 left many);
  })
  | inr one ↦
      let e : left ≡ 1 = omega (arith, ltb→le 1 left one) in
      rw e (record { events_eq = refl; status_eq = refl; received_eq = refl })
]

-- The end of `read`: a count of the bytes that are acknowledged, and the last byte
pub last-Emitted :
    (left : ℕ) {s : SegmentedStream} (cs : List Command)
    → 0 < left
    → left ≤ 32
    → Emitted s cs
    → Emitted
        (command (0xc0 ∷ []) (if ltb 1 left then command (byte (0xc0 + left - 1) ∷ []) s else s))
        (cs ++ last_commands left)
last-Emitted left {s} cs h k e = elim (Bool-cases (ltb 1 left)) [
  | inl many ↦
      let two : 1 < left = ltb→lt 1 left many in
      let b : byte (0xc0 + left - 1) ≡ 0xc0 + (left - 1) = omega arith in
      rw (many, b)
        (regroup cs (read_acked (left - 1) ∷ []) (read_last ∷ []) (
          command-Emitted read_last tt
            (command-Emitted (read_acked (left - 1)) (omega arith, omega arith) e)))
  | inr one ↦ rw one (command-Emitted read_last tt e)
]

Reads-Blocks :
    {total left : ℕ} {ds es : List Command}
    → Blocks total left ds
    → Reads left es
    → Reads total (ds ++ es)
Reads-Blocks {total} {left} {ds} {es} b r = record {
  events_eq =
      events-append ds es
      ∙ ap₂ ◌++◌ b.events_eq r.events_eq
      ∙ sym (append_assoc (replicate (received ds) (receive true)) _ (receive false ∷ []))
      ∙ ap (λ xs. xs ++ receive false ∷ [])
          (replicate-append (received ds) (left - 1) (total - 1) (receive true)
            (omega (arith, b.total_eq, b.left_pos)));
  status_eq = omega (arith, status-append ds es, b.status_eq, r.status_eq);
  received_eq = omega (arith, received-append ds es, b.total_eq, r.received_eq);
}

pub read-Emitted :
    (total : ℕ) {s : SegmentedStream} (cs : List Command)
    → 0 < total
    → Emitted s cs
    → (ds : List Command) × Emitted (read total s) (cs ++ ds) × Reads total ds
unfolding read
read-Emitted total {s} cs h e =
    let (ds, et, b) = read_blocks-Emitted total total cs h (omega arith) e in
    let left = (read_blocks total total s).1 in
    (
      ds ++ last_commands left,
      regroup cs ds (last_commands left) (last-Emitted left (cs ++ ds) b.left_pos b.left_le et),
      Reads-Blocks b (last_commands-Reads left b.left_pos b.left_le),
    )
