-- ===== src/Transport/Encoder/Program.antt =====
-- The commands of one transaction, and that both encodings of it render exactly these.
use remote_mfi.Prelude.{
  ℕ, suc, ◌+◌, ◌*◌, ◌≤◌, ◌≡◌, refl, ap, ap₂, sym, ◌∙◌, true, false, List, [], ◌∷◌, ◌++◌,
  append_assoc, map, arith, length, replicate, ltb, ◌==◌, Bool-cases, ltb→le, inl, inr, All, bit_or,
  holds_below, of_holds_below, ==_iff, flatten,
}
use remote_mfi.Transport.Bus.{
  BusEvent, receive, send, stop, write_events, read_events, transaction_events,
}
use remote_mfi.Transport.Encoder.{SegmentedStream, finish, address_byte, byte}
use remote_mfi.Transport.Encoder.Commands.{
  Command, start_condition, stop_condition, send_checked, send_unchecked, bytes, events, status,
  received, events-append, status-append, received-append,
}
use remote_mfi.Transport.Encoder.Packets.{
  Emitted, Fits, full, finish_intermediate-Emitted, append-Emitted, length-finish_intermediate,
}
use remote_mfi.Transport.Encoder.Emission.{Reads, write_commands}

-- The bytes of a stream are those of its commands, in packets of which all but the last are full.
pub record Rendered (stream : List ℕ) (cs : List Command) : Type 0 where
  pub closed : List (List Command)
  pub final : List Command
  pub stream_eq : stream ≡ flatten (map full closed) ++ (0xaa ∷ (bytes final ++ 0x00 ∷ []))
  pub order : flatten closed ++ final ≡ cs
  pub fits : All Fits closed
  pub final_fits : Fits final

room-Rendered :
    {s : SegmentedStream} {cs : List Command}
    → Emitted s cs
    → length s.segment ≤ 30
    → Rendered (s.result ++ (s.segment ++ 0x75 ∷ 0x00 ∷ [])) (cs ++ stop_condition ∷ [])
room-Rendered {s} e h =
    let e' = append-Emitted stop_condition tt e (omega arith) in
    record {
      closed = e'.closed;
      final = e'.opened;
      stream_eq = ap₂ ◌++◌ e'.result_eq (
          sym (append_assoc s.segment (0x75 ∷ []) (0x00 ∷ []))
          ∙ ap (λ bs. bs ++ 0x00 ∷ []) e'.segment_eq);
      order = e'.order;
      fits = e'.fits;
      final_fits = e'.opened_fits;
    }

-- `finish` puts the stop condition and the end marker into one packet.
pub finish-Rendered :
    {s : SegmentedStream} {cs : List Command}
    → Emitted s cs
    → Rendered (finish s) (cs ++ stop_condition ∷ [])
unfolding finish
finish-Rendered {s} e = elim (Bool-cases (ltb 32 (length s.segment + 2))) [
  | inl over ↦
      rw over (
        room-Rendered (finish_intermediate-Emitted e) (omega (arith, length-finish_intermediate s)))
  | inr fit ↦ rw fit (room-Rendered e (omega (arith, ltb→le 32 _ fit)))
]

-- How many bytes a write reports back: the address and each byte of data
abbrev pub written_count : List ℕ → ℕ
written_count [] = 0
written_count (v ∷ vs) = length (v ∷ vs) + 1

pub record WritePart (address : ℕ) (w : List ℕ) (cs : List Command) : Type 0 where
  pub events_eq : events cs ≡ write_events address w
  pub received_eq : received cs ≡ 0
  pub status_eq : status cs ≡ written_count w

pub record ReadPart (address r : ℕ) (cs : List Command) : Type 0 where
  pub events_eq : events cs ≡ read_events address r
  pub received_eq : received cs ≡ r
  pub status_le : status cs ≤ 1

pub record Program (address : ℕ) (w : List ℕ) (r : ℕ) (cs : List Command) : Type 0 where
  pub events_eq : events cs ≡ transaction_events address w r
  pub received_eq : received cs ≡ r
  pub status_ge : written_count w ≤ status cs
  pub status_le : status cs ≤ written_count w + 1

pub Program-parts :
    {address r : ℕ} {w : List ℕ} {ws rs : List Command}
    → WritePart address w ws
    → ReadPart address r rs
    → Program address w r (ws ++ (rs ++ stop_condition ∷ []))
unfolding transaction_events
Program-parts {ws} {rs} a b =
    let tail = rs ++ stop_condition ∷ [] in
    record {
      events_eq =
          events-append ws tail
          ∙ ap₂ ◌++◌ a.events_eq
              (events-append rs (stop_condition ∷ []) ∙ ap (λ es. es ++ stop ∷ []) b.events_eq);
      received_eq = omega (
        arith,
        received-append ws tail,
        received-append rs (stop_condition ∷ []),
        a.received_eq,
        b.received_eq,
      );
      status_ge = omega (arith, status-append ws tail, a.status_eq);
      status_le = omega (
        arith,
        status-append ws tail,
        status-append rs (stop_condition ∷ []),
        a.status_eq,
        b.status_le,
      );
    }

events-sends : (vs : List ℕ) → events (map send_checked vs) ≡ map send vs
events-sends [] = refl
events-sends (v ∷ vs) = ap (◌∷◌ (send v)) (events-sends vs)

status-sends : (vs : List ℕ) → status (map send_checked vs) ≡ length vs
status-sends [] = refl
status-sends (v ∷ vs) = omega (arith, status-sends vs)

received-sends : (vs : List ℕ) → received (map send_checked vs) ≡ 0
received-sends [] = refl
received-sends (v ∷ vs) = omega (arith, received-sends vs)

pub no_write : (address : ℕ) → WritePart address [] []
no_write address = record { events_eq = refl; received_eq = refl; status_eq = refl }

pub some_write :
    (address v : ℕ) (vs : List ℕ)
    → WritePart address (v ∷ vs) (start_condition ∷ write_commands (address * 2) (v ∷ vs))
some_write address v vs = record {
  events_eq = ap (λ es. BusEvent.start ∷ send (address * 2) ∷ send v ∷ es) (events-sends vs);
  received_eq = omega (arith, received-sends vs);
  status_eq = omega (arith, status-sends vs);
}

pub no_read : (address : ℕ) → ReadPart address 0 []
no_read address = record { events_eq = refl; received_eq = refl; status_le = omega arith }

read_tail :
    {n : ℕ} {ds : List Command}
    → Reads (suc n) ds
    → events ds ≡ replicate n (receive true) ++ receive false ∷ []
read_tail {n} r =
    r.events_eq ∙ ap (λ k. replicate k (receive true) ++ receive false ∷ []) (omega arith)

pub checked_read :
    {n : ℕ} (address : ℕ) {ds : List Command}
    → Reads (suc n) ds
    → ReadPart address (suc n) (start_condition ∷ send_checked (address * 2 + 1) ∷ ds)
checked_read address r = record {
  events_eq = ap (λ es. BusEvent.start ∷ send (address * 2 + 1) ∷ es) (read_tail r);
  received_eq = omega (arith, r.received_eq);
  status_le = omega (arith, r.status_eq);
}

pub unchecked_read :
    {n : ℕ} (address : ℕ) {ds : List Command}
    → Reads (suc n) ds
    → ReadPart address (suc n) (start_condition ∷ send_unchecked (address * 2 + 1) ∷ ds)
unchecked_read address r = record {
  events_eq = ap (λ es. BusEvent.start ∷ send (address * 2 + 1) ∷ es) (read_tail r);
  received_eq = omega (arith, r.received_eq);
  status_le = omega (arith, r.status_eq);
}

-- A 7-bit address is shifted without loss, and a read sets the lowest bit.
pub address_byte-write : (address : ℕ) → address ≤ 0x7f → address_byte address false ≡ address * 2
unfolding address_byte
address_byte-write address h = omega arith

read_table : holds_below (λ a. bit_or (byte (a * 2)) 1 == a * 2 + 1) 128 ≡ true
unfolding holds_below
read_table = refl

pub address_byte-read : (address : ℕ) → address ≤ 0x7f → address_byte address true ≡ address * 2 + 1
unfolding address_byte
address_byte-read address h = (==_iff _ (address * 2 + 1)).0 (
    of_holds_below (λ (a : ℕ). bit_or (byte (a * 2)) 1 == a * 2 + 1) 128 address (omega arith)
      read_table)
