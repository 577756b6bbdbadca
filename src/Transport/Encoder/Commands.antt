-- ===== src/Transport/Encoder/Commands.antt =====
-- The commands that the encoder puts into a stream, each with its bytes, and what each means to the
-- two readings of a stream: the bus (Transport/Bus.antt) and the count of answers
-- (Transport/Decoder.antt).
use remote_mfi.Prelude.{
  ℕ, ◌+◌, ◌≤◌, ◌<◌, ◌≡◌, refl, ap, ap₂, sym, ◌∙◌, true, false, ◌||◌, List, [], ◌∷◌, ◌++◌,
  append_assoc, arith, replicate, Option, none, some, All, ◌==◌, holds_below, of_holds_below,
}
use native.Mathlib.Nat.{add-zero, add_assoc}
use remote_mfi.Transport.Bus.{
  BusEvent, BusCommand, start, stop, send, receive, prepend, packet_body, bus_command,
}
use remote_mfi.Transport.Decoder.{
  instruction_lengths_from, encoded_length, command_case, CommandCase,
}

pub data Command : Type 0 where
  start_condition stop_condition : Command
  -- a byte to send, whose acknowledgement the CH341 reports or not
  send_checked : ℕ → Command
  send_unchecked : ℕ → Command
  -- so many bytes to read, each acknowledged
  read_acked : ℕ → Command
  read_last : Command

abbrev pub bytes_of : Command → List ℕ
bytes_of start_condition = 0x74 ∷ []
bytes_of stop_condition = 0x75 ∷ []
bytes_of (send_checked b) = 0x80 ∷ b ∷ []
bytes_of (send_unchecked b) = 0x81 ∷ b ∷ []
bytes_of (read_acked n) = (0xc0 + n) ∷ []
bytes_of read_last = 0xc0 ∷ []

abbrev pub events_of : Command → List BusEvent
events_of start_condition = start ∷ []
events_of stop_condition = stop ∷ []
events_of (send_checked b) = send b ∷ []
events_of (send_unchecked b) = send b ∷ []
events_of (read_acked n) = replicate n (receive true)
events_of read_last = receive false ∷ []

abbrev pub status_of : Command → ℕ
status_of (send_checked b) = 1
status_of _ = 0

abbrev pub received_of : Command → ℕ
received_of (read_acked n) = n
received_of read_last = 1
received_of _ = 0

-- One command reads 1 to 32 bytes.
abbrev pub IsCommand : Command → Type 0
IsCommand (read_acked n) = (0 < n) × (n ≤ 32)
IsCommand _ = Unit

abbrev pub bytes : List Command → List ℕ
bytes [] = []
bytes (c ∷ cs) = bytes_of c ++ bytes cs

abbrev pub events : List Command → List BusEvent
events [] = []
events (c ∷ cs) = events_of c ++ events cs

abbrev pub status : List Command → ℕ
status [] = 0
status (c ∷ cs) = status_of c + status cs

abbrev pub received : List Command → ℕ
received [] = 0
received (c ∷ cs) = received_of c + received cs

pub bytes-append : (cs ds : List Command) → bytes (cs ++ ds) ≡ bytes cs ++ bytes ds
bytes-append [] ds = refl
bytes-append (c ∷ cs) ds =
    ap (◌++◌ (bytes_of c)) (bytes-append cs ds)
    ∙ sym (append_assoc (bytes_of c) (bytes cs) (bytes ds))

pub events-append : (cs ds : List Command) → events (cs ++ ds) ≡ events cs ++ events ds
events-append [] ds = refl
events-append (c ∷ cs) ds =
    ap (◌++◌ (events_of c)) (events-append cs ds)
    ∙ sym (append_assoc (events_of c) (events cs) (events ds))

pub status-append : (cs ds : List Command) → status (cs ++ ds) ≡ status cs + status ds
status-append [] ds = omega arith
status-append (c ∷ cs) ds = omega (arith, status-append cs ds)

pub received-append : (cs ds : List Command) → received (cs ++ ds) ≡ received cs + received ds
received-append [] ds = omega arith
received-append (c ∷ cs) ds = omega (arith, received-append cs ds)

prepend-prepend :
    (es fs : List BusEvent) (o : Option (List BusEvent))
    → prepend es (prepend fs o) ≡ prepend (es ++ fs) o
prepend-prepend es fs none = refl
prepend-prepend es fs (some gs) = ap some (sym (append_assoc es fs gs))

prepend-nil : (o : Option (List BusEvent)) → prepend [] o ≡ o
prepend-nil none = refl
prepend-nil (some fs) = refl

-- A read command on the bus
pub bus_command-read :
    (n : ℕ) → 0 < n → n ≤ 32 → bus_command (0xc0 + n) ≡ BusCommand.receive_acked n
unfolding bus_command
bus_command-read n h k = ground arith

packet_body-command :
    (c : Command) (rest : List ℕ)
    → IsCommand c
    → packet_body 0 (bytes_of c ++ rest) ≡ prepend (events_of c) (packet_body 0 rest)
unfolding packet_body
packet_body-command start_condition rest h = refl
packet_body-command stop_condition rest h = refl
packet_body-command (send_checked b) rest h = refl
packet_body-command (send_unchecked b) rest h = refl
packet_body-command (read_acked n) rest h = rw (packet_body, bus_command-read n h.0 h.1)
packet_body-command read_last rest h = refl

-- The bus runs the commands of a packet in order, then what follows them.
pub packet_body-bytes :
    (cs : List Command) (rest : List ℕ)
    → All IsCommand cs
    → packet_body 0 (bytes cs ++ rest) ≡ prepend (events cs) (packet_body 0 rest)
packet_body-bytes [] rest h = sym (prepend-nil (packet_body 0 rest))
packet_body-bytes (c ∷ cs) rest h =
    ap (packet_body 0) (append_assoc (bytes_of c) (bytes cs) rest)
    ∙ packet_body-command c (bytes cs ++ rest) h.0
    ∙ ap (prepend (events_of c)) (packet_body-bytes cs rest h.1)
    ∙ prepend-prepend (events_of c) (events cs) (packet_body 0 rest)

-- The mask keeps the number of bytes that a read command asks for.
encoded_length-table : holds_below (λ n. (n == 0) || (encoded_length (0xc0 + n) == n)) 33 ≡ true
unfolding holds_below encoded_length
encoded_length-table = refl

encoded_length-read : (n : ℕ) → 0 < n → n ≤ 32 → encoded_length (0xc0 + n) ≡ n
encoded_length-read n h k = ground (
  arith,
  of_holds_below (λ (n : ℕ). (n == 0) || (encoded_length (0xc0 + n) == n)) 33 n (omega arith)
      encoded_length-table,
)

command_case-read : (n : ℕ) → n ≤ 32 → command_case (0xc0 + n) ≡ CommandCase.reads
unfolding command_case
command_case-read n h = ground arith

instruction_lengths_from-command :
    (c : Command) (written answered : ℕ) (rest : List ℕ)
    → IsCommand c
    → instruction_lengths_from written answered 0 (bytes_of c ++ rest)
      ≡ instruction_lengths_from (written + status_of c) (answered + received_of c) 0 rest
unfolding instruction_lengths_from
instruction_lengths_from-command start_condition w d rest h = simp add-zero
instruction_lengths_from-command stop_condition w d rest h = simp add-zero
instruction_lengths_from-command (send_checked b) w d rest h = rw add-zero
instruction_lengths_from-command (send_unchecked b) w d rest h = simp add-zero
instruction_lengths_from-command (read_acked n) w d rest h =
    rw (instruction_lengths_from, command_case-read n h.1, encoded_length-read n h.0 h.1)
      (simp add-zero)
instruction_lengths_from-command read_last w d rest h = rw add-zero

-- The counts grow by what each command makes the CH341 answer.
pub instruction_lengths_from-bytes :
    (cs : List Command) (written answered : ℕ) (rest : List ℕ)
    → All IsCommand cs
    → instruction_lengths_from written answered 0 (bytes cs ++ rest)
      ≡ instruction_lengths_from (written + status cs) (answered + received cs) 0 rest
instruction_lengths_from-bytes [] w d rest h = simp add-zero
instruction_lengths_from-bytes (c ∷ cs) w d rest h =
    ap (instruction_lengths_from w d 0) (append_assoc (bytes_of c) (bytes cs) rest)
    ∙ instruction_lengths_from-command c w d (bytes cs ++ rest) h.0
    ∙ instruction_lengths_from-bytes cs (w + status_of c) (d + received_of c) rest h.1
    ∙ ap₂ (λ a b. instruction_lengths_from a b 0 rest) (add_assoc w (status_of c) (status cs))
        (add_assoc d (received_of c) (received cs))
