-- ===== src/Transport/Encoder/Streams.antt =====
-- Both encodings of a transaction render its commands: the one packet of
-- `encodeLegacyTransaction`, and the packets of `segmentedStream`.
use remote_mfi.Prelude.{
  ℕ, zero, suc, ◌+◌, ◌-◌, ◌*◌, ◌≤◌, ◌<◌, ◌≡◌, refl, ap, sym, subst, ◌∙◌, true, false, List, [], ◌∷◌,
  ◌++◌, append-nil, append_assoc, map, arith, length, length-append, ltb, Bool-cases, ltb→lt,
  ltb-zero-suc, inl, inr, if◌then◌else◌, All, All-append, some,
}
use remote_mfi.Transport.Encoder.{
  SegmentedStream, new_segmented_stream, address_byte, byte, append_values, legacy_write,
  legacy_write_part, legacy_read_part, encode_legacy_transaction, start_and_write, read,
  segmented_transaction,
}
use remote_mfi.Transport.Encoder.Commands.{
  Command, IsCommand, start_condition, stop_condition, send_checked, send_unchecked, read_acked,
  read_last, bytes, bytes-append,
}
use remote_mfi.Transport.Encoder.Packets.{Emitted, new-Emitted}
use remote_mfi.Transport.Encoder.Emission.{
  last_commands, last_commands-Reads, write_commands, start_and_write-Emitted, read-Emitted,
  regroup,
}
use remote_mfi.Transport.Encoder.Program.{
  Rendered, finish-Rendered, WritePart, ReadPart, Program, Program-parts, no_write, some_write,
  no_read, checked_read, unchecked_read, address_byte-write, address_byte-read,
}

-- The bytes of an open packet hold the commands `cs`.
abbrev Opens : List ℕ → List Command → Type 0
Opens bs cs = bs ≡ 0xaa ∷ bytes cs

Opens-append :
    {bs : List ℕ} (cs ds : List Command) → Opens bs cs → Opens (bs ++ bytes ds) (cs ++ ds)
Opens-append cs ds e = ap (λ xs. xs ++ bytes ds) e ∙ ap (◌∷◌ 0xaa) (sym (bytes-append cs ds))

append_values_lem : (bs vs : List ℕ) → append_values bs vs ≡ bs ++ bytes (map send_checked vs)
unfolding append_values
append_values_lem bs [] = sym (append-nil bs)
append_values_lem bs (v ∷ vs) =
    append_values_lem (bs ++ 0x80 ∷ v ∷ []) vs
    ∙ append_assoc bs (0x80 ∷ v ∷ []) (bytes (map send_checked vs))

legacy_write-Opens :
    (address : ℕ) (vs : List ℕ) {bs : List ℕ} (cs : List Command)
    → Opens bs cs
    → Opens (legacy_write bs address vs) (cs ++ (send_checked address ∷ map send_checked vs))
unfolding legacy_write
legacy_write-Opens address vs {bs} cs e =
    append_values_lem (bs ++ 0x80 ∷ address ∷ []) vs
    ∙ append_assoc bs (0x80 ∷ address ∷ []) (bytes (map send_checked vs))
    ∙ Opens-append cs (send_checked address ∷ map send_checked vs) e

sends-IsCommand : (vs : List ℕ) → All IsCommand (map send_checked vs)
sends-IsCommand [] = tt
sends-IsCommand (v ∷ vs) = (tt, sends-IsCommand vs)

last_commands-IsCommand : (left : ℕ) → left ≤ 32 → All IsCommand (last_commands left)
last_commands-IsCommand left h = elim (Bool-cases (ltb 1 left)) [
  | inl many ↦ rw many ((omega (arith, ltb→lt 1 left many), omega arith), (tt, tt))
  | inr one ↦ rw one (tt, tt)
]

legacy_write_part-Opens :
    (address : ℕ) (w : List ℕ)
    → address ≤ 0x7f
    → (ws : List Command) × Opens (legacy_write_part address w (0xaa ∷ [])) ws
      × WritePart address w ws
      × All IsCommand ws
unfolding legacy_write_part
legacy_write_part-Opens address [] h = ([], refl, no_write address, tt)
legacy_write_part-Opens address (v ∷ vs) h = (
  start_condition ∷ send_checked (address * 2) ∷ map send_checked (v ∷ vs),
  rw (address_byte-write address h)
      (legacy_write-Opens (address * 2) (v ∷ vs) (start_condition ∷ []) refl),
  some_write address v vs,
  (tt, (tt, sends-IsCommand (v ∷ vs))),
)

legacy_count-Opens :
    (left : ℕ) {bs : List ℕ} (cs : List Command)
    → left ≤ 32
    → Opens bs cs
    → Opens
        ((if ltb 1 left then bs ++ byte (0xc0 + left - 1) ∷ [] else bs) ++ 0xc0 ∷ [])
        (cs ++ last_commands left)
legacy_count-Opens left {bs} cs h e = elim (Bool-cases (ltb 1 left)) [
  | inl many ↦
      let two : 1 < left = ltb→lt 1 left many in
      let b : byte (0xc0 + left - 1) ≡ 0xc0 + (left - 1) = omega arith in
      rw (many, b)
        (append_assoc bs ((0xc0 + (left - 1)) ∷ []) (0xc0 ∷ [])
          ∙ Opens-append cs (read_acked (left - 1) ∷ read_last ∷ []) e)
  | inr one ↦ rw one (Opens-append cs (read_last ∷ []) e)
]

legacy_read_part-Opens :
    (address r : ℕ) {bs : List ℕ} (ws : List Command)
    → address ≤ 0x7f
    → r ≤ 32
    → Opens bs ws
    → (rs : List Command) × Opens (legacy_read_part address r bs) (ws ++ rs)
      × ReadPart address r rs
      × All IsCommand rs
unfolding legacy_read_part
legacy_read_part-Opens address zero ws h k e =
    ([], e ∙ ap (λ cs. 0xaa ∷ bytes cs) (sym (append-nil ws)), no_read address, tt)
legacy_read_part-Opens address (suc n) {bs} ws h k e =
    let adr = address * 2 + 1 in
    let selected =
      legacy_write-Opens adr [] (ws ++ start_condition ∷ [])
        (Opens-append ws (start_condition ∷ []) e) in
    (
      start_condition ∷ send_checked adr ∷ last_commands (suc n),
      rw (ltb-zero-suc n, address_byte-read address h)
          (legacy_count-Opens (suc n) ((ws ++ start_condition ∷ []) ++ send_checked adr ∷ []) k
              selected
            ∙ ap (λ cs. 0xaa ∷ bytes cs)
                (append_assoc (ws ++ start_condition ∷ []) (send_checked adr ∷ [])
                    (last_commands (suc n))
                  ∙ append_assoc ws (start_condition ∷ [])
                      (send_checked adr ∷ last_commands (suc n)))),
      checked_read address (last_commands-Reads (suc n) (omega arith) k),
      (tt, (tt, last_commands-IsCommand (suc n) k)),
    )

one_packet :
    {bs : List ℕ} (cs : List Command)
    → Opens bs cs
    → length (bs ++ 0x75 ∷ 0x00 ∷ []) ≤ 32
    → All IsCommand cs
    → Rendered (bs ++ 0x75 ∷ 0x00 ∷ []) (cs ++ stop_condition ∷ [])
one_packet {bs} cs e h k =
    let closed = Opens-append cs (stop_condition ∷ []) e in
    record {
      closed = [];
      final = cs ++ stop_condition ∷ [];
      stream_eq = sym (append_assoc bs (0x75 ∷ []) (0x00 ∷ [])) ∙ ap (λ xs. xs ++ 0x00 ∷ []) closed;
      order = refl;
      fits = tt;
      final_fits = (
        omega (
          arith,
          ap length closed,
          length-append bs (0x75 ∷ []),
          length-append bs (0x75 ∷ 0x00 ∷ []),
        ),
        All-append IsCommand cs (stop_condition ∷ []) k (tt, tt),
      );
    }

abbrev legacy_bytes : ℕ → List ℕ → ℕ → List ℕ
legacy_bytes address w r =
    legacy_read_part address r (legacy_write_part address w (0xaa ∷ [])) ++ 0x75 ∷ 0x00 ∷ []

encode_legacy_transaction-some :
    (address : ℕ) (w : List ℕ) (r : ℕ) {stream : List ℕ}
    → encode_legacy_transaction address w r ≡ some stream
    → (r ≤ 32) × (length (legacy_bytes address w r) ≤ 32) × (legacy_bytes address w r ≡ stream)
unfolding encode_legacy_transaction
encode_legacy_transaction-some address w r e = ground arith

-- What the single-packet encoding returns renders a program of the transaction.
pub legacy-Rendered :
    (address : ℕ) (w : List ℕ) (r : ℕ) {stream : List ℕ}
    → address ≤ 0x7f
    → encode_legacy_transaction address w r ≡ some stream
    → (cs : List Command) × Rendered stream cs × Program address w r cs
legacy-Rendered address w r {stream} h e =
    let (small, fit, eq) = encode_legacy_transaction-some address w r e in
    let (ws, ew, part, wk) = legacy_write_part-Opens address w h in
    let (rs, er, rpart, rk) = legacy_read_part-Opens address r ws h small ew in
    (
      ws ++ (rs ++ stop_condition ∷ []),
      subst (λ xs. Rendered xs (ws ++ (rs ++ stop_condition ∷ []))) eq
          (subst (Rendered (legacy_bytes address w r)) (append_assoc ws rs (stop_condition ∷ []))
            (one_packet (ws ++ rs) er fit (All-append IsCommand ws rs wk rk))),
      Program-parts part rpart,
    )

write_stage :
    (address : ℕ) (w : List ℕ)
    → address ≤ 0x7f
    → (ws : List Command) × Emitted
        (if ltb 0 (length w)
          then start_and_write (address_byte address false) w new_segmented_stream
          else new_segmented_stream)
        ws
      × WritePart address w ws
write_stage address [] h = ([], new-Emitted, no_write address)
write_stage address (v ∷ vs) h = (
  start_condition ∷ write_commands (address * 2) (v ∷ vs),
  rw (ltb-zero-suc (length vs), address_byte-write address h)
      (start_and_write-Emitted (address * 2) (v ∷ vs) [] new-Emitted),
  some_write address v vs,
)

read_stage :
    (address r : ℕ) {s : SegmentedStream} (ws : List Command)
    → address ≤ 0x7f
    → Emitted s ws
    → (rs : List Command) × Emitted
        (if ltb 0 r then read r (start_and_write (address_byte address true) [] s) else s)
        (ws ++ rs)
      × ReadPart address r rs
read_stage address zero {s} ws h e = ([], rw (append-nil ws) e, no_read address)
read_stage address (suc n) {s} ws h e =
    let adr = address * 2 + 1 in
    let head = start_condition ∷ send_unchecked adr ∷ [] in
    let (ds, et, reads) =
      read-Emitted (suc n) (ws ++ head) (omega arith) (start_and_write-Emitted adr [] ws e) in
    (
      head ++ ds,
      rw (ltb-zero-suc n, address_byte-read address h) (regroup ws head ds et),
      unchecked_read address reads,
    )

-- The segmented encoding renders a program of the transaction.
pub segmented-Rendered :
    (address : ℕ) (w : List ℕ) (r : ℕ)
    → address ≤ 0x7f
    → (cs : List Command) × Rendered (segmented_transaction address w r) cs × Program address w r cs
unfolding segmented_transaction
segmented-Rendered address w r h =
    let (ws, ew, part) = write_stage address w h in
    let (rs, er, rpart) = read_stage address r ws h ew in
    (
      ws ++ (rs ++ stop_condition ∷ []),
      subst (Rendered _) (append_assoc ws rs (stop_condition ∷ [])) (finish-Rendered er),
      Program-parts part rpart,
    )
