-- ===== src/Transport/Encoder/Readings.antt =====
-- The two readings of a rendered stream: its events on the bus, and the count of its answers.
use remote_mfi.Prelude.{
  ℕ, ◌+◌, ◌-◌, ◌≡◌, refl, ap, ap₂, sym, ◌∙◌, List, [], ◌∷◌, ◌++◌, append-nil, append_assoc, map,
  arith, length, length-append, replicate, All, some, flatten,
}
use remote_mfi.Errors.{Result, ok, ◌>>=◌}
use remote_mfi.Transport.Segments.{segments, segments-full, segments-short}
use remote_mfi.Transport.Bus.{BusEvent, prepend, packet_events, packets_events, stream_events}
use remote_mfi.Transport.Decoder.{instruction_lengths}
use remote_mfi.Transport.Encoder.Commands.{
  Command, bytes, events, status, received, packet_body-bytes, instruction_lengths_from-bytes,
  events-append, status-append, received-append,
}
use remote_mfi.Transport.Encoder.Packets.{Fits, full, full-length}
use remote_mfi.Transport.Encoder.Program.{Rendered}

-- The status bytes and data bytes that the CH341 sends for all packets together
unfoldable pub answers : List (List ℕ) → Result (ℕ × ℕ)
answers [] = ok (0, 0)
answers (p ∷ ps) = do
  (written, received) ← instruction_lengths p
  (more_written, more_received) ← answers ps
  ok (written + more_written, received + more_received)

abbrev pub last_packet : List Command → List ℕ
last_packet cs = 0xaa ∷ (bytes cs ++ 0x00 ∷ [])

segments-packets :
    (css : List (List Command)) (cs : List Command)
    → All Fits css
    → Fits cs
    → segments (flatten (map full css) ++ last_packet cs) ≡ map full css ++ last_packet cs ∷ []
segments-packets [] cs h k =
    segments-short 0xaa (bytes cs ++ 0x00 ∷ [])
      (omega (arith, length-append (bytes cs) (0x00 ∷ [])))
segments-packets (ds ∷ css) cs h k =
    ap segments (append_assoc (full ds) (flatten (map full css)) (last_packet cs))
    ∙ segments-full (full ds) _ (full-length ds h.0)
    ∙ ap (◌∷◌ (full ds)) (segments-packets css cs h.1 k)

pair_eq : {a b c d : ℕ} → a ≡ c → b ≡ d → ◌≡◌ {A = Result (ℕ × ℕ)} (ok (a, b)) (ok (c, d))
pair_eq p q = ap₂ (λ x y. ok (x, y)) p q

-- Cutting a rendered stream gives back its packets.
pub segments-Rendered :
    {stream : List ℕ} {cs : List Command} (r : Rendered stream cs)
    → segments stream ≡ map full r.closed ++ last_packet r.final ∷ []
segments-Rendered r =
    ap segments r.stream_eq ∙ segments-packets r.closed r.final r.fits r.final_fits

-- One packet, whatever follows the end marker
packet_events-ended :
    (cs : List Command) (rest : List ℕ)
    → Fits cs
    → packet_events (0xaa ∷ (bytes cs ++ 0x00 ∷ rest)) ≡ some (events cs)
unfolding packet_events
packet_events-ended cs rest h =
    packet_body-bytes cs (0x00 ∷ rest) h.1 ∙ ap some (append-nil (events cs))

pub instruction_lengths-ended :
    (cs : List Command) (rest : List ℕ)
    → Fits cs
    → instruction_lengths (0xaa ∷ (bytes cs ++ 0x00 ∷ rest)) ≡ ok (status cs, received cs)
unfolding instruction_lengths
instruction_lengths-ended cs rest h =
    instruction_lengths_from-bytes cs 0 0 (0x00 ∷ rest) h.1 ∙ pair_eq (omega arith) (omega arith)

packets_events-nil : packets_events [] ≡ some []
unfolding packets_events
packets_events-nil = refl

packets_events-cons :
    (p : List ℕ) (ps : List (List ℕ)) {es : List BusEvent}
    → packet_events p ≡ some es
    → packets_events (p ∷ ps) ≡ prepend es (packets_events ps)
unfolding packets_events
packets_events-cons p ps e = rw (packets_events, e)

packets_events-full :
    (css : List (List Command)) (cs : List Command)
    → All Fits css
    → Fits cs
    → packets_events (map full css ++ last_packet cs ∷ []) ≡ some (events (flatten css ++ cs))
unfolding full
packets_events-full [] cs h k =
    packets_events-cons (last_packet cs) [] (packet_events-ended cs [] k)
    ∙ ap (prepend (events cs)) packets_events-nil
    ∙ ap some (append-nil (events cs))
packets_events-full (ds ∷ css) cs h k =
    packets_events-cons (full ds) (map full css ++ last_packet cs ∷ [])
      (packet_events-ended ds (replicate (30 - length (bytes ds)) 0) h.0)
    ∙ ap (prepend (events ds)) (packets_events-full css cs h.1 k)
    ∙ ap some (
        sym (events-append ds (flatten css ++ cs))
        ∙ ap events (sym (append_assoc ds (flatten css) cs)))

answers-full :
    (css : List (List Command)) (cs : List Command)
    → All Fits css
    → Fits cs
    → answers (map full css ++ last_packet cs ∷ [])
      ≡ ok (status (flatten css ++ cs), received (flatten css ++ cs))
unfolding answers full
answers-full [] cs h k =
    rw (instruction_lengths-ended cs [] k) (pair_eq (omega arith) (omega arith))
answers-full (ds ∷ css) cs h k =
    rw
      (
        instruction_lengths-ended ds (replicate (30 - length (bytes ds)) 0) h.0,
        answers-full css cs h.1 k,
      )
      (pair_eq (omega (arith, status-append ds (flatten css ++ cs), regrouped status))
        (omega (arith, received-append ds (flatten css ++ cs), regrouped received)))
  where
    regrouped :
        (f : List Command → ℕ) → f ((ds ++ flatten css) ++ cs) ≡ f (ds ++ (flatten css ++ cs))
    regrouped f = ap f (append_assoc ds (flatten css) cs)

-- The bus sees the commands' events, in order.
pub stream_events-Rendered :
    {stream : List ℕ} {cs : List Command}
    → Rendered stream cs
    → stream_events stream ≡ some (events cs)
unfolding stream_events
stream_events-Rendered r =
    ap packets_events (segments-Rendered r)
    ∙ packets_events-full r.closed r.final r.fits r.final_fits
    ∙ ap (λ ds. some (events ds)) r.order

-- The CH341 answers what the commands ask for.
pub answers-Rendered :
    {stream : List ℕ} {cs : List Command}
    → Rendered stream cs
    → answers (segments stream) ≡ ok (status cs, received cs)
answers-Rendered r =
    ap answers (segments-Rendered r)
    ∙ answers-full r.closed r.final r.fits r.final_fits
    ∙ ap (λ ds. ok (status ds, received ds)) r.order
