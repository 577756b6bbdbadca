-- ===== src/Transport/Encoder/Framing.antt =====
-- The framing of a stream: how each packet begins and ends.
use remote_mfi.Prelude.{
  ℕ, zero, suc, ◌+◌, ◌-◌, ◌≤◌, ◌<◌, ◌≡◌, refl, ap, sym, ◌∙◌, List, [], ◌∷◌, ◌++◌, map, arith,
  length, length-append, replicate, All, some, get_elem?,
}
use remote_mfi.Prelude.Int.{pos}
use remote_mfi.Errors.{Result, ok}
use remote_mfi.Transport.Segments.{segments}
use remote_mfi.Transport.Encoder.{encode_transaction}
use remote_mfi.Transport.Encoder.Commands.{Command, bytes}
use remote_mfi.Transport.Encoder.Packets.{Fits, full, full-length}
use remote_mfi.Transport.Encoder.Readings.{last_packet, segments-Rendered}
use remote_mfi.Transport.Encoder.Correct.{IsRequest, encode_transaction-program}

-- A packet that begins with 0xaa and whose last byte is the end marker
pub record IsFramed (n : ℕ) (p : List ℕ) : Type 0 where
  pub size : length p ≡ n
  pub first : get_elem? p 0 ≡ some 0xaa
  pub last : get_elem? p (n - 1) ≡ some 0x00

get_elem?-zeros :
    (xs : List ℕ) (n i : ℕ)
    → length xs ≤ i
    → i < length xs + n
    → get_elem? (xs ++ replicate n 0) i ≡ some 0
get_elem?-zeros [] zero i h k = absurd (omega arith)
get_elem?-zeros [] (suc n) zero h k = refl
get_elem?-zeros [] (suc n) (suc i) h k = get_elem?-zeros [] n i (omega arith) (omega arith)
get_elem?-zeros (x ∷ xs) n zero h k = absurd (omega arith)
get_elem?-zeros (x ∷ xs) n (suc i) h k = get_elem?-zeros xs n i (omega arith) (omega arith)

full-IsFramed : (cs : List Command) → Fits cs → IsFramed 32 (full cs)
unfolding full
full-IsFramed cs h = record {
  size = full-length cs h;
  first = refl;
  last = get_elem?-zeros (bytes cs) (suc (30 - length (bytes cs))) 30 h.0 (omega arith);
}

all-IsFramed : (css : List (List Command)) → All Fits css → All (IsFramed 32) (map full css)
all-IsFramed [] h = tt
all-IsFramed (cs ∷ css) h = (full-IsFramed cs h.0, all-IsFramed css h.1)

last-IsFramed : (cs : List Command) → IsFramed (length (bytes cs) + 2) (last_packet cs)
last-IsFramed cs = record {
  size = omega (arith, length-append (bytes cs) (0x00 ∷ []));
  first = refl;
  last =
      get_elem?-zeros (0xaa ∷ bytes cs) 1 (length (bytes cs) + 2 - 1) (omega arith) (omega arith);
}

-- The stream of a valid request is cut into packets that all begin with 0xaa and end with the end
-- marker; every packet but the last has 32 bytes, and the last at most 32.
pub encode_transaction-framing :
    (address : ℕ) (w : List ℕ) (r : ℕ) {stream : List ℕ}
    → IsRequest address w r
    → encode_transaction address w (pos r) ≡ ok stream
    → (front : List (List ℕ)) × (last : List ℕ) × (n : ℕ) × (segments stream ≡ front ++ last ∷ [])
      × All (IsFramed 32) front
      × IsFramed n last
      × (n ≤ 32)
encode_transaction-framing address w r {stream} v h =
    let (stream', e, (cs, rendered, p)) = encode_transaction-program address w r v in
    let same : ◌≡◌ {A = Result (List ℕ)} (ok stream') (ok stream) = sym e ∙ h in
    let same' : stream' ≡ stream = cc same in
    (
      map full rendered.closed,
      last_packet rendered.final,
      length (bytes rendered.final) + 2,
      ap segments (sym same') ∙ segments-Rendered rendered,
      all-IsFramed rendered.closed rendered.fits,
      last-IsFramed rendered.final,
      omega (arith, rendered.final_fits.0),
    )
