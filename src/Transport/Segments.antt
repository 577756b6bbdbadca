-- ===== src/Transport/Segments.antt =====
-- How `Ch341Transport.execute` (internal/transport/ch341.go) cuts a stream into packets.
use remote_mfi.Prelude.{
  ℕ, zero, suc, ◌≤◌, ◌≡◌, refl, ap, ap₂, ◌∙◌, List, [], ◌∷◌, ◌++◌, arith, length, take, drop,
  length-drop, take-append_exact, drop-append_exact, take_of_length-le, drop_of_length-le,
}

-- `stream[offset:end]` for each round of the loop, at the bytes from `offset` on; the fuel bounds
-- the rounds.
unfoldable pub segments_from : ℕ → List ℕ → List (List ℕ)
segments_from zero stream = []
segments_from (suc fuel) [] = []
segments_from (suc fuel) (b ∷ stream) =
    take 32 (b ∷ stream) ∷ segments_from fuel (drop 32 (b ∷ stream))

unfoldable pub segments : List ℕ → List (List ℕ)
unfolding segments_from
segments stream = segments_from (length stream) stream

-- More fuel than bytes changes nothing.
segments_from_enough :
    (f g : ℕ) (stream : List ℕ)
    → length stream ≤ f
    → length stream ≤ g
    → segments_from f stream ≡ segments_from g stream
unfolding segments_from
segments_from_enough zero zero stream hf hg = refl
segments_from_enough (suc f) zero [] hf hg = refl
segments_from_enough (suc f) zero (b ∷ stream) hf hg = absurd (omega arith)
segments_from_enough zero (suc g) [] hf hg = refl
segments_from_enough zero (suc g) (b ∷ stream) hf hg = absurd (omega arith)
segments_from_enough (suc f) (suc g) [] hf hg = refl
segments_from_enough (suc f) (suc g) (b ∷ stream) hf hg = ap (◌∷◌ (take 32 (b ∷ stream))) (
    segments_from_enough f g (drop 31 stream) (omega (arith, length-drop 31 stream))
      (omega (arith, length-drop 31 stream)))

segments_unfold :
    (b : ℕ) (stream : List ℕ)
    → segments (b ∷ stream) ≡ take 32 (b ∷ stream) ∷ segments (drop 32 (b ∷ stream))
unfolding segments
segments_unfold b stream = ap (◌∷◌ (take 32 (b ∷ stream))) (
    segments_from_enough (length stream) _ (drop 31 stream) (omega (arith, length-drop 31 stream))
      (omega arith))

-- A packet of 32 bytes at the front is the first segment.
pub segments-full : (p rest : List ℕ) → length p ≡ 32 → segments (p ++ rest) ≡ p ∷ segments rest
segments-full [] rest h = absurd (omega arith)
segments-full (b ∷ p) rest h =
    segments_unfold b (p ++ rest)
    ∙ ap₂ ◌∷◌ (take-append_exact (b ∷ p) rest 32 h)
        (ap segments (drop-append_exact (b ∷ p) rest 32 h))

-- A stream that fits one packet is one segment.
pub segments-short : (b : ℕ) (p : List ℕ) → length (b ∷ p) ≤ 32 → segments (b ∷ p) ≡ (b ∷ p) ∷ []
unfolding segments
segments-short b p h =
    segments_unfold b p
    ∙ ap₂ ◌∷◌ (take_of_length-le 32 (b ∷ p) h) (ap segments (drop_of_length-le 32 (b ∷ p) h))
