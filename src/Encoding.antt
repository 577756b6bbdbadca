-- ===== src/Encoding.antt =====
-- `base64.StdEncoding.EncodeToString` and `hex.EncodeToString` of Go's standard library, on bytes; a
-- text is the list of its ASCII codes.
use remote_mfi.Prelude.{
  ℕ, ◌+◌, ◌-◌, ◌*◌, ◌/◌, ◌%◌, List, [], ◌∷◌, Bool, true, false, ◌&&◌, ltb, ◌==◌, if◌then◌else◌,
}

abbrev pub base64_symbol : ℕ → ℕ
base64_symbol n =
    if ltb n 26
    then n + 65
    else if ltb n 52
    then n + 71
    else if ltb n 62
    then n - 4
    else if n == 62
    then 43
    else 47

unfoldable pub base64_encode : List ℕ → List ℕ
base64_encode [] = []
base64_encode (a ∷ []) = base64_symbol (a / 4) ∷ base64_symbol (a % 4 * 16) ∷ b'=' ∷ b'=' ∷ []
base64_encode (a ∷ b ∷ []) =
    base64_symbol (a / 4)
    ∷ base64_symbol (a % 4 * 16 + b / 16)
    ∷ base64_symbol (b % 16 * 4)
    ∷ b'='
    ∷ []
base64_encode (a ∷ b ∷ c ∷ rest) =
    base64_symbol (a / 4)
    ∷ base64_symbol (a % 4 * 16 + b / 16)
    ∷ base64_symbol (b % 16 * 4 + c / 64)
    ∷ base64_symbol (c % 64)
    ∷ base64_encode rest

abbrev hex_symbol : ℕ → ℕ
hex_symbol n = if ltb n 10 then n + 48 else n + 87

unfoldable pub hex_encode : List ℕ → List ℕ
hex_encode [] = []
hex_encode (b ∷ bs) = hex_symbol (b / 16) ∷ hex_symbol (b % 16) ∷ hex_encode bs

-- Equality of byte slices and arrays
unfoldable pub bytes_equal : List ℕ → List ℕ → Bool
bytes_equal [] [] = true
bytes_equal [] (y ∷ ys) = false
bytes_equal (x ∷ xs) [] = false
bytes_equal (x ∷ xs) (y ∷ ys) = (x == y) && bytes_equal xs ys
