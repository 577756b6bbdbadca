-- ===== src/Fmt.antt =====
-- The verbs of Go's package fmt that the source's messages use: `%d`, `%02x`, `%04x`.
use Prim.Native.String.{String, ◌++◌ as append}
use remote_mfi.Prelude.{ℕ, zero, suc, ◌/◌, ◌%◌, List, [], ◌∷◌, get_or, ltb, if◌then◌else◌}

abbrev digits : List String
digits =
    "0" ∷ "1" ∷ "2" ∷ "3" ∷ "4" ∷ "5" ∷ "6" ∷ "7" ∷ "8" ∷ "9" ∷ "a" ∷ "b" ∷ "c" ∷ "d" ∷ "e" ∷ "f"
    ∷ []

-- The last digits of a number in a base, behind the text that is already there; the fuel bounds
-- the number of digits.
print_digits : ℕ → ℕ → ℕ → String → String
print_digits zero base n tail = tail
print_digits (suc fuel) base n tail =
    let front = append (get_or digits (n % base) "") tail in
    let more = print_digits fuel base (n / base) front in if ltb n base then front else more

-- `%d` of a number that is not negative
unfoldable pub decimal : ℕ → String
unfolding print_digits
decimal n = print_digits (suc n) 10 n ""

-- `%02x` of a byte
unfoldable pub hex2 : ℕ → String
hex2 n = append (get_or digits (n / 16 % 16) "") (get_or digits (n % 16) "")

-- `%04x` of a 16-bit number
unfoldable pub hex4 : ℕ → String
unfolding hex2
hex4 n = append (hex2 (n / 256)) (hex2 (n % 256))
