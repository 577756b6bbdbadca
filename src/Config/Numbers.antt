-- ===== src/Config/Numbers.antt =====
-- `strconv.ParseUint` of Go's standard library, as the configuration uses it: whether a text is a number,
-- and which.
use remote_mfi.Prelude.{
  ℕ, ◌+◌, ◌-◌, ◌*◌, Bool, true, false, ◌&&◌, ◌||◌, not, List, [], ◌∷◌, Option, none, some, ltb, leb,
  ◌==◌, if◌then◌else◌,
}

-- The value of a digit, of any base up to 36
unfoldable pub digit_value : ℕ → Option ℕ
digit_value c =
    if leb b'0' c && leb c b'9'
    then some (c - b'0')
    else if leb b'a' c && leb c b'z'
    then some (c - b'a' + 10)
    else if leb b'A' c && leb c b'Z'
    then some (c - b'A' + 10)
    else none

-- The number with one digit more, if it is a digit of the base and the number is not too large
unfoldable pub next_number : ℕ → ℕ → ℕ → Option ℕ → Option ℕ
next_number base most n none = none
next_number base most n (some d) =
    if ltb d base && leb (n * base + d) most then some (n * base + d) else none

-- The loop over the digits; underscores are passed over where they are allowed.
unfoldable pub scan : Bool → ℕ → ℕ → Option ℕ → List ℕ → Option ℕ
scan underscores base most none s = none
scan underscores base most (some n) [] = some n
scan underscores base most (some n) (c ∷ s) =
    let skip = underscores && (c == b'_') in
    scan underscores base most (if skip then some n else next_number base most n (digit_value c)) s

-- `strconv.ParseUint(s, 16, 16)`
unfoldable pub parse_hex16 : List ℕ → Option ℕ
parse_hex16 [] = none
parse_hex16 (c ∷ s) = scan false 16 0xffff (some 0) (c ∷ s)

-- A letter is the same as a lower-case one, in either case.
abbrev pub is_letter : ℕ → ℕ → Bool
is_letter lower c = c == lower || c + 32 == lower

-- The base and the digits of a literal of Go
unfoldable pub literal : List ℕ → ℕ × List ℕ
literal [] = (10, [])
literal (z ∷ []) = if z == b'0' then (8, []) else (10, z ∷ [])
literal (z ∷ p ∷ []) = if z == b'0' then (8, p ∷ []) else (10, z ∷ p ∷ [])
literal (z ∷ p ∷ d ∷ s) =
    if not (z == b'0')
    then (10, z ∷ p ∷ d ∷ s)
    else if is_letter b'b' p
    then (2, d ∷ s)
    else if is_letter b'o' p
    then (8, d ∷ s)
    else if is_letter b'x' p
    then (16, d ∷ s)
    else (8, p ∷ d ∷ s)

unfoldable pub has_underscore : List ℕ → Bool
has_underscore [] = false
has_underscore (c ∷ s) = c == b'_' || has_underscore s

-- What the check of the underscores has seen last
pub data Seen : Type 0 where
  beginning digit underscore other : Seen

abbrev pub is_digit : Bool → ℕ → Bool
is_digit hex c =
    (leb b'0' c && leb c b'9')
    || (hex && ((leb b'a' c && leb c b'f') || (leb b'A' c && leb c b'F')))

-- An underscore stands between two digits, or behind the prefix of the base.
unfoldable pub underscores_fit : Bool → Seen → List ℕ → Bool
underscores_fit hex Seen.underscore [] = false
underscores_fit hex Seen.beginning [] = true
underscores_fit hex Seen.digit [] = true
underscores_fit hex Seen.other [] = true
underscores_fit hex Seen.digit (c ∷ s) =
    underscores_fit hex
      (if is_digit hex c then Seen.digit else if c == b'_' then Seen.underscore else Seen.other) s
underscores_fit hex Seen.underscore (c ∷ s) = is_digit hex c && underscores_fit hex Seen.digit s
underscores_fit hex Seen.beginning (c ∷ s) =
    let rest = underscores_fit hex (if is_digit hex c then Seen.digit else Seen.other) s in
    (is_digit hex c || not (c == b'_')) && rest
underscores_fit hex Seen.other (c ∷ s) =
    let rest = underscores_fit hex (if is_digit hex c then Seen.digit else Seen.other) s in
    (is_digit hex c || not (c == b'_')) && rest

unfoldable pub underscore_ok : List ℕ → Bool
underscore_ok (z ∷ p ∷ s) =
    if z == b'0' && (is_letter b'b' p || is_letter b'o' p || is_letter b'x' p)
    then underscores_fit (is_letter b'x' p) Seen.digit s
    else underscores_fit false Seen.beginning (z ∷ p ∷ s)
underscore_ok s = underscores_fit false Seen.beginning s

-- `strconv.ParseUint(s, 0, 7)`: `most` is the largest number of so many bits. A sign is no digit.
unfoldable pub parse_literal : ℕ → List ℕ → Option ℕ
parse_literal most s =
    let (base, digits) = literal s in
    if has_underscore digits && not (underscore_ok s)
    then none
    else elim s [ [] ↦ none | c ∷ rest ↦ scan true base most (some 0) digits ]
