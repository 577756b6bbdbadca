-- ===== src/Config/Texts.antt =====
-- `strings.Split` and `strings.Join` of Go's standard library with a separator of one byte, and how they
-- undo each other.
use Prim.Native.String.{String}
use Prim.Native.Char.{code}
use remote_mfi.Prelude.{
  ℕ, ◌≡◌, refl, Bool, false, ◌||◌, List, [], ◌∷◌, ◌++◌, ◌==◌, if◌then◌else◌, All,
}
use native.Mathlib.Omega.{arith}

-- The bytes of a constant of ASCII characters
abbrev pub bytes : String → List ℕ
bytes String.[] = []
bytes (String.◌∷◌ c s) = code c ∷ bytes s

abbrev pub put_first : ℕ → List (List ℕ) → List (List ℕ)
put_first c [] = (c ∷ []) ∷ []
put_first c (field ∷ fields) = (c ∷ field) ∷ fields

unfoldable pub split : ℕ → List ℕ → List (List ℕ)
split separator [] = [] ∷ []
split separator (c ∷ s) =
    let fields = split separator s in if c == separator then [] ∷ fields else put_first c fields

unfoldable pub join : ℕ → List (List ℕ) → List ℕ
join separator [] = []
join separator (field ∷ []) = field
join separator (field ∷ next ∷ fields) = field ++ separator ∷ join separator (next ∷ fields)

unfoldable pub contains : ℕ → List ℕ → Bool
contains separator [] = false
contains separator (c ∷ s) = c == separator || contains separator s

pub split_without :
    (separator : ℕ) (s : List ℕ) → contains separator s ≡ false → split separator s ≡ s ∷ []
unfolding split contains
split_without separator [] h = refl
split_without separator (c ∷ s) h = ground (arith, split_without separator s)

pub split-append :
    (separator : ℕ) (s t : List ℕ)
    → contains separator s ≡ false
    → split separator (s ++ separator ∷ t) ≡ s ∷ split separator t
unfolding split contains
split-append separator [] t h = ground arith
split-append separator (c ∷ s) t h = ground (arith, split-append separator s t)

pub split-join :
    (separator : ℕ) (field : List ℕ) (fields : List (List ℕ))
    → All (λ s. contains separator s ≡ false) (field ∷ fields)
    → split separator (join separator (field ∷ fields)) ≡ field ∷ fields
unfolding join
split-join separator field [] h = split_without separator field h.0
split-join separator field (next ∷ fields) h =
    rw (split-append separator field (join separator (next ∷ fields)) h.0)
      (rw (split-join separator next fields h.1))

pub contains-append :
    (separator : ℕ) (s t : List ℕ)
    → contains separator s ≡ false
    → contains separator t ≡ false
    → contains separator (s ++ t) ≡ false
unfolding contains
contains-append separator [] t h k = k
contains-append separator (c ∷ s) t h k = ground (arith, contains-append separator s t)
