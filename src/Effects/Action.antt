-- ===== src/Effects/Action.antt =====
-- Calls that return at once: the result and the world after the call.
use remote_mfi.Errors.{Result, ok, err, GoError}
use remote_mfi.Prelude.{Bool, true, false}

abbrev pub Action : Type 0 → Type 0 → Type 0
Action W A = W → Result A × W

infixl 5 ◌>>=◌ ◌>>◌
abbrev pub ◌>>=◌ : {W A B : Type 0} → Action W A → (A → Action W B) → Action W B
◌>>=◌ m f w = let (r, w') = m w in elim r [ ok a ↦ f a w' | err e ↦ (err e, w') ]

abbrev pub ◌>>◌ : {W B : Type 0} → Action W (Unit {0}) → Action W B → Action W B
◌>>◌ m k = m >>= λ _. k

abbrev pub return : {W A : Type 0} → A → Action W A
return a w = (ok a, w)

abbrev pub fail : {W A : Type 0} → GoError → Action W A
fail e w = (err e, w)

-- `if failed { return err }`
abbrev pub refuse : {W : Type 0} → Bool → GoError → Action W (Unit {0})
refuse true e = fail e
refuse false e = return tt
