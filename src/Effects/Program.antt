-- ===== src/Effects/Program.antt =====
-- Code with loops that wait for the world: on fuel, so that a run may also be cut off. The theorems on
-- termination state fuel with which no run is.
use remote_mfi.Errors.{Result, ok, err, GoError}
use remote_mfi.Prelude.{Bool, true, false, ◌≡◌, refl, ◌⊎◌, inl, inr}

pub data Outcome (W A : Type 0) : Type 0 where
  done : Result A → W → Outcome W A
  out_of_fuel : Outcome W A

abbrev pub Program : Type 0 → Type 0 → Type 0
Program W A = W → Outcome W A

-- What follows a run that has ended
abbrev pub resume : {W A B : Type 0} → Outcome W A → (A → Program W B) → Outcome W B
resume out_of_fuel f = out_of_fuel
resume (done (ok a) w) f = f a w
resume (done (err e) w) f = done (err e) w

infixl 5 ◌>>=◌ ◌>>◌
abbrev pub ◌>>=◌ : {W A B : Type 0} → Program W A → (A → Program W B) → Program W B
◌>>=◌ m f w = resume (m w) f

abbrev pub ◌>>◌ : {W B : Type 0} → Program W (Unit {0}) → Program W B → Program W B
◌>>◌ m k = m >>= λ _. k

abbrev pub return : {W A : Type 0} → A → Program W A
return a w = done (ok a) w

abbrev pub fail : {W A : Type 0} → GoError → Program W A
fail e w = done (err e) w

abbrev pub refuse : {W : Type 0} → Bool → GoError → Program W (Unit {0})
refuse true e = fail e
refuse false e = return tt

-- A run that was not cut off
abbrev pub Finishes : {W A : Type 0} → Outcome W A → Type 0
Finishes (done r w) = Unit
Finishes out_of_fuel = ⊥

pub Outcome-cases :
    {W A : Type 0} (o : Outcome W A)
    → (o ≡ out_of_fuel) ⊎ ((r : Result A) × (w : W) × (o ≡ done r w))
Outcome-cases out_of_fuel = inl refl
Outcome-cases (done r w) = inr (r, w, refl)

-- Inversion of a sequence that ended well
pub resume-eq-ok :
    {W A B : Type 0} (o : Outcome W A) (f : A → Program W B) {v : B} {w : W}
    → resume o f ≡ done (ok v) w
    → (a : A) × (w' : W) × (o ≡ done (ok a) w') × (f a w' ≡ done (ok v) w)
resume-eq-ok (done (ok a) w') f h = (a, w', refl, h)
resume-eq-ok (done (err e) w') f h = absurd (cc h)
resume-eq-ok out_of_fuel f h = absurd (cc h)

pub refuse-eq-ok :
    {W : Type 0} (test : Bool) (e : GoError) (w : W) {u : Unit {0}} {w' : W}
    → refuse test e w ≡ done (ok u) w'
    → (test ≡ false) × (w ≡ w')
refuse-eq-ok true e w h = absurd (cc h)
refuse-eq-ok false e w h = (refl, cc h)
