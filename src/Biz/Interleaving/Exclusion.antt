-- ===== src/Biz/Interleaving/Exclusion.antt =====
-- One request at a time has the chip.
use remote_mfi.Prelude.{
  ℕ, ◌+◌, ◌≤◌, ◌≡◌, refl, ap, ◌∙◌, Bool, true, false, List, [], ◌∷◌, ◌++◌, arith,
}
use remote_mfi.Biz.Gate.{acquire, release}
use remote_mfi.Biz.Service.{Environment}
use remote_mfi.Biz.Interleaving.{
  Thread, Shared, System, Move, Step, Reach, start, holds, holders, refuse, first_hit, first_miss,
  enter, give_up, second_hit, second_miss, chip_fails, chip_signs, leave, guest_enters,
  guest_gives_up, guest_leaves, act, tick, arrive, guest_arrives, here, next,
}

abbrev pub tokens : Bool → ℕ
tokens true = 1
tokens false = 0

-- The gate's token is out exactly while one thread holds it.
abbrev pub IsExclusive : System → Type 0
IsExclusive x = holders x.threads ≡ tokens x.shared.gate.taken

pub holders-append : (ts us : List Thread) → holders (ts ++ us) ≡ holders ts + holders us
holders-append [] us = omega arith
holders-append (t ∷ ts) us = omega (arith, holders-append ts us)

leave_count : (taken : Bool) → 1 ≤ tokens taken → 0 + tokens taken ≡ 1 + 0
leave_count true h = refl
leave_count false h = absurd (omega arith)

module _ (env : Environment) where
  Move-tokens :
      {s s' : Shared} {t t' : Thread}
      → holds t ≤ tokens s.gate.taken
      → Move env s t s' t'
      → holds t' + tokens s.gate.taken ≡ holds t + tokens s'.gate.taken
  unfolding acquire release
  Move-tokens h (refuse e c) = refl
  Move-tokens h (first_hit d r c p) = refl
  Move-tokens h (first_miss d c p) = refl
  Move-tokens h (enter free) = rw free
  Move-tokens h (give_up ready e p) = refl
  Move-tokens h (second_hit r p) = refl
  Move-tokens h (second_miss p) = refl
  Move-tokens h (chip_fails e) = refl
  Move-tokens h (chip_signs sig) = refl
  Move-tokens {s} h (leave) = leave_count s.gate.taken h
  Move-tokens h (guest_enters free) = rw free
  Move-tokens h (guest_gives_up) = refl
  Move-tokens {s} h (guest_leaves) = leave_count s.gate.taken h

  Step-IsExclusive : {x y : System} → IsExclusive x → Step env x y → IsExclusive y
  Step-IsExclusive {x} h (act before after {t = t} {t' = t'} split m) =
      let count : holders x.threads ≡ holders before + (holds t + holders after) =
        ap holders split ∙ holders-append before (t ∷ after) in
      omega (arith, holders-append before (t' ∷ after), Move-tokens (omega arith) m)
  Step-IsExclusive h (tick d) = h
  Step-IsExclusive h (arrive id challenge) = omega arith
  Step-IsExclusive h (guest_arrives name) = omega arith

-- In every state that the service can reach, whatever requests arrive and however their steps
-- interleave, at most one request is between taking and releasing the gate, and the token is out
-- exactly if there is one.
pub Reach-exclusive :
    (env : Environment) (clock : ℕ) {x : System}
    → Reach env (start clock) x
    → (holders x.threads ≡ tokens x.shared.gate.taken) × (holders x.threads ≤ 1)
unfolding start
Reach-exclusive env clock here = (refl, omega arith)
Reach-exclusive env clock (next {y} {z} r st) =
    let h = Step-IsExclusive env (Reach-exclusive env clock r).0 st in
    (h, bounded z.shared.gate.taken h)
  where
    bounded : {n : ℕ} (taken : Bool) → n ≡ tokens taken → n ≤ 1
    bounded true e = omega arith
    bounded false e = omega arith
