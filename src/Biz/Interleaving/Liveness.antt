-- ===== src/Biz/Interleaving/Liveness.antt =====
-- internal/biz/service.go: runs in which the requests under way are served.
use remote_mfi.Prelude.{
  ℕ, zero, suc, ◌≤◌, ◌<◌, ◌≡◌, ◌⊎◌, refl, sym, subst, ◌∙◌, Bool, true, false, List, [], ◌∷◌, ◌++◌,
  arith, All, All-append, append_assoc, inl, inr, Option-cases, Bool-cases, ap, ◌==◌,
}
use remote_mfi.Errors.{Result, ok, err, Result-cases}
use remote_mfi.Biz.Gate.{acquire, release}
use remote_mfi.Biz.Service.{Environment, look_up, check_request}
use remote_mfi.Biz.Interleaving.{
  Thread, Shared, System, Move, Reach, start, holds, holders, called, waiting, locked, signing,
  releasing, finished, guest_waiting, guest_holding, guest_gone, refuse, first_hit, first_miss,
  enter, give_up, second_hit, second_miss, chip_fails, chip_signs, leave, guest_enters,
  guest_gives_up, guest_leaves,
}
use remote_mfi.Biz.Interleaving.Exclusion.{Reach-exclusive, tokens, holders-append}

-- How many steps of its own a thread has left, at most
abbrev rank : Thread → ℕ
rank (called id challenge) = 5
rank (waiting id challenge digest since) = 4
rank (locked id challenge digest waited) = 3
rank (signing id challenge digest waited started) = 2
rank (releasing r) = 1
rank (finished r) = 0
rank (guest_waiting name) = 2
rank (guest_holding name) = 1
rank guest_gone = 0

-- The thread has ended.
abbrev pub HasEnded : Thread → Type 0
HasEnded t = rank t ≡ 0

holds_ended : (t : Thread) → HasEnded t → holds t ≡ 0
holds_ended (called id challenge) h = refl
holds_ended (waiting id challenge digest since) h = refl
holds_ended (locked id challenge digest waited) h = absurd (omega arith)
holds_ended (signing id challenge digest waited started) h = absurd (omega arith)
holds_ended (releasing r) h = absurd (omega arith)
holds_ended (finished r) h = refl
holds_ended (guest_waiting name) h = refl
holds_ended (guest_holding name) h = absurd (omega arith)
holds_ended guest_gone h = refl

holds_most : (t : Thread) → holds t ≤ 1
holds_most (called id challenge) = omega arith
holds_most (waiting id challenge digest since) = omega arith
holds_most (locked id challenge digest waited) = omega arith
holds_most (signing id challenge digest waited started) = omega arith
holds_most (releasing r) = omega arith
holds_most (finished r) = omega arith
holds_most (guest_waiting name) = omega arith
holds_most (guest_holding name) = omega arith
holds_most guest_gone = omega arith

module _ (env : Environment) (chip : List ℕ → Result (List ℕ)) where
  -- A move with which nobody gives up waiting, and the chip answers as `chip` says
  abbrev pub IsServed : {s s' : Shared} {t t' : Thread} → Move env s t s' t' → Type 0
  IsServed (give_up ready e h) = ⊥
  IsServed guest_gives_up = ⊥
  IsServed (chip_fails {challenge = challenge} e) = chip challenge ≡ err e
  IsServed (chip_signs {challenge = challenge} signature) = chip challenge ≡ ok signature
  IsServed _ = Unit

  -- A run of such moves: no time passes, and no request arrives.
  pub data Serves (x : System) : System → Type 0 where
    so_far : Serves x x
    serve :
        {y : System} (before after : List Thread) {t t' : Thread} {s' : Shared}
        → Serves x y
        → y.threads ≡ before ++ t ∷ after
        → (move : Move env y.shared t s' t') → IsServed move
        → Serves x (record { shared = s'; threads = before ++ t' ∷ after })

  -- The thread has the token exactly if it is taken.
  abbrev HasToken : Shared → Thread → Type 0
  HasToken s t = tokens s.gate.taken ≡ holds t

  -- A step that a thread can take, and that brings it nearer to its end
  abbrev CanMove : Shared → Thread → Type 0
  CanMove s t =
      (s' : Shared) × (t' : Thread) × (move : Move env s t s' t') × IsServed move
      × (rank t' < rank t)
      × HasToken s' t'

  free : (taken : Bool) → tokens taken ≡ 0 → taken ≡ false
  free true h = absurd (omega arith)
  free false h = refl

  thread-cases : (s : Shared) (t : Thread) → HasToken s t → HasEnded t ⊎ CanMove s t
  unfolding acquire release
  thread-cases s (called id challenge) h = elim (Result-cases (check_request env id challenge)) [
    | inr (e, f) ↦ inr (s, finished (err e), refuse e f, tt, omega arith, h)
    | inl (digest, f) ↦ elim (Option-cases (look_up s.clock id digest s.cache).0) [
      | inl g ↦ inr (_, _, first_miss digest f g, tt, omega arith, h)
      | inr (r, g) ↦ inr (_, _, first_hit digest r f g, tt, omega arith, h)
    ]
  ]
  thread-cases s (waiting id challenge digest since) h =
      inr (_, _, enter (free s.gate.taken h), tt, omega arith, refl)
  thread-cases s (locked id challenge digest waited) h =
      elim (Option-cases (look_up s.clock id digest s.cache).0) [
        | inl e ↦ inr (_, _, second_miss e, tt, omega arith, h)
        | inr (r, e) ↦ inr (_, _, second_hit r e, tt, omega arith, h)
      ]
  thread-cases s (signing id challenge digest waited started) h =
      elim (Result-cases (chip challenge)) [
        | inl (signature, e) ↦ inr (_, _, chip_signs signature, e, omega arith, h)
        | inr (x, e) ↦ inr (_, _, chip_fails x, e, omega arith, h)
      ]
  thread-cases s (releasing r) h = inr (_, _, leave, tt, omega arith, refl)
  thread-cases s (finished r) h = inl refl
  thread-cases s (guest_waiting name) h =
      inr (_, _, guest_enters (free s.gate.taken h), tt, omega arith, refl)
  thread-cases s (guest_holding name) h = inr (_, _, guest_leaves, tt, omega arith, refl)
  thread-cases s guest_gone h = inl refl

  Serves-trans : {x y z : System} → Serves x y → Serves y z → Serves x z
  Serves-trans r so_far = r
  Serves-trans r (serve before after r' e move served) =
      serve before after (Serves-trans r r') e move served

  -- What a thread leads to if only it takes steps
  abbrev EndsAt : System → List Thread → List Thread → Type 0
  EndsAt x before after =
      (s' : Shared) × (t' : Thread) × HasEnded t'
      × HasToken s' t'
      × Serves x (record { shared = s'; threads = before ++ t' ∷ after })

  thread-ends :
      (n : ℕ) (s : Shared) (before after : List Thread) (t : Thread)
      → rank t ≤ n
      → HasToken s t
      → EndsAt (record { shared = s; threads = before ++ t ∷ after }) before after
  thread-ends zero s before after t h k = (s, t, omega arith, k, so_far)
  thread-ends (suc m) s before after t h k = elim (thread-cases s t k) [
    | inl ended ↦ (s, t, ended, k, so_far)
    | inr (s', t', move, served, less, k') ↦
        let (s'', t'', ended, k'', r) = thread-ends m s' before after t' (omega arith) k' in
        (s'', t'', ended, k'', Serves-trans (serve before after so_far refl move served) r)
  ]

  -- The threads, one after the other, while nobody has the token
  threads-end :
      (s : Shared) (before after : List Thread)
      → All HasEnded before
      → holders after ≡ 0
      → s.gate.taken ≡ false
      → (s' : Shared) × (all : List Thread) × All HasEnded all
        × (s'.gate.taken ≡ false)
        × Serves
            (record { shared = s; threads = before ++ after })
            (record { shared = s'; threads = all })
  threads-end s before [] h none_holds nobody =
      (s, before ++ [], All-append HasEnded before [] h tt, nobody, so_far)
  threads-end s before (t ∷ after) h none_holds nobody =
      let (s₁, t₁, ended, k, r) =
        thread-ends (rank t) s before after t (omega arith)
          (ap tokens nobody ∙ omega (arith, none_holds)) in
      let (s₂, all, done, nobody', r') =
        threads-end s₁ (before ++ t₁ ∷ []) after
          (All-append HasEnded before (t₁ ∷ []) h (ended, tt)) (omega (arith, none_holds))
          (free s₁.gate.taken (k ∙ holds_ended t₁ ended)) in
      (
        s₂,
        all,
        done,
        nobody',
        Serves-trans r (
            subst
              (λ ts.
                Serves (record { shared = s₁; threads = ts })
                  (record { shared = s₂; threads = all }))
              (append_assoc before (t₁ ∷ []) after) r'),
      )

  -- The one that has the token
  holder-found :
      (ts : List Thread)
      → holders ts ≡ 1
      → (before : List Thread) × (t : Thread) × (after : List Thread) × (ts ≡ before ++ t ∷ after)
        × (holds t ≡ 1)
        × (holders before ≡ 0)
        × (holders after ≡ 0)
  holder-found [] h = absurd (omega arith)
  holder-found (t ∷ ts) h = elim (Bool-cases (holds t == 0)) [
    | inr one ↦ ([], t, ts, refl, ground (arith, holds_most t), refl, ground (arith, holds_most t))
    | inl none_here ↦
        let (before, u, after, e, a, b, c) = holder-found ts (ground arith) in
        (t ∷ before, u, after, ap (◌∷◌ t) e, a, ground (arith, b), c)
  ]

  -- First the one with the token, then the others
  all-end :
      (s : Shared) (ts : List Thread)
      → tokens s.gate.taken ≡ holders ts
      → (s' : Shared) × (all : List Thread) × All HasEnded all
        × (s'.gate.taken ≡ false)
        × Serves (record { shared = s; threads = ts }) (record { shared = s'; threads = all })
  all-end s ts h = elim (Bool-cases s.gate.taken) [
    | inr nobody ↦ threads-end s [] ts tt (sym h ∙ ap tokens nobody) nobody
    | inl somebody ↦
        let (before, t, after, e, one, b, c) = holder-found ts (sym h ∙ ap tokens somebody) in
        let (s₁, t₁, ended, k, r) =
          thread-ends (rank t) s before after t (omega arith) (ap tokens somebody ∙ sym one) in
        let rest = before ++ t₁ ∷ after in
        let idle = holds_ended t₁ ended in
        let (s₂, all, done, nobody, r') =
          threads-end s₁ [] rest tt (omega (arith, holders-append before (t₁ ∷ after), b, c, idle))
            (free s₁.gate.taken (k ∙ idle)) in
        (
          s₂,
          all,
          done,
          nobody,
          Serves-trans
              (subst
                (λ us.
                  Serves (record { shared = s; threads = us })
                    (record { shared = s₁; threads = rest }))
                (sym e) r)
              r',
        )
  ]

-- Wherever the service has come to, whatever requests have arrived and however their steps have interleaved,
-- and whatever the chip answers to each challenge: there is a run from there, in which no time passes and no
-- request arrives or gives up waiting, at whose end every request has ended and the gate is free.
pub Reach-ends :
    (env : Environment) (chip : List ℕ → Result (List ℕ)) (clock : ℕ) {x : System}
    → Reach env (start clock) x
    → (y : System) × Serves env chip x y × All HasEnded y.threads × (y.shared.gate.taken ≡ false)
Reach-ends env chip clock {x} r =
    let exclusive = Reach-exclusive env clock r in
    let (s, all, ended, nobody, r') = all-end env chip x.shared x.threads (sym exclusive.0) in
    (record { shared = s; threads = all }, r', ended, nobody)
