-- ===== src/Biz/Interleaving/Idempotence.antt =====
-- One signature of the chip for one request id within the lifetime of an entry.
use remote_mfi.Prelude.{
  ℕ, ◌+◌, ◌≤◌, ◌≡◌, refl, ap, ◌∷◌, none, arith, All, All-split, All-append, subst,
}
use remote_mfi.Biz.Cache.{get, get-miss}
use remote_mfi.Biz.Service.{Environment, look_up, hit_result}
use remote_mfi.Biz.Interleaving.{
  Thread, Shared, System, Move, Step, Reach, start, holds, holders, refuse, first_hit, first_miss,
  enter, give_up, second_hit, second_miss, chip_fails, chip_signs, leave, guest_enters,
  guest_gives_up, guest_leaves, act, tick, arrive, guest_arrives, here, next,
}
use remote_mfi.Biz.Interleaving.Exclusion.{Reach-exclusive, holders-append}
use remote_mfi.Biz.Interleaving.Memory.{
  IsFresh, IsRemembered, IsSpaced, IsIdempotent, fresh-get, fresh-idle, IsRemembered-get,
  fresh-spaced, signed_entry, IsRemembered-put, signed-IsRemembered, others, IsRemembered-tick,
}

module _ (env : Environment) where
  -- The own thread of a step is fresh afterwards.
  Move-fresh : {s s' : Shared} {t t' : Thread} → Move env s t s' t' → IsFresh s'.cache t'
  unfolding look_up
  Move-fresh (refuse e c) = tt
  Move-fresh (first_hit d r c p) = tt
  Move-fresh (first_miss d c p) = tt
  Move-fresh (enter free) = tt
  Move-fresh (give_up ready e p) = tt
  Move-fresh (second_hit r p) = tt
  Move-fresh {s} (second_miss {id} {digest = digest} p) = get-miss s.clock id s.cache (missed p)
    where
      missed :
          (hit_result digest (get s.clock id s.cache).0 ≡ none) → (get s.clock id s.cache).0 ≡ none
      missed p = ground arith
  Move-fresh (chip_fails e) = tt
  Move-fresh (chip_signs sig) = tt
  Move-fresh (leave) = tt
  Move-fresh (guest_enters free) = tt
  Move-fresh (guest_gives_up) = tt
  Move-fresh (guest_leaves) = tt

  -- So is every other one, when no two hold the gate.
  Move-others :
      {s s' : Shared} {t t' : Thread}
      → Move env s t s' t'
      → (u : Thread) → holds t + holds u ≤ 1
      → IsFresh s.cache u
      → IsFresh s'.cache u
  unfolding look_up
  Move-others (refuse e c) u one h = h
  Move-others {s} (first_hit {id} d r c p) u one h = fresh-get s.clock id s.cache u h
  Move-others {s} (first_miss {id} d c p) u one h = fresh-get s.clock id s.cache u h
  Move-others (enter free) u one h = h
  Move-others (give_up ready e p) u one h = h
  Move-others {s} (second_hit {id} r p) u one h = fresh-get s.clock id s.cache u h
  Move-others {s} (second_miss {id} p) u one h = fresh-get s.clock id s.cache u h
  Move-others (chip_fails e) u one h = h
  Move-others {s' = s'} (chip_signs sig) u one h = fresh-idle s'.cache u (omega arith)
  Move-others (leave) u one h = h
  Move-others (guest_enters free) u one h = h
  Move-others (guest_gives_up) u one h = h
  Move-others (guest_leaves) u one h = h

  Move-IsIdempotent :
      {s s' : Shared} {t t' : Thread}
      → Move env s t s' t'
      → IsFresh s.cache t
      → IsIdempotent s
      → IsIdempotent s'
  unfolding look_up
  Move-IsIdempotent (refuse e c) fresh h = h
  Move-IsIdempotent {s} (first_hit {id} d r c p) fresh h =
      (IsRemembered-get s.clock id s.cache s.calls h.0, h.1)
  Move-IsIdempotent {s} (first_miss {id} d c p) fresh h =
      (IsRemembered-get s.clock id s.cache s.calls h.0, h.1)
  Move-IsIdempotent (enter free) fresh h = h
  Move-IsIdempotent (give_up ready e p) fresh h = h
  Move-IsIdempotent {s} (second_hit {id} r p) fresh h =
      (IsRemembered-get s.clock id s.cache s.calls h.0, h.1)
  Move-IsIdempotent {s} (second_miss {id} p) fresh h =
      (IsRemembered-get s.clock id s.cache s.calls h.0, h.1)
  Move-IsIdempotent (chip_fails e) fresh h = h
  Move-IsIdempotent {s} (chip_signs {id} {digest = digest} sig) fresh h =
      let entry = signed_entry digest sig s.clock in
      (
        (
          signed-IsRemembered s.clock s.cache id entry refl,
          IsRemembered-put s.clock s.cache id entry s.calls fresh h.0,
        ),
        (fresh-spaced s.clock s.cache id s.calls fresh h.0, h.1),
      )
  Move-IsIdempotent (leave) fresh h = h
  Move-IsIdempotent (guest_enters free) fresh h = h
  Move-IsIdempotent (guest_gives_up) fresh h = h
  Move-IsIdempotent (guest_leaves) fresh h = h

  Step-fresh :
      {x y : System}
      → holders x.threads ≤ 1
      → Step env x y
      → All (IsFresh x.shared.cache) x.threads × IsIdempotent x.shared
      → All (IsFresh y.shared.cache) y.threads × IsIdempotent y.shared
  Step-fresh {x} one (act before after {t = t} {s' = s'} split m) (fresh, h) =
      let parts =
        All-split (IsFresh x.shared.cache) before (t ∷ after)
          (subst (All (IsFresh x.shared.cache)) split fresh) in
      let count : holders before + (holds t + holders after) ≤ 1 =
        omega (arith, ap holders split, holders-append before (t ∷ after)) in
      let kept = others x.shared.cache s'.cache (holds t) (Move-others m) in
      (
        All-append (IsFresh s'.cache) before _ (kept before (omega arith) parts.0)
            (Move-fresh m, kept after (omega arith) parts.1.1),
        Move-IsIdempotent m parts.1.0 h,
      )
  Step-fresh {x} one (tick d) (fresh, h) =
      (fresh, (IsRemembered-tick d x.shared.clock x.shared.cache x.shared.calls h.0, h.1))
  Step-fresh one (arrive id challenge) (fresh, h) = ((tt, fresh), h)
  Step-fresh one (guest_arrives name) (fresh, h) = ((tt, fresh), h)

  Reach-fresh :
      (clock : ℕ) {x : System}
      → Reach env (start clock) x
      → All (IsFresh x.shared.cache) x.threads × IsIdempotent x.shared
  unfolding start
  Reach-fresh clock here = (tt, (tt, tt))
  Reach-fresh clock (next r st) =
      Step-fresh (Reach-exclusive env clock r).1 st (Reach-fresh clock r)

-- In every state that the service can reach, whatever requests arrive and however their steps
-- interleave with each other and with the clock, two signatures that the chip made for one request id
-- are more than the lifetime of an entry (60 s) apart; and the lifetime of each signature is over, or it
-- is in the cache, in an entry that expires at its time plus the lifetime.
pub Reach-idempotent :
    (env : Environment) (clock : ℕ) {x : System}
    → Reach env (start clock) x
    → IsSpaced x.shared.calls × All (IsRemembered x.shared.clock x.shared.cache) x.shared.calls
Reach-idempotent env clock r = let (fresh, h) = Reach-fresh env clock r in (h.1, h.0)
