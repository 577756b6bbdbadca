-- ===== src/Biz/Later.antt =====
-- internal/biz/service.go: what requests may do to the service between two others. While one of them waits for the
-- gate, others act.
use Prim.Native.String.{String}
use remote_mfi.Prelude.{ℕ, ◌-◌, List}
use remote_mfi.Errors.{Result, ok, err}
use remote_mfi.Biz.Gate.{Gate, Ready, acquire, release}
use remote_mfi.Biz.Service.{
  Environment, Service, Waiting, with_gate, sign, certificate, reset, probe,
}

module _ (env : Environment) where
  open env use {World, now}

  abbrev pub State : Type 0
  State = Service × World

  -- What an operation leaves behind
  abbrev pub after : {A : Type 0} → A × Service × World → State
  after (a, s, w) = (s, w)

  -- Requests, one after the other, each with those that act while it waits. `Fits` says in which worlds a
  -- request for a signature may arrive.
  pub data Later (Fits : World → Type 0) : State → State → Type 0 where
    here : {st : State} → Later Fits st st
    -- Anything happens outside the service.
    passes :
        {st : State} {s : Service} {w : World} (w' : World)
        → Later Fits st (s, w)
        → Later Fits st (s, w')
    signs :
        {st : State} {s : Service} {w : World} (others : Waiting env) (ready : Ready) (id : String)
        (challenge : List ℕ)
        → Later Fits st (s, w)
        → Fits w
        → ((x : State) → Later Fits x (others x))
        → Later Fits st (after (sign env others ready id challenge (s, w)))
    certifies :
        {st : State} {s : Service} {w : World} (others : Waiting env) (ready : Ready)
        → Later Fits st (s, w)
        → ((x : State) → Later Fits x (others x))
        → Later Fits st (after (certificate env others ready (s, w)))
    resets :
        {st : State} {s : Service} {w : World}
        → Later Fits st (s, w)
        → Later Fits st (after (reset env (s, w)))
    probes :
        {st : State} {s : Service} {w : World} (others : Waiting env) (ready : Ready)
        → Later Fits st (s, w)
        → ((x : State) → Later Fits x (others x))
        → Later Fits st (after (probe env others ready (s, w)))

  -- What every operation keeps, if those that act meanwhile keep it
  pub record IsKept (Fits : World → Type 0) (K : State → Type 0) : Type 0 where
    pub passing : (s : Service) (w w' : World) → K (s, w) → K (s, w')
    pub signing :
        (s : Service) (w : World) (others : Waiting env) (ready : Ready) (id : String)
        (challenge : List ℕ)
        → Fits w
        → ((x : State) → K x → K (others x))
        → K (s, w)
        → K (after (sign env others ready id challenge (s, w)))
    pub certifying :
        (s : Service) (w : World) (others : Waiting env) (ready : Ready)
        → ((x : State) → K x → K (others x))
        → K (s, w)
        → K (after (certificate env others ready (s, w)))
    pub probing :
        (s : Service) (w : World) (others : Waiting env) (ready : Ready)
        → ((x : State) → K x → K (others x))
        → K (s, w)
        → K (after (probe env others ready (s, w)))

  pub Later-keeps :
      (Fits : World → Type 0) (K : State → Type 0)
      → IsKept Fits K
      → {x y : State} → Later Fits x y
      → K x
      → K y
  unfolding reset
  Later-keeps Fits K kept here h = h
  Later-keeps Fits K kept (passes {s = s} {w = w} w' l) h =
      kept.passing s w w' (Later-keeps Fits K kept l h)
  Later-keeps Fits K kept (signs {s = s} {w = w} others ready id challenge l fits meanwhile) h =
      kept.signing s w others ready id challenge fits
        (λ x k. Later-keeps Fits K kept (meanwhile x) k) (Later-keeps Fits K kept l h)
  Later-keeps Fits K kept (certifies {s = s} {w = w} others ready l meanwhile) h =
      kept.certifying s w others ready (λ x k. Later-keeps Fits K kept (meanwhile x) k)
        (Later-keeps Fits K kept l h)
  Later-keeps Fits K kept (resets l) h = Later-keeps Fits K kept l h
  Later-keeps Fits K kept (probes {s = s} {w = w} others ready l meanwhile) h =
      kept.probing s w others ready (λ x k. Later-keeps Fits K kept (meanwhile x) k)
        (Later-keeps Fits K kept l h)

  -- The rest of an operation behind the gate
  pub with_gate-keeps :
      {A : Type 0} (K : State → Type 0) (holder : String) (others : Waiting env) (ready : Ready)
      (body : ℕ → State → Result A × Service × World) (s : Service) (w : World)
      → ((s : Service) (w : World) (g : Gate) → K (s, w) → K (record s { gate = g }, w))
      → ((x : State) → K x → K (others x))
      → ((waited : ℕ) (s : Service) (w : World) → K (s, w) → K (after (body waited (s, w))))
      → K (s, w)
      → K (after (with_gate env holder others ready body (s, w)))
  unfolding with_gate
  with_gate-keeps {A = A} K holder others ready body s w gated meanwhile kept h =
      let (s₁, w₁) = others (s, w) in
      let (taken, gate) = acquire (now w₁) holder ready s₁.gate in
      let entered = gated s₁ w₁ gate (meanwhile (s, w) h) in
      let (r, s₂, w₂) = body (now w₁ - now w) (record s₁ { gate = gate }, w₁) in
      go taken r s₁ s₂ w₁ w₂ gate entered
        (kept (now w₁ - now w) (record s₁ { gate = gate }) w₁ entered)
    where
      go :
          (taken : Result (Unit {0})) (r : Result A) (s₁ s₂ : Service) (w₁ w₂ : World) (gate : Gate)
          → K (record s₁ { gate = gate }, w₁)
          → K (s₂, w₂)
          → K (
              after {A = Result A} (elim taken [
                | err e ↦ (err e, record s₁ { gate = gate }, w₁)
                | ok u ↦ (r, record s₂ { gate = release s₂.gate }, w₂)
              ]))
      go (ok u) r s₁ s₂ w₁ w₂ gate h k = gated s₂ w₂ (release s₂.gate) k
      go (err e) r s₁ s₂ w₁ w₂ gate h k = h
