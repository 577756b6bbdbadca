-- ===== src/Biz/Interleaving/Memory.antt =====
-- What the cache of signatures remembers of the signatures that the chip made.
use Prim.Native.String.{String}
use text.Mathlib.TextEquality.{eq_iff}
use remote_mfi.Prelude.{
  ℕ, ◌≢◌, ◌⊎◌, inl, inr, ◌+◌, ◌≤◌, ◌<◌, ◌≡◌, ap, ◌∙◌, List, [], ◌∷◌, none, some, arith, All,
  All-map, Bool-cases, ltb, ltb→lt, ltb→le,
}
use remote_mfi.Biz.Cache.{SignatureEntry, Entries, lookup, get, put, lookup-put, get-none, get-live}
use remote_mfi.Biz.Service.{cache_ttl}
use remote_mfi.Biz.Interleaving.{
  Thread, Call, Shared, holds, holders, called, waiting, locked, signing, releasing, finished,
  guest_waiting, guest_holding, guest_gone,
}

-- While the driver signs for a request id, the cache has no entry of it.
abbrev pub IsFresh : Entries → Thread → Type 0
IsFresh es (signing id challenge digest waited started) = lookup id es ≡ none
IsFresh es _ = Unit

-- The lifetime of a signature is over, or its entry is in the cache.
abbrev pub IsRemembered : ℕ → Entries → Call → Type 0
IsRemembered clock es c =
    (c.signed_at ≤ clock)
    × ((c.signed_at + cache_ttl < clock)
        ⊎ ((e : SignatureEntry) × (lookup c.id es ≡ some e)
            × (e.expires_at ≡ c.signed_at + cache_ttl)))

-- The latest signature comes after the lifetime of the earlier ones for the same id.
abbrev pub IsSpaced : List Call → Type 0
IsSpaced [] = Unit
IsSpaced (c ∷ cs) =
    All (λ earlier. (earlier.id ≢ c.id) ⊎ (earlier.signed_at + cache_ttl < c.signed_at)) cs
    × IsSpaced cs

abbrev pub IsIdempotent : Shared → Type 0
IsIdempotent s = All (IsRemembered s.clock s.cache) s.calls × IsSpaced s.calls

pub fresh-get :
    (now : ℕ) (id : String) (es : Entries) (t : Thread) → IsFresh es t → IsFresh (get now id es).1 t
fresh-get now id es (signing k challenge digest waited started) h = get-none now id k es h
fresh-get now id es (called k challenge) h = tt
fresh-get now id es (waiting k challenge digest since) h = tt
fresh-get now id es (locked k challenge digest waited) h = tt
fresh-get now id es (releasing r) h = tt
fresh-get now id es (finished r) h = tt
fresh-get now id es (guest_waiting name) h = tt
fresh-get now id es (guest_holding name) h = tt
fresh-get now id es guest_gone h = tt

pub fresh-idle : (es : Entries) (t : Thread) → holds t ≤ 0 → IsFresh es t
fresh-idle es (signing k challenge digest waited started) h = absurd (omega arith)
fresh-idle es (called k challenge) h = tt
fresh-idle es (waiting k challenge digest since) h = tt
fresh-idle es (locked k challenge digest waited) h = tt
fresh-idle es (releasing r) h = tt
fresh-idle es (finished r) h = tt
fresh-idle es (guest_waiting name) h = tt
fresh-idle es (guest_holding name) h = tt
fresh-idle es guest_gone h = tt

pub IsRemembered-get :
    (now : ℕ) (id : String) (es : Entries) (calls : List Call)
    → All (IsRemembered now es) calls
    → All (IsRemembered now (get now id es).1) calls
IsRemembered-get now id es calls = All-map keep calls
  where
    keep : (c : Call) → IsRemembered now es c → IsRemembered now (get now id es).1 c
    keep c (past, inl old) = (past, inl old)
    keep c (past, inr (e, found, expiry)) = elim (Bool-cases (ltb (c.signed_at + cache_ttl) now)) [
      | inl old ↦ (past, inl (ltb→lt (c.signed_at + cache_ttl) now old))
      | inr within ↦
          let live = ltb→le (c.signed_at + cache_ttl) now within in
          (past, inr (e, get-live now id c.id es found (omega arith), expiry))
    ]

-- A fresh id has no signature within the lifetime.
pub fresh-spaced :
    (clock : ℕ) (es : Entries) (id : String) (calls : List Call)
    → lookup id es ≡ none
    → All (IsRemembered clock es) calls
    → All (λ c. (c.id ≢ id) ⊎ (c.signed_at + cache_ttl < clock)) calls
fresh-spaced clock es id calls missing = All-map late calls
  where
    late : (c : Call) → IsRemembered clock es c → (c.id ≢ id) ⊎ (c.signed_at + cache_ttl < clock)
    late c (past, inl old) = inr old
    late c (past, inr (e, found, expiry)) =
        inl (λ same. let own = ap (λ k. lookup k es) same ∙ missing in ground arith)

abbrev pub signed_entry : List ℕ → List ℕ → ℕ → SignatureEntry
signed_entry digest signature clock = record {
  challenge_digest = digest;
  signature = signature;
  expires_at = clock + cache_ttl;
}

pub IsRemembered-put :
    (clock : ℕ) (es : Entries) (id : String) (entry : SignatureEntry) (calls : List Call)
    → lookup id es ≡ none
    → All (IsRemembered clock es) calls
    → All (IsRemembered clock (put id entry es)) calls
IsRemembered-put clock es id entry calls missing h = All-map keep calls h
  where
    keep : (c : Call) → IsRemembered clock es c → IsRemembered clock (put id entry es) c
    keep c (past, inl old) = (past, inl old)
    keep c (past, inr (e, found, expiry)) = (
      past,
      inr (e, ground (arith, lookup-put id c.id entry es, missing, found, eq_iff id c.id), expiry),
    )

pub signed-IsRemembered :
    (clock : ℕ) (es : Entries) (id : String) (entry : SignatureEntry)
    → entry.expires_at ≡ clock + cache_ttl
    → IsRemembered clock (put id entry es) (record { id = id; signed_at = clock })
signed-IsRemembered clock es id entry expiry =
    (omega arith, inr (entry, ground (arith, lookup-put id id entry es, eq_iff id id), expiry))

-- What the threads of a list keep when another thread steps
pub others :
    (es es' : Entries) (n : ℕ)
    → ((u : Thread) → n + holds u ≤ 1 → IsFresh es u → IsFresh es' u)
    → (us : List Thread) → n + holders us ≤ 1
    → All (IsFresh es) us
    → All (IsFresh es') us
others es es' n f [] one h = tt
others es es' n f (u ∷ us) one h = (f u (omega arith) h.0, others es es' n f us (omega arith) h.1)

-- Time that passes takes nothing away.
pub IsRemembered-tick :
    (d clock : ℕ) (es : Entries) (calls : List Call)
    → All (IsRemembered clock es) calls
    → All (IsRemembered (clock + d) es) calls
IsRemembered-tick d clock es calls = All-map older calls
  where
    older : (c : Call) → IsRemembered clock es c → IsRemembered (clock + d) es c
    older c (past, inl old) = (omega arith, inl (omega arith))
    older c (past, inr found) = (omega arith, inr found)
