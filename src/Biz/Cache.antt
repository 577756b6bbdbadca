-- ===== src/Biz/Cache.antt =====
-- `signatureCache`: successful signatures by request id, each until its time runs out. A Go map is an
-- association list with one entry for a key.
use Prim.Native.String.{String}
use text.Mathlib.Text.{◌==◌}
use text.Mathlib.TextEquality.{eq_iff}
use remote_mfi.Prelude.{
  ℕ, ◌≤◌, ◌≡◌, refl, ap, ◌∙◌, List, [], ◌∷◌, Option, none, some, arith, ltb, Bool-cases, inl, inr,
  if◌then◌else◌,
}

pub record SignatureEntry : Type 0 where
  pub challenge_digest : List ℕ
  pub signature : List ℕ
  pub expires_at : ℕ

abbrev pub Entries : Type 0
Entries = List (String × SignatureEntry)

-- `c.entries[requestID]`
unfoldable pub lookup : String → Entries → Option SignatureEntry
lookup id [] = none
lookup id ((k, e) ∷ es) = if k == id then some e else lookup id es

-- `delete(c.entries, requestID)`
unfoldable pub delete : String → Entries → Entries
delete id [] = []
delete id ((k, e) ∷ es) = let rest = delete id es in if k == id then rest else (k, e) ∷ rest

-- `signatureCache.put`: `c.entries[requestID] = entry`
unfoldable pub put : String → SignatureEntry → Entries → Entries
put id entry [] = (id, entry) ∷ []
put id entry ((k, e) ∷ es) = if k == id then (id, entry) ∷ es else (k, e) ∷ put id entry es

-- The entry that was found, at the time `now`: an expired one is deleted.
abbrev found : ℕ → String → Entries → Option SignatureEntry → Option SignatureEntry × Entries
found now id es none = (none, es)
found now id es (some entry) =
    if ltb entry.expires_at now then (none, delete id es) else (some entry, es)

-- `signatureCache.get`
unfoldable pub get : ℕ → String → Entries → Option SignatureEntry × Entries
get now id es = found now id es (lookup id es)

pub lookup-put :
    (id k : String) (entry : SignatureEntry) (es : Entries)
    → lookup k (put id entry es) ≡ (if id == k then some entry else lookup k es)
unfolding lookup put
lookup-put id k entry [] = refl
lookup-put id k entry ((j, e) ∷ es) =
    ground (arith, eq_iff id k, eq_iff j id, eq_iff j k, lookup-put id k entry es)

pub lookup-delete :
    (id k : String) (es : Entries)
    → lookup k (delete id es) ≡ (if id == k then none else lookup k es)
unfolding lookup delete
lookup-delete id k [] = ground arith
lookup-delete id k ((j, e) ∷ es) =
    ground (arith, eq_iff id k, eq_iff j id, eq_iff j k, lookup-delete id k es)

-- After a miss the id has no entry: it had none, or an expired one that is deleted now.
pub get-miss :
    (now : ℕ) (id : String) (es : Entries)
    → (get now id es).0 ≡ none
    → lookup id (get now id es).1 ≡ none
unfolding get
get-miss now id es h = ground (arith, lookup-delete id id es, eq_iff id id)

-- A hit is the entry of the id, not yet expired, and changes nothing.
pub get-hit :
    (now : ℕ) (id : String) (es : Entries) {e : SignatureEntry}
    → (get now id es).0 ≡ some e
    → (lookup id es ≡ some e) × (now ≤ e.expires_at) × ((get now id es).1 ≡ es)
unfolding get
get-hit now id es h = ground arith

-- `get` keeps every entry of every key that has not expired.
pub get-live :
    (now : ℕ) (id k : String) (es : Entries) {e : SignatureEntry}
    → lookup k es ≡ some e
    → now ≤ e.expires_at
    → lookup k (get now id es).1 ≡ some e
unfolding get
get-live now id k es {e} h live = elim (Bool-cases (id == k)) [
  | inl same ↦
      let eq : id ≡ k = (eq_iff id k).0 same in
      let own : lookup id es ≡ some e = ap (λ j. lookup j es) eq ∙ h in ground arith
  | inr other ↦ ground (arith, lookup-delete id k es)
]

-- A live entry is hit.
pub get-found :
    (now : ℕ) (id : String) (es : Entries) {e : SignatureEntry}
    → lookup id es ≡ some e
    → now ≤ e.expires_at
    → get now id es ≡ (some e, es)
unfolding get
get-found now id es h live = ground arith

-- `get` adds no entry.
pub get-none :
    (now : ℕ) (id k : String) (es : Entries)
    → lookup k es ≡ none
    → lookup k (get now id es).1 ≡ none
unfolding get
get-none now id k es h = ground (arith, lookup-delete id k es)
