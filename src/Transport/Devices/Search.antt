-- ===== src/Transport/Devices/Search.antt =====
-- internal/transport/ch341.go: what `findBulkEndpoints` finds.
use remote_mfi.Prelude.{
  ℕ, ◌≡◌, refl, List, [], ◌∷◌, Option, none, some, ◌⊎◌, inl, inr, ◌↔◌, leb, Bool-cases, arith,
}
use remote_mfi.Transport.Devices.{
  TransferType, Direction, EndpointDesc, Setting, ConfigDesc, Configs, Choice, config_at,
  config_numbers, insert_int, sort_ints, or_first, note_bulk, bulk_endpoints, choice, first_of,
  search_settings, search_interfaces, search_configs, find_bulk_endpoints,
}

-- An element of the list has the property.
abbrev pub AnyOf : {A : Type 0} → (A → Type 0) → List A → Type 0
AnyOf P [] = ⊥
AnyOf P (a ∷ list) = P a ⊎ AnyOf P list

-- A bulk endpoint of the direction and the number
abbrev pub IsBulk : Direction → ℕ → EndpointDesc → Type 0
IsBulk d n e = (e.transfer_type ≡ TransferType.bulk) × (e.direction ≡ d) × (e.number ≡ n)

-- The choice names a setting of the configuration, and a bulk endpoint of it in each direction.
abbrev pub IsChoice : ℕ → Choice → Setting → Type 0
IsChoice number c setting =
    (c.config_number ≡ number)
    × (c.interface_number ≡ setting.number)
    × (c.alternate ≡ setting.alternate)
    × AnyOf (IsBulk Direction.input c.input_number) setting.endpoints
    × AnyOf (IsBulk Direction.output c.output_number) setting.endpoints

-- The choice is one that the device offers.
abbrev pub IsOffered : Configs → List ℕ → Choice → Type 0
IsOffered configs numbers c =
    AnyOf (λ number. AnyOf (AnyOf (IsChoice number c)) (config_at number configs)) numbers

-- The search has found something that has the property, or nothing has it.
abbrev pub Finds : {A : Type 0} → (A → Type 0) → Option A → Type 0
Finds P none = (a : _) → ¬ P a
Finds P (some a) = P a

first_of-Finds :
    (P Q : Choice → Type 0) (a b : Option Choice)
    → Finds P a
    → Finds Q b
    → Finds (λ c. P c ⊎ Q c) (first_of a b)
first_of-Finds P Q none none h k = λ c x. elim x [ inl p ↦ h c p | inr q ↦ k c q ]
first_of-Finds P Q none (some c) h k = inr k
first_of-Finds P Q (some c) b h k = inl h

-- What is noted of the endpoints of one direction, after `found`
abbrev Notes : Direction → Option ℕ → List EndpointDesc → Option ℕ → Type 0
Notes d found endpoints none = (found ≡ none) × ((n : ℕ) → ¬ AnyOf (IsBulk d n) endpoints)
Notes d found endpoints (some n) = (found ≡ some n) ⊎ AnyOf (IsBulk d n) endpoints

-- An endpoint that counts
Notes-hit :
    (d : Direction) (found : Option ℕ) (e : EndpointDesc) (endpoints : List EndpointDesc)
    (r : Option ℕ)
    → e.transfer_type ≡ TransferType.bulk
    → e.direction ≡ d
    → Notes d (or_first found e.number) endpoints r
    → Notes d found (e ∷ endpoints) r
Notes-hit d none e endpoints none bulk way (absent, h) = absurd (ground arith)
Notes-hit d (some m) e endpoints none bulk way (absent, h) = absurd (ground arith)
Notes-hit d none e endpoints (some n) bulk way (inl h) = inr (inl (bulk, way, cc))
Notes-hit d none e endpoints (some n) bulk way (inr h) = inr (inr h)
Notes-hit d (some m) e endpoints (some n) bulk way (inl h) = inl h
Notes-hit d (some m) e endpoints (some n) bulk way (inr h) = inr (inr h)

-- An endpoint that does not
Notes-miss :
    (d : Direction) (found : Option ℕ) (e : EndpointDesc) (endpoints : List EndpointDesc)
    (r : Option ℕ)
    → ((n : ℕ) → ¬ IsBulk d n e)
    → Notes d found endpoints r
    → Notes d found (e ∷ endpoints) r
Notes-miss d found e endpoints none miss (h, k) =
    (h, λ n x. elim x [ inl p ↦ miss n p | inr q ↦ k n q ])
Notes-miss d found e endpoints (some n) miss (inl h) = inl h
Notes-miss d found e endpoints (some n) miss (inr h) = inr (inr h)

abbrev of : Direction → Option ℕ × Option ℕ → Option ℕ
of Direction.input found = found.0
of Direction.output found = found.1

note_bulk-Notes :
    (d : Direction) (found : Option ℕ × Option ℕ) (e : EndpointDesc) (endpoints : List EndpointDesc)
    (r : Option ℕ) (t : TransferType) (way : Direction)
    → e.transfer_type ≡ t
    → e.direction ≡ way
    → Notes d (of d (note_bulk found t way e.number)) endpoints r
    → Notes d (of d found) (e ∷ endpoints) r
note_bulk-Notes Direction.input found e es r TransferType.bulk Direction.input k l h =
    Notes-hit Direction.input found.0 e es r k l h
note_bulk-Notes Direction.output found e es r TransferType.bulk Direction.output k l h =
    Notes-hit Direction.output found.1 e es r k l h
note_bulk-Notes Direction.output found e es r TransferType.bulk Direction.input k l h =
    Notes-miss Direction.output found.1 e es r (λ n x. ground arith) h
note_bulk-Notes Direction.input found e es r TransferType.bulk Direction.output k l h =
    Notes-miss Direction.input found.0 e es r (λ n x. ground arith) h
note_bulk-Notes d found e es r TransferType.control way k l h =
    Notes-miss d (of d found) e es r (λ n x. ground arith) h
note_bulk-Notes d found e es r TransferType.isochronous way k l h =
    Notes-miss d (of d found) e es r (λ n x. ground arith) h
note_bulk-Notes d found e es r TransferType.interrupt way k l h =
    Notes-miss d (of d found) e es r (λ n x. ground arith) h

bulk_endpoints-Notes :
    (d : Direction) (found : Option ℕ × Option ℕ) (endpoints : List EndpointDesc)
    → Notes d (of d found) endpoints (of d (bulk_endpoints found endpoints))
unfolding bulk_endpoints
bulk_endpoints-Notes d found [] = nothing_yet (of d found)
  where
    nothing_yet : (r : Option ℕ) → Notes d r [] r
    nothing_yet none = (refl, λ n x. x)
    nothing_yet (some n) = inl refl
bulk_endpoints-Notes d found (e ∷ endpoints) =
    note_bulk-Notes d found e endpoints _ e.transfer_type e.direction refl refl
      (bulk_endpoints-Notes d (note_bulk found e.transfer_type e.direction e.number) endpoints)

choice-Finds :
    (number : ℕ) (setting : Setting) (i o : Option ℕ)
    → Notes Direction.input none setting.endpoints i
    → Notes Direction.output none setting.endpoints o
    → Finds (λ c. IsChoice number c setting) (choice number setting (i, o))
choice-Finds number setting none o (e, no_input) out = λ c x. no_input c.input_number x.3
choice-Finds number setting (some i) none into (e, no_output) = λ c x. no_output c.output_number x.4
choice-Finds number setting (some i) (some o) (inl e) out = absurd (ground arith)
choice-Finds number setting (some i) (some o) (inr p) (inl e) = absurd (ground arith)
choice-Finds number setting (some i) (some o) (inr p) (inr q) = (refl, refl, refl, p, q)

search_settings-Finds :
    (number : ℕ) (settings : List Setting)
    → Finds (λ c. AnyOf (IsChoice number c) settings) (search_settings number settings)
unfolding search_settings
search_settings-Finds number [] = λ c x. x
search_settings-Finds number (setting ∷ settings) =
    let found = bulk_endpoints (none, none) setting.endpoints in
    first_of-Finds (λ c. IsChoice number c setting) (λ c. AnyOf (IsChoice number c) settings)
      (choice number setting found) (search_settings number settings)
      (choice-Finds number setting found.0 found.1
        (bulk_endpoints-Notes Direction.input (none, none) setting.endpoints)
        (bulk_endpoints-Notes Direction.output (none, none) setting.endpoints))
      (search_settings-Finds number settings)

search_interfaces-Finds :
    (number : ℕ) (config : ConfigDesc)
    → Finds (λ c. AnyOf (AnyOf (IsChoice number c)) config) (search_interfaces number config)
unfolding search_interfaces
search_interfaces-Finds number [] = λ c x. x
search_interfaces-Finds number (settings ∷ interfaces) =
    first_of-Finds (λ c. AnyOf (IsChoice number c) settings)
      (λ c. AnyOf (AnyOf (IsChoice number c)) interfaces) (search_settings number settings)
      (search_interfaces number interfaces) (search_settings-Finds number settings)
      (search_interfaces-Finds number interfaces)

search_configs-Finds :
    (configs : Configs) (numbers : List ℕ)
    → Finds (IsOffered configs numbers) (search_configs configs numbers)
unfolding search_configs
search_configs-Finds configs [] = λ c x. x
search_configs-Finds configs (number ∷ numbers) =
    first_of-Finds (λ c. AnyOf (AnyOf (IsChoice number c)) (config_at number configs))
      (IsOffered configs numbers) (search_interfaces number (config_at number configs))
      (search_configs configs numbers) (search_interfaces-Finds number (config_at number configs))
      (search_configs-Finds configs numbers)

AnyOf-insert_int :
    (P : ℕ → Type 0) (n : ℕ) (ns : List ℕ) → AnyOf P (insert_int n ns) ↔ AnyOf P (n ∷ ns)
unfolding insert_int
AnyOf-insert_int P n [] = ((λ x. x), (λ x. x))
AnyOf-insert_int P n (m ∷ ms) =
    let (there, back) = AnyOf-insert_int P n ms in
    elim (Bool-cases (leb n m)) [
      | inl before ↦ rw before ((λ x. x), (λ x. x))
      | inr behind ↦ rw behind (
        (λ x. elim x [
          | inl p ↦ inr (inl p)
          | inr q ↦ elim (there q) [ inl p ↦ inl p | inr r ↦ inr (inr r) ]
        ]),
        (λ x. elim x [
          | inl p ↦ inr (back (inl p))
          | inr q ↦ elim q [ inl p ↦ inl p | inr r ↦ inr (back (inr r)) ]
        ]),
      )
    ]

AnyOf-sort_ints : (P : ℕ → Type 0) (ns : List ℕ) → AnyOf P (sort_ints ns) ↔ AnyOf P ns
unfolding sort_ints
AnyOf-sort_ints P [] = ((λ x. x), (λ x. x))
AnyOf-sort_ints P (n ∷ ns) =
    let (there, back) = AnyOf-sort_ints P ns in
    let (out, into) = AnyOf-insert_int P n (sort_ints ns) in
    (
      (λ x. elim (out x) [ inl p ↦ inl p | inr q ↦ inr (there q) ]),
      (λ x. into (elim x [ inl p ↦ inl p | inr q ↦ inr (back q) ])),
    )

Finds-iff :
    {A : Type 0} (P Q : A → Type 0) (o : Option A) → ((a : A) → P a ↔ Q a) → Finds P o → Finds Q o
Finds-iff P Q none same h = λ a q. h a ((same a).1 q)
Finds-iff P Q (some a) same h = (same a).0 h

-- The search for bulk endpoints is right and complete. What it finds is a setting of one of the device's
-- configurations, with a bulk endpoint of that setting in each direction; and when it finds nothing, the
-- device offers no such setting: not in any configuration, interface or alternate setting.
pub find_bulk_endpoints-Finds :
    (configs : Configs)
    → Finds (IsOffered configs (config_numbers configs)) (find_bulk_endpoints configs)
unfolding find_bulk_endpoints
find_bulk_endpoints-Finds configs =
    Finds-iff (IsOffered configs (sort_ints (config_numbers configs)))
      (IsOffered configs (config_numbers configs)) (find_bulk_endpoints configs)
      (λ c.
        AnyOf-sort_ints (λ number. AnyOf (AnyOf (IsChoice number c)) (config_at number configs))
          (config_numbers configs))
      (search_configs-Finds configs (sort_ints (config_numbers configs)))
