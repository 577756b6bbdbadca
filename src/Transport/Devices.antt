-- ===== src/Transport/Devices.antt =====
-- internal/transport/ch341.go: `findBulkEndpoints`, over the descriptors of gousb. A Go map is the list of its
-- entries, in the order in which a range over it comes upon them.
pub mod Order
pub mod Search
use remote_mfi.Prelude.{
  ℕ, Bool, true, false, List, [], ◌∷◌, Option, none, some, leb, ◌==◌, if◌then◌else◌,
}

-- `gousb.TransferType`
pub data TransferType : Type 0 where
  control isochronous bulk interrupt : TransferType

-- `gousb.EndpointDirection`
pub data Direction : Type 0 where
  input output : Direction

-- The descriptors, as far as the source reads them
pub record EndpointDesc : Type 0 where
  pub number : ℕ
  pub direction : Direction
  pub transfer_type : TransferType

pub record Setting : Type 0 where
  pub number : ℕ
  pub alternate : ℕ
  pub endpoints : List EndpointDesc

-- The settings of each interface of a configuration
abbrev pub ConfigDesc : Type 0
ConfigDesc = List (List Setting)

abbrev pub Configs : Type 0
Configs = List (ℕ × ConfigDesc)

-- `desc.Configs[number]`
unfoldable pub config_at : ℕ → Configs → ConfigDesc
config_at number [] = []
config_at number ((key, config) ∷ configs) =
    if key == number then config else config_at number configs

-- The loop that collects the keys
unfoldable pub config_numbers : Configs → List ℕ
config_numbers [] = []
config_numbers ((key, config) ∷ configs) = key ∷ config_numbers configs

-- `sort.Ints`
unfoldable pub insert_int : ℕ → List ℕ → List ℕ
insert_int n [] = n ∷ []
insert_int n (m ∷ ms) = if leb n m then n ∷ m ∷ ms else m ∷ insert_int n ms

unfoldable pub sort_ints : List ℕ → List ℕ
sort_ints [] = []
sort_ints (n ∷ ns) = insert_int n (sort_ints ns)

-- `if number < 0 { number = endpoint.Number }`; none is -1.
abbrev pub or_first : Option ℕ → ℕ → Option ℕ
or_first none n = some n
or_first (some m) n = some m

-- The body of the loop over the endpoints, on `input` and `output`
abbrev pub note_bulk : Option ℕ × Option ℕ → TransferType → Direction → ℕ → Option ℕ × Option ℕ
note_bulk found TransferType.bulk Direction.input n = (or_first found.0 n, found.1)
note_bulk found TransferType.bulk Direction.output n = (found.0, or_first found.1 n)
note_bulk found TransferType.control direction n = found
note_bulk found TransferType.isochronous direction n = found
note_bulk found TransferType.interrupt direction n = found

unfoldable pub bulk_endpoints : Option ℕ × Option ℕ → List EndpointDesc → Option ℕ × Option ℕ
bulk_endpoints found [] = found
bulk_endpoints found (e ∷ endpoints) =
    bulk_endpoints (note_bulk found e.transfer_type e.direction e.number) endpoints

-- What `findBulkEndpoints` answers if it finds something
pub record Choice : Type 0 where
  pub config_number : ℕ
  pub interface_number : ℕ
  pub alternate : ℕ
  pub input_number : ℕ
  pub output_number : ℕ

abbrev pub choice : ℕ → Setting → Option ℕ × Option ℕ → Option Choice
choice number setting (some i, some o) = some (record {
  config_number = number;
  interface_number = setting.number;
  alternate = setting.alternate;
  input_number = i;
  output_number = o;
})
choice number setting (none, o) = none
choice number setting (some i, none) = none

abbrev pub first_of {ℓ} : {A : Type ℓ} → Option A → Option A → Option A
first_of none b = b
first_of (some a) b = some a

-- The three loops
unfoldable pub search_settings : ℕ → List Setting → Option Choice
search_settings number [] = none
search_settings number (setting ∷ settings) =
    let found = bulk_endpoints (none, none) setting.endpoints in
    first_of (choice number setting found) (search_settings number settings)

unfoldable pub search_interfaces : ℕ → ConfigDesc → Option Choice
search_interfaces number [] = none
search_interfaces number (settings ∷ interfaces) =
    first_of (search_settings number settings) (search_interfaces number interfaces)

unfoldable pub search_configs : Configs → List ℕ → Option Choice
search_configs configs [] = none
search_configs configs (number ∷ numbers) =
    first_of (search_interfaces number (config_at number configs)) (search_configs configs numbers)

-- `findBulkEndpoints`
unfoldable pub find_bulk_endpoints : Configs → Option Choice
find_bulk_endpoints configs = search_configs configs (sort_ints (config_numbers configs))
