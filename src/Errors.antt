-- ===== src/Errors.antt =====
-- Go's `error` values as the packages build them: internal/transport/transport.go,
-- internal/chip/driver.go (the type Error and IsKind) and internal/biz/service.go (the sentinels).
-- `errors.Is`, `errors.As` and `Unwrap` walk the chain of wrapped errors.
use Prim.Native.String.{String}
use remote_mfi.Prelude.{ℕ, ◌≡◌, refl, ◌⊎◌, inl, inr, Bool, true, false, Option, none, some, ◌==◌}

-- `transport.ErrorKind`
pub data TransportErrorKind : Type 0 where
  invalid_request device_missing permission busy timeout nack protocol io : TransportErrorKind

-- `chip.ErrorKind`
pub data ChipErrorKind : Type 0 where
  invalid_data auth_failed : ChipErrorKind

-- The package-level errors of internal/biz.
pub data Sentinel : Type 0 where
  chip_busy chip_missing request_id_reuse challenge_size request_id_format : Sentinel

-- `context.Canceled` and `context.DeadlineExceeded`
pub data ContextError : Type 0 where
  canceled deadline_exceeded : ContextError

-- The statuses of `gousb.TransferStatus` and `gousb.Error` that the source names.
pub data TransferStatus : Type 0 where
  timed_out cancelled no_device stall overflow : TransferStatus
  other_status : ℕ → TransferStatus

pub data UsbError : Type 0 where
  access busy no_device not_found timeout invalid_param pipe overflow : UsbError
  other_error : ℕ → UsbError

pub data GoError : Type 0 where
  -- `errors.New` and `fmt.Errorf` without `%w`
  text : String → GoError
  sentinel : Sentinel → GoError
  context : ContextError → GoError
  transfer : TransferStatus → GoError
  usb : UsbError → GoError
  -- `&transport.Error{Kind, Operation, Err}`
  transport : TransportErrorKind → String → GoError → GoError
  -- `&chip.Error{Kind, Operation, Code, Err}`
  chip : ChipErrorKind → String → Option ℕ → GoError → GoError
  -- `fmt.Errorf("<operation>: %w", err)`
  wrap : String → GoError → GoError
  -- `fmt.Errorf("%w: %v", err, detail)`: the detail is text, not part of the chain
  wrap_detail : GoError → GoError → GoError

pub data Result {ℓ} (A : Type ℓ) : Type ℓ where
  ok : A → Result A
  err : GoError → Result A

-- The rest of a function behind `if err != nil { return err }`
infixl 5 ◌>>=◌
abbrev pub ◌>>=◌ {ℓ κ} : {A : Type ℓ} {B : Type κ} → Result A → (A → Result B) → Result B
err failure >>= rest = err failure
ok value >>= rest = rest value

infixl 5 ◌>>◌
abbrev pub ◌>>◌ {ℓ κ} : {A : Type ℓ} {B : Type κ} → Result A → Result B → Result B
first >> rest = first >>= λ _. rest

-- `if failed { return err }`
abbrev pub refuse : Bool → GoError → Result (Unit {0})
refuse true failure = err failure
refuse false failure = ok tt

-- `errors.As(err, &transportError)`: the kind of the first `*transport.Error` of the chain.
unfoldable pub as_transport : GoError → Option TransportErrorKind
as_transport (transport kind _ _) = some kind
as_transport (chip _ _ _ e) = as_transport e
as_transport (wrap _ e) = as_transport e
as_transport (wrap_detail e _) = as_transport e
as_transport _ = none

-- `errors.As(err, &chipError)`: the kind and the code of the first `*chip.Error` of the chain.
unfoldable pub as_chip : GoError → Option (ChipErrorKind × Option ℕ)
as_chip (chip kind _ code _) = some (kind, code)
as_chip (transport _ _ e) = as_chip e
as_chip (wrap _ e) = as_chip e
as_chip (wrap_detail e _) = as_chip e
as_chip _ = none

abbrev pub kind_index : TransportErrorKind → ℕ
kind_index invalid_request = 0
kind_index device_missing = 1
kind_index permission = 2
kind_index busy = 3
kind_index timeout = 4
kind_index nack = 5
kind_index protocol = 6
kind_index io = 7

abbrev has_kind : TransportErrorKind → Option TransportErrorKind → Bool
has_kind kind none = false
has_kind kind (some k) = kind_index k == kind_index kind

-- `transport.IsKind`
unfoldable pub is_transport_kind : GoError → TransportErrorKind → Bool
unfolding as_transport
is_transport_kind e kind = has_kind kind (as_transport e)

abbrev pub chip_kind_index : ChipErrorKind → ℕ
chip_kind_index invalid_data = 0
chip_kind_index auth_failed = 1

abbrev has_chip_kind : ChipErrorKind → Option (ChipErrorKind × Option ℕ) → Bool
has_chip_kind kind none = false
has_chip_kind kind (some (k, code)) = chip_kind_index k == chip_kind_index kind

-- `chip.IsKind`
unfoldable pub is_chip_kind : GoError → ChipErrorKind → Bool
unfolding as_chip
is_chip_kind e kind = has_chip_kind kind (as_chip e)

abbrev pub sentinel_index : Sentinel → ℕ
sentinel_index chip_busy = 0
sentinel_index chip_missing = 1
sentinel_index request_id_reuse = 2
sentinel_index challenge_size = 3
sentinel_index request_id_format = 4

-- `errors.Is(err, ErrX)`: a sentinel wraps nothing, so only the end of the chain can be one.
unfoldable pub is_sentinel : GoError → Sentinel → Bool
is_sentinel (sentinel s) t = sentinel_index s == sentinel_index t
is_sentinel (transport _ _ e) t = is_sentinel e t
is_sentinel (chip _ _ _ e) t = is_sentinel e t
is_sentinel (wrap _ e) t = is_sentinel e t
is_sentinel (wrap_detail e _) t = is_sentinel e t
is_sentinel _ t = false

-- `errors.Is(err, context.Canceled)` and `errors.Is(err, context.DeadlineExceeded)`
abbrev context_index : ContextError → ℕ
context_index canceled = 0
context_index deadline_exceeded = 1

unfoldable pub is_context : GoError → ContextError → Bool
is_context (context c) t = context_index c == context_index t
is_context (transport _ _ e) t = is_context e t
is_context (chip _ _ _ e) t = is_context e t
is_context (wrap _ e) t = is_context e t
is_context (wrap_detail e _) t = is_context e t
is_context _ t = false

pub Result-cases {ℓ} :
    {A : Type ℓ} (r : Result A) → ((a : A) × (r ≡ ok a)) ⊎ ((e : GoError) × (r ≡ err e))
Result-cases (ok a) = inl (a, refl)
Result-cases (err e) = inr (e, refl)

-- Inversion of a sequence of two steps that ended well
pub >>=-eq-ok {ℓ κ} :
    {A : Type ℓ} {B : Type κ} (first : Result A) (rest : A → Result B) {b : B}
    → (first >>= rest) ≡ ok b
    → (a : A) × (first ≡ ok a) × (rest a ≡ ok b)
>>=-eq-ok (ok a) rest h = (a, refl, h)
>>=-eq-ok (err e) rest h = cc

pub refuse-eq-ok :
    (test : Bool) (failure : GoError) {u : Unit {0}} → refuse test failure ≡ ok u → test ≡ false
refuse-eq-ok true failure h = cc
refuse-eq-ok false failure h = refl

pub ok_injective {ℓ} : {A : Type ℓ} {a b : A} → ok a ≡ ok b → a ≡ b
ok_injective h = cc
