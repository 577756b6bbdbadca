-- ===== src/Chip/Certificate.antt =====
-- `ReadCertificate` against a chip that stores a certificate in its data pages.
use Prim.Native.String.{String}
use remote_mfi.Prelude.{
  ℕ, zero, suc, ◌+◌, ◌-◌, ◌*◌, ◌/◌, ◌%◌, ◌≤◌, ◌<◌, ◌≡◌, refl, ap, ap₂, sym, subst, ◌∙◌, false, List,
  [], ◌∷◌, ◌++◌, none, arith, length, le→ltb, min, ◌==◌, take, drop, length-take, length-drop,
  take-append-drop, append_assoc, append-nil, drop-drop, drop-min,
}
use remote_mfi.Errors.{ok}
use remote_mfi.Effects.Action.{Action}
use remote_mfi.Effects.Program.{done}
use remote_mfi.Chip.Bus.{Bus}
use remote_mfi.Chip.Registers.{
  Driver, retry_until, retry_io, select_register_once, read_register_once, read_register,
}
use remote_mfi.Chip.Driver.{
  read_unsigned_big_endian_short, read_windows, read_certificate, big_endian,
}

-- Whenever the register is selected and then as many bytes are read, the chip accepts the selection
-- and answers with `bytes`.
abbrev pub Reads : (b : Bus) → ℕ → ℕ → List ℕ → Type 0
Reads b address register bytes =
    (w : b.World)
    → (b.transaction address (register ∷ []) 0 w).0 ≡ ok []
      × (b.transaction address [] (length bytes) (b.transaction address (register ∷ []) 0 w).1).0
        ≡ ok bytes

-- The chip's register 0x30 holds the length of the certificate, and its pages of 128 bytes are read at
-- the registers from 0x31 on.
pub record StoresCertificate (b : Bus) (address : ℕ) (certificate : List ℕ) : Type 0 where
  pub size : Reads b address 0x30 ((length certificate / 256) ∷ (length certificate % 256) ∷ [])
  pub page :
      (i k : ℕ)
      → 0 < k
      → k ≤ 128
      → 128 * i + k ≤ length certificate
      → Reads b address (0x31 + i) (take k (drop (128 * i) certificate))

-- An action that succeeds at once is not repeated.
pub retry_io-ok :
    (b : Bus) {A : Type 0} (op : String) (action : Action b.World A) (w : b.World) (a : A)
    → (action w).0 ≡ ok a
    → retry_io b op action w ≡ done (ok a) (action w).1
unfolding retry_io retry_until
retry_io-ok b op action w a e = rw (retry_until, e)

read_register_once-Reads :
    (b : Bus) (d : Driver b) (register : ℕ) (bytes : List ℕ) (w : b.World)
    → Reads b d.address register bytes
    → register < 256
    → (read_register_once b d register (length bytes) w).0 ≡ ok bytes
unfolding read_register_once select_register_once
read_register_once-Reads b d register bytes w reads small =
    let m : register % 256 ≡ register = omega arith in rw m (ground (arith, reads w))

pub read_register-Reads :
    (b : Bus) (d : Driver b) (register : ℕ) (bytes : List ℕ) (w : b.World)
    → Reads b d.address register bytes
    → register < 256
    → 0 < length bytes
    → length bytes ≤ 65_525
    → (w' : b.World) × (read_register b d register (length bytes) w ≡ done (ok bytes) w')
unfolding read_register
read_register-Reads b d register bytes w reads small h k = (
  (read_register_once b d register (length bytes) w).1,
  rw (le→ltb (length bytes) 1 h, le→ltb 65_525 (length bytes) k)
      (retry_io-ok b _ (read_register_once b d register (length bytes)) w bytes
        (read_register_once-Reads b d register bytes w reads small)),
)

module _ (b : Bus) (d : Driver b) where
  window_step :
      (fuel register remaining : ℕ) (acc : List ℕ) (w : b.World) {window : List ℕ} {w' : b.World}
      → 0 < remaining
      → read_register b d register (min 128 remaining) w ≡ done (ok window) w'
      → read_windows b d (suc fuel) register remaining acc w
        ≡ read_windows b d fuel (register + 1) (remaining - min 128 remaining) (acc ++ window) w'
  unfolding read_windows
  window_step fuel register remaining acc w h e =
      let more : (remaining == 0) ≡ false = ground arith in rw more (rw (read_windows, e))

  windows_end :
      (fuel register : ℕ) (acc : List ℕ) (w : b.World)
      → read_windows b d (suc fuel) register 0 acc w ≡ done (ok acc) w
  unfolding read_windows
  windows_end fuel register acc w = refl

  windows_at :
      (fuel : ℕ) {r r' m m' : ℕ} (acc : List ℕ) (w : b.World)
      → r ≡ r'
      → m ≡ m'
      → read_windows b d fuel r m acc w ≡ read_windows b d fuel r' m' acc w
  windows_at fuel acc w p q = ap₂ (λ r m. read_windows b d fuel r m acc w) p q

drop_at : {m n : ℕ} (xs : List ℕ) → m ≡ n → drop m xs ≡ drop n xs
drop_at xs e = ap (λ k. drop k xs) e

-- The bytes of the certificate from `acc` on are read window by window.
windows_correct :
    (b : Bus) (d : Driver b) {certificate : List ℕ}
    → StoresCertificate b d.address certificate
    → length certificate ≤ 26_496
    → (fuel i : ℕ) (acc rest : List ℕ) (w : b.World) → length rest < fuel
    → rest ≡ drop (128 * i) certificate
    → acc ++ rest ≡ certificate
    → (w' : b.World) × (read_windows b d fuel (0x31 + i) (length rest) acc w
        ≡ done (ok certificate) w')
windows_correct b d s fits zero i acc rest w f e split = absurd (omega arith)
windows_correct b d s fits (suc fuel) i acc [] w f e split = (
  w,
  windows_end b d fuel (0x31 + i) acc w ∙ ap (λ cs. done (ok cs) w) (sym (append-nil acc) ∙ split),
)
windows_correct b d {certificate} s fits (suc fuel) i acc (x ∷ xs) w f e split =
    let rest = x ∷ xs in
    let k = min 128 (length rest) in
    let size : length rest ≡ length certificate - 128 * i =
      ap length e ∙ length-drop (128 * i) certificate in
    let reads : Reads b d.address (0x31 + i) (take k rest) =
      subst (λ ys. Reads b d.address (0x31 + i) (take k ys)) (sym e)
        (s.page i k (omega arith) (omega arith) (omega arith)) in
    let taken : length (take k rest) ≡ k = length-take k rest ∙ omega arith in
    let (w₁, one) =
      read_register-Reads b d (0x31 + i) (take k rest) w reads (omega arith) (omega arith)
        (omega arith) in
    let one' : read_register b d (0x31 + i) k w ≡ done (ok (take k rest)) w₁ =
      subst (λ n. read_register b d (0x31 + i) n w ≡ done (ok (take k rest)) w₁) taken one in
    let left : length (drop k rest) ≡ length rest - k = length-drop k rest in
    let next : drop k rest ≡ drop (128 * (i + 1)) certificate =
      drop-min 128 rest
      ∙ ap (drop 128) e
      ∙ drop-drop 128 (128 * i) certificate
      ∙ drop_at certificate (omega arith) in
    let whole : (acc ++ take k rest) ++ drop k rest ≡ certificate =
      append_assoc acc (take k rest) (drop k rest)
      ∙ ap (◌++◌ acc) (take-append-drop k rest)
      ∙ split in
    let (w', last) =
      windows_correct b d s fits fuel (i + 1) (acc ++ take k rest) (drop k rest) w₁ (omega arith)
        next whole in
    (
      w',
      window_step b d fuel (0x31 + i) (length rest) acc w (omega arith) one'
          ∙ windows_at b d fuel (acc ++ take k rest) w₁ (omega arith) (sym left)
          ∙ last,
    )

-- From a chip that stores a certificate of 1 to 26496 bytes, the driver reads exactly the certificate.
pub read_certificate_correct :
    (b : Bus) (d : Driver b) {certificate : List ℕ}
    → StoresCertificate b d.address certificate
    → 0 < length certificate
    → length certificate ≤ 26_496
    → (w : b.World) → (w' : b.World) × (read_certificate b d none w ≡ done (ok certificate) w')
unfolding read_certificate read_unsigned_big_endian_short
read_certificate_correct b d {certificate} s h k w =
    let n = length certificate in
    let (w₁, sized) =
      read_register-Reads b d 0x30 ((n / 256) ∷ (n % 256) ∷ []) w s.size (omega arith) (omega arith)
        (omega arith) in
    let (w₂, e) = windows_correct b d s k (suc n) 0 [] certificate w₁ (omega arith) refl refl in
    let value : big_endian ((n / 256) ∷ (n % 256) ∷ []) ≡ n = omega arith in
    (w₂, rw sized (rw (value, le→ltb n 1 h, le→ltb 65_525 n (omega arith)) e))
