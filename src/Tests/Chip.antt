-- ===== src/Tests/Chip.antt =====
-- The driver on a small chip that is simulated: the time, and the register that is selected.
use remote_mfi.Prelude.{
  ℕ, zero, suc, ◌+◌, ◌*◌, ◌≤◌, ◌<◌, ◌≡◌, refl, List, [], ◌∷◌, none, arith, take, drop, get_or, ◌==◌,
  if◌then◌else◌,
}
use remote_mfi.Errors.{ok}
use remote_mfi.Effects.Action.{Action}
use remote_mfi.Effects.Program.{done}
use remote_mfi.Chip.Bus.{Bus, IsClocked}
use remote_mfi.Chip.Registers.{
  Driver, retry_until, retry_io, select_register_once, read_register_once, read_register,
  write_register_once, write_register,
}
use remote_mfi.Chip.Driver.{
  read_certificate, sign_challenge, protocol_major, read_byte, read_unsigned_big_endian_short,
  read_signature, write_unsigned_big_endian_short, start_authentication, poll_status,
  await_authentication, read_windows,
}
use remote_mfi.Chip.Termination.{ReturnsAfter}
use remote_mfi.Chip.Totality.{operations_return}
use remote_mfi.Chip.Certificate.{Reads, StoresCertificate, read_certificate_correct}
use remote_mfi.Chip.Results.{read_certificate-bounds}
use remote_mfi.Chip.Signing.{IsSigned, sign_challenge-authenticated}

abbrev stored : List ℕ
stored = 7 ∷ 8 ∷ 9 ∷ []

-- What the registers hold: the status of success, a signature of two bytes, and the certificate
abbrev contents : ℕ → List ℕ
contents register =
    if register == 0x10
    then 0x10 ∷ []
    else if register == 0x11
    then 0 ∷ 2 ∷ []
    else if register == 0x12
    then 5 ∷ 6 ∷ []
    else if register == 0x30
    then 0 ∷ 3 ∷ []
    else if register == 0x31
    then stored
    else 2 ∷ []

-- A transaction takes a nanosecond.
abbrev access : List ℕ → ℕ → Action (ℕ × ℕ) (List ℕ)
access bytes zero (clock, register) = (ok [], (clock + 1, get_or bytes 0 0))
access bytes (suc n) (clock, register) =
    (ok (take (suc n) (contents register)), (clock + 1, register))

abbrev pub simulated : Bus
simulated = record {
  World = ℕ × ℕ;
  transaction = λ address bytes n. access bytes n;
  now = λ w. w.0;
  sleep = λ d w. (w.0 + d, w.1);
}

abbrev driver : Driver simulated
driver = record { address = 0x11 }

sign_run :
    sign_challenge simulated driver none (1 ∷ []) (0, 0) ≡ done (ok (5 ∷ 6 ∷ [])) (10_000_009, 0x12)
unfolding sign_challenge read_byte read_unsigned_big_endian_short read_signature
    write_unsigned_big_endian_short start_authentication poll_status await_authentication
    retry_until retry_io select_register_once read_register_once read_register write_register_once
    write_register
sign_run = refl

certificate_run : read_certificate simulated driver none (0, 0) ≡ done (ok stored) (4, 0x31)
unfolding read_certificate read_windows read_unsigned_big_endian_short retry_until retry_io
    select_register_once read_register_once read_register
certificate_run = refl

simulated-IsClocked : IsClocked simulated
simulated-IsClocked = record {
  now-sleep = λ d w. omega arith;
  now-transaction = λ address bytes n w. later bytes n w;
}
  where
    later : (bytes : List ℕ) (n : ℕ) (w : ℕ × ℕ) → w.0 ≤ (access bytes n w).1.0
    later bytes zero w = omega arith
    later bytes (suc n) w = omega arith

simulated-StoresCertificate : StoresCertificate simulated 0x11 stored
simulated-StoresCertificate = record { size = λ w. (refl, refl); page = pages }
  where
    page : (k : ℕ) → 0 < k → k ≤ 3 → Reads simulated 0x11 0x31 (take k stored)
    page zero positive fits w = absurd (omega arith)
    page (suc zero) positive fits w = (refl, refl)
    page (suc (suc zero)) positive fits w = (refl, refl)
    page (suc (suc (suc zero))) positive fits w = (refl, refl)
    page (suc (suc (suc (suc k)))) positive fits w = absurd (omega arith)

    pages :
        (i k : ℕ)
        → 0 < k
        → k ≤ 128
        → 128 * i + k ≤ 3
        → Reads simulated 0x11 (0x31 + i) (take k (drop (128 * i) stored))
    pages zero k positive small fits = page k positive (omega arith)
    pages (suc i) k positive small fits = absurd (omega arith)

sign_challenge-authenticated_example :
    (1 ≤ 1)
    × (1 ≤ 128)
    × IsSigned simulated driver (1 ∷ []) (0, 0) (5 ∷ 6 ∷ []) (10_000_009, 0x12)
    × (1 ≤ 2)
    × (2 ≤ 65_525)
sign_challenge-authenticated_example =
    sign_challenge-authenticated simulated driver none (1 ∷ []) (0, 0) sign_run

read_certificate_correct_example :
    (w : ℕ × ℕ) × (read_certificate simulated driver none (5, 0) ≡ done (ok stored) w)
read_certificate_correct_example =
    read_certificate_correct simulated driver simulated-StoresCertificate (omega arith)
      (omega arith) (5, 0)

read_certificate-bounds_example : (1 ≤ 3) × (3 ≤ 65_525)
read_certificate-bounds_example =
    read_certificate-bounds simulated driver none (0, 0) certificate_run

operations_return_example :
    ReturnsAfter simulated 0 (protocol_major simulated driver none (0, 0))
    × ReturnsAfter simulated 0 (read_certificate simulated driver none (0, 0))
    × ReturnsAfter simulated 0 (sign_challenge simulated driver none (1 ∷ []) (0, 0))
operations_return_example =
    operations_return simulated simulated-IsClocked driver none (1 ∷ []) (0, 0)
