-- ===== src/Transport/Transfers/Bounds.antt =====
-- What a bulk read may answer.
use remote_mfi.Prelude.{
  if◌then◌else◌, ℕ, zero, suc, ◌+◌, ◌-◌, ◌≤◌, ◌<◌, ◌≡◌, ◌⊎◌, refl, min, Bool, true, ◌||◌, ◌&&◌, inl,
  inr, List, [], ◌++◌, some, arith, length, length-append, ltb, ltb→lt, ltb→le, ◌==◌, ==_iff,
  Bool-cases,
}
use remote_mfi.Errors.{ok, err, TransportErrorKind, as_transport, device_missing, Result-cases}
use remote_mfi.Effects.Program.{Outcome, done, out_of_fuel}
use remote_mfi.Transport.Faults.{classify_usb_error, is_timeout}
use remote_mfi.Transport.Transfers.{Endpoints, packet_size, read_packets, bulk_read_at_most}

-- A read puts no more bytes into a buffer than it has room for.
abbrev pub IsBounded : Endpoints → Type 0
IsBounded e =
    (n timeout : ℕ) (w : e.World) (bytes : List ℕ)
    → (e.read_context n timeout w).0 ≡ ok bytes
    → length bytes ≤ n

-- The run ends, with bytes or with an error of the transport.
abbrev pub IsReading : {W : Type 0} → ℕ → Bool → Outcome W (List ℕ) → Type 0
IsReading most allow_empty out_of_fuel = ⊥
IsReading most allow_empty (done (ok bytes) w) =
    (length bytes ≤ most) × ((0 < length bytes) ⊎ (allow_empty ≡ true) ⊎ (most ≡ 0))
IsReading most allow_empty (done (err x) w) =
    (kind : TransportErrorKind) × (as_transport x ≡ some kind)

allowed_empty :
    (received : List ℕ) (most : ℕ) (allow_empty : Bool)
    → (ltb 0 (length received) || allow_empty) ≡ true
    → (0 < length received) ⊎ (allow_empty ≡ true) ⊎ (most ≡ 0)
allowed_empty received most allow_empty h = ground arith

module _ (e : Endpoints) (bounded : IsBounded e) where
  open e use {World, read_context}

  read_packets-IsReading :
      (fuel most first quiet : ℕ) (allow_empty : Bool) (received : List ℕ) (w : World)
      → most < fuel + length received
      → length received ≤ most
      → 0 < most
      → IsReading most allow_empty (read_packets e fuel most first quiet allow_empty received w)
  unfolding read_packets classify_usb_error as_transport
  read_packets-IsReading zero most first quiet allow_empty received w enough fits some_wanted =
      absurd (omega arith)
  read_packets-IsReading (suc fuel) most first quiet allow_empty received w enough fits
        some_wanted =
      let timeout = if length received == 0 then first else quiet in
      let room = min (most - length received) (packet_size e) in
      elim (Bool-cases (ltb (length received) most)) [
        | inr full ↦
            rw (read_packets, full) (fits, inl (omega (arith, ltb→le (length received) most full)))
        | inl short ↦ elim (Result-cases (read_context room timeout w).0) [
          | inl (packet, got) ↦ elim (Bool-cases (length packet == 0)) [
            | inl empty ↦ elim (Bool-cases (ltb 0 (length received) || allow_empty)) [
              | inl allowed ↦
                  rw (read_packets, short, got, empty, allowed)
                    (fits, allowed_empty received most allow_empty allowed)
              | inr missing ↦ rw (read_packets, short, got, empty, missing) (device_missing, refl)
            ]
            | inr some_more ↦
                let size = bounded room timeout w packet got in
                let joined = length-append received packet in
                let positive : 0 < length packet = ground arith in
                let rest =
                  read_packets-IsReading fuel most first quiet allow_empty (received ++ packet)
                    (read_context room timeout w).1 (omega arith)
                    (omega (arith, ltb→lt (length received) most short)) some_wanted in
                rw (read_packets, short, got, some_more) rest
          ]
          | inr (x, failed) ↦
              elim (Bool-cases ((ltb 0 (length received) || allow_empty) && is_timeout x)) [
                | inl stop ↦
                    rw (read_packets, short, failed, stop)
                      (fits, allowed_empty received most allow_empty (ground arith))
                | inr fail ↦ rw (read_packets, short, failed, fail) (_, refl)
              ]
        ]
      ]

-- On endpoints that put no more bytes into a buffer than it has room for, a bulk read ends. What it answers is
-- no more than was asked for, and not empty, except if that is allowed or nothing was asked for; or it is an
-- error of the transport.
pub bulk_read_at_most-IsReading :
    (e : Endpoints)
    → IsBounded e
    → (most first quiet : ℕ) (allow_empty : Bool) (w : Endpoints.World e)
    → IsReading most allow_empty (bulk_read_at_most e most first quiet allow_empty w)
unfolding bulk_read_at_most
bulk_read_at_most-IsReading e bounded most first quiet allow_empty w =
    elim (Bool-cases (most == 0)) [
      | inl nothing ↦
          rw (bulk_read_at_most, nothing) (omega arith, inr (inr ((==_iff most 0).0 nothing)))
      | inr wanted ↦
          rw (bulk_read_at_most, wanted)
            (read_packets-IsReading e bounded (suc most) most first quiet allow_empty [] w
              (omega arith) (omega arith) (ground (arith, wanted)))
    ]
