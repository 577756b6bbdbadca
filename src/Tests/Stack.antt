-- ===== src/Tests/Stack.antt =====
-- The driver on the transport, on a USB library whose world is the time. Its reads fill the buffer with zeros.
use remote_mfi.Prelude.{
  ◌≡◌, ℕ, suc, ◌+◌, false, [], ◌∷◌, List, none, some, length, replicate, length-replicate, arith,
  ap, refl,
}
use remote_mfi.Prelude.Int.{ℤ, pos}
use remote_mfi.Errors.{Result, ok, ok_injective}
use remote_mfi.Chip.Registers.{Driver}
use remote_mfi.Chip.Driver.{protocol_major, read_certificate, sign_challenge}
use remote_mfi.Chip.Termination.{ReturnsAfter}
use remote_mfi.Transport.Usb.{Usb}
use remote_mfi.Transport.Transfers.Bounds.{IsBounded}
use remote_mfi.Transport.Session.{Session, Ch341, transaction, endpoints}
use remote_mfi.Effects.Program.{done}
use remote_mfi.Transport.Session.Outcomes.{IsSettled, transaction-IsSettled}
use remote_mfi.Stack.{bus_of}
use remote_mfi.Stack.Clock.{Clock}
use remote_mfi.Transport.Session.Ending.{Ends}
use remote_mfi.Stack.Returns.{driver-returns}
use remote_mfi.Tests.Sessions.{bridge_desc, bridge}

abbrev ticking : Usb
ticking = record {
  World = ℕ;
  Device = Unit;
  Listed = Unit;
  ConfigHandle = Unit;
  Interface = Unit;
  InEndpoint = Unit;
  OutEndpoint = Unit;
  open_device = λ vendor product w. (ok (some tt), w);
  open_devices = λ strings w. ((bridge_desc ∷ [], []), w);
  descriptor = λ d. bridge_desc;
  listed_descriptor = λ d. bridge_desc;
  manufacturer = λ d w. ("wch", w);
  product = λ d w. ("CH341", w);
  device_config = λ d n w. (ok tt, w);
  config_interface = λ c n a w. (ok tt, w);
  in_endpoint = λ i n w. (ok tt, w);
  out_endpoint = λ i n w. (ok tt, w);
  max_packet_size = λ i. 32;
  write_context = λ o bytes timeout w. (ok (length bytes), w);
  read_context = λ i n timeout w. (ok (replicate n 0), suc w);
  close_interface = λ i w. w;
  close_config = λ c w. (ok tt, w);
  close_device = λ d w. (ok tt, w);
  close_listed = λ d w. (ok tt, w);
  close_context = λ w. (ok tt, w);
  sleep = λ d w. w + d;
}

ticking_clock : Clock ticking
ticking_clock = record {
  now = λ w. w;
  now-sleep = λ d w. omega arith;
  now-open_device = λ v p w. omega arith;
  now-device_config = λ d n w. omega arith;
  now-config_interface = λ c n a w. omega arith;
  now-in_endpoint = λ i n w. omega arith;
  now-out_endpoint = λ i n w. omega arith;
  now-write_context = λ o bytes timeout w. omega arith;
  now-read_context = λ i n timeout w. omega arith;
  now-close_interface = λ i w. omega arith;
  now-close_config = λ c w. omega arith;
  now-close_device = λ d w. omega arith;
}

ticking-IsBounded : (s : Session ticking) → IsBounded (endpoints ticking s)
ticking-IsBounded s n timeout w bytes h =
    omega (arith, ap length (ok_injective h), length-replicate {A = ℕ} n 0)

abbrev fresh : Ch341 ticking
fresh = record { usb_ids = bridge ∷ []; speed = 100; session = none; closed = false; allocated = 0 }

abbrev chip : Driver (bus_of ticking ticking_clock.now)
chip = record { address = 0x11 }

driver-returns_example :
    ((address : ℕ) (bytes : List ℕ) (n : ℤ) (s : Ch341 ticking × ℕ)
      → Ends (transaction ticking address bytes n s))
    × ReturnsAfter
        (bus_of ticking ticking_clock.now)
        5
        (protocol_major (bus_of ticking ticking_clock.now) chip none (fresh, 5))
    × ReturnsAfter
        (bus_of ticking ticking_clock.now)
        5
        (read_certificate (bus_of ticking ticking_clock.now) chip none (fresh, 5))
    × ReturnsAfter
        (bus_of ticking ticking_clock.now)
        5
        (sign_challenge (bus_of ticking ticking_clock.now) chip none (1 ∷ []) (fresh, 5))
unfolding ticking_clock
driver-returns_example =
    driver-returns ticking ticking_clock ticking-IsBounded chip none (1 ∷ []) (fresh, 5)

transaction-IsSettled_example :
    (r : Result (List ℕ)) × (t : Ch341 ticking) × (w : ℕ) × (transaction ticking 0x11
        (0x30 ∷ [])
        (pos 2)
        (fresh, 5)
      ≡ done r (t, w))
    × IsSettled ticking fresh r t
transaction-IsSettled_example =
    transaction-IsSettled ticking ticking-IsBounded 0x11 (0x30 ∷ []) (pos 2) fresh 5 refl
