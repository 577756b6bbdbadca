-- ===== src/Tests/Answers.antt =====
-- A bridge that answers every packet with good status bytes, and every byte to read with 7. Its world is the
-- queue and what was sent.
use remote_mfi.Prelude.{
  ℕ, All, Option, none, zero, suc, ◌≡◌, refl, ap, false, List, [], ◌∷◌, ◌++◌, some, length,
  replicate, length-replicate, take, drop, arith,
}
use remote_mfi.Prelude.Int.{pos}
use remote_mfi.Errors.{ok}
use remote_mfi.Effects.Program.{done}
use remote_mfi.Transport.Encoder.{encode_configuration, speed_command}
use remote_mfi.Transport.Bus.Replies.{packet_replies, IsAcked}
use remote_mfi.Transport.Usb.{Usb}
use remote_mfi.Transport.Session.{Session, Ch341, endpoints, transaction}
use remote_mfi.Transport.Session.Answers.{transaction-answers}
use remote_mfi.Transport.Execution.Responses.{IsBridge}
use remote_mfi.Tests.Sessions.{bridge_desc, bridge}

abbrev Queue : Type 0
Queue = List ℕ × List ℕ

abbrev reply_to : Option (ℕ × ℕ) → Queue → Queue
reply_to (some (s, d)) (queue, sent) =
    (queue ++ (replicate s 0 ++ replicate d 7), sent ++ replicate d 7)
reply_to none w = w

abbrev answering : Usb
answering = record {
  World = Queue;
  Device = Unit;
  Listed = Unit;
  ConfigHandle = Unit;
  Interface = Unit;
  InEndpoint = Unit;
  OutEndpoint = Unit;
  open_device = λ vendor product w. (ok (some tt), w);
  open_devices = λ strings w. ((bridge_desc ∷ [], []), w);
  descriptor = λ d. bridge_desc;
  listed_descriptor = λ d. bridge_desc;
  manufacturer = λ d w. ("wch", w);
  product = λ d w. ("CH341", w);
  device_config = λ d n w. (ok tt, w);
  config_interface = λ c n a w. (ok tt, w);
  in_endpoint = λ i n w. (ok tt, w);
  out_endpoint = λ i n w. (ok tt, w);
  max_packet_size = λ i. 32;
  write_context = λ o bytes timeout w. (ok (length bytes), reply_to (packet_replies bytes) w);
  read_context = λ i n timeout w. (ok (take n w.0), (drop n w.0, w.1));
  close_interface = λ i w. w;
  close_config = λ c w. (ok tt, w);
  close_device = λ d w. (ok tt, w);
  close_listed = λ d w. (ok tt, w);
  close_context = λ w. (ok tt, w);
  sleep = λ d w. w;
}

abbrev session : Session answering
session = record {
  pointer = 0;
  device = tt;
  config = tt;
  iface = tt;
  input = tt;
  output = tt;
  identity = "1a86:5512";
}

abbrev transport : Ch341 answering
transport = record {
  usb_ids = bridge ∷ [];
  speed = 100;
  session = some session;
  closed = false;
  allocated = 1;
}

zeros-IsAcked : (n : ℕ) → All IsAcked (replicate n 0)
zeros-IsAcked zero = tt
zeros-IsAcked (suc n) = (refl, zeros-IsAcked n)

answering-IsBridge : IsBridge (endpoints answering session)
answering-IsBridge = record {
  pending = λ w. w.0;
  sent = λ w. w.1;
  write-replies = λ packet timeout w counts h. record {
    status = replicate counts.0 0;
    data_bytes = replicate counts.1 7;
    taken = refl;
    good = zeros-IsAcked counts.0;
    status_count = length-replicate counts.0 0;
    data_count = length-replicate counts.1 7;
    queued = ap (λ r. (reply_to r w).0) h;
    counted = ap (λ r. (reply_to r w).1) h;
  };
  read-takes = λ n timeout w one more. (refl, refl, refl);
  sleep-keeps = λ d w. (refl, refl);
}

speed_run : encode_configuration 100 ≡ ok (0xaa ∷ 0x61 ∷ 0x00 ∷ [])
unfolding encode_configuration speed_command
speed_run = refl

transaction-answers_example :
    (response : List ℕ) × (w : Queue) × (transaction answering 0x11
        (0x30 ∷ [])
        (pos 2)
        (transport, ([], 1 ∷ []))
      ≡ done (ok response) (transport, w))
    × (length response ≡ 2)
    × (w.1 ≡ 1 ∷ [] ++ response)
    × (w.0 ≡ [])
unfolding answering-IsBridge
transaction-answers_example =
    transaction-answers answering transport session answering-IsBridge 0x11 (0x30 ∷ []) 2
      ([], 1 ∷ []) refl refl speed_run (omega arith) refl
