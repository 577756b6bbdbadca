-- ===== src/Transport/Execution/Responses.antt =====
-- `execute` on a bridge that answers: nothing that it sends is lost or left behind.
pub mod Whole
pub mod Nack
use remote_mfi.Prelude.{
  ℕ, All, some, zero, suc, ◌+◌, ◌-◌, ◌≤◌, ◌<◌, ◌≡◌, refl, sym, ap, subst, ◌∙◌, min, max, Bool, true,
  false, ◌||◌, ◌&&◌, not, inl, inr, List, [], ◌∷◌, ◌++◌, length, ltb, ◌==◌, if◌then◌else◌,
  Bool-cases, take, drop, append-nil, append_assoc, length-append, length-take, length-drop,
  drop_of_length-le, ltb→le, ltb→lt, take-append-drop, take-append_exact, drop-append_exact,
}
use native.Mathlib.Omega.{arith}
use remote_mfi.Errors.{Result, ok, err, GoError, Result-cases}
use remote_mfi.Effects.Program.{Outcome, Program, done, out_of_fuel, resume, refuse}
use remote_mfi.Transport.Encoder.{encode_configuration}
use remote_mfi.Transport.Encoder.Readings.{answers}
use remote_mfi.Transport.Decoder.{check_status_bytes}
use remote_mfi.Transport.Bus.Replies.{packet_replies, IsAcked}
use remote_mfi.Transport.Faults.{minimum_transfer_timeout, is_timeout}
use remote_mfi.Transport.Segments.{segments}
use remote_mfi.Transport.Transfers.{
  Endpoints, bulk_write, bulk_read_at_most, read_packets, packet_size,
}
use remote_mfi.Transport.Execution.{
  attempt, check, too_short, wrong_length, receive, execute_segment, execute_segments, pause,
  execute, response_quiet_timeout,
}

-- What a bridge does with a packet that it understands: it takes the packet whole, and puts status bytes, which
-- say that every byte was acknowledged, and then data bytes into its queue, of each as many as the CH341 answers
-- to such a packet.
pub record Reply (e : Endpoints) (pending sent : e.World → List ℕ) (packet : List ℕ) (timeout : ℕ)
    (w : e.World) (counts : ℕ × ℕ) : Type 0 where
  pub status : List ℕ
  pub data_bytes : List ℕ
  pub taken : (e.write_context packet timeout w).0 ≡ ok (length packet)
  pub good : All IsAcked status
  pub status_count : length status ≡ counts.0
  pub data_count : length data_bytes ≡ counts.1
  pub queued : pending (e.write_context packet timeout w).1 ≡ pending w ++ (status ++ data_bytes)
  pub counted : sent (e.write_context packet timeout w).1 ≡ sent w ++ data_bytes

-- A bridge that answers as the CH341 does (Transport/Bus/Replies), on a bus where everybody acknowledges: its
-- queue, and the data bytes that it has sent so far
pub record IsBridge (e : Endpoints) : Type 0 where
  pub pending : e.World → List ℕ
  pub sent : e.World → List ℕ
  pub write-replies :
      (packet : List ℕ) (timeout : ℕ) (w : e.World) (counts : ℕ × ℕ)
      → packet_replies packet ≡ some counts
      → Reply e pending sent packet timeout w counts
  pub read-takes :
      (n timeout : ℕ) (w : e.World)
      → 1 ≤ n
      → 1 ≤ length (pending w)
      → ((e.read_context n timeout w).0 ≡ ok (take n (pending w)))
        × (pending (e.read_context n timeout w).1 ≡ drop n (pending w))
        × (sent (e.read_context n timeout w).1 ≡ sent w)
  pub sleep-keeps :
      (d : ℕ) (w : e.World) → (pending (e.sleep d w) ≡ pending w) × (sent (e.sleep d w) ≡ sent w)

module _ (e : Endpoints) (bridge : IsBridge e) where
  open e use {World}
  open bridge use {pending, sent}

  -- The run ends well, the queue is empty, and the answer is what was sent meanwhile.
  pub record Drains (o : Outcome World (List ℕ)) (answer : List ℕ) (sent_then : List ℕ)
      : Type 0 where
    pub world : World
    pub ends : o ≡ done (ok answer) world
    pub empty : pending world ≡ []
    pub sent_now : sent world ≡ sent_then

  -- A bulk read of as many bytes as are in the queue
  read_packets-Drains :
      (fuel most first quiet : ℕ) (allow : Bool) (received : List ℕ) (w : World)
      → length received + length (pending w) ≡ most
      → length (pending w) < fuel
      → Drains
          (read_packets e fuel most first quiet allow received w)
          (received ++ pending w)
          (sent w)
  unfolding read_packets
  read_packets-Drains zero most first quiet allow received w full enough = absurd (omega arith)
  read_packets-Drains (suc fuel) most first quiet allow received w full enough =
      elim (Bool-cases (ltb (length received) most)) [
        | inr all ↦
            let nothing : pending w ≡ [] =
              drop_of_length-le 0 (pending w) (omega (arith, ltb→le (length received) most all)) in
            record {
              world = w;
              ends = rw (all, nothing, append-nil) refl;
              empty = nothing;
              sent_now = refl;
            }
        | inl room ↦
            let n = min (most - length received) (packet_size e) in
            let timeout = if length received == 0 then first else quiet in
            let w' = (e.read_context n timeout w).1 in
            let below = ltb→lt (length received) most room in
            let (f, g, k) =
              bridge.read-takes n timeout w (omega (arith, below)) (omega (arith, below)) in
            let some_bytes : (length (take n (pending w)) == 0) ≡ false =
              ground (arith, below, length-take n (pending w)) in
            let left : length (pending w') ≡ length (pending w) - n =
              ap length g ∙ length-drop n (pending w) in
            let rest =
              read_packets-Drains fuel most first quiet allow (received ++ take n (pending w)) w'
                (omega (
                  arith,
                  below,
                  left,
                  length-append received (take n (pending w)),
                  length-take n (pending w),
                ))
                (omega (arith, below, left)) in
            record {
              world = rest.world;
              ends =
                  rw (room, f, some_bytes)
                    (rest.ends
                      ∙ ap (λ x. done (ok x) rest.world)
                          (append_assoc received (take n (pending w)) (pending w')
                            ∙ ap (λ x. received ++ (take n (pending w) ++ x)) g
                            ∙ ap (λ x. received ++ x) (take-append-drop n (pending w))));
              empty = rest.empty;
              sent_now = rest.sent_now ∙ k;
            }
      ]

  pub bulk_read_at_most-Drains :
      (most first quiet : ℕ) (allow : Bool) (w : World) (bytes : List ℕ)
      → pending w ≡ bytes
      → length bytes ≡ most
      → Drains (bulk_read_at_most e most first quiet allow w) bytes (sent w)
  unfolding bulk_read_at_most
  bulk_read_at_most-Drains most first quiet allow w bytes queue full =
      let size : length (pending w) ≡ most = ap length queue ∙ full in
      elim (Bool-cases (most == 0)) [
        | inr some_bytes ↦ rw some_bytes (
            subst (λ x. Drains (read_packets e (suc most) most first quiet allow [] w) x (sent w))
              queue
              (read_packets-Drains (suc most) most first quiet allow [] w (omega arith)
                (omega arith)))
        | inl nothing ↦
            let empty : bytes ≡ [] = drop_of_length-le 0 bytes (ground arith) in
            record {
              world = w;
              ends = rw (nothing, empty) refl;
              empty = queue ∙ empty;
              sent_now = refl;
            }
      ]

  -- The answer to one packet: the status bytes are checked and taken off.
  receive-Drains :
      (timeout : ℕ) (counts : ℕ × ℕ) (status data_bytes : List ℕ) (w : World)
      → check_status_bytes status ≡ ok tt
      → length status ≡ counts.0
      → length data_bytes ≡ counts.1
      → pending w ≡ status ++ data_bytes
      → Drains (receive e timeout counts w) data_bytes (sent w)
  unfolding receive
  receive-Drains timeout (written, wanted) status data_bytes w good s d queue =
      let both = status ++ data_bytes in
      let size : length both ≡ written + wanted = omega (arith, length-append status data_bytes) in
      let all =
        bulk_read_at_most-Drains (written + wanted)
          (if ltb 0 wanted then timeout else response_quiet_timeout) response_quiet_timeout
          (wanted == 0) w both queue size in
      let enough : ltb (length both) wanted ≡ false = ground arith in
      let front : length status ≡ length both - wanted = omega arith in
      let status_part : take (length both - wanted) both ≡ status =
        take-append_exact status data_bytes (length both - wanted) front in
      let data_part : drop (length both - wanted) both ≡ data_bytes =
        drop-append_exact status data_bytes (length both - wanted) front in
      record {
        world = all.world;
        ends = rw (all.ends, enough, status_part, data_part, good) refl;
        empty = all.empty;
        sent_now = all.sent_now;
      }
