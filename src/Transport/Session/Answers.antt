-- ===== src/Transport/Session/Answers.antt =====
-- `Transaction` on a bridge that answers.
use remote_mfi.Prelude.{
  ℕ, ◌≡◌, refl, ap, ◌∙◌, All, sym, subst, false, some, List, [], ◌++◌, length, if-intro,
}
use native.Mathlib.Omega.{arith}
use remote_mfi.Prelude.Int.{ℤ, pos}
use remote_mfi.Errors.{ok, err, ok_injective}
use remote_mfi.Effects.Program.{done}
use remote_mfi.Transport.Encoder.{encode_configuration, encode_transaction}
use remote_mfi.Transport.Encoder.Correct.{
  IsRequest, encode_transaction-program, encode_transaction-events, encode_transaction-answers,
}
use remote_mfi.Transport.Decoder.Replies.{IsReplied, segments-IsReplied}
use remote_mfi.Transport.Segments.{segments}
use remote_mfi.Transport.Execution.Responses.{IsBridge}
use remote_mfi.Transport.Execution.Responses.Whole.{execute-Drains}
use remote_mfi.Transport.Usb.{Usb}
use remote_mfi.Transport.Session.{
  Session, Ch341, open_error, unsigned, endpoints, ensure_session, current_session, finish,
  run_session, transaction,
}

module _ (u : Usb) where
  open u use {World}

  ensure_session-held :
      (t : Ch341 u) (w : World) (s : Session u)
      → t.session ≡ some s
      → ensure_session u t w ≡ (ok s, t, w)
  unfolding ensure_session
  ensure_session-held t w s h = ground arith

  pub current_session-held :
      (t : Ch341 u) (w : World) (s : Session u)
      → t.session ≡ some s
      → t.closed ≡ false
      → current_session u t w ≡ (ok s, t, w)
  unfolding current_session
  current_session-held t w s h still_open =
      if-intro (λ r. r ≡ (ok s, t, w)) t.closed (err (open_error "USB context is closed"), t, w)
        (ensure_session u t w) (λ closed. absurd (ground arith))
        (λ opened. ensure_session-held t w s h)

  transaction-encoded :
      (address : ℕ) (bytes : List ℕ) (read_length : ℤ) (t : Ch341 u) (w : World) {stream : List ℕ}
      → encode_transaction address bytes read_length ≡ ok stream
      → transaction u address bytes read_length (t, w)
        ≡ run_session u stream (length bytes) (unsigned read_length) (current_session u t w)
  unfolding transaction
  transaction-encoded address bytes read_length t w encoded = rw (encoded, transaction) refl

-- `Transaction` on a session whose bridge answers as the CH341 does, on a bus where everybody acknowledges:
-- for a valid request, with an empty queue, it answers with exactly the data bytes that the bridge has sent meanwhile, as many as were asked for;
-- nothing is left in the queue, and the transport keeps its session.
pub transaction-answers :
    (u : Usb) (t : Ch341 u) (s : Session u) (bridge : IsBridge (endpoints u s)) (address : ℕ)
    (bytes : List ℕ) (n : ℕ) (w : u.World) {configuration : List ℕ}
    → t.session ≡ some s
    → t.closed ≡ false
    → encode_configuration t.speed ≡ ok configuration
    → IsRequest address bytes n
    → bridge.pending w ≡ []
    → (response : List ℕ) × (w' : u.World) × (transaction u address bytes (pos n) (t, w)
        ≡ done (ok response) (t, w'))
      × (length response ≡ n)
      × (bridge.sent w' ≡ bridge.sent w ++ response)
      × (bridge.pending w' ≡ [])
transaction-answers u t s bridge address bytes n w held still_open c valid nothing =
    let (stream, encoded, _) = encode_transaction-events address bytes n valid in
    let (stream', encoded', (cs, rendered, p)) = encode_transaction-program address bytes n valid in
    let same : stream' ≡ stream = ok_injective (sym encoded' ∙ encoded) in
    let replied : All IsReplied (segments stream) =
      subst (λ x. All IsReplied (segments x)) same (segments-IsReplied rendered) in
    let (count, total, _, _) = encode_transaction-answers address bytes n valid encoded in
    let (response, d, m) =
      execute-Drains (endpoints u s) bridge t.speed stream (length bytes) count n w c total replied
        nothing in
    (
      response,
      d.world,
      transaction-encoded u address bytes (pos n) t w encoded
          ∙ ap (run_session u stream (length bytes) n)
              (current_session-held u t w s held still_open)
          ∙ ap (finish u s t) d.ends,
      m,
      d.sent_now,
      d.empty,
    )
