-- ===== src/Biz/Interleaving.antt =====
-- Concurrent requests: each is a thread that runs `Sign` step by step, or a guest, which holds the gate
-- as `Certificate` and `Probe` do, and never touches the signature cache. A step of a thread
-- is what the source does under one mutex or at one channel operation.
pub mod Exclusion
pub mod Memory
pub mod Idempotence
pub mod Liveness
use Prim.Native.String.{String}
use remote_mfi.Prelude.{
  ℕ, ◌+◌, ◌-◌, ◌≡◌, Bool, true, false, List, [], ◌∷◌, ◌++◌, Option, none, some,
}
use remote_mfi.Errors.{Result, ok, err, GoError}
use remote_mfi.Biz.Cache.{SignatureEntry, Entries, put}
use remote_mfi.Biz.Gate.{Gate, Ready, token, timer, ctx_done, acquire, release, new_chip_gate}
use remote_mfi.Biz.Service.{
  Environment, SignResult, look_up, check_request, normalize_hardware_error, cache_ttl,
}

pub data Thread : Type 0 where
  -- called with the request id and the challenge
  called : String → List ℕ → Thread
  -- at the `select`, since that time, with the challenge's digest
  waiting : String → List ℕ → List ℕ → ℕ → Thread
  -- with the token, before the second look; the time waited
  locked : String → List ℕ → List ℕ → ℕ → Thread
  -- the driver is signing, since that time
  signing : String → List ℕ → List ℕ → ℕ → ℕ → Thread
  -- the result is fixed, and the deferred release is still to come
  releasing : Result SignResult → Thread
  finished : Result SignResult → Thread
  guest_waiting guest_holding : String → Thread
  guest_gone : Thread

-- A signature that the chip made, for which request and when
pub record Call : Type 0 where
  pub id : String
  pub signed_at : ℕ

pub record Shared : Type 0 where
  pub gate : Gate
  pub cache : Entries
  pub clock : ℕ
  -- the chip's successful signatures, the latest first; the code keeps no such list
  pub calls : List Call

pub record System : Type 0 where
  pub shared : Shared
  pub threads : List Thread

module _ (env : Environment) where
  -- One step of one thread
  pub data Move (s : Shared) : Thread → Shared → Thread → Type 0 where
    refuse :
        {id : String} {challenge : List ℕ} (e : GoError)
        → check_request env id challenge ≡ err e
        → Move s (called id challenge) s (finished (err e))
    first_hit :
        {id : String} {challenge : List ℕ} (digest : List ℕ) (r : Result SignResult)
        → check_request env id challenge ≡ ok digest
        → (look_up s.clock id digest s.cache).0 ≡ some r
        → Move s
            (called id challenge)
            (record s { cache = (look_up s.clock id digest s.cache).1 })
            (finished r)
    first_miss :
        {id : String} {challenge : List ℕ} (digest : List ℕ)
        → check_request env id challenge ≡ ok digest
        → (look_up s.clock id digest s.cache).0 ≡ none
        → Move s
            (called id challenge)
            (record s { cache = (look_up s.clock id digest s.cache).1 })
            (waiting id challenge digest s.clock)
    enter :
        {id : String} {challenge digest : List ℕ} {since : ℕ}
        → s.gate.taken ≡ false
        → Move s
            (waiting id challenge digest since)
            (record s { gate = (acquire s.clock id token s.gate).1 })
            (locked id challenge digest (s.clock - since))
    give_up :
        {id : String} {challenge digest : List ℕ} {since : ℕ} (ready : Ready) (e : GoError)
        → (acquire s.clock id ready s.gate).0 ≡ err e
        → Move s (waiting id challenge digest since) s (finished (err e))
    second_hit :
        {id : String} {challenge digest : List ℕ} {waited : ℕ} (r : Result SignResult)
        → (look_up s.clock id digest s.cache).0 ≡ some r
        → Move s
            (locked id challenge digest waited)
            (record s { cache = (look_up s.clock id digest s.cache).1 })
            (releasing r)
    second_miss :
        {id : String} {challenge digest : List ℕ} {waited : ℕ}
        → (look_up s.clock id digest s.cache).0 ≡ none
        → Move s
            (locked id challenge digest waited)
            (record s { cache = (look_up s.clock id digest s.cache).1 })
            (signing id challenge digest waited s.clock)
    chip_fails :
        {id : String} {challenge digest : List ℕ} {waited started : ℕ} (e : GoError)
        → Move s
            (signing id challenge digest waited started)
            s
            (releasing (err (normalize_hardware_error e)))
    chip_signs :
        {id : String} {challenge digest : List ℕ} {waited started : ℕ} (signature : List ℕ)
        → Move s
            (signing id challenge digest waited started)
            (record s {
              cache =
                  put id
                    (record {
                      challenge_digest = digest;
                      signature = signature;
                      expires_at = s.clock + cache_ttl;
                    })
                    s.cache;
              calls = record { id = id; signed_at = s.clock } ∷ s.calls;
            })
            (releasing (
              ok (record {
                signature = signature;
                cached = false;
                wait_duration = waited;
                chip_duration = s.clock - started;
              })))
    leave :
        {r : Result SignResult}
        → Move s (releasing r) (record s { gate = release s.gate }) (finished r)
    guest_enters :
        {name : String}
        → s.gate.taken ≡ false
        → Move s
            (guest_waiting name)
            (record s { gate = (acquire s.clock name token s.gate).1 })
            (guest_holding name)
    guest_gives_up : {name : String} → Move s (guest_waiting name) s guest_gone
    guest_leaves :
        {name : String}
        → Move s (guest_holding name) (record s { gate = release s.gate }) guest_gone

  pub data Step (x : System) : System → Type 0 where
    act :
        (before after : List Thread) {t t' : Thread} {s' : Shared}
        → x.threads ≡ before ++ t ∷ after
        → Move x.shared t s' t'
        → Step x (record { shared = s'; threads = before ++ t' ∷ after })
    -- Time passes.
    tick : (d : ℕ) → Step x (record x { shared = record x.shared { clock = x.shared.clock + d } })
    -- A request arrives.
    arrive :
        (id : String) (challenge : List ℕ)
        → Step x (record x { threads = called id challenge ∷ x.threads })
    guest_arrives : (name : String) → Step x (record x { threads = guest_waiting name ∷ x.threads })

  pub data Reach (x : System) : System → Type 0 where
    here : Reach x x
    next : {y z : System} → Reach x y → Step y z → Reach x z

-- The service as `NewService` makes it, at some time, with no request
unfoldable pub start : ℕ → System
unfolding new_chip_gate
start clock = record {
  shared = record { gate = new_chip_gate; cache = []; clock = clock; calls = [] };
  threads = [];
}

-- How many threads are between `acquire` and `release`
abbrev pub holds : Thread → ℕ
holds (locked id challenge digest waited) = 1
holds (signing id challenge digest waited started) = 1
holds (releasing r) = 1
holds (guest_holding name) = 1
holds _ = 0

abbrev pub holders : List Thread → ℕ
holders [] = 0
holders (t ∷ ts) = holds t + holders ts
