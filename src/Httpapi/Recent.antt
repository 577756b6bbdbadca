-- ===== src/Httpapi/Recent.antt =====
-- internal/httpapi/recent.go: the latest requests, in a ring of fixed capacity. A panic of the source (an
-- index out of range) is `none`.
pub mod Newest
use Prim.Native.String.{String}
use remote_mfi.Prelude.{
  ℕ, zero, suc, ◌+◌, ◌-◌, ◌/◌, ◌%◌, Bool, true, false, List, [], ◌∷◌, Option, none, some, length,
  get_elem?, set, replicate, ltb, ◌==◌, ◌||◌, if◌then◌else◌,
}

pub record RecentRequest : Type 0 where
  pub time : String
  pub method : String
  pub path : String
  pub status : ℕ
  pub millis : ℕ
  pub note : String

pub record RecentStore : Type 0 where
  pub capacity : ℕ
  pub entries : List RecentRequest
  pub next : ℕ
  pub full : Bool

-- The zero value of `RecentRequest`
abbrev pub blank : RecentRequest
blank = record { time = ""; method = ""; path = ""; status = 0; millis = 0; note = "" }

unfoldable pub new_recent_store : ℕ → RecentStore
new_recent_store capacity = record {
  capacity = capacity;
  entries = replicate capacity blank;
  next = 0;
  full = false;
}

-- What `add` stores: a duration is in nanoseconds, and `time` is the formatted time of the call.
abbrev pub recent_request : String → String → String → ℕ → ℕ → String → RecentRequest
recent_request time method path status duration note = record {
  time = time;
  method = method;
  path = path;
  status = status;
  millis = duration / 1_000_000;
  note = note;
}

-- `add` after the entry is built
unfoldable pub add : RecentRequest → RecentStore → Option RecentStore
add entry s =
    let next' = (s.next + 1) % s.capacity in
    if ltb s.next (length s.entries)
    then some (record {
      capacity = s.capacity;
      entries = set s.entries s.next entry;
      next = next';
      full = next' == 0 || s.full;
    })
    else none

abbrev pub count : RecentStore → ℕ
count s = if s.full then s.capacity else s.next

-- `index := s.next - 1 - offset`, plus the capacity if that is negative
abbrev pub slot : RecentStore → ℕ → ℕ
slot s offset =
    if ltb s.next (1 + offset) then (s.next + s.capacity) - (1 + offset) else s.next - (1 + offset)

abbrev append_entry :
    Option RecentRequest → Option (List RecentRequest) → Option (List RecentRequest)
append_entry none rest = none
append_entry (some e) none = none
append_entry (some e) (some es) = some (e ∷ es)

-- So many turns of the loop of `listNewestFirst`, from this offset on
unfoldable pub newest_from : RecentStore → ℕ → ℕ → Option (List RecentRequest)
newest_from s zero offset = some []
newest_from s (suc n) offset =
    append_entry (get_elem? s.entries (slot s offset)) (newest_from s n (suc offset))

unfoldable pub list_newest_first : RecentStore → Option (List RecentRequest)
list_newest_first s = newest_from s (count s) 0
