-- ===== src/Wire.antt =====
-- internal/wire/wire.go and the `Result` of internal/probe/probe.go: the shapes that the agent, the
-- store and the modules exchange. A JSON number keeps its literal text.
use radar_node.Base.{ℕ, String, Bool, List, Option, none, some, ◌≡◌, str_eq, arith, if◌then◌else◌}

-- What `encoding/json` decodes an `any` into.
mutual
  pub data Value : Type 0 where
    nothing : Value
    flag : Bool → Value
    literal : String → Value
    text : String → Value
    object : Members → Value
    array : Elements → Value

  pub data Elements : Type 0 where
    last : Elements
    element : Value → Elements → Elements

  pub data Members : Type 0 where
    closed : Members
    member : String → Value → Members → Members

-- `m[key]` of a JSON object: none where the key is not there. Of a key that is there twice the
-- decoder keeps the last value.
unfoldable pub get_member : String → Members → Option Value
get_member key closed = none
get_member key (member k v ms) = elim (get_member key ms) [
  | some later ↦ some later
  | none ↦ if str_eq k key then some v else none
]

-- `v, _ := x.(map[string]any)`.
abbrev pub members_of : Option Value → Members
members_of (some (object ms)) = ms
members_of _ = closed

-- `m[key] = v`: the new entry hides an old one.
unfoldable pub put_member : String → Value → Members → Members
put_member key v closed = member key v closed
put_member key v (member k u ms) = member k u (put_member key v ms)

pub get_member-put_member :
    (key other : String) (v : Value) (ms : Members)
    → get_member other (put_member key v ms)
      ≡ (if str_eq key other then some v else get_member other ms)
unfolding get_member put_member
get_member-put_member key other v closed = ground arith
get_member-put_member key other v (member k u ms) =
    ground (arith, get_member-put_member key other v ms)

-- Counts, times and intervals are natural numbers: the code treats a negative one as it treats 0.
pub record ProbeSnapshot : Type 0 where
  pub id : String
  pub target : String
  pub prober : String
  pub probe_count : ℕ
  pub timeout_ms : ℕ
  pub schedule_type : String
  pub interval_seconds : ℕ
  pub starts_at : ℕ
  pub ends_at : ℕ
  pub params : List (String × Value)
  pub status : String

pub record Event : Type 0 where
  pub seq : ℕ
  pub event_type : String
  pub probe : ProbeSnapshot
  pub run_id : String

abbrev pub probe_status_active : String
probe_status_active = "active"

-- A `*float64` in milliseconds as the store reads it: `scaled n` is a finite value of at least 0
-- whose thousandfold rounds to `n`.
pub data Latency : Type 0 where
  not_a_number infinite negative : Latency
  scaled : ℕ → Latency

pub record Result : Type 0 where
  pub run_id : String
  pub probe_id : String
  pub ok : Bool
  pub prober : String
  pub target : String
  pub seq : ℕ
  pub latency_ms : Option Latency
  pub error : String
  pub error_code : String
  pub extra : List (String × Value)
  pub observed_at : String

-- The server's answer for one result, and for a batch.
pub record ResultAck : Type 0 where
  pub run_id : String
  pub seq : ℕ
  pub accepted : Bool
  pub reason : String

pub record ResultsResponse : Type 0 where
  pub accepted : ℕ
  pub rejected : ℕ
  pub results : List ResultAck
