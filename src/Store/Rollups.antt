-- ===== src/Store/Rollups.antt =====
-- The hourly rollups of internal/store/rollups.go. The rollups and the cursor in the table meta are a
-- state beside the journal; no other process moves the cursor while one rolls up, so writeRollups'
-- test of the cursor is made, and the retry after a lost race is not.
pub mod Sums
pub mod Tables
pub mod Once
mod Tests
use radar_node.Base.{
  ℕ, zero, suc, ◌+◌, ◌*◌, ◌/◌, Bool, true, false, ◌&&◌, String, Option, none, some, List, [], ◌∷◌,
  ltb, ◌==◌, str_eq, if◌then◌else◌, retain, take, length,
}
use radar_node.Store.{JournalRow, Body, result, trigger, trigger_done, assignment}

abbrev pub rollup_bucket_ms : ℕ
rollup_bucket_ms = 3_600_000

abbrev pub rollup_chunk : ℕ
rollup_chunk = 2000

pub record RollupKey : Type 0 where
  pub origin : String
  pub probe_id : String
  pub bucket : ℕ

pub record RollupAgg : Type 0 where
  pub checks : ℕ
  pub ok : ℕ
  pub errors : ℕ
  pub latency_sum : ℕ
  pub latency_count : ℕ
  pub latency_min : Option ℕ
  pub latency_max : Option ℕ

pub record RollupRow : Type 0 where
  pub seq : ℕ
  pub key : RollupKey
  pub ok : Bool
  pub latency_us : Option ℕ

pub record History : Type 0 where
  pub rollup_seq : ℕ
  pub rollups : List (RollupKey × RollupAgg)

abbrev pub empty_agg : RollupAgg
empty_agg = record {
  checks = 0;
  ok = 0;
  errors = 0;
  latency_sum = 0;
  latency_count = 0;
  latency_min = none;
  latency_max = none;
}

unfoldable pub same_key : RollupKey → RollupKey → Bool
same_key a b = str_eq a.origin b.origin && str_eq a.probe_id b.probe_id && a.bucket == b.bucket

-- The hour of an instant, as the first millisecond of the hour.
unfoldable pub bucket_of : ℕ → ℕ
bucket_of at_ms = at_ms / rollup_bucket_ms * rollup_bucket_ms

unfoldable pub rollup_rows : List JournalRow → List RollupRow
rollup_rows [] = []
rollup_rows (row ∷ rows) =
    let rest = rollup_rows rows in
    elim row.body [
      | result c ↦
          record {
            seq = row.seq;
            key = record {
              origin = row.origin;
              probe_id = c.probe_id;
              bucket = bucket_of row.at_ms;
            };
            ok = c.ok;
            latency_us = c.latency_us;
          }
          ∷ rest
      | _ ↦ rest
    ]

-- `readRollupChunk`.
unfoldable pub read_rollup_chunk : ℕ → List RollupRow → List RollupRow
read_rollup_chunk after rows = take rollup_chunk (retain (λ r. ltb after r.seq) rows)

abbrev pub lower : ℕ → Option ℕ → Option ℕ
lower value none = some value
lower value (some least) = if ltb value least then some value else some least

abbrev pub higher : ℕ → Option ℕ → Option ℕ
higher value none = some value
higher value (some most) = if ltb most value then some value else some most

abbrev pub add_latency : Option ℕ → RollupAgg → RollupAgg
add_latency none a = a
add_latency (some value) a = record a {
  latency_sum = a.latency_sum + value;
  latency_count = a.latency_count + 1;
  latency_min = lower value a.latency_min;
  latency_max = higher value a.latency_max;
}

abbrev pub add_check : Bool → RollupAgg → RollupAgg
add_check true a = record a { checks = a.checks + 1; ok = a.ok + 1 }
add_check false a = record a { checks = a.checks + 1; errors = a.errors + 1 }

-- The loop's body for a row of the aggregate's bucket.
unfoldable pub add_row : RollupRow → RollupAgg → RollupAgg
add_row r a = add_latency r.latency_us (add_check r.ok a)

-- `aggregated[key]`, made when it is not there, and then the row.
unfoldable pub add_to : RollupRow → List (RollupKey × RollupAgg) → List (RollupKey × RollupAgg)
add_to r [] = (r.key, add_row r empty_agg) ∷ []
add_to r (e ∷ es) = if same_key e.0 r.key then (e.0, add_row r e.1) ∷ es else e ∷ add_to r es

unfoldable pub aggregate :
    List RollupRow → List (RollupKey × RollupAgg) → List (RollupKey × RollupAgg)
aggregate [] m = m
aggregate (r ∷ rs) m = aggregate rs (add_to r m)

abbrev pub last_seq : ℕ → List RollupRow → ℕ
last_seq after [] = after
last_seq after (r ∷ rs) = last_seq (if ltb after r.seq then r.seq else after) rs

-- A latency column of the upsert: NULL on the right is never less.
abbrev pub merged : (ℕ → Option ℕ → Option ℕ) → ℕ → Option ℕ → Option ℕ → Option ℕ
merged choose zero excluded old = old
merged choose (suc n) none none = none
merged choose (suc n) none (some value) = some value
merged choose (suc n) (some value) old = choose value old

-- `ON CONFLICT DO UPDATE`, with the excluded row first.
unfoldable pub merge : RollupAgg → RollupAgg → RollupAgg
merge e a = record {
  checks = a.checks + e.checks;
  ok = a.ok + e.ok;
  errors = a.errors + e.errors;
  latency_sum = a.latency_sum + e.latency_sum;
  latency_count = a.latency_count + e.latency_count;
  latency_min = merged lower e.latency_count e.latency_min a.latency_min;
  latency_max = merged higher e.latency_count e.latency_max a.latency_max;
}

unfoldable pub upsert :
    RollupKey → RollupAgg → List (RollupKey × RollupAgg) → List (RollupKey × RollupAgg)
upsert key agg [] = (key, agg) ∷ []
upsert key agg (e ∷ es) =
    if same_key e.0 key then (e.0, merge agg e.1) ∷ es else e ∷ upsert key agg es

unfoldable pub upsert_all :
    List (RollupKey × RollupAgg) → List (RollupKey × RollupAgg) → List (RollupKey × RollupAgg)
upsert_all [] table = table
upsert_all (e ∷ es) table = upsert_all es (upsert e.0 e.1 table)

-- `writeRollups`: none when the cursor has moved.
unfoldable pub write_rollups : List (RollupKey × RollupAgg) → ℕ → ℕ → History → Option History
write_rollups aggregated expected next h =
    if h.rollup_seq == expected
    then some (record { rollup_seq = next; rollups = upsert_all aggregated h.rollups })
    else none

-- The body of `rollupResults`' loop with its chunk, and with the rounds after it as a function.
unfoldable pub roll_chunk :
    (ℕ → ℕ → History → History × Option ℕ) → ℕ → ℕ → History → List RollupRow → History × Option ℕ
roll_chunk rounds after total h [] = (h, some total)
roll_chunk rounds after total h (r ∷ rs) =
    let next = last_seq after (r ∷ rs) in
    elim (write_rollups (aggregate (r ∷ rs) []) after next h) [
      | none ↦ (h, none)
      | some h' ↦ rounds next (total + length (r ∷ rs)) h'
    ]

-- The loop, on fuel; what it returns with the tables is the number of rows that it rolled up, none
-- when it did not end.
unfoldable pub rollup_from : ℕ → List RollupRow → ℕ → ℕ → History → History × Option ℕ
rollup_from zero rows after total h = (h, none)
rollup_from (suc fuel) rows after total h =
    roll_chunk (rollup_from fuel rows) after total h (read_rollup_chunk after rows)

-- `rollupResults`.
unfoldable pub rollup_results : List JournalRow → History → History × Option ℕ
rollup_results journal h =
    let rows = rollup_rows journal in rollup_from (suc (length rows)) rows h.rollup_seq 0 h
