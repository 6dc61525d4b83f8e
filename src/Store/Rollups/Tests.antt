-- ===== src/Store/Rollups/Tests.antt =====
-- A rollup of three results in two hours, and the theorem at it.
use radar_node.Base.{ℕ, ◌≡◌, refl, Bool, true, false, Option, none, some, List, [], ◌∷◌, arith}
use radar_node.Store.{JournalRow, ResultColumns, pending, result}
use radar_node.Store.Rollups.{
  History, rollup_rows, rollup_results, rollup_from, roll_chunk, read_rollup_chunk, write_rollups,
  aggregate, add_to, add_row, upsert, upsert_all, merge, same_key, bucket_of,
}
use radar_node.Store.Rollups.Sums.{value}
use radar_node.Store.Rollups.Once.{Ascending, RolledUp, rollup_results-RolledUp}

abbrev measured : Bool → Option ℕ → ResultColumns
measured ok latency = record {
  run_id = "r1";
  probe_id = "p1";
  prober = "tcp";
  target = "example.org";
  check_seq = 0;
  ok = ok;
  latency_us = latency;
  error_code = none;
  error = none;
  extra = [];
}

abbrev row : ℕ → ℕ → Bool → Option ℕ → JournalRow
row seq at_ms ok latency = record {
  seq = seq;
  origin = "n1";
  origin_seq = seq;
  at_ms = at_ms;
  body = result (measured ok latency);
  delivery_state = pending;
  delivery_reason = none;
  delivered_at_ms = none;
  attempts = 0;
}

abbrev journal : List JournalRow
journal =
    row 1 10 true (some 700)
    ∷ row 2 20 false none
    ∷ row 4 3_600_001 true (some 300)
    ∷ row 5 30 true (some 900)
    ∷ []

-- The first result was counted by an earlier run.
abbrev before : History
before = record {
  rollup_seq = 1;
  rollups =
      (
        record { origin = "n1"; probe_id = "p1"; bucket = 0 },
        record {
          checks = 1;
          ok = 1;
          errors = 0;
          latency_sum = 700;
          latency_count = 1;
          latency_min = some 700;
          latency_max = some 700;
        },
      )
      ∷ [];
}

first_hour :
    value
      (record { origin = "n1"; probe_id = "p1"; bucket = 0 })
      (rollup_results journal before).0.rollups
    ≡ record {
      checks = 3;
      ok = 2;
      errors = 1;
      latency_sum = 1600;
      latency_count = 2;
      latency_min = some 700;
      latency_max = some 900;
    }
unfolding rollup_results rollup_rows rollup_from roll_chunk read_rollup_chunk write_rollups
    aggregate add_to add_row upsert upsert_all merge same_key bucket_of
first_hour = refl

ordered : Ascending (rollup_rows journal)
unfolding rollup_rows
ordered = ground arith

rollup_results-RolledUp_example :
    let (h', n) = rollup_results journal before in RolledUp (rollup_rows journal) 0 before h' n
rollup_results-RolledUp_example = rollup_results-RolledUp journal before ordered
