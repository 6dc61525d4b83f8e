-- ===== src/Store/Tests.antt =====
-- Runs of internal/store's methods on small databases, and the theorems at them.
use radar_node.Base.{
  ℕ, ◌+◌, ◌≡◌, ◌≢◌, refl, String, Bool, true, List, [], ◌∷◌, ◌++◌, Option, none, some, length,
  lookup, retain, map, false,
}
use radar_node.Wire.{ProbeSnapshot, Event, Result, scaled, Value}
use radar_node.Store.{Store, JournalRow, returned, fresh, next_origin_seq, insert_journal, new_row}
use radar_node.Store.Triggers.{
  record_trigger, journal_trigger, trigger_already_seen, PendingTrigger,
}
use radar_node.Store.Results.{
  RecordSummary, record_results, record_all, record_result, insert_result, columns_of, Outcome,
  pending_rows, mark_outcomes, unsettled,
}
use radar_node.Store.Sequences.{IsSequenced}
use radar_node.Store.Calls.{records_trigger, completes, assigns, loads_triggers, run}
use radar_node.Store.Replay.Rounds.{total}
use radar_node.Store.Replay.{record_results_counts, record_results_twice}
use radar_node.Store.Once.{record_trigger_once}
use radar_node.Store.Settlement.{
  unnamed, settle_first, mark_outcomes-pending_rows, mark_outcomes-settle_first,
}
use radar_node.Store.Probes.{rebuild}
use radar_node.Store.Rebuild.{rebuild_reproduces}

abbrev probe_one : ProbeSnapshot
probe_one = record {
  id = "p1";
  target = "example.org";
  prober = "tcp";
  probe_count = 1;
  timeout_ms = 5000;
  schedule_type = "interval";
  interval_seconds = 60;
  starts_at = 0;
  ends_at = 0;
  params = [];
  status = "active";
}

abbrev pressed : String → Event
pressed run_id = record { seq = 1; event_type = "triggered"; probe = probe_one; run_id = run_id }

abbrev measured : String → Result
measured run_id = record {
  run_id = run_id;
  probe_id = "p1";
  ok = true;
  prober = "tcp";
  target = "example.org";
  seq = 0;
  latency_ms = some (scaled 1500);
  error = "";
  error_code = "";
  extra = [];
  observed_at = "";
}

abbrev no_time : String → Option ℕ
no_time s = none

abbrev any_extra : List (String × Value) → Bool
any_extra e = true

-- Two results of a batch are the same check, and one lacks its run.
abbrev batch : List Result
batch = measured "r1" ∷ measured "r1" ∷ measured "" ∷ []

empty_database : Store
unfolding fresh
empty_database = fresh "n1"

batch_summary :
    (record_results no_time any_extra true 7 batch (fresh "n1")).1
    ≡ returned (record {
      inserted = 1;
      duplicates = 1;
      skipped = 1;
      invalid_latency = 0;
      invalid_extra = 0;
    })
unfolding record_results record_all record_result insert_result insert_journal next_origin_seq fresh
    lookup new_row columns_of
batch_summary = refl

record_results_counts_example :
    let (t, a) = record_results no_time any_extra true 7 batch (fresh "n1") in
    (m : RecordSummary) × (added : List JournalRow) × (a ≡ returned m)
    × (total m ≡ 3)
    × (t.journal ≡ (fresh "n1").journal ++ added)
    × (length added ≡ m.inserted)
    × IsSequenced t
unfolding fresh
record_results_counts_example = record_results_counts no_time any_extra 7 batch (fresh "n1") refl

record_results_twice_example :
    let t = (record_results no_time any_extra true 7 batch (fresh "n1")).0 in
    let (u, a) = record_results no_time any_extra true 9 batch t in
    (m : RecordSummary) × (a ≡ returned m)
    × (m.inserted ≡ 0)
    × (m.duplicates + m.skipped ≡ 3)
    × (u.journal ≡ t.journal)
unfolding fresh
record_results_twice_example = record_results_twice no_time any_extra 7 9 batch (fresh "n1") refl

abbrev done : PendingTrigger
done = record { probe_id = "p1"; run_id = "r1"; event_seq = 1; probe = probe_one }

record_trigger_once_example :
    let calls =
      completes true 8 (done ∷ []) ∷ assigns true 9 "h" (probe_one ∷ []) ∷ loads_triggers ∷ [] in
    let t = run (record_trigger true 7 (pressed "r1") (fresh "n1")).0 calls in
    (record_trigger true 10 (pressed "r1") t).1 ≢ returned true
unfolding record_trigger trigger_already_seen journal_trigger next_origin_seq insert_journal fresh
    lookup
record_trigger_once_example =
    record_trigger_once true 7 (pressed "r1") (fresh "n1")
      (completes true 8 (done ∷ []) ∷ assigns true 9 "h" (probe_one ∷ []) ∷ loads_triggers ∷ [])
      true 10 (pressed "r1") refl refl refl

rebuild_reproduces_example :
    let calls =
      assigns true 6 "h" (probe_one ∷ [])
      ∷ records_trigger true 7 (pressed "r1")
      ∷ records_trigger true 8 (pressed "r2")
      ∷ completes true 9 (done ∷ [])
      ∷ [] in
    let s = run (fresh "n1") calls in
    let (t, answer) = rebuild true s in
    (answer ≡ returned tt)
    × (t.pending_triggers ≡ s.pending_triggers)
    × (t.completed_triggers ≡ s.completed_triggers)
    × (t.probe_hash ≡ s.probe_hash)
rebuild_reproduces_example = rebuild_reproduces "n1" (
    assigns true 6 "h" (probe_one ∷ [])
    ∷ records_trigger true 7 (pressed "r1")
    ∷ records_trigger true 8 (pressed "r2")
    ∷ completes true 9 (done ∷ [])
    ∷ [])

-- The database after the batch, and what the server says of its one result, twice.
abbrev recorded : Store
recorded = (record_results no_time any_extra true 7 batch (fresh "n1")).0

abbrev verdicts : List Outcome
verdicts =
    record { seq = 1; accepted = false; reason = "late" }
    ∷ record { seq = 1; accepted = true; reason = "" }
    ∷ []

one_pending : length (pending_rows recorded.origin recorded.journal) ≡ 1
unfolding record_results record_all record_result insert_result insert_journal next_origin_seq fresh
    lookup new_row columns_of pending_rows
one_pending = refl

mark_outcomes-pending_rows_example :
    let t = (mark_outcomes true 9 verdicts recorded).0 in
    (pending_rows t.origin t.journal
      ≡ retain (unnamed verdicts) (pending_rows recorded.origin recorded.journal))
    × (t ≡ record recorded { journal = t.journal })
mark_outcomes-pending_rows_example = mark_outcomes-pending_rows true 9 verdicts recorded

mark_outcomes-settle_first_example :
    ((mark_outcomes true 9 verdicts recorded).0.journal
      ≡ map (settle_first 9 verdicts) recorded.journal)
    × ((row : JournalRow) → unsettled row ≡ false → settle_first 9 verdicts row ≡ row)
mark_outcomes-settle_first_example = mark_outcomes-settle_first 9 verdicts recorded
