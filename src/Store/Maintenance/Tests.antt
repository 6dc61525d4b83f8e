-- ===== src/Store/Maintenance/Tests.antt =====
-- A run of Maintain on a small database, and the theorems at it.
use radar_node.Base.{ℕ, ◌≡◌, refl, Bool, true, false, not, none, some, [], ◌∷◌, retain, map}
use radar_node.Wire.{ProbeSnapshot, Event}
use radar_node.Store.{
  JournalRow, Body, Delivery, pending, delivered, result, trigger, assignment, fresh,
}
use radar_node.Store.Results.{pending_rows}
use radar_node.Store.Maintenance.{
  Database, MaintainOptions, Progress, Statement, maintain, enforce_age, prune_completed_triggers,
  no_stats, too_old, with_journal, prune_old, prune_pass, delete_first, collapse_assignments,
}
use radar_node.Store.Maintenance.Safety.Rows.{IsKept}
use radar_node.Store.Maintenance.Safety.{maintain-IsKept}
use radar_node.Store.Maintenance.Age.{enforce_age-retain}

abbrev probe_one : ProbeSnapshot
probe_one = record {
  id = "p1";
  target = "example.org";
  prober = "tcp";
  probe_count = 1;
  timeout_ms = 5000;
  schedule_type = "interval";
  interval_seconds = 60;
  starts_at = 0;
  ends_at = 0;
  params = [];
  status = "active";
}

abbrev pressed : Event
pressed = record { seq = 1; event_type = "triggered"; probe = probe_one; run_id = "t1" }

abbrev measured : Body
measured = result (record {
  run_id = "r1";
  probe_id = "p1";
  prober = "tcp";
  target = "example.org";
  check_seq = 0;
  ok = true;
  latency_us = some 700;
  error_code = none;
  error = none;
  extra = [];
})

abbrev row : ℕ → Body → Delivery → JournalRow
row seq body state = record {
  seq = seq;
  origin = "n1";
  origin_seq = seq;
  at_ms = seq;
  body = body;
  delivery_state = state;
  delivery_reason = none;
  delivered_at_ms = none;
  attempts = 0;
}

-- An old and a new assignment, a delivered and a pending result, a pending and a finished trigger.
abbrev database : Database
database = record {
  store = record (fresh "n1") {
    journal =
        row 1 (assignment "h1" []) pending
        ∷ row 2 measured delivered
        ∷ row 3 measured pending
        ∷ row 4 (trigger pressed) pending
        ∷ row 5 (trigger pressed) pending
        ∷ row 6 (assignment "h2" []) pending
        ∷ [];
    pending_triggers =
        record { probe_id = "p1"; run_id = "t1"; event_seq = 5; created_at_ms = 5; snapshot = none }
        ∷ [];
  };
  history = record { rollup_seq = 3; rollups = [] };
}

abbrev works : Statement → Bool
works _ = false

abbrev options : MaintainOptions
options = record { cutoff = some 10; max_bytes = 100 }

abbrev start : Progress
start = record { db = database; stats = no_stats; going = true }

left : map (λ r. r.seq) (enforce_age works 10 start).db.store.journal ≡ 1 ∷ 3 ∷ 5 ∷ 6 ∷ []
unfolding enforce_age prune_completed_triggers prune_old prune_pass delete_first fresh
left = refl

collapsed :
    map (λ r. r.seq) (collapse_assignments works start).db.store.journal ≡ 2 ∷ 3 ∷ 4 ∷ 5 ∷ 6 ∷ []
unfolding collapse_assignments
collapsed = refl

maintain-IsKept_example :
    let t = (maintain none works (λ n. 500) (λ n. 0) 90 options database).db.store in
    IsKept database.store t
    × (pending_rows t.origin t.journal ≡ pending_rows database.store.origin database.store.journal)
maintain-IsKept_example = maintain-IsKept none works (λ n. 500) (λ n. 0) 90 options database

enforce_age-retain_example :
    enforce_age works 10 start
    ≡ prune_completed_triggers works 10 (
        with_journal (retain (λ r. not (too_old database.store 10 r)) database.store.journal) start)
enforce_age-retain_example = enforce_age-retain works 10 start (λ n. refl) refl
