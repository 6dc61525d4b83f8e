-- ===== src/Agent/Delivery/Tests.antt =====
-- A drain of internal/agent/store_delivery.go over a small database, and the theorems at it.
use radar_node.Base.{ℕ, ◌≡◌, refl, arith, true, false, none, some, [], ◌∷◌, length}
use radar_node.Store.{Store, JournalRow, ResultColumns, result, pending, fresh}
use radar_node.Store.Results.{pending_rows}
use radar_node.Agent.Delivery.{StoreTurn, StoreDrain, undelivered, drain_turns}
use radar_node.Agent.Delivery.Queue.{queue, Answers, HasSeq, drain_turns-queue}

abbrev columns : ResultColumns
columns = record {
  run_id = "r1";
  probe_id = "p1";
  prober = "tcp";
  target = "example.org";
  check_seq = 0;
  ok = true;
  latency_us = none;
  error_code = none;
  error = none;
  extra = [];
}

abbrev row : ℕ → JournalRow
row seq = record {
  seq = seq;
  origin = "n1";
  origin_seq = seq;
  at_ms = 7;
  body = result columns;
  delivery_state = pending;
  delivery_reason = none;
  delivered_at_ms = none;
  attempts = 0;
}

abbrev two_rows : Store
two_rows = record (fresh "n1") { journal = row 1 ∷ row 2 ∷ []; next_rowid = 3 }

abbrev start : StoreDrain
start = undelivered two_rows (record { backoff = 0; next_attempt = 0 })

abbrev turn : StoreTurn
turn = record {
  reply = some (record { accepted = 2; rejected = 0; results = [] });
  settles = true;
  now_ms = 9;
  now = 9;
}

drain_turns-queue_example :
    let d' = drain_turns (turn ∷ []) start in (length (queue d'.store) ≡ 0) × (d'.is_failed ≡ false)
unfolding Answers HasSeq queue pending_rows fresh
drain_turns-queue_example =
    drain_turns-queue (turn ∷ []) start (((_, refl), refl), tt) (refl, (refl, tt)) (omega arith)
