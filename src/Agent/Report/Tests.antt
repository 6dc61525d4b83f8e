-- ===== src/Agent/Report/Tests.antt =====
-- A tick whose database write fails, and the theorem at it.
use radar_node.Base.{ℕ, ◌≡◌, refl, String, Bool, true, false, Option, none, some, List, [], ◌∷◌}
use radar_node.Wire.{Result, Value}
use radar_node.Store.{fresh}
use radar_node.Store.Results.{record_results}
use radar_node.Agent.Spool.{
  SpoolEntry, prune, prune_from, drain_spool, drain_entries, drain_entry, drain_batch, drain_reply,
  next_delivery_backoff, backoff_delivery,
}
use radar_node.Agent.Report.{
  Reporter, Surroundings, SpoolFile, entry_of, report_results, report_fallback, enqueue,
  drain_after,
}

abbrev measured : Result
measured = record {
  run_id = "r1";
  probe_id = "p1";
  ok = true;
  prober = "tcp";
  target = "example.org";
  seq = 1;
  latency_ms = none;
  error = "";
  error_code = "";
  extra = [];
  observed_at = "";
}

abbrev no_time : String → Option ℕ
no_time s = none

abbrev any_extra : List (String × Value) → Bool
any_extra e = true

abbrev new_file : SpoolFile
new_file = record { path = "b"; size = 100 }

abbrev old_file : SpoolEntry
old_file = record { path = "a"; size = 100; batch = some (measured ∷ []) }

-- The write fails, and the server does not answer.
abbrev outage : Surroundings
outage = record {
  record_works = false;
  now_ms = 7;
  now = 7_000_000;
  store_turns = [];
  post = none;
  file = some new_file;
  removes = λ e. true;
  max_bytes = 150;
  spool_turn = λ e. record { expired = false; reply = none; now = 8_000_000 };
}

reporter : Reporter
unfolding fresh
reporter = record {
  store = some (fresh "n1");
  spool = some (old_file ∷ []);
  delivery = record { backoff = 0; next_attempt = 0 };
  posted = [];
}

-- The old file makes room for the new one.
new_file_left :
    (report_results no_time any_extra outage (measured ∷ []) reporter).0.spool
    ≡ some (entry_of new_file (measured ∷ []) ∷ [])
unfolding report_results report_fallback record_results enqueue drain_after prune prune_from
    drain_spool drain_entries drain_entry drain_batch drain_reply next_delivery_backoff
    backoff_delivery reporter
new_file_left = refl
