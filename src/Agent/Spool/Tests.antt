-- ===== src/Agent/Spool/Tests.antt =====
-- Spools of internal/agent/spool.go with a few files, and the theorems at them.
use radar_node.Base.{
  ◌≡◌, refl, String, true, false, none, some, List, [], ◌∷◌, str_eq, if◌then◌else◌,
}
use radar_node.Wire.{Result}
use radar_node.Agent.Clock.{seconds, unix_epoch}
use radar_node.Agent.Spool.{
  SpoolEntry, DrainTurn, Drained, undrained, prune, prune_from, drain_entries, drain_entry,
  drain_batch, drain_reply, next_delivery_backoff, backoff_delivery,
}
use radar_node.Agent.Spool.Drain.{Splits, drain_entries-Splits}

abbrev measured : Result
measured = record {
  run_id = "r1";
  probe_id = "p1";
  ok = true;
  prober = "tcp";
  target = "example.org";
  seq = 0;
  latency_ms = none;
  error = "";
  error_code = "";
  extra = [];
  observed_at = "";
}

abbrev file : String → SpoolEntry
file path = record { path = path; size = 100; batch = some (measured ∷ []) }

abbrev broken : SpoolEntry
broken = record { path = "b"; size = 100; batch = none }

abbrev files : List SpoolEntry
files = file "a" ∷ broken ∷ file "c" ∷ []

two_left : prune (λ e. true) 250 files ≡ broken ∷ file "c" ∷ []
unfolding prune prune_from
two_left = refl

-- The server answers for the first file only.
abbrev answers_first : SpoolEntry → DrainTurn
answers_first e = record {
  expired = false;
  reply =
      if str_eq e.path "a"
      then some (record { accepted = 1; rejected = 0; results = [] })
      else none;
  now = unix_epoch;
}

abbrev drained : Drained
drained =
    drain_entries answers_first files (undrained (record { backoff = 0; next_attempt = 0 }) files)

c_left : (drained.left ≡ file "c" ∷ []) × (drained.delivery.backoff ≡ seconds 5)
unfolding drain_entries drain_entry drain_batch drain_reply backoff_delivery next_delivery_backoff
c_left = (refl, refl)

drain_entries-Splits_example :
    Splits answers_first files (undrained (record { backoff = 0; next_attempt = 0 }) files) drained
drain_entries-Splits_example =
    drain_entries-Splits answers_first files
      (undrained (record { backoff = 0; next_attempt = 0 }) files) refl
