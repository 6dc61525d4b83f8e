-- ===== src/Agent/Round/Tests.antt =====
-- Two ticks of an agent with three triggers, and the theorem at one of them.
use radar_node.Base.{
  ℕ, ◌≡◌, refl, String, Bool, true, false, Option, none, some, List, [], ◌∷◌, map, lookup, modify,
}
use radar_node.Wire.{ProbeSnapshot, Value}
use radar_node.Store.{Store}
use radar_node.Agent.Cache.{
  PendingTrigger, drain_pending_triggers_limited, requeue_triggers, requeue_trigger, enqueue,
  has_pending_trigger, apply_triggered_event, apply_triggered_events, remember_then_enqueue,
}
use radar_node.Agent.Cache.Schedule.{take_due_probes, due_entries}
use radar_node.Agent.Triggers.{Arrival, apply_events, finish_triggers}
use radar_node.Agent.Tick.{
  select_work, max_jobs, per_probe, at_least_one, trigger_slots, probe_budget, sign_bit,
  int_product, exceeds, probe_jobs, trigger_jobs, trigger_probe, numbered_jobs, probe_job_count,
}
use radar_node.Agent.Checks.{
  World, ProbeResult, run_checks, collect, run_work, run_check, dispatch, split_jobs,
}
use radar_node.Agent.PathHealth.{new_path_health}
use radar_node.Agent.Report.{Surroundings, report_results, report_fallback, post_directly}
use radar_node.Agent.Round.{
  AgentState, TickInputs, run_due_probes, run_work_of, after_checks, tick_results, mark_due,
}
use radar_node.Module.Placeholder.{Text}

abbrev probe_one : ProbeSnapshot
probe_one = record {
  id = "p1";
  target = "example.org";
  prober = "tcp";
  probe_count = 1;
  timeout_ms = 5000;
  schedule_type = "interval";
  interval_seconds = 60;
  starts_at = 0;
  ends_at = 0;
  params = [];
  status = "active";
}

abbrev pressed : String → PendingTrigger
pressed run_id = record { probe_id = "p1"; run_id = run_id; probe = probe_one }

abbrev answer : ProbeResult
answer = record {
  skip = false;
  ok = true;
  check_type = "tcp";
  target = "example.org";
  seq = 1;
  latency_ms = none;
  error = "";
  error_code = "";
  extra = [];
}

abbrev world : World
world = record {
  checker = λ prober. some false;
  clears = λ j d. true;
  check = λ j o. answer;
  check_batch = λ prober os i. answer;
  finish = λ ks. ks;
  unknown_prober = λ prober. "unknown prober";
  print = λ v. "";
  stamp = λ j. "now";
}

-- A server that does not answer.
abbrev offline : Surroundings
offline = record {
  record_works = true;
  now_ms = 7;
  now = 7_000_000;
  store_turns = [];
  post = none;
  file = none;
  removes = λ e. true;
  max_bytes = 150;
  spool_turn = λ e. record { expired = false; reply = none; now = 8_000_000 };
}

-- Two checks for a tick, which two triggers take.
abbrev inputs : TickInputs
inputs = record {
  limits = record {
    max_jobs_per_tick = 2;
    max_jobs_per_probe = 1;
    max_triggers_per_tick = 16;
    int_bits = 64;
  };
  now = 9;
  is_paused = false;
  new_run_id = λ i. "run";
  world = world;
  trigger_world = world;
  recorded_at = 10;
  heard = [];
  marked = 500;
  surroundings = offline;
  completes = true;
  completed_ms = 11;
}

agent_with : Option Store → AgentState
agent_with s = record {
  cache = record {
    probes =
        ("p1", record { snapshot = probe_one; last_run_at = 0; last_trigger_run_id = "" }) ∷ [];
    content_hash = "";
    pending_triggers = pressed "r1" ∷ pressed "r2" ∷ pressed "r3" ∷ [];
  };
  reporter = record {
    store = s;
    spool = none;
    delivery = record { backoff = 0; next_attempt = 0 };
    posted = [];
  };
  path = some new_path_health;
  deferred_jobs = 0;
}

abbrev same_text : Text → Text
same_text t = t

abbrev no_time : String → Option ℕ
no_time s = none

abbrev any_extra : List (String × Value) → Bool
any_extra e = true

-- Without a store and a spool, the two triggers go back behind the third.
behind_the_third :
    map
      (λ t. t.run_id)
      (run_due_probes same_text no_time any_extra inputs (agent_with none)).cache.pending_triggers
    ≡ "r3" ∷ "r1" ∷ "r2" ∷ []
unfolding run_due_probes run_work_of after_checks apply_events apply_triggered_events tick_results
    mark_due agent_with select_work max_jobs per_probe at_least_one trigger_slots probe_budget
    sign_bit int_product exceeds probe_jobs trigger_jobs trigger_probe numbered_jobs probe_job_count
    drain_pending_triggers_limited take_due_probes due_entries run_checks collect run_work run_check
    dispatch split_jobs report_results report_fallback post_directly finish_triggers
    requeue_triggers requeue_trigger enqueue has_pending_trigger
behind_the_third = refl

-- A trigger that a heartbeat brings meanwhile stands before the two.
abbrev heard_one : Arrival
heard_one = record {
  event = record { seq = 1; event_type = "triggered"; probe = probe_one; run_id = "r4" };
  works = true;
  at_ms = 7;
}

behind_the_fourth :
    map
      (λ t. t.run_id)
      (run_due_probes same_text no_time any_extra
        (record inputs { heard = heard_one ∷ [] })
        (agent_with none)).cache.pending_triggers
    ≡ "r3" ∷ "r4" ∷ "r1" ∷ "r2" ∷ []
unfolding run_due_probes run_work_of after_checks apply_events apply_triggered_events
    apply_triggered_event remember_then_enqueue lookup modify tick_results mark_due agent_with
    select_work max_jobs per_probe at_least_one trigger_slots probe_budget sign_bit int_product
    exceeds probe_jobs trigger_jobs trigger_probe numbered_jobs probe_job_count
    drain_pending_triggers_limited take_due_probes due_entries run_checks collect run_work run_check
    dispatch split_jobs report_results report_fallback post_directly finish_triggers
    requeue_triggers requeue_trigger enqueue has_pending_trigger
behind_the_fourth = refl
