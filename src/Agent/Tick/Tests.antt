-- ===== src/Agent/Tick/Tests.antt =====
-- A tick with more work than its limit, and the theorem at it.
use radar_node.Base.{
  arith, ℕ, ◌+◌, ◌*◌, ◌≤◌, ◌≡◌, refl, String, [], ◌∷◌, length, sort, insert_sorted, modify,
}
use radar_node.Wire.{ProbeSnapshot}
use radar_node.Agent.Clock.{nanoseconds, unix_epoch}
use radar_node.Agent.Cache.{ProbeCache, CachedProbe, PendingTrigger, drain_pending_triggers_limited}
use radar_node.Agent.Cache.Schedule.{
  take_due_probes, take_entries, take_entry, due_entries, older, job_count, probe_due,
}
use radar_node.Agent.Tick.{
  TickLimits, tick_limits, select_work, tick_jobs, max_jobs, per_probe, at_least_one, trigger_slots,
  probe_budget, sign_bit, int_product, exceeds, probe_jobs, trigger_jobs, trigger_probe,
  numbered_jobs, probe_job_count,
}
use radar_node.Agent.Tick.Bound.{length-tick_jobs-le}

abbrev noon : ℕ
noon = unix_epoch + 43_200 * nanoseconds

abbrev probe_named : String → ℕ → ProbeSnapshot
probe_named id count = record {
  id = id;
  target = "example.org";
  prober = "tcp";
  probe_count = count;
  timeout_ms = 5000;
  schedule_type = "interval";
  interval_seconds = 60;
  starts_at = 0;
  ends_at = 0;
  params = [];
  status = "active";
}

abbrev cached : String → ℕ → String × CachedProbe
cached id count =
    (id, record { snapshot = probe_named id count; last_run_at = 0; last_trigger_run_id = "" })

abbrev pressed : String → PendingTrigger
pressed run_id = record { probe_id = "a"; run_id = run_id; probe = probe_named "a" 9 }

abbrev busy : ProbeCache
busy = record {
  probes = cached "a" 9 ∷ cached "b" 2 ∷ cached "c" 3 ∷ [];
  content_hash = "h1";
  pending_triggers = pressed "r1" ∷ pressed "r2" ∷ [];
}

-- Seven checks for a tick, of which a probe takes at most four.
abbrev configured : TickLimits
configured = record {
  max_jobs_per_tick = 7;
  max_jobs_per_probe = 4;
  max_triggers_per_tick = 0;
  int_bits = 64;
}

abbrev run_named : ℕ → String
run_named i = "run"

-- One trigger, cut to four checks, and three checks of the first probe.
seven_jobs :
    length (
      tick_jobs (tick_limits configured) run_named (select_work (tick_limits configured) noon busy))
    ≡ 7
unfolding tick_limits select_work tick_jobs max_jobs per_probe at_least_one trigger_slots
    probe_budget sign_bit int_product exceeds probe_jobs trigger_jobs trigger_probe numbered_jobs
    probe_job_count drain_pending_triggers_limited take_due_probes take_entries take_entry
    due_entries older job_count probe_due sort insert_sorted modify
seven_jobs = refl

length-tick_jobs-le_example :
    length (
      tick_jobs (tick_limits configured) run_named (select_work (tick_limits configured) noon busy))
    ≤ (tick_limits configured).max_jobs_per_tick
unfolding tick_limits sign_bit
length-tick_jobs-le_example =
    length-tick_jobs-le configured noon run_named busy
      (record { triggers_fit = omega arith; jobs_fit = omega arith })
