-- ===== src/Agent/Cache/Tests.antt =====
-- Runs of internal/agent/cache.go's methods on small caches, and the theorems at them.
use mathlib.Core.Option
use radar_node.Base.{
  ℕ, zero, suc, ◌+◌, ◌*◌, ◌≤◌, ◌≡◌, refl, String, true, false, List, [], ◌∷◌, arith, lookup, sort,
  insert_sorted, modify, any, All, ltb,
}
use radar_node.Wire.{ProbeSnapshot, Event}
use radar_node.Agent.Clock.{nanoseconds, unix_epoch}
use radar_node.Agent.Cache.{
  ProbeCache, CachedProbe, PendingTrigger, apply_triggered_event, drain_pending_triggers_limited,
  has_pending_trigger, replace_assignment, new_probe_cache, max_pending_triggers,
}
use radar_node.Agent.Cache.Schedule.{
  take_due_probes, take_entries, take_entry, due_entries, older, job_count, probe_due, counts,
}
use radar_node.Agent.Cache.Budget.{
  jobs, mark, is_selected, take_due_probes-budget, lookup-take_due_probes,
}
use radar_node.Agent.Cache.Oldest.{due_now, Among, take_due_probes-oldest}
use radar_node.Agent.Cache.Queue.Methods.{IsQueueOk}
use radar_node.Agent.Cache.Queue.{applies, drains, requeues, run, run-new_probe_cache-IsQueueOk}
use radar_node.Agent.Cache.Redelivery.{
  trigger_of, redeliveries, full_queue_loses_trigger, first_of_two_runs_again,
}
use radar_node.Agent.Cache.Sync.{last_with, with_history, lookup-replace_assignment}

abbrev noon : ℕ
noon = unix_epoch + 43_200 * nanoseconds

abbrev probe_named : String → ℕ → ProbeSnapshot
probe_named id count = record {
  id = id;
  target = "example.org";
  prober = "tcp";
  probe_count = count;
  timeout_ms = 5000;
  schedule_type = "interval";
  interval_seconds = 60;
  starts_at = 0;
  ends_at = 0;
  params = [];
  status = "active";
}

abbrev cached : String → ℕ → ℕ → CachedProbe
cached id count last = record {
  snapshot = probe_named id count;
  last_run_at = last;
  last_trigger_run_id = "";
}

-- `b` waited longer than `a`, and `c` ran just now.
abbrev three_probes : ProbeCache
three_probes = record {
  probes =
      ("a", cached "a" 2 (unix_epoch + 90 * nanoseconds))
      ∷ ("b", cached "b" 4 (unix_epoch + 60 * nanoseconds))
      ∷ ("c", cached "c" 1 noon)
      ∷ [];
  content_hash = "h1";
  pending_triggers = [];
}

-- With a budget of 5 jobs `b` is taken and `a` deferred.
took_the_oldest : (take_due_probes noon 5 0 three_probes).selected ≡ probe_named "b" 4 ∷ []
unfolding take_due_probes take_entries take_entry due_entries older job_count probe_due sort
    insert_sorted modify
took_the_oldest = refl

deferred_the_rest : (take_due_probes noon 5 0 three_probes).deferred ≡ 2
unfolding take_due_probes take_entries take_entry due_entries older job_count probe_due sort
    insert_sorted modify
deferred_the_rest = refl

take_due_probes-budget_example :
    let t = take_due_probes noon 5 0 three_probes in
    (jobs t.selected ≤ 5)
    × (jobs t.selected + t.deferred ≡ counts (due_entries noon 5 0 three_probes.probes))
take_due_probes-budget_example = take_due_probes-budget noon 5 0 three_probes

lookup-take_due_probes_example :
    let t = take_due_probes noon 5 0 three_probes in
    lookup "b" t.probes
    ≡ Option.map (mark noon (is_selected "b" t.selected)) (lookup "b" three_probes.probes)
lookup-take_due_probes_example = lookup-take_due_probes noon 5 0 three_probes "b"

take_due_probes-oldest_example :
    let due = due_now noon three_probes.probes in
    (p : CachedProbe) × (count : ℕ) × (more : List ProbeSnapshot) × Among p due
    × (any (λ q. ltb q.last_run_at p.last_run_at) due ≡ false)
    × ((take_due_probes noon 5 0 three_probes).selected
        ≡ record (p.snapshot) { probe_count = count } ∷ more)
unfolding probe_due
take_due_probes-oldest_example =
    take_due_probes-oldest noon 5 0 three_probes (omega arith) (omega arith)

abbrev pressed : String → String → Event
pressed probe_id run_id = record {
  seq = 1;
  event_type = "triggered";
  probe = probe_named probe_id 1;
  run_id = run_id;
}

run-new_probe_cache-IsQueueOk_example : IsQueueOk (
    run new_probe_cache (
      applies (pressed "a" "r1" ∷ pressed "a" "r1" ∷ pressed "b" "r2" ∷ [])
      ∷ drains 1
      ∷ requeues (trigger_of (pressed "a" "r1") ∷ [])
      ∷ []))
run-new_probe_cache-IsQueueOk_example = run-new_probe_cache-IsQueueOk (
    applies (pressed "a" "r1" ∷ pressed "a" "r1" ∷ pressed "b" "r2" ∷ [])
    ∷ drains 1
    ∷ requeues (trigger_of (pressed "a" "r1") ∷ [])
    ∷ [])

abbrev two_waiting : ProbeCache
two_waiting = record three_probes {
  pending_triggers = trigger_of (pressed "a" "r1") ∷ trigger_of (pressed "b" "r2") ∷ [];
}

abbrev repeated : ℕ → PendingTrigger → List PendingTrigger
repeated zero t = []
repeated (suc n) t = t ∷ repeated n t

abbrev full_queue : ProbeCache
full_queue = record three_probes {
  pending_triggers = repeated max_pending_triggers (trigger_of (pressed "b" "r2"));
}

full_queue_loses_trigger_example :
    let refused = apply_triggered_event (pressed "a" "r1") full_queue in
    (refused.1 ≡ false)
    × (refused.0.pending_triggers ≡ full_queue.pending_triggers)
    × All (λ queued. queued ≡ false) (redeliveries (pressed "a" "r1") (0 ∷ 3 ∷ 16 ∷ []) refused.0)
unfolding lookup has_pending_trigger
full_queue_loses_trigger_example =
    full_queue_loses_trigger (pressed "a" "r1") full_queue
      (cached "a" 2 (unix_epoch + 90 * nanoseconds)) (0 ∷ 3 ∷ 16 ∷ [])
      (record { triggered = refl; has_run = refl; has_probe = refl }) refl refl refl (omega arith)

first_of_two_runs_again_example :
    let queued =
      apply_triggered_event
        (pressed "a" "r2")
        (apply_triggered_event (pressed "a" "r1") three_probes).0 in
    let (drained, due) = drain_pending_triggers_limited 0 queued.0 in
    (due ≡ trigger_of (pressed "a" "r1") ∷ trigger_of (pressed "a" "r2") ∷ [])
    × ((apply_triggered_event (pressed "a" "r1") drained).1 ≡ true)
unfolding lookup
first_of_two_runs_again_example =
    first_of_two_runs_again (pressed "a" "r1") (pressed "a" "r2") three_probes
      (cached "a" 2 (unix_epoch + 90 * nanoseconds))
      (record { triggered = refl; has_run = refl; has_probe = refl })
      (record { triggered = refl; has_run = refl; has_probe = refl }) refl refl refl refl refl

lookup-replace_assignment_example :
    let ss = probe_named "b" 9 ∷ probe_named "d" 1 ∷ [] in
    let c' = replace_assignment "h2" ss three_probes in
    (lookup "b" c'.probes
      ≡ Option.map (with_history (lookup "b" three_probes.probes)) (last_with "b" ss))
    × (c'.content_hash ≡ "h2")
    × (c'.pending_triggers ≡ three_probes.pending_triggers)
lookup-replace_assignment_example =
    lookup-replace_assignment "h2" "b" (probe_named "b" 9 ∷ probe_named "d" 1 ∷ []) three_probes
