-- ===== src/Agent/Triggers/Tests.antt =====
-- Triggers between a small cache and its store, and the theorem at them.
use radar_node.Base.{
  lookup, insert, ◌≡◌, refl, Bool, true, false, String, none, some, [], ◌∷◌, ◌++◌, map, arith,
}
use radar_node.Wire.{ProbeSnapshot}
use radar_node.Agent.Cache.{
  PendingTrigger, apply_triggered_event, remember_then_enqueue, enqueue, has_pending_trigger,
}
use radar_node.Agent.Cache.Queue.Methods.{IsQueueOk}
use radar_node.Agent.Tick.{TickLimits, select_work}
use radar_node.Agent.Triggers.{
  TriggerState, Arrival, apply_events, apply_with_store, finish_triggers,
}
use radar_node.Agent.Triggers.Requeue.{finish_triggers-requeued}
use radar_node.Store.{fresh, insert_journal, next_origin_seq, new_row}
use radar_node.Store.Triggers.{record_trigger, journal_trigger, trigger_already_seen, queue_trigger}

abbrev probe_one : ProbeSnapshot
probe_one = record {
  id = "p1";
  target = "example.org";
  prober = "tcp";
  probe_count = 1;
  timeout_ms = 5000;
  schedule_type = "interval";
  interval_seconds = 60;
  starts_at = 0;
  ends_at = 0;
  params = [];
  status = "active";
}

abbrev pressed : String → Bool → Arrival
pressed run_id works = record {
  event = record { seq = 1; event_type = "triggered"; probe = probe_one; run_id = run_id };
  works = works;
  at_ms = 7;
}

abbrev start : TriggerState
start = record {
  cache = record { probes = []; content_hash = ""; pending_triggers = [] };
  store = some (fresh "n1");
}

-- The second trigger is delivered twice, the third one the store refuses.
queued :
    map
      (λ t. t.run_id)
      (apply_events
        (pressed "r1" true ∷ pressed "r2" true ∷ pressed "r2" true ∷ pressed "r3" false ∷ [])
        start).cache.pending_triggers
    ≡ "r1" ∷ "r2" ∷ "r3" ∷ []
unfolding apply_events apply_with_store record_trigger journal_trigger trigger_already_seen
    queue_trigger insert_journal next_origin_seq new_row fresh apply_triggered_event
    remember_then_enqueue enqueue has_pending_trigger lookup insert
queued = refl

abbrev waiting : String → PendingTrigger
waiting run_id = record { probe_id = "p1"; run_id = run_id; probe = probe_one }

abbrev busy : TriggerState
busy = record {
  cache = record {
    probes = [];
    content_hash = "";
    pending_triggers = waiting "r1" ∷ waiting "r2" ∷ waiting "r3" ∷ [];
  };
  store = none;
}

abbrev limits : TickLimits
limits = record {
  max_jobs_per_tick = 2;
  max_jobs_per_probe = 1;
  max_triggers_per_tick = 16;
  int_bits = 64;
}

busy-IsQueueOk : IsQueueOk busy.cache
unfolding has_pending_trigger
busy-IsQueueOk = record { bounded = omega arith; distinct = (refl, (refl, (refl, tt))) }

finish_triggers-requeued_example :
    let w = select_work limits 9 busy.cache in
    let b = finish_triggers true 9 w.triggers false (record busy { cache = w.cache }) in
    (b.cache.pending_triggers ≡ w.cache.pending_triggers ++ w.triggers)
    × (w.triggers ++ w.cache.pending_triggers ≡ busy.cache.pending_triggers)
    × (b.store ≡ busy.store)
finish_triggers-requeued_example =
    finish_triggers-requeued true limits 9 9 busy busy-IsQueueOk (refl, (refl, (refl, tt)))
