-- ===== src/Agent/Triggers.antt =====
-- The triggers between the cache and the store, internal/agent/store_delivery.go. An agent without a
-- store has none here. Each call of the store comes with whether it works and its time.
pub mod Requeue
mod Tests
use radar_node.Base.{ℕ, Bool, true, false, Option, none, some, List, [], ◌∷◌, map, if◌then◌else◌}
use radar_node.Wire.{Event}
use radar_node.Agent.Cache.{
  ProbeCache, PendingTrigger, apply_triggered_event, apply_triggered_events, queue_triggers,
  requeue_triggers, mark_trigger_complete,
}
use radar_node.Store.{Store, Answer, returned, failed}
use radar_node.Store.Triggers.{record_trigger, load_pending_triggers, complete_triggers}
use radar_node.Store.Triggers

pub record TriggerState : Type 0 where
  pub cache : ProbeCache
  pub store : Option Store

-- The store's answer for one event: a failure degrades the durability, and the event is still applied.
abbrev pub apply_recorded : Event → Store × Answer Bool → ProbeCache → TriggerState
apply_recorded ev (s, failed) c = record { cache = (apply_triggered_event ev c).0; store = some s }
apply_recorded ev (s, returned inserted) c = record {
  cache = if inserted then (apply_triggered_event ev c).0 else c;
  store = some s;
}

-- An event with whether the store's call works, and when.
pub record Arrival : Type 0 where
  pub event : Event
  pub works : Bool
  pub at_ms : ℕ

unfoldable pub apply_with_store : List Arrival → Store → ProbeCache → TriggerState
apply_with_store [] s c = record { cache = c; store = some s }
apply_with_store (a ∷ later) s c =
    let answer = record_trigger a.works a.at_ms a.event s in
    let applied = apply_recorded a.event answer c in apply_with_store later answer.0 applied.cache

-- `applyTriggeredEvents`.
unfoldable pub apply_events : List Arrival → TriggerState → TriggerState
apply_events arrivals a = elim a.store [
  | none ↦ record a { cache = apply_triggered_events (map (λ e. e.event) arrivals) a.cache }
  | some s ↦ apply_with_store arrivals s a.cache
]

abbrev pub agent_trigger : Triggers.PendingTrigger → PendingTrigger
agent_trigger t = record { probe_id = t.probe_id; run_id = t.run_id; probe = t.probe }

abbrev pub store_trigger : PendingTrigger → Triggers.PendingTrigger
store_trigger t = record {
  probe_id = t.probe_id;
  run_id = t.run_id;
  event_seq = 0;
  probe = t.probe;
}

abbrev pub restore_from : Bool → Option Store → ProbeCache → TriggerState × Bool
restore_from reads none c = (record { cache = c; store = none }, true)
restore_from false (some s) c = (record { cache = c; store = some s }, false)
restore_from true (some s) c =
    let (t, triggers) = load_pending_triggers s in
    (record { cache = (queue_triggers (map agent_trigger triggers) 0 c).0; store = some t }, true)

-- `restorePendingTriggers`: none of it where the read fails, and it is tried again later.
unfoldable pub restore_pending_triggers : Bool → TriggerState → TriggerState × Bool
restore_pending_triggers reads a = restore_from reads a.store a.cache

abbrev pub complete_in : Bool → ℕ → List PendingTrigger → Option Store → Option Store
complete_in works now ts none = none
complete_in works now ts (some s) = some (complete_triggers works now (map store_trigger ts) s).0

unfoldable pub mark_complete : List PendingTrigger → ProbeCache → ProbeCache
mark_complete [] c = c
mark_complete (t ∷ ts) c = mark_complete ts (mark_trigger_complete t.probe_id t.run_id c)

-- `finishTriggers`: a completion that fails replays after a restart.
unfoldable pub finish_triggers : Bool → ℕ → List PendingTrigger → Bool → TriggerState → TriggerState
finish_triggers works now [] durable a = a
finish_triggers works now (t ∷ ts) durable a =
    if durable
    then record {
      cache = mark_complete (t ∷ ts) a.cache;
      store = complete_in works now (t ∷ ts) a.store;
    }
    else record a { cache = requeue_triggers (t ∷ ts) a.cache }
