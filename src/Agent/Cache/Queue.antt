-- ===== src/Agent/Cache/Queue.antt =====
-- The queue of pending triggers of internal/agent/cache.go under every method of the cache.
pub mod Methods
use radar_node.Base.{
  ℕ, zero, suc, ◌≤◌, ◌≡◌, refl, inl, inr, String, false, ◌&&◌, List, [], ◌∷◌, ◌++◌, Option, none,
  some, arith, subst, ◌+◌, ◌<◌, append-nil, str_eq, eq_iff, any-append, length, length-append,
  length-drop-le, drop, take-append-drop, length-take-le, Bool-cases, lookup,
}
use radar_node.Wire.{ProbeSnapshot, Event}
use radar_node.Agent.Cache.{
  ProbeCache, CachedProbe, PendingTrigger, Queued, skipped, full, added, new_probe_cache,
  max_pending_triggers, enqueue, remember_then_enqueue, has_pending_trigger, apply_triggered_event,
  apply_triggered_events, queue_trigger, queue_triggers, queue_known, put_restored, requeue_trigger,
  requeue_triggers, mark_trigger_complete, drain_pending_triggers_limited, replace_assignment,
  replace_assignment_keeping_hash, restore, with_snapshot,
}
use radar_node.Agent.Cache.Schedule.{take_due_probes, stagger_unstarted, mark_run}
use radar_node.Agent.Cache.Queue.Methods.{
  IsQueueOk, apply_triggered_events-IsQueueOk, queue_triggers-IsQueueOk, requeue_triggers-IsQueueOk,
  drain-IsQueueOk,
}

-- The methods of the cache, with their arguments.
pub data Call : Type 0 where
  replaces : String → List ProbeSnapshot → Call
  replaces_keeping_hash : List ProbeSnapshot → Call
  restores : String → List CachedProbe → Call
  applies : List Event → Call
  queues requeues : List PendingTrigger → Call
  completes : String → String → Call
  drains : ℕ → Call
  takes : ℕ → ℕ → ℕ → Call
  staggers : (String → ℕ) → ℕ → ℕ → Call
  runs : String → ℕ → Call

pub step : ProbeCache → Call → ProbeCache
step c (replaces hash ss) = replace_assignment hash ss c
step c (replaces_keeping_hash ss) = replace_assignment_keeping_hash ss c
step c (restores hash states) = restore hash states c
step c (applies evs) = apply_triggered_events evs c
step c (queues ts) = (queue_triggers ts 0 c).0
step c (requeues ts) = requeue_triggers ts c
step c (completes probe_id run_id) = mark_trigger_complete probe_id run_id c
step c (drains limit) = (drain_pending_triggers_limited limit c).0
step c (takes now max_jobs max_per_probe) = record c {
  probes = (take_due_probes now max_jobs max_per_probe c).probes;
}
step c (staggers fnv1a_64 now jitter) = stagger_unstarted fnv1a_64 now jitter c
step c (runs probe_id at) = mark_run probe_id at c

pub run : ProbeCache → List Call → ProbeCache
run c [] = c
run c (call ∷ calls) = run (step c call) calls

step-IsQueueOk : (c : ProbeCache) (call : Call) → IsQueueOk c → IsQueueOk (step c call)
unfolding step replace_assignment restore mark_trigger_complete stagger_unstarted mark_run
step-IsQueueOk c (replaces hash ss) v = record { bounded = v.bounded; distinct = v.distinct }
step-IsQueueOk c (replaces_keeping_hash ss) v = record {
  bounded = v.bounded;
  distinct = v.distinct;
}
step-IsQueueOk c (restores hash states) v = record { bounded = v.bounded; distinct = v.distinct }
step-IsQueueOk c (applies evs) v = apply_triggered_events-IsQueueOk evs c v
step-IsQueueOk c (queues ts) v = queue_triggers-IsQueueOk ts 0 c v
step-IsQueueOk c (requeues ts) v = requeue_triggers-IsQueueOk ts c v
step-IsQueueOk c (completes probe_id run_id) v = record {
  bounded = v.bounded;
  distinct = v.distinct;
}
step-IsQueueOk c (drains limit) v = drain-IsQueueOk limit c v
step-IsQueueOk c (takes now max_jobs max_per_probe) v = record {
  bounded = v.bounded;
  distinct = v.distinct;
}
step-IsQueueOk c (staggers fnv1a_64 now jitter) v = ground arith
step-IsQueueOk c (runs probe_id at) v = record { bounded = v.bounded; distinct = v.distinct }

run-IsQueueOk : (c : ProbeCache) (calls : List Call) → IsQueueOk c → IsQueueOk (run c calls)
unfolding run
run-IsQueueOk c [] v = v
run-IsQueueOk c (call ∷ calls) v = run-IsQueueOk (step c call) calls (step-IsQueueOk c call v)

-- After any sequence of the cache's methods the queue holds at most 256 triggers, no two of them
-- for the same probe and run.
pub run-new_probe_cache-IsQueueOk : (calls : List Call) → IsQueueOk (run new_probe_cache calls)
run-new_probe_cache-IsQueueOk calls = run-IsQueueOk new_probe_cache calls fresh
  where
    fresh : IsQueueOk new_probe_cache
    fresh = unfold new_probe_cache in record { bounded = omega arith; distinct = tt }

-- A drain hands out the queue's oldest triggers in order and keeps the rest in order; it hands out
-- at most `limit` of them where a limit is set, and all of them where none is.
pub drain_splits :
    (limit : ℕ) (c : ProbeCache)
    → let (c', drained) = drain_pending_triggers_limited limit c in
      (drained ++ c'.pending_triggers ≡ c.pending_triggers)
      × (0 < limit → length drained ≤ limit)
      × (limit ≡ 0 → c'.pending_triggers ≡ [])
      × (c'.probes ≡ c.probes)
unfolding drain_pending_triggers_limited
drain_splits limit c = ground (
  arith,
  append-nil c.pending_triggers,
  take-append-drop limit c.pending_triggers,
  length-take-le limit c.pending_triggers,
)
