-- ===== src/Agent/Cache.antt =====
-- internal/agent/cache.go: the probes assigned to this node and the queue of triggers to run. The
-- mutex makes each method one step, so a method is a function on the cache. The map is keyed by
-- the probe's id.
pub mod Sync
pub mod Schedule
pub mod Budget
pub mod Oldest
pub mod Queue
pub mod Stagger
pub mod Redelivery
pub mod Tests
use radar_node.Base.{
  ℕ, ◌+◌, String, Bool, true, false, not, ◌&&◌, ◌||◌, List, [], ◌∷◌, ◌++◌, Option, none, some, leb,
  ◌==◌, if◌then◌else◌, str_eq, any, length, take, drop, lookup, insert, modify,
}
use radar_node.Wire.{ProbeSnapshot, Event}

abbrev pub max_pending_triggers : ℕ
max_pending_triggers = 256

pub record CachedProbe : Type 0 where
  pub snapshot : ProbeSnapshot
  pub open snapshot use *
  pub last_run_at : ℕ
  pub last_trigger_run_id : String

pub record PendingTrigger : Type 0 where
  pub probe_id : String
  pub run_id : String
  pub probe : ProbeSnapshot

pub record ProbeCache : Type 0 where
  pub probes : List (String × CachedProbe)
  pub content_hash : String
  pub pending_triggers : List PendingTrigger

unfoldable pub new_probe_cache : ProbeCache
new_probe_cache = record { probes = []; content_hash = ""; pending_triggers = [] }

-- The bookkeeping of a probe that was known before goes with its new definition.
abbrev pub carry : Option CachedProbe → ProbeSnapshot → CachedProbe
carry none s = record { snapshot = s; last_run_at = 0; last_trigger_run_id = "" }
carry (some p) s = record {
  snapshot = s;
  last_run_at = p.last_run_at;
  last_trigger_run_id = p.last_trigger_run_id;
}

unfoldable pub assign :
    List (String × CachedProbe)
    → List ProbeSnapshot
    → List (String × CachedProbe)
    → List (String × CachedProbe)
assign old [] next = next
assign old (s ∷ ss) next = assign old ss (insert s.id (carry (lookup s.id old) s) next)

unfoldable pub replace_assignment_keeping_hash : List ProbeSnapshot → ProbeCache → ProbeCache
unfolding assign
replace_assignment_keeping_hash ss c = record c { probes = assign c.probes ss [] }

unfoldable pub replace_assignment : String → List ProbeSnapshot → ProbeCache → ProbeCache
unfolding replace_assignment_keeping_hash
replace_assignment hash ss c = record (replace_assignment_keeping_hash ss c) { content_hash = hash }

unfoldable pub restore_probes :
    List CachedProbe → List (String × CachedProbe) → List (String × CachedProbe)
restore_probes [] next = next
restore_probes (s ∷ ss) next = restore_probes ss (insert s.id s next)

unfoldable pub restore : String → List CachedProbe → ProbeCache → ProbeCache
unfolding restore_probes
restore hash ss c = record c { probes = restore_probes ss []; content_hash = hash }

unfoldable pub has_pending_trigger : List PendingTrigger → String → String → Bool
has_pending_trigger ts probe_id run_id =
    any (λ t. str_eq t.probe_id probe_id && str_eq t.run_id run_id) ts

abbrev pub remember_run : String → CachedProbe → CachedProbe
remember_run run_id p = record p { last_trigger_run_id = run_id }

-- The end of the queueing methods: a full queue refuses the trigger.
unfoldable pub enqueue : PendingTrigger → ProbeCache → ProbeCache × Bool
enqueue t c =
    if leb max_pending_triggers (length c.pending_triggers)
    then (c, false)
    else (record c { pending_triggers = c.pending_triggers ++ t ∷ [] }, true)

-- The run is remembered in the cached probe before the queue's length is looked at.
unfoldable pub remember_then_enqueue :
    Option CachedProbe → PendingTrigger → ProbeCache → ProbeCache × Bool
unfolding enqueue
remember_then_enqueue none t c = enqueue t c
remember_then_enqueue (some p) t c =
    if str_eq p.last_trigger_run_id t.run_id
    then (c, false)
    else enqueue t (record c { probes = modify t.probe_id (remember_run t.run_id) c.probes })

unfoldable pub apply_triggered_event : Event → ProbeCache → ProbeCache × Bool
unfolding has_pending_trigger remember_then_enqueue
apply_triggered_event ev c =
    if not (str_eq ev.event_type "triggered") || str_eq ev.run_id "" || str_eq ev.probe.id ""
    then (c, false)
    else if has_pending_trigger c.pending_triggers ev.probe.id ev.run_id
    then (c, false)
    else remember_then_enqueue (lookup ev.probe.id c.probes)
        (record { probe_id = ev.probe.id; run_id = ev.run_id; probe = ev.probe }) c

unfoldable pub apply_triggered_events : List Event → ProbeCache → ProbeCache
unfolding apply_triggered_event
apply_triggered_events [] c = c
apply_triggered_events (ev ∷ evs) c = apply_triggered_events evs (apply_triggered_event ev c).0

-- A restored trigger without a snapshot of its own takes the cached definition.
abbrev pub with_snapshot : Option CachedProbe → PendingTrigger → PendingTrigger
with_snapshot none t = t
with_snapshot (some p) t = if str_eq t.probe.id "" then record t { probe = p.snapshot } else t

-- What one round of the loop in `queueTriggers` does: skip, break, or queue.
pub data Queued : Type 0 where
  skipped full added : ProbeCache → Queued

unfoldable pub put_restored : PendingTrigger → ProbeCache → Queued
put_restored t c =
    if leb max_pending_triggers (length c.pending_triggers)
    then full c
    else added (record c { pending_triggers = c.pending_triggers ++ t ∷ [] })

unfoldable pub queue_known : Option CachedProbe → PendingTrigger → ProbeCache → Queued
unfolding put_restored
queue_known none t c = put_restored t c
queue_known (some p) t c =
    if str_eq p.last_trigger_run_id t.run_id
    then skipped c
    else put_restored (with_snapshot (some p) t)
        (record c { probes = modify t.probe_id (remember_run t.run_id) c.probes })

unfoldable pub queue_trigger : PendingTrigger → ProbeCache → Queued
unfolding has_pending_trigger queue_known
queue_trigger t c =
    if str_eq t.probe_id "" || str_eq t.run_id ""
    then skipped c
    else if has_pending_trigger c.pending_triggers t.probe_id t.run_id
    then skipped c
    else queue_known (lookup t.probe_id c.probes) t c

unfoldable pub queue_triggers : List PendingTrigger → ℕ → ProbeCache → ProbeCache × ℕ
unfolding queue_trigger
queue_triggers [] queued c = (c, queued)
queue_triggers (t ∷ ts) queued c = elim (queue_trigger t c) [
  | skipped d ↦ queue_triggers ts queued d
  | full d ↦ (d, queued)
  | added d ↦ queue_triggers ts (queued + 1) d
]

-- It ignores `last_trigger_run_id` on purpose.
unfoldable pub requeue_trigger : PendingTrigger → ProbeCache → ProbeCache
unfolding has_pending_trigger enqueue
requeue_trigger t c =
    if str_eq t.probe_id "" || str_eq t.run_id ""
    then c
    else if has_pending_trigger c.pending_triggers t.probe_id t.run_id
    then c
    else (enqueue t c).0

unfoldable pub requeue_triggers : List PendingTrigger → ProbeCache → ProbeCache
unfolding requeue_trigger
requeue_triggers [] c = c
requeue_triggers (t ∷ ts) c = requeue_triggers ts (requeue_trigger t c)

unfoldable pub mark_trigger_complete : String → String → ProbeCache → ProbeCache
mark_trigger_complete probe_id run_id c = record c {
  probes = modify probe_id (remember_run run_id) c.probes;
}

-- A limit of 0 drains the whole queue.
unfoldable pub drain_pending_triggers_limited : ℕ → ProbeCache → ProbeCache × List PendingTrigger
drain_pending_triggers_limited limit c =
    if limit == 0 || leb (length c.pending_triggers) limit
    then (record c { pending_triggers = [] }, c.pending_triggers)
    else (
      record c { pending_triggers = drop limit c.pending_triggers },
      take limit c.pending_triggers,
    )
