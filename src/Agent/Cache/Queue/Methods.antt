-- ===== src/Agent/Cache/Queue/Methods.antt =====
-- What each method of probeCache (internal/agent/cache.go) keeps of the queue of triggers.
use radar_node.Base.{
  ℕ, zero, suc, ◌≤◌, ◌≡◌, refl, inl, inr, false, ◌&&◌, List, [], ◌∷◌, ◌++◌, Option, none, some,
  arith, subst, ◌+◌, str_eq, eq_iff, any-append, length, length-append, length-drop-le, drop,
  Bool-cases, lookup,
}
use radar_node.Wire.{Event}
use radar_node.Agent.Cache.{
  ProbeCache, CachedProbe, PendingTrigger, Queued, skipped, full, added, max_pending_triggers,
  enqueue, remember_then_enqueue, has_pending_trigger, apply_triggered_event,
  apply_triggered_events, queue_trigger, queue_triggers, queue_known, put_restored, requeue_trigger,
  requeue_triggers, drain_pending_triggers_limited, with_snapshot,
}

-- No two queued triggers have the same probe and run.
abbrev pub Distinct : List PendingTrigger → Type 0
Distinct [] = Unit
Distinct (t ∷ ts) = (has_pending_trigger ts t.probe_id t.run_id ≡ false) × Distinct ts

pub record IsQueueOk (c : ProbeCache) : Type 0 where
  pub bounded : length c.pending_triggers ≤ max_pending_triggers
  pub distinct : Distinct c.pending_triggers

Distinct-snoc :
    (ts : List PendingTrigger) (t : PendingTrigger)
    → has_pending_trigger ts t.probe_id t.run_id ≡ false
    → Distinct ts
    → Distinct (ts ++ t ∷ [])
unfolding has_pending_trigger
Distinct-snoc [] t new d = (refl, tt)
Distinct-snoc (x ∷ ts) t new d = ground (
  arith,
  Distinct-snoc ts t,
  any-append (λ (u : PendingTrigger). str_eq u.probe_id x.probe_id && str_eq u.run_id x.run_id) ts
      (t ∷ []),
  eq_iff t.probe_id x.probe_id,
  eq_iff x.probe_id t.probe_id,
  eq_iff t.run_id x.run_id,
  eq_iff x.run_id t.run_id,
)

Distinct-drop : (n : ℕ) (ts : List PendingTrigger) → Distinct ts → Distinct (drop n ts)
Distinct-drop zero ts d = d
Distinct-drop (suc n) [] d = tt
Distinct-drop (suc n) (t ∷ ts) d = Distinct-drop n ts d.1

enqueue-IsQueueOk :
    (t : PendingTrigger) (c : ProbeCache)
    → has_pending_trigger c.pending_triggers t.probe_id t.run_id ≡ false
    → IsQueueOk c
    → IsQueueOk (enqueue t c).0
unfolding enqueue
enqueue-IsQueueOk t c new v = ground (
  arith,
  length-append c.pending_triggers (t ∷ []),
  Distinct-snoc c.pending_triggers t new v.distinct,
)

remember_then_enqueue-IsQueueOk :
    (known : Option CachedProbe) (t : PendingTrigger) (c : ProbeCache)
    → has_pending_trigger c.pending_triggers t.probe_id t.run_id ≡ false
    → IsQueueOk c
    → IsQueueOk (remember_then_enqueue known t c).0
unfolding remember_then_enqueue
remember_then_enqueue-IsQueueOk none t c new v = enqueue-IsQueueOk t c new v
remember_then_enqueue-IsQueueOk (some p) t c new v =
    elim (Bool-cases (str_eq p.last_trigger_run_id t.run_id)) [
      | inl old ↦ rw (old, remember_then_enqueue) v
      | inr fresh ↦
          rw (fresh, remember_then_enqueue)
            (enqueue-IsQueueOk t _ new (record { bounded = v.bounded; distinct = v.distinct }))
    ]

apply_triggered_event-IsQueueOk :
    (ev : Event) (c : ProbeCache) → IsQueueOk c → IsQueueOk (apply_triggered_event ev c).0
unfolding apply_triggered_event
apply_triggered_event-IsQueueOk ev c v = ground (
  arith,
  remember_then_enqueue-IsQueueOk (lookup ev.probe.id c.probes)
      (record { probe_id = ev.probe.id; run_id = ev.run_id; probe = ev.probe }) c,
)

pub apply_triggered_events-IsQueueOk :
    (evs : List Event) (c : ProbeCache) → IsQueueOk c → IsQueueOk (apply_triggered_events evs c)
unfolding apply_triggered_events
apply_triggered_events-IsQueueOk [] c v = v
apply_triggered_events-IsQueueOk (ev ∷ evs) c v =
    apply_triggered_events-IsQueueOk evs (apply_triggered_event ev c).0
      (apply_triggered_event-IsQueueOk ev c v)

abbrev cache_of : Queued → ProbeCache
cache_of (skipped c) = c
cache_of (full c) = c
cache_of (added c) = c

put_restored-IsQueueOk :
    (t : PendingTrigger) (c : ProbeCache)
    → has_pending_trigger c.pending_triggers t.probe_id t.run_id ≡ false
    → IsQueueOk c
    → IsQueueOk (cache_of (put_restored t c))
unfolding put_restored
put_restored-IsQueueOk t c new v = ground (
  arith,
  length-append c.pending_triggers (t ∷ []),
  Distinct-snoc c.pending_triggers t new v.distinct,
)

with_snapshot-key :
    (known : Option CachedProbe) (t : PendingTrigger)
    → ((with_snapshot known t).probe_id ≡ t.probe_id) × ((with_snapshot known t).run_id ≡ t.run_id)
with_snapshot-key none t = (refl, refl)
with_snapshot-key (some p) t = ground arith

queue_known-IsQueueOk :
    (known : Option CachedProbe) (t : PendingTrigger) (c : ProbeCache)
    → has_pending_trigger c.pending_triggers t.probe_id t.run_id ≡ false
    → IsQueueOk c
    → IsQueueOk (cache_of (queue_known known t c))
unfolding queue_known
queue_known-IsQueueOk none t c new v = put_restored-IsQueueOk t c new v
queue_known-IsQueueOk (some p) t c new v =
    let key = with_snapshot-key (some p) t in
    elim (Bool-cases (str_eq p.last_trigger_run_id t.run_id)) [
      | inl old ↦ rw (old, queue_known) v
      | inr fresh ↦
          rw (fresh, queue_known)
            (put_restored-IsQueueOk (with_snapshot (some p) t) _ (rw (key.0, key.1) new)
              (record { bounded = v.bounded; distinct = v.distinct }))
    ]

queue_trigger-IsQueueOk :
    (t : PendingTrigger) (c : ProbeCache) → IsQueueOk c → IsQueueOk (cache_of (queue_trigger t c))
unfolding queue_trigger
queue_trigger-IsQueueOk t c v =
    ground (arith, queue_known-IsQueueOk (lookup t.probe_id c.probes) t c)

pub queue_triggers-IsQueueOk :
    (ts : List PendingTrigger) (n : ℕ) (c : ProbeCache)
    → IsQueueOk c
    → IsQueueOk (queue_triggers ts n c).0
unfolding queue_triggers
queue_triggers-IsQueueOk [] n c v = v
queue_triggers-IsQueueOk (t ∷ ts) n c v =
    go (λ m d w. queue_triggers-IsQueueOk ts m d w) (queue_trigger t c) refl
  where
    kept : (q : Queued) → queue_trigger t c ≡ q → IsQueueOk (cache_of q)
    kept q e = subst (λ r. IsQueueOk (cache_of r)) e (queue_trigger-IsQueueOk t c v)

    go :
        ((m : ℕ) (d : ProbeCache) → IsQueueOk d → IsQueueOk (queue_triggers ts m d).0)
        → (q : Queued) → queue_trigger t c ≡ q
        → IsQueueOk (queue_triggers (t ∷ ts) n c).0
    go ih (skipped d) e = rw (e, queue_triggers) (ih n d (kept _ e))
    go ih (full d) e = rw (e, queue_triggers) (kept _ e)
    go ih (added d) e = rw (e, queue_triggers) (ih (n + 1) d (kept _ e))

requeue_trigger-IsQueueOk :
    (t : PendingTrigger) (c : ProbeCache) → IsQueueOk c → IsQueueOk (requeue_trigger t c)
unfolding requeue_trigger
requeue_trigger-IsQueueOk t c v = ground (arith, enqueue-IsQueueOk t c)

pub requeue_triggers-IsQueueOk :
    (ts : List PendingTrigger) (c : ProbeCache) → IsQueueOk c → IsQueueOk (requeue_triggers ts c)
unfolding requeue_triggers
requeue_triggers-IsQueueOk [] c v = v
requeue_triggers-IsQueueOk (t ∷ ts) c v =
    requeue_triggers-IsQueueOk ts (requeue_trigger t c) (requeue_trigger-IsQueueOk t c v)

pub drain-IsQueueOk :
    (limit : ℕ) (c : ProbeCache)
    → IsQueueOk c
    → IsQueueOk (drain_pending_triggers_limited limit c).0
unfolding drain_pending_triggers_limited
drain-IsQueueOk limit c v = ground (
  arith,
  length-drop-le limit c.pending_triggers,
  Distinct-drop limit c.pending_triggers v.distinct,
)
