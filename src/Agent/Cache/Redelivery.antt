-- ===== src/Agent/Cache/Redelivery.antt =====
-- A "triggered" event that internal/agent/cache.go receives more than once.
use radar_node.Base.{
  ℕ, ◌≤◌, ◌<◌, ◌≡◌, sym, ap, ◌∙◌, subst, Bool, true, false, ◌&&◌, List, [], ◌∷◌, ◌++◌, some, arith,
  str_eq, eq_iff, eq_refl, any-append, length, All, lookup, lookup-modify, modify,
}
use radar_node.Wire.{Event}
use radar_node.Agent.Cache.{
  ProbeCache, CachedProbe, PendingTrigger, max_pending_triggers, enqueue, remember_then_enqueue,
  remember_run, has_pending_trigger, apply_triggered_event, drain_pending_triggers_limited,
}

abbrev pub trigger_of : Event → PendingTrigger
trigger_of ev = record { probe_id = ev.probe.id; run_id = ev.run_id; probe = ev.probe }

-- The events that the cache looks at: a trigger with a run and a probe.
pub record IsTrigger (ev : Event) : Type 0 where
  pub triggered : str_eq ev.event_type "triggered" ≡ true
  pub has_run : str_eq ev.run_id "" ≡ false
  pub has_probe : str_eq ev.probe.id "" ≡ false

abbrev pub is_pending : Event → ProbeCache → Bool
is_pending ev c = has_pending_trigger c.pending_triggers ev.probe.id ev.run_id

has_pending_trigger-snoc :
    (ts : List PendingTrigger) (t : PendingTrigger)
    → has_pending_trigger (ts ++ t ∷ []) t.probe_id t.run_id ≡ true
unfolding has_pending_trigger
has_pending_trigger-snoc ts t = ground (
  arith,
  any-append (λ (u : PendingTrigger). str_eq u.probe_id t.probe_id && str_eq u.run_id t.run_id) ts
      (t ∷ []),
  eq_refl t.probe_id,
  eq_refl t.run_id,
)

-- Delivering an event again at once changes nothing and queues nothing, whatever the first delivery
-- did.
pub apply_triggered_event_twice :
    (ev : Event) (c : ProbeCache)
    → let c' = (apply_triggered_event ev c).0 in apply_triggered_event ev c' ≡ (c', false)
unfolding apply_triggered_event remember_then_enqueue enqueue
apply_triggered_event_twice ev c = ground (
  arith,
  has_pending_trigger-snoc c.pending_triggers (trigger_of ev),
  lookup-modify ev.probe.id ev.probe.id (remember_run ev.run_id) c.probes,
  eq_refl ev.probe.id,
  eq_refl ev.run_id,
)

-- The deliveries of one event, each after a drain of the queue by some limit: what each says.
abbrev pub redeliveries : Event → List ℕ → ProbeCache → List Bool
redeliveries ev [] c = []
redeliveries ev (limit ∷ limits) c =
    let answer = apply_triggered_event ev (drain_pending_triggers_limited limit c).0 in
    answer.1 ∷ redeliveries ev limits answer.0

-- The cached probe of an event remembers its run.
abbrev Remembers : Event → ProbeCache → Type 0
Remembers ev c =
    (p : CachedProbe) × (lookup ev.probe.id c.probes ≡ some p)
    × (str_eq p.last_trigger_run_id ev.run_id ≡ true)

drained-probes :
    (limit : ℕ) (c : ProbeCache) → (drain_pending_triggers_limited limit c).0.probes ≡ c.probes
unfolding drain_pending_triggers_limited
drained-probes limit c = ground arith

remembered_is_refused :
    (ev : Event) (c : ProbeCache) → Remembers ev c → apply_triggered_event ev c ≡ (c, false)
unfolding apply_triggered_event remember_then_enqueue
remembered_is_refused ev c (p, known, same) = ground (arith, known, same)

redeliveries_refused :
    (ev : Event) (limits : List ℕ) (c : ProbeCache)
    → Remembers ev c
    → All (λ queued. queued ≡ false) (redeliveries ev limits c)
redeliveries_refused ev [] c known = tt
redeliveries_refused ev (limit ∷ limits) c (p, known, same) =
    let d = (drain_pending_triggers_limited limit c).0 in
    let kept : Remembers ev d =
      (p, ap (lookup ev.probe.id) (drained-probes limit c) ∙ known, same) in
    let answer = remembered_is_refused ev d kept in
    (
      ap (λ (r : ProbeCache × Bool). r.1) answer,
      redeliveries_refused ev limits (apply_triggered_event ev d).0
          (subst (Remembers ev) (sym (ap (λ (r : ProbeCache × Bool). r.0) answer)) kept),
    )

-- A trigger that arrives while the queue is full is refused, and the first delivery yet remembers
-- its run. So any number of deliveries after it, each after a drain of the queue by any limit, are
-- taken for repetitions and refused as well, as long as nothing else changes the cache in between.
pub full_queue_loses_trigger :
    (ev : Event) (c : ProbeCache) (p : CachedProbe) (limits : List ℕ)
    → IsTrigger ev
    → lookup ev.probe.id c.probes ≡ some p
    → str_eq p.last_trigger_run_id ev.run_id ≡ false
    → is_pending ev c ≡ false
    → max_pending_triggers ≤ length c.pending_triggers
    → let refused = apply_triggered_event ev c in
      (refused.1 ≡ false)
      × (refused.0.pending_triggers ≡ c.pending_triggers)
      × All (λ queued. queued ≡ false) (redeliveries ev limits refused.0)
unfolding apply_triggered_event remember_then_enqueue enqueue
full_queue_loses_trigger ev c p limits t known fresh new no_room = (
  ground arith,
  ground arith,
  redeliveries_refused ev limits (apply_triggered_event ev c).0 (
    remember_run ev.run_id p,
    ground (
      arith,
      lookup-modify ev.probe.id ev.probe.id (remember_run ev.run_id) c.probes,
      eq_refl ev.probe.id,
    ),
    eq_refl ev.run_id,
  ),
)

-- A trigger with a run that the cached probe does not remember is queued while there is room.
apply_triggered_event_new :
    (ev : Event) (c : ProbeCache) (p : CachedProbe)
    → IsTrigger ev
    → lookup ev.probe.id c.probes ≡ some p
    → str_eq p.last_trigger_run_id ev.run_id ≡ false
    → is_pending ev c ≡ false
    → length c.pending_triggers < max_pending_triggers
    → (apply_triggered_event ev c).1 ≡ true
unfolding apply_triggered_event remember_then_enqueue enqueue
apply_triggered_event_new ev c p t known fresh new room = ground arith

-- The cache remembers one run for each probe. So when two triggers of one probe were queued and
-- drained, a redelivery of the first is queued, and would run, once more.
pub first_of_two_runs_again :
    (a b : Event) (c : ProbeCache) (p : CachedProbe)
    → IsTrigger a
    → IsTrigger b
    → b.probe.id ≡ a.probe.id
    → str_eq b.run_id a.run_id ≡ false
    → lookup a.probe.id c.probes ≡ some p
    → str_eq p.last_trigger_run_id a.run_id ≡ false
    → c.pending_triggers ≡ []
    → let queued = apply_triggered_event b (apply_triggered_event a c).0 in
      let (drained, due) = drain_pending_triggers_limited 0 queued.0 in
      (due ≡ trigger_of a ∷ trigger_of b ∷ []) × ((apply_triggered_event a drained).1 ≡ true)
unfolding apply_triggered_event remember_then_enqueue enqueue has_pending_trigger
    drain_pending_triggers_limited
first_of_two_runs_again a b c p ta tb same other known fresh empty = ground (
  arith,
  lookup-modify a.probe.id a.probe.id (remember_run a.run_id) c.probes,
  lookup-modify a.probe.id a.probe.id (remember_run b.run_id)
      (modify a.probe.id (remember_run a.run_id) c.probes),
  eq_refl a.probe.id,
  eq_iff b.run_id a.run_id,
  eq_iff a.run_id b.run_id,
)
