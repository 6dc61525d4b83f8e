-- ===== src/Agent/Triggers/Requeue.antt =====
-- The triggers of a tick of internal/agent whose results could not be made durable. Heartbeats run in a
-- goroutine of their own: one that fills the queue between the choice of the work and the end of the
-- tick makes requeueTriggers drop triggers. Here none comes in between.
use radar_node.Base.{
  ℕ, suc, ◌+◌, ◌≤◌, ◌≡◌, refl, sym, ap, ◌∙◌, subst, Bool, false, ◌&&◌, ◌||◌, String, List, [], ◌∷◌,
  ◌++◌, append-nil, append_assoc, str_eq, eq_iff, any-append, length, length-append, All, arith,
}
use radar_node.Agent.Cache.{
  ProbeCache, PendingTrigger, has_pending_trigger, max_pending_triggers, enqueue, requeue_trigger,
  requeue_triggers, drain_pending_triggers_limited,
}
use radar_node.Agent.Cache.Queue.Methods.{Distinct, IsQueueOk}
use radar_node.Agent.Cache.Queue.{drain_splits}
use radar_node.Agent.Tick.{TickLimits, trigger_slots, select_work}
use radar_node.Agent.Triggers.{TriggerState, finish_triggers}

-- A trigger that has a probe and a run.
abbrev pub Named : PendingTrigger → Type 0
Named t = (str_eq t.probe_id "" || str_eq t.run_id "") ≡ false

Distinct-insert :
    (ys xs : List PendingTrigger) (x : PendingTrigger)
    → has_pending_trigger (ys ++ xs) x.probe_id x.run_id ≡ false
    → Distinct (ys ++ xs)
    → Distinct (ys ++ (x ∷ xs))
unfolding has_pending_trigger
Distinct-insert [] xs x new d = (new, d)
Distinct-insert (y ∷ ys) xs x new (d, ds) = (
  ground (
    arith,
    new,
    d,
    any-append (λ (u : PendingTrigger). str_eq u.probe_id y.probe_id && str_eq u.run_id y.run_id) ys
        xs,
    any-append (λ (u : PendingTrigger). str_eq u.probe_id y.probe_id && str_eq u.run_id y.run_id) ys
        (x ∷ xs),
    eq_iff x.probe_id y.probe_id,
    eq_iff y.probe_id x.probe_id,
    eq_iff x.run_id y.run_id,
    eq_iff y.run_id x.run_id,
  ),
  Distinct-insert ys xs x (ground (arith, new)) ds,
)

has_pending-swap :
    (xs ys : List PendingTrigger) (probe_id run_id : String)
    → has_pending_trigger (xs ++ ys) probe_id run_id
      ≡ has_pending_trigger (ys ++ xs) probe_id run_id
unfolding has_pending_trigger
has_pending-swap xs ys probe_id run_id = ground (
  arith,
  any-append (λ (u : PendingTrigger). str_eq u.probe_id probe_id && str_eq u.run_id run_id) xs ys,
  any-append (λ (u : PendingTrigger). str_eq u.probe_id probe_id && str_eq u.run_id run_id) ys xs,
)

Distinct-swap : (xs ys : List PendingTrigger) → Distinct (xs ++ ys) → Distinct (ys ++ xs)
Distinct-swap [] ys d = subst Distinct (sym (append-nil ys)) d
Distinct-swap (x ∷ xs) ys (d, ds) =
    Distinct-insert ys xs x (sym (has_pending-swap xs ys x.probe_id x.run_id) ∙ d)
      (Distinct-swap xs ys ds)

Distinct-middle :
    (xs ys : List PendingTrigger) (t : PendingTrigger)
    → Distinct (xs ++ (t ∷ ys))
    → has_pending_trigger xs t.probe_id t.run_id ≡ false
unfolding has_pending_trigger
Distinct-middle [] ys t d = refl
Distinct-middle (x ∷ xs) ys t (d, ds) = ground (
  arith,
  d,
  Distinct-middle xs ys t ds,
  any-append (λ (u : PendingTrigger). str_eq u.probe_id x.probe_id && str_eq u.run_id x.run_id) xs
      (t ∷ ys),
  eq_iff x.probe_id t.probe_id,
  eq_iff t.probe_id x.probe_id,
  eq_iff x.run_id t.run_id,
  eq_iff t.run_id x.run_id,
)

requeue_trigger-added :
    (t : PendingTrigger) (c : ProbeCache)
    → Named t
    → has_pending_trigger c.pending_triggers t.probe_id t.run_id ≡ false
    → suc (length c.pending_triggers) ≤ max_pending_triggers
    → requeue_trigger t c ≡ record c { pending_triggers = c.pending_triggers ++ t ∷ [] }
unfolding requeue_trigger enqueue
requeue_trigger-added t c named new room = ground (arith, named, new, room)

requeue_triggers-append :
    (ts : List PendingTrigger) (c : ProbeCache)
    → All Named ts
    → Distinct (c.pending_triggers ++ ts)
    → length c.pending_triggers + length ts ≤ max_pending_triggers
    → (requeue_triggers ts c).pending_triggers ≡ c.pending_triggers ++ ts
unfolding requeue_triggers
requeue_triggers-append [] c named d room = sym (append-nil c.pending_triggers)
requeue_triggers-append (t ∷ ts) c (named, rest) d room =
    let q = c.pending_triggers in
    let next : ProbeCache = record c { pending_triggers = q ++ t ∷ [] } in
    let moved = append_assoc q (t ∷ []) ts in
    ap (λ (x : ProbeCache). (requeue_triggers ts x).pending_triggers)
      (requeue_trigger-added t c named (Distinct-middle q ts t d) (omega (arith, room)))
    ∙ requeue_triggers-append ts next rest (subst Distinct (sym moved) d)
        (omega (arith, room, length-append q (t ∷ [])))
    ∙ moved

All-suffix : (xs ys : List PendingTrigger) → All Named (xs ++ ys) → All Named xs
All-suffix [] ys h = tt
All-suffix (x ∷ xs) ys (h, hs) = (h, All-suffix xs ys hs)

-- When the results of a tick could not be made durable, and no heartbeat has changed the queue since
-- the tick chose its work, finishTriggers gives every trigger that the tick took back to the queue,
-- behind those that it left there, and the store stays as it was. The queue held at most 256
-- triggers, all distinct, each with a probe and a run.
pub finish_triggers-requeued :
    (works : Bool) (lim : TickLimits) (now now_ms : ℕ) (a : TriggerState)
    → IsQueueOk a.cache
    → All Named a.cache.pending_triggers
    → let w = select_work lim now a.cache in
      let b = finish_triggers works now_ms w.triggers false (record a { cache = w.cache }) in
      (b.cache.pending_triggers ≡ w.cache.pending_triggers ++ w.triggers)
      × (w.triggers ++ w.cache.pending_triggers ≡ a.cache.pending_triggers)
      × (b.store ≡ a.store)
unfolding finish_triggers select_work requeue_triggers
finish_triggers-requeued works lim now now_ms a fine named =
    let drained = drain_pending_triggers_limited (trigger_slots lim) a.cache in
    let split = (drain_splits (trigger_slots lim) a.cache).0 in
    let w = select_work lim now a.cache in
    let d =
      Distinct-swap drained.1 drained.0.pending_triggers
        (subst Distinct (sym split) fine.distinct) in
    let room : length drained.0.pending_triggers + length drained.1 ≤ max_pending_triggers =
      omega (
        arith,
        fine.bounded,
        ap length split,
        length-append drained.1 drained.0.pending_triggers,
      ) in
    let back =
      requeue_triggers-append drained.1 w.cache
        (All-suffix drained.1 drained.0.pending_triggers (subst (All Named) (sym split) named)) d
        room in
    (finished drained.1 w.cache back, split, same_store drained.1 w.cache)
  where
    finished :
        (ts : List PendingTrigger) (c : ProbeCache)
        → (requeue_triggers ts c).pending_triggers ≡ c.pending_triggers ++ ts
        → (finish_triggers works now_ms ts false (record a { cache = c })).cache.pending_triggers
          ≡ c.pending_triggers ++ ts
    finished [] c h = h
    finished (t ∷ ts) c h = h

    same_store :
        (ts : List PendingTrigger) (c : ProbeCache)
        → (finish_triggers works now_ms ts false (record a { cache = c })).store ≡ a.store
    same_store [] c = refl
    same_store (t ∷ ts) c = refl
