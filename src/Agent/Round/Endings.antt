-- ===== src/Agent/Round/Endings.antt =====
-- What the end of a tick of internal/agent leaves of its cache and its store.
use mathlib.Core.Option.{some-injective}
use radar_node.Base.{
  ℕ, ◌≡◌, refl, subst, arith, Bool, true, false, String, Option, none, some, List, [], ◌∷◌, map,
  ◌||◌,
}
use radar_node.Wire.{ProbeSnapshot}
use radar_node.Store.{Store}
use radar_node.Store.Sequences.{IsSequenced}
use radar_node.Store.Growth.{Grows, Grows-refl, complete_triggers-Grows}
use radar_node.Store.Triggers.{complete_triggers}
use radar_node.Store.Probes.{mark_probes_run}
use radar_node.Agent.Cache.{ProbeCache, PendingTrigger, mark_trigger_complete}
use radar_node.Agent.Triggers.{TriggerState, store_trigger, finish_triggers, mark_complete}
use radar_node.Agent.Round.{TickInputs, mark_due}

pub or_mono : (a b c : Bool) → (b ≡ true → c ≡ true) → (a || b) ≡ true → (a || c) ≡ true
or_mono true b c f h = refl
or_mono false b c f h = f h

mark_complete-queue :
    (ts : List PendingTrigger) (c : ProbeCache)
    → (mark_complete ts c).pending_triggers ≡ c.pending_triggers
unfolding mark_complete mark_trigger_complete
mark_complete-queue [] c = refl
mark_complete-queue (t ∷ ts) c =
    mark_complete-queue ts (mark_trigger_complete t.probe_id t.run_id c)

pub finished-queue :
    (works : Bool) (now : ℕ) (ts : List PendingTrigger) (a : TriggerState)
    → (finish_triggers works now ts true a).cache.pending_triggers ≡ a.cache.pending_triggers
unfolding finish_triggers
finished-queue works now [] a = refl
finished-queue works now (t ∷ ts) a = mark_complete-queue (t ∷ ts) a.cache

-- A store that finishing triggers leaves has grown.
pub finished-Grows :
    (works : Bool) (now : ℕ) (ts : List PendingTrigger) (c : ProbeCache) (s : Store)
    → let b = finish_triggers works now ts true (record { cache = c; store = some s }) in
      (t : Store) × (b.store ≡ some t) × Grows s t
unfolding finish_triggers
finished-Grows works now [] c s = (s, refl, Grows-refl s)
finished-Grows works now (t ∷ ts) c s =
    let completed = complete_triggers works now (map store_trigger (t ∷ ts)) s in
    (completed.0, refl, complete_triggers-Grows works now (map store_trigger (t ∷ ts)) s)

mark_probes_run-IsSequenced :
    (ids : List String) (at_ms : ℕ) (s : Store)
    → IsSequenced s
    → IsSequenced (mark_probes_run ids at_ms s)
unfolding mark_probes_run
mark_probes_run-IsSequenced [] at_ms s h = h
mark_probes_run-IsSequenced (id ∷ ids) at_ms s h = mark_probes_run-IsSequenced ids at_ms _ h

pub mark_due-IsSequenced :
    (x : TickInputs) (due : List ProbeSnapshot) (o : Option Store) (s : Store)
    → ((t : Store) → o ≡ some t → IsSequenced t)
    → mark_due x due o ≡ some s
    → IsSequenced s
unfolding mark_due
mark_due-IsSequenced x due none s h e = absurd (ground (arith, e))
mark_due-IsSequenced x due (some t) s h e =
    subst IsSequenced (some-injective _ _ e) (mark_probes_run-IsSequenced _ _ t (h t refl))
