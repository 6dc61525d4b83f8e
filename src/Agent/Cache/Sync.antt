-- ===== src/Agent/Cache/Sync.antt =====
-- What an assignment from the server leaves in the cache of internal/agent/cache.go.
use mathlib.Core.Option
use radar_node.Base.{
  ℕ, ◌≡◌, refl, ap, ◌∙◌, String, List, [], ◌∷◌, Option, none, some, arith, if◌then◌else◌, str_eq,
  eq_iff, lookup, insert, lookup-insert,
}
use radar_node.Wire.{ProbeSnapshot}
use radar_node.Agent.Cache.{ProbeCache, CachedProbe, carry, assign, replace_assignment}

-- The last snapshot of an assignment that has this id.
abbrev pub last_with : String → List ProbeSnapshot → Option ProbeSnapshot
last_with id [] = none
last_with id (s ∷ ss) = elim (last_with id ss) [
  | some t ↦ some t
  | none ↦ if str_eq s.id id then some s else none
]

abbrev assigned_or :
    Option CachedProbe → Option CachedProbe → Option ProbeSnapshot → Option CachedProbe
assigned_or old next none = next
assigned_or old next (some s) = some (carry old s)

lookup-assign :
    (id : String) (old : List (String × CachedProbe)) (ss : List ProbeSnapshot)
    (next : List (String × CachedProbe))
    → lookup id (assign old ss next)
      ≡ assigned_or (lookup id old) (lookup id next) (last_with id ss)
unfolding assign
lookup-assign id old [] next = refl
lookup-assign id old (s ∷ ss) next = ground (
  arith,
  lookup-assign id old ss (insert s.id (carry (lookup s.id old) s) next),
  lookup-insert s.id id (carry (lookup s.id old) s) next,
  eq_iff s.id id,
)

-- What the cache knew of a probe before: its last run, at 0 where it never ran, and the run of its
-- last trigger.
abbrev pub last_run_of : Option CachedProbe → ℕ
last_run_of none = 0
last_run_of (some p) = p.last_run_at

abbrev pub last_trigger_of : Option CachedProbe → String
last_trigger_of none = ""
last_trigger_of (some p) = p.last_trigger_run_id

abbrev pub with_history : Option CachedProbe → ProbeSnapshot → CachedProbe
with_history known s = record {
  snapshot = s;
  last_run_at = last_run_of known;
  last_trigger_run_id = last_trigger_of known;
}

carry-with_history :
    (known : Option CachedProbe) (s : ProbeSnapshot) → carry known s ≡ with_history known s
carry-with_history none s = refl
carry-with_history (some p) s = refl

assigned-with_history :
    (known : Option CachedProbe) (o : Option ProbeSnapshot)
    → assigned_or known none o ≡ Option.map (with_history known) o
assigned-with_history known none = refl
assigned-with_history known (some s) = ap some (carry-with_history known s)

-- After a full assignment the cache holds exactly the assigned probes, the last snapshot of each
-- id; a probe that was cached before keeps the time of its last run and its last trigger's run,
-- another one has neither, the assignment's hash is the cache's, and the queue is as it was.
pub lookup-replace_assignment :
    (hash id : String) (ss : List ProbeSnapshot) (c : ProbeCache)
    → let c' = replace_assignment hash ss c in
      (lookup id c'.probes ≡ Option.map (with_history (lookup id c.probes)) (last_with id ss))
      × (c'.content_hash ≡ hash)
      × (c'.pending_triggers ≡ c.pending_triggers)
unfolding replace_assignment lookup
lookup-replace_assignment hash id ss c = (
  lookup-assign id c.probes ss [] ∙ assigned-with_history (lookup id c.probes) (last_with id ss),
  refl,
  refl,
)
