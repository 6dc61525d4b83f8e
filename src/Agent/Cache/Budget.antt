-- ===== src/Agent/Cache/Budget.antt =====
-- What `takeDueProbes` of internal/agent/cache.go spends, defers and marks.
use mathlib.Core.Option
use radar_node.Base.{
  ℕ, zero, suc, ◌+◌, ◌≤◌, ◌<◌, ◌≡◌, refl, String, List, [], ◌∷◌, ◌++◌, map, Option, none, some,
  arith, Bool, if◌then◌else◌, str_eq, any, any-append, sum, lookup, lookup-modify, sort, sort-sum,
}
use radar_node.Wire.{ProbeSnapshot}
use radar_node.Agent.Cache.{CachedProbe, ProbeCache}
use radar_node.Agent.Cache.Schedule.{
  Taken, DueEntry, take_entry, take_entries, take_due_probes, due_entries, older, counts, run_at,
  with_count,
}

abbrev pub jobs : List ProbeSnapshot → ℕ
jobs ss = sum (map (λ s. s.probe_count) ss)

jobs-snoc :
    (ss : List ProbeSnapshot) (s : ProbeSnapshot) → jobs (ss ++ s ∷ []) ≡ jobs ss + s.probe_count
jobs-snoc [] s = omega arith
jobs-snoc (x ∷ ss) s = omega (arith, jobs-snoc ss s)

-- The loop keeps `used` the number of selected jobs and below the budget, and loses no job.
record Spends (max_jobs demand : ℕ) (t : Taken) : Type 0 where
  counted : t.used ≡ jobs t.selected
  within : t.used ≤ max_jobs
  conserved : t.used + t.deferred ≡ demand

take_entry-Spends :
    (now max_jobs demand : ℕ) (e : DueEntry) (t : Taken)
    → 0 < max_jobs
    → Spends max_jobs demand t
    → Spends max_jobs (demand + e.count) (take_entry now max_jobs e t)
unfolding take_entry
take_entry-Spends now max_jobs demand e t pos h =
    ground (arith, jobs-snoc t.selected (with_count e))

take_entries-Spends :
    (now max_jobs demand : ℕ) (es : List DueEntry) (t : Taken)
    → 0 < max_jobs
    → Spends max_jobs demand t
    → Spends max_jobs (demand + counts es) (take_entries now max_jobs es t)
unfolding take_entries
take_entries-Spends now max_jobs demand [] t pos h = ground arith
take_entries-Spends now max_jobs demand (e ∷ es) t pos h = ground (
  arith,
  take_entries-Spends now max_jobs (demand + e.count) es (take_entry now max_jobs e t) pos
      (take_entry-Spends now max_jobs demand e t pos h),
)

-- The jobs of the probes that one tick takes never exceed the budget, and together with the
-- deferred ones they are all the jobs that the due probes ask for.
pub take_due_probes-budget :
    (now max_jobs max_per_probe : ℕ) (c : ProbeCache)
    → let t = take_due_probes now max_jobs max_per_probe c in
      (jobs t.selected ≤ max_jobs)
      × (jobs t.selected + t.deferred ≡ counts (due_entries now max_jobs max_per_probe c.probes))
unfolding take_due_probes
take_due_probes-budget now zero max_per_probe c = ground arith
take_due_probes-budget now (suc k) max_per_probe c =
    let entries = due_entries now (suc k) max_per_probe c.probes in
    ground (
      arith,
      sort-sum older (λ e. e.count) entries,
      take_entries-Spends now (suc k) 0 (sort older entries)
          (record { probes = c.probes; selected = []; deferred = 0; used = 0 }) (omega arith)
          (omega arith),
    )

abbrev pub is_selected : String → List ProbeSnapshot → Bool
is_selected id ss = any (λ s. str_eq s.id id) ss

-- A selected probe has this instant for its last run and is otherwise as it was.
abbrev pub mark : ℕ → Bool → CachedProbe → CachedProbe
mark now chosen p = record {
  snapshot = p.snapshot;
  last_run_at = if chosen then now else p.last_run_at;
  last_trigger_run_id = p.last_trigger_run_id;
}

module _ (now max_jobs : ℕ) (id : String) (known : Option CachedProbe) where
  -- A probe has run now if it is among the selected ones, and is as it was otherwise.
  abbrev Marked : Taken → Type 0
  Marked t = lookup id t.probes ≡ Option.map (mark now (is_selected id t.selected)) known

  take_entry-Marked : (e : DueEntry) (t : Taken) → Marked t → Marked (take_entry now max_jobs e t)
  unfolding take_entry
  take_entry-Marked e t h = ground (
    arith,
    lookup-modify e.probe.id id (run_at now) t.probes,
    any-append (λ (s : ProbeSnapshot). str_eq s.id id) t.selected (with_count e ∷ []),
  )

  take_entries-Marked :
      (es : List DueEntry) (t : Taken) → Marked t → Marked (take_entries now max_jobs es t)
  unfolding take_entries
  take_entries-Marked [] t h = h
  take_entries-Marked (e ∷ es) t h =
      take_entries-Marked es (take_entry now max_jobs e t) (take_entry-Marked e t h)

Option-map-id {ℓ} : {A : Type ℓ} (o : Option A) → o ≡ Option.map (λ x. x) o
Option-map-id none = refl
Option-map-id (some x) = refl

-- `takeDueProbes` marks as run now exactly the cached probes that it selects; every other cached
-- probe keeps its state, and no probe appears or goes.
pub lookup-take_due_probes :
    (now max_jobs max_per_probe : ℕ) (c : ProbeCache) (id : String)
    → let t = take_due_probes now max_jobs max_per_probe c in
      lookup id t.probes ≡ Option.map (mark now (is_selected id t.selected)) (lookup id c.probes)
unfolding take_due_probes
lookup-take_due_probes now zero max_per_probe c id = Option-map-id (lookup id c.probes)
lookup-take_due_probes now (suc k) max_per_probe c id = ground (
  arith,
  take_entries-Marked now (suc k) id (lookup id c.probes)
      (sort older (due_entries now (suc k) max_per_probe c.probes))
      (record { probes = c.probes; selected = []; deferred = 0; used = 0 })
      (Option-map-id (lookup id c.probes)),
)
