-- ===== src/Agent/Cache/Schedule.antt =====
-- internal/agent/cache.go, the schedule: which probes are due, how many of them one tick takes, and
-- how the first run of new probes is spread.
use Prim.Native.String.{compare}
use text.Mathlib.Text.{is_lt}
use mathlib.Core.Option
use radar_node.Base.{
  Option, lookup, ℕ, ◌+◌, ◌-◌, ◌%◌, String, Bool, false, not, ◌&&◌, ◌||◌, List, [], ◌∷◌, ◌++◌, map,
  ltb, ◌==◌, if◌then◌else◌, str_eq, sum, min, modify, sort,
}
use radar_node.Wire.{ProbeSnapshot, probe_status_active}
use radar_node.Agent.Clock.{seconds, unix_milli, is_zero, before}
use radar_node.Agent.Cache.{CachedProbe, ProbeCache}

unfoldable pub probe_due : CachedProbe → ℕ → Bool
probe_due p now =
    if not (str_eq p.status probe_status_active)
    then false
    else if before now (unix_milli p.starts_at)
    then false
    else if ltb 0 p.ends_at && not (before now (unix_milli p.ends_at))
    then false
    else if str_eq p.schedule_type "manual"
    then false
    else is_zero p.last_run_at || not (before now (p.last_run_at + seconds p.interval_seconds))

unfoldable pub due_probes : ℕ → List (String × CachedProbe) → List ProbeSnapshot
due_probes now [] = []
due_probes now ((id, p) ∷ m) =
    if probe_due p now then p.snapshot ∷ due_probes now m else due_probes now m

pub record DueEntry : Type 0 where
  pub probe : CachedProbe
  pub count : ℕ

-- The jobs that a probe asks for, at least 1, and within the two caps where they are set.
unfoldable pub job_count : ℕ → ℕ → ℕ → ℕ
job_count max_jobs max_per_probe wanted =
    let count = if ltb wanted 1 then 1 else wanted in
    let capped = if ltb 0 max_per_probe && ltb max_per_probe count then max_per_probe else count in
    if ltb 0 max_jobs && ltb max_jobs capped then max_jobs else capped

unfoldable pub due_entries : ℕ → ℕ → ℕ → List (String × CachedProbe) → List DueEntry
unfolding job_count
due_entries now max_jobs max_per_probe [] = []
due_entries now max_jobs max_per_probe ((id, p) ∷ m) =
    let rest = due_entries now max_jobs max_per_probe m in
    if probe_due p now
    then record { probe = p; count = job_count max_jobs max_per_probe p.probe_count } ∷ rest
    else rest

-- Oldest run first, then by id.
unfoldable pub older : DueEntry → DueEntry → Bool
older left right =
    if left.probe.last_run_at == right.probe.last_run_at
    then is_lt (compare left.probe.id right.probe.id)
    else before left.probe.last_run_at right.probe.last_run_at

pub record Taken : Type 0 where
  pub probes : List (String × CachedProbe)
  pub selected : List ProbeSnapshot
  pub deferred : ℕ
  pub used : ℕ

abbrev pub run_at : ℕ → CachedProbe → CachedProbe
run_at now p = record p { last_run_at = now }

abbrev pub with_count : DueEntry → ProbeSnapshot
with_count e = record (e.probe.snapshot) { probe_count = e.count }

unfoldable pub take_entry : ℕ → ℕ → DueEntry → Taken → Taken
take_entry now max_jobs e t =
    if ltb 0 max_jobs && ltb max_jobs (t.used + e.count)
    then record t { deferred = t.deferred + e.count }
    else record t {
      used = t.used + e.count;
      probes = modify e.probe.id (run_at now) t.probes;
      selected = t.selected ++ with_count e ∷ [];
    }

unfoldable pub take_entries : ℕ → ℕ → List DueEntry → Taken → Taken
unfolding take_entry
take_entries now max_jobs [] t = t
take_entries now max_jobs (e ∷ es) t = take_entries now max_jobs es (take_entry now max_jobs e t)

abbrev pub counts : List DueEntry → ℕ
counts es = sum (map (λ e. e.count) es)

-- The budget of jobs is spent on the entries in order; what does not fit is deferred. With no
-- budget nothing is taken.
unfoldable pub take_due_probes : ℕ → ℕ → ℕ → ProbeCache → Taken
unfolding due_entries older take_entries
take_due_probes now max_jobs max_per_probe c =
    let entries = due_entries now max_jobs max_per_probe c.probes in
    if max_jobs == 0
    then record { probes = c.probes; selected = []; deferred = counts entries; used = 0 }
    else take_entries now max_jobs (sort older entries)
        (record { probes = c.probes; selected = []; deferred = 0; used = 0 })

-- The hash of an id is FNV-1a's, of the standard library. The unsigned remainder is below the
-- window, so the probe is next due within it.
module _ (fnv1a_64 : String → ℕ) where
  unfoldable pub stagger_probe : ℕ → ℕ → String × CachedProbe → String × CachedProbe
  stagger_probe now jitter (id, p) =
      if not (is_zero p.last_run_at) || str_eq p.schedule_type "manual"
      then (id, p)
      else if p.interval_seconds == 0
      then (id, p)
      else (
        id,
        run_at
            (now
              + fnv1a_64 id % min jitter (seconds p.interval_seconds)
              - seconds p.interval_seconds)
            p,
      )

  unfoldable pub stagger_unstarted : ℕ → ℕ → ProbeCache → ProbeCache
  unfolding stagger_probe
  stagger_unstarted now jitter c =
      if jitter == 0 then c else record c { probes = map (stagger_probe now jitter) c.probes }

unfoldable pub mark_run : String → ℕ → ProbeCache → ProbeCache
mark_run probe_id at c = record c { probes = modify probe_id (run_at at) c.probes }

unfoldable pub get : String → ProbeCache → Option ProbeSnapshot
get probe_id c = Option.map (λ p. p.snapshot) (lookup probe_id c.probes)
