-- ===== src/Module/Pool/Batch.antt =====
-- CheckBatch of internal/module/pool.go, from the options to the results. `parses` is
-- strconv.ParseFloat, `digest` the hash of jobKey, and `less` Go's order of texts.
pub mod Told
pub mod Words
pub mod Keys
pub mod Slots
pub mod Groups
pub mod Heads
pub mod Writes
pub mod Complete
mod Tests
use radar_node.Base.{
  ℕ, zero, suc, ◌+◌, ◌*◌, ◌/◌, Bool, String, Option, none, some, List, [], ◌∷◌, ◌++◌, map, ltb,
  ◌==◌, str_eq, if◌then◌else◌, length, take, drop, sort,
}
use radar_node.Wire.{Value}
use radar_node.Module.Schema.{FieldSchema, RequestError, validate_request}
use radar_node.Module.Pool.Run.{Options, PendingJob, PoolState, JobReport, World, run_slot}

-- What a result says beside its target and number: nothing, as its zero value, that the request was
-- invalid, or what its slot said.
pub data Report (M : Type 0) : Type 0 where
  absent : Report M
  invalid : RequestError → Report M
  ran : JobReport M → Report M

-- `probe.Result`, whose type is always the module's name.
pub record Result (M : Type 0) : Type 0 where
  pub target : String
  pub seq : ℕ
  pub report : Report M

-- What CheckBatch reads of its module: the fields of its requests, its floor of a timeout in
-- milliseconds, and its own bound on the jobs of an instance.
pub record Module : Type 0 where
  pub request : List FieldSchema
  pub min_timeout_ms : ℕ
  pub max_jobs : ℕ

-- `maxJobsPerInstance` of PoolLimits.
unfoldable pub max_jobs_per_instance : ℕ → ℕ → ℕ
max_jobs_per_instance limit module_value =
    if ltb 0 limit then (if ltb limit module_value then limit else module_value) else module_value

abbrev pub millisecond : ℕ
millisecond = 1_000_000

-- `withMinTimeout`.
unfoldable pub with_min_timeout : ℕ → ℕ → ℕ
with_min_timeout min_timeout_ms timeout =
    let minimum = min_timeout_ms * millisecond in if ltb timeout minimum then minimum else timeout

-- The jobs of one key: the first in the order of the options, and its duplicates.
pub record JobGroup : Type 0 where
  pub first : PendingJob
  pub others : List PendingJob

-- `groups[key] = append(groups[key], j)`; the list is in the order of `order`.
unfoldable pub add_job : PendingJob → List JobGroup → List JobGroup
add_job j [] = record { first = j; others = [] } ∷ []
add_job j (g ∷ gs) =
    if str_eq g.first.key j.key
    then record g { others = g.others ++ j ∷ [] } ∷ gs
    else g ∷ add_job j gs

module _ {M : Type 0} where
  abbrev pub zero_result : Result M
  zero_result = record { target = ""; seq = 0; report = absent }

  -- `results[i] = r`.
  abbrev pub set_result : ℕ → Result M → (ℕ → Result M) → ℕ → Result M
  set_result i r results = λ j. if j == i then r else results j

  abbrev pub reported : PendingJob → JobReport M → Result M
  reported p report = record { target = p.o.target; seq = p.o.seq; report = ran report }

  abbrev pub write_reports : List (PendingJob × JobReport M) → (ℕ → Result M) → ℕ → Result M
  write_reports [] results = results
  write_reports ((p, report) ∷ rest) results =
      write_reports rest (set_result p.idx (reported p report) results)

  -- The copies of a group's result, each with its own number.
  abbrev pub copy_result : Result M → List PendingJob → (ℕ → Result M) → ℕ → Result M
  copy_result canonical [] results = results
  copy_result canonical (d ∷ ds) results =
      copy_result canonical ds (set_result d.idx (record canonical { seq = d.o.seq }) results)

  abbrev pub fan_out : List JobGroup → (ℕ → Result M) → ℕ → Result M
  fan_out [] results = results
  fan_out (g ∷ gs) results = fan_out gs (copy_result (results g.first.idx) g.others results)

  -- The loop over the chunks, on fuel; it ends where an instance takes a job.
  unfoldable pub run_slots :
      World M
      → ℕ
      → List String
      → ℕ
      → ℕ
      → List PendingJob
      → PoolState
      → PoolState × List (PendingJob × JobReport M)
  run_slots w max_jobs live zero slot pending s = (s, [])
  run_slots w max_jobs live (suc fuel) slot [] s = (s, [])
  run_slots w max_jobs live (suc fuel) slot (p ∷ ps) s =
      let (s', reports) = run_slot w live slot (take max_jobs (p ∷ ps)) s in
      let (s'', rest) = run_slots w max_jobs live fuel (suc slot) (drop max_jobs (p ∷ ps)) s' in
      (s'', reports ++ rest)

-- The slots' part of `CheckBatch`: the first job of each group, in the order of the keys.
unfoldable pub run_groups :
    {M : Type 0}
    → (String → String → Bool)
    → World M
    → Module
    → List JobGroup
    → PoolState
    → PoolState × List (PendingJob × JobReport M)
run_groups less w m groups s =
    let pending = sort (λ a b. less a.key b.key) (map (λ g. g.first) groups) in
    run_slots w (max_jobs_per_instance w.jobs_limit m.max_jobs) (map (λ p. p.key) pending)
      (length pending) 0 pending s

-- `jobKey`.
unfoldable pub job_key : (String → ℕ → List (String × Value) → String → String) → Options → String
job_key digest o = digest o.target (o.timeout / millisecond) o.params o.bind

abbrev pub floored : Module → Options → Options
floored m o = record o { timeout = with_min_timeout m.min_timeout_ms o.timeout }

module _ (parses : String → Bool)
    (digest : String → ℕ → List (String × Value) → String → String) where
  -- One turn of the loop over the options.
  unfoldable pub collect_job :
      {M : Type 0}
      → Module
      → ℕ
      → Options
      → (ℕ → Result M) × List JobGroup
      → (ℕ → Result M) × List JobGroup
  collect_job m i o (results, groups) = elim (validate_request parses m.request o.params) [
    | some e ↦ (
      set_result i (record { target = o.target; seq = o.seq; report = invalid e }) results,
      groups,
    )
    | none ↦
        let o' = floored m o in
        (results, add_job (record { idx = i; key = job_key digest o'; o = o' }) groups)
  ]

  unfoldable pub collect_jobs :
      {M : Type 0}
      → Module
      → ℕ
      → List Options
      → (ℕ → Result M) × List JobGroup
      → (ℕ → Result M) × List JobGroup
  collect_jobs m i [] st = st
  collect_jobs m i (o ∷ os) st = collect_jobs m (suc i) os (collect_job m i o st)

  -- `CheckBatch`: the results are those at the numbers below the number of the options.
  unfoldable pub check_batch :
      {M : Type 0}
      → (String → String → Bool)
      → World M
      → Module
      → List Options
      → PoolState
      → PoolState × (ℕ → Result M)
  check_batch less w m opts s =
      let (results, groups) = collect_jobs m 0 opts (λ i. zero_result, []) in
      let (s', reports) = run_groups less w m groups s in
      (s', fan_out groups (write_reports reports results))
