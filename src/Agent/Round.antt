-- ===== src/Agent/Round.antt =====
-- One tick of the agent as a whole, internal/agent/agent.go: runDueProbes, with the executions of its
-- probes and triggers, and noteBindingPause (bindmonitor.go) and drainDelivery (store_delivery.go),
-- which it calls. Heartbeats run in a goroutine of their own: the events that come between the choice
-- of a tick's work and its end are an argument, applied after the checks.
pub mod Endings
pub mod Kept
mod Tests
use radar_node.Base.{
  ℕ, ◌+◌, ◌-◌, ◌/◌, Bool, true, String, Option, none, some, List, [], ◌∷◌, ◌++◌, map, take, length,
  if◌then◌else◌,
}
use radar_node.Wire.{ProbeSnapshot, Result, Value}
use radar_node.Store.{Store}
use radar_node.Store.Probes.{mark_probes_run}
use radar_node.Agent.Clock.{unix_epoch}
use radar_node.Agent.Cache.{ProbeCache, PendingTrigger}
use radar_node.Agent.Cache.Schedule.{due_probes}
use radar_node.Agent.Spool.{drain_spool}
use radar_node.Agent.Delivery.{drain_store}
use radar_node.Agent.Triggers.{TriggerState, Arrival, apply_events, finish_triggers}
use radar_node.Agent.Tick.{TickLimits, Work, select_work, probe_job_count, probe_jobs, trigger_jobs}
use radar_node.Agent.Checks.{World, run_checks}
use radar_node.Agent.PathHealth.{PathHealth, record_check}
use radar_node.Agent.Report.{Reporter, Surroundings, report_results}
use radar_node.Module.Placeholder.{Text, codes}

-- What a tick changes of the agent. `path` is none where the agent has no path health.
pub record AgentState : Type 0 where
  pub cache : ProbeCache
  pub reporter : Reporter
  pub path : Option PathHealth
  pub deferred_jobs : ℕ

-- What the tick meets. `is_paused` says that the binding is set and does not come up; `world` and
-- `trigger_world` are the checks of the probes and of the triggers; `marked` is how many run times the
-- store takes before a statement fails; `heard` are the events of heartbeats that come meanwhile;
-- `completes` whether the completion of the triggers works.
pub record TickInputs : Type 0 where
  pub limits : TickLimits
  pub now : ℕ
  pub is_paused : Bool
  pub new_run_id : ℕ → String
  pub world : World
  pub trigger_world : World
  pub recorded_at : ℕ
  pub heard : List Arrival
  pub marked : ℕ
  pub surroundings : Surroundings
  pub completes : Bool
  pub completed_ms : ℕ

-- `t.UnixMilli()`, of an instant after 1970.
abbrev pub unix_ms : ℕ → ℕ
unix_ms t = (t - unix_epoch) / 1_000_000

unfoldable pub paused_jobs : ℕ → List ProbeSnapshot → ℕ
paused_jobs max_per_probe [] = 0
paused_jobs max_per_probe (pr ∷ prs) =
    probe_job_count max_per_probe pr.probe_count + paused_jobs max_per_probe prs

-- `noteBindingPause`.
unfoldable pub note_binding_pause : TickInputs → AgentState → AgentState
note_binding_pause x a = record a {
  deferred_jobs =
      paused_jobs x.limits.max_jobs_per_probe (due_probes x.now a.cache.probes)
      + length a.cache.pending_triggers;
}

abbrev pub drain_files : Surroundings → Reporter → Reporter
drain_files x a = elim a.spool [
  | none ↦ a
  | some es ↦
      let d = drain_spool x.now x.spool_turn es a.delivery in
      record a { spool = some d.left; delivery = d.delivery }
]

-- `drainDelivery`.
unfoldable pub drain_delivery : Surroundings → Reporter → Reporter
drain_delivery x a = elim a.store [
  | none ↦ drain_files x a
  | some s ↦
      let d = drain_store x.now x.store_turns s a.delivery in
      record a { store = some d.store; delivery = d.delivery }
]

-- The results of `executeProbes`, then those of `executeTriggers`.
unfoldable pub tick_results : TickInputs → Work → List Result
tick_results x w =
    let most = x.limits.max_jobs_per_probe in
    run_checks x.world (probe_jobs most x.new_run_id 0 w.due)
    ++ run_checks x.trigger_world (trigger_jobs most w.cache w.triggers)

-- `MarkProbesRun` of the due probes, where there is a store.
unfoldable pub mark_due : TickInputs → List ProbeSnapshot → Option Store → Option Store
mark_due x due none = none
mark_due x due (some s) =
    some (mark_probes_run (take x.marked (map (λ pr. pr.id) due)) (unix_ms x.now) s)

-- `finishTriggers`, on the agent's cache and store.
abbrev pub finish : TickInputs → List PendingTrigger → Bool → AgentState → AgentState
finish x ts durable a =
    let b =
      finish_triggers x.completes x.completed_ms ts durable
        (record { cache = a.cache; store = a.reporter.store }) in
    record a { cache = b.cache; reporter = record a.reporter { store = b.store } }

module _ (lower : Text → Text) where
  unfoldable pub record_path : ℕ → List Result → PathHealth → PathHealth
  record_path at [] p = p
  record_path at (r ∷ rs) p = record_path at rs (
      record_check lower
        (record { target = r.target; err_text = codes r.error; err_code = r.error_code; at = at })
        p)

  module _ (parse_ms : String → Option ℕ) (encodable : List (String × Value) → Bool) where
    -- The end of a tick, from its results on.
    abbrev pub finish_results :
        TickInputs → List PendingTrigger → List Result → AgentState → AgentState
    finish_results x ts [] a = finish x ts true a
    finish_results x ts (r ∷ rs) a =
        let (reporter, durable) =
          report_results parse_ms encodable x.surroundings (r ∷ rs) a.reporter in
        finish x ts durable (record a { reporter = reporter })

    -- The state of a tick that chose its work and ran its checks.
    unfoldable pub after_checks : TickInputs → Work → AgentState → AgentState
    after_checks x w a =
        let h = apply_events x.heard (record { cache = w.cache; store = a.reporter.store }) in
        record {
          cache = h.cache;
          reporter = record a.reporter { store = mark_due x w.due h.store };
          path = elim a.path [
            | none ↦ none
            | some p ↦ some (record_path x.recorded_at (tick_results x w) p)
          ];
          deferred_jobs = w.deferred_jobs;
        }

    unfoldable pub run_work_of : TickInputs → Work → AgentState → AgentState
    run_work_of x w a = finish_results x w.triggers (tick_results x w) (after_checks x w a)

    unfoldable pub idle : TickInputs → Work → AgentState → AgentState
    idle x w a = record a {
      cache = w.cache;
      reporter = drain_delivery x.surroundings a.reporter;
      deferred_jobs = w.deferred_jobs;
    }

    abbrev pub run_selected :
        TickInputs → List ProbeSnapshot → List PendingTrigger → Work → AgentState → AgentState
    run_selected x [] [] w a = idle x w a
    run_selected x due ts w a = run_work_of x w a

    -- `runDueProbes`.
    unfoldable pub run_due_probes : TickInputs → AgentState → AgentState
    run_due_probes x a =
        let paused = note_binding_pause x a in
        let w = select_work x.limits x.now a.cache in
        if x.is_paused
        then record paused { reporter = drain_delivery x.surroundings paused.reporter }
        else run_selected x w.due w.triggers w a
