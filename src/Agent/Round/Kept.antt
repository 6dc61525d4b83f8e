-- ===== src/Agent/Round/Kept.antt =====
-- What a tick of internal/agent leaves of the queue of triggers and of its results.

use radar_node.Base.{ℕ, ◌≡◌, ◌⊎◌, Bool, true, String, Option, none, some, List, [], ◌++◌}
use radar_node.Wire.{Value}
use radar_node.Store.{Store}
use radar_node.Store.Replay.Rounds.{Settled as IsRecorded}
use radar_node.Agent.Cache.{PendingTrigger}
use radar_node.Agent.Tick.{Work, select_work}
use radar_node.Agent.Report.{Reporter}
use radar_node.Agent.Report.Durable.{IsDurable}
use radar_node.Agent.Round.{
  AgentState, TickInputs, record_path, mark_due, finish, tick_results, note_binding_pause,
  drain_delivery,
}
use radar_node.Module.Placeholder.{Text}

module _ (lower : Text → Text) (parse_ms : String → Option ℕ)
    (encodable : List (String × Value) → Bool) where
  -- Why a tick finishes nothing: its binding is down, nothing is due, or no post was answered.
  abbrev pub Waits : TickInputs → Work → Type 0
  Waits x w =
      (x.is_paused ≡ true) ⊎ ((w.due ≡ []) × (w.triggers ≡ [])) ⊎ (x.surroundings.post ≡ none)

  -- The triggers that were taken are behind the others again; or those that the tick ran are
  -- finished, and its results are durable, or there are none.
  abbrev pub IsKept : TickInputs → AgentState → AgentState → Type 0
  IsKept x a b =
      let w = select_work x.limits x.now a.cache in
      let results = tick_results x w in
      (Waits x w
        × (taken : List PendingTrigger) × (left : List PendingTrigger) × (taken ++ left
            ≡ a.cache.pending_triggers)
        × (b.cache.pending_triggers ≡ left ++ taken))
      ⊎ ((w.triggers ++ w.cache.pending_triggers ≡ a.cache.pending_triggers)
          × (b.cache.pending_triggers ≡ w.cache.pending_triggers)
          × ((results ≡ [])
              ⊎ IsDurable parse_ms encodable x.surroundings results a.reporter b.reporter))

  module _ (x : TickInputs) (a : AgentState) where
    abbrev work : Work
    work = select_work x.limits x.now a.cache

    abbrev checked : AgentState
    checked = record {
      cache = work.cache;
      reporter = record a.reporter { store = mark_due x work.due a.reporter.store };
      path = elim a.path [
        | none ↦ none
        | some p ↦ some (record_path lower x.recorded_at (tick_results x work) p)
      ];
      deferred_jobs = work.deferred_jobs;
    }

    abbrev drained : AgentState
    drained =
        let paused = note_binding_pause x a in
        record paused { reporter = drain_delivery x.surroundings paused.reporter }

    -- The end of a tick, after an answer of the report of its results.
    abbrev ended : Reporter × Bool → AgentState
    ended answer = finish x work.triggers answer.1 (record checked { reporter = answer.0 })
