-- ===== src/Agent/Report.antt =====
-- How a tick makes its results durable, internal/agent/agent.go: reportResults and its fallback to the
-- spool and to a direct post. What the database, the disk and the server do in this tick is an
-- argument. A new file of the spool is the last in the order of the names, which begin with the time.
pub mod Kept
pub mod Durable
mod Tests
use radar_node.Base.{
  ℕ, Bool, true, false, String, Option, none, some, List, [], ◌∷◌, ◌++◌, if◌then◌else◌,
}
use radar_node.Wire.{Result, ResultsResponse, Value}
use radar_node.Store.{Store, Answer, returned, failed}
use radar_node.Store.Results.{RecordSummary, record_results}
use radar_node.Agent.Spool.{SpoolEntry, Delivery, DrainTurn, Drained, prune, drain_spool}
use radar_node.Agent.Delivery.{StoreTurn, StoreDrain, drain_store}

-- The agent's store and spool, none where it has none, its backoff, and the batches that the server
-- answered for when they were posted directly.
pub record Reporter : Type 0 where
  pub store : Option Store
  pub spool : Option (List SpoolEntry)
  pub delivery : Delivery
  pub posted : List (List Result)

-- The file that `enqueue` writes.
pub record SpoolFile : Type 0 where
  pub path : String
  pub size : ℕ

-- `post` is none for an error, `file` where the spool cannot be written.
pub record Surroundings : Type 0 where
  pub record_works : Bool
  pub now_ms : ℕ
  pub now : ℕ
  pub store_turns : List StoreTurn
  pub post : Option ResultsResponse
  pub file : Option SpoolFile
  pub removes : SpoolEntry → Bool
  pub max_bytes : ℕ
  pub spool_turn : SpoolEntry → DrainTurn

abbrev pub entry_of : SpoolFile → List Result → SpoolEntry
entry_of f results = record { path = f.path; size = f.size; batch = some results }

-- `enqueue`, for results that are there.
unfoldable pub enqueue : Surroundings → SpoolFile → List Result → List SpoolEntry → List SpoolEntry
enqueue x f results es = prune x.removes x.max_bytes (es ++ entry_of f results ∷ [])

abbrev pub post_reply : List Result → Option ResultsResponse → Reporter → Reporter × Bool
post_reply results none a = (a, false)
post_reply results (some r) a = (record a { posted = a.posted ++ results ∷ [] }, true)

unfoldable pub post_directly : Surroundings → List Result → Reporter → Reporter × Bool
post_directly x results a = post_reply results x.post a

unfoldable pub drain_after : Surroundings → List SpoolEntry → Reporter → Reporter
drain_after x es a =
    let d = drain_spool x.now x.spool_turn es a.delivery in
    record a { spool = some d.left; delivery = d.delivery }

-- The fallback of an agent with a spool.
abbrev pub report_spooled :
    Surroundings → List Result → List SpoolEntry → Option SpoolFile → Reporter → Reporter × Bool
report_spooled x results es none a = post_directly x results a
report_spooled x results es (some f) a = (drain_after x (enqueue x f results es) a, true)

abbrev pub report_without_store :
    Surroundings → List Result → Option (List SpoolEntry) → Reporter → Reporter × Bool
report_without_store x results none a = post_directly x results a
report_without_store x results (some es) a = report_spooled x results es x.file a

-- `reportFallback`.
unfoldable pub report_fallback : Surroundings → List Result → Reporter → Reporter × Bool
report_fallback x results a = report_without_store x results a.spool a

-- What `reportResults` does after the store's answer.
abbrev pub report_recorded :
    Surroundings → List Result → Store × Answer RecordSummary → Reporter → Reporter × Bool
report_recorded x results (s, failed) a = report_fallback x results (record a { store = some s })
report_recorded x results (s, returned summary) a =
    let d = drain_store x.now x.store_turns s a.delivery in
    (record a { store = some d.store; delivery = d.delivery }, true)

module _ (parse_ms : String → Option ℕ) (encodable : List (String × Value) → Bool) where
  abbrev pub report_from : Surroundings → List Result → Option Store → Reporter → Reporter × Bool
  report_from x results none a = report_fallback x results a
  report_from x results (some s) a =
      report_recorded x results
        (record_results parse_ms encodable x.record_works x.now_ms results s) a

  -- `reportResults`.
  unfoldable pub report_results : Surroundings → List Result → Reporter → Reporter × Bool
  report_results x results a = report_from x results a.store a
