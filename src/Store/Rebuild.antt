-- ===== src/Store/Rebuild.antt =====
-- `Rebuild` of internal/store/probes.go: the projections follow from the journal.
mod Rows
mod Results
mod Events
use mathlib.Core.Option.{some-injective}
use radar_node.Base.{
  Bool-cases, ◌⊎◌, ◌||◌, length, zero, ◌==◌, take, drop, ℕ, suc, ◌≡◌, refl, sym, ap, ◌∙◌, subst,
  inl, inr, String, Bool, true, false, not, List, [], ◌∷◌, ◌++◌, map, Option, none, some, arith,
  any, retain, All, str_eq, if◌then◌else◌, Option-cases,
}
use radar_node.Wire.{Event, Result, ProbeSnapshot, Value}
use radar_node.Store.{
  Store, JournalRow, ResultColumns, ProbeRow, PendingRow, Body, Answer, returned, failed, result,
  trigger, trigger_done, assignment, new_row, fresh, next_origin_seq, insert_journal,
}
use radar_node.Store.Triggers.{
  PendingTrigger, is_pending, decodes, queue_trigger, record_trigger, journal_trigger,
  load_pending_triggers, upsert_completed, delete_pending, complete_trigger, journal_completion,
  journal_completions, complete_triggers,
}
use radar_node.Store.Results.{
  RecordSummary, Outcome, empty_summary, insert_result, record_result, record_all, record_results,
  mark_all, mark_outcomes, mark_attempts, observed_at_ms, columns_of, settle_where, attempt,
  attempt_chunks,
}
use radar_node.Store.Probes.{
  apply_assignment, journal_assignment, save_assignment, mark_probes_run, rebuild_event,
  insert_probes, rebuild_rows, rebuild, cleared,
}
use radar_node.Store.Sequences.{Reserved, with_row, next_of, next_origin_seq_lem}
use radar_node.Store.Calls.{
  Call, records_trigger, loads_triggers, completes, records, settles, attempts, assigns, runs, step,
  run, journal_trigger-cases, journal_completion-cases, insert_journal-cases,
}
use Rows.{
  Projected, SameEvent, IsJournaled, rebuild_rows-snoc, rebuild_rows-map, IsJournaled-same,
  IsJournaled-row, insert_probes_any, retain-retain, All-retain, All-snoc, retain-All,
}
use radar_node.Store.Rebuild.Results.{
  record_results-IsJournaled, insert_journal-IsJournaled, settle_where-SameEvent, attempt-SameEvent,
  rebuild_rows-mark_all, rebuild_rows-attempt_chunks, mark_outcomes-IsJournaled,
  mark_probes_run-IsJournaled,
}
use radar_node.Store.Rebuild.Events.{
  none-some, queue_trigger-Projected, queue_trigger-decodable, queue_trigger-journal, After,
  After-IsJournaled, record_trigger-After, journal_trigger-IsJournaled,
  journal_completion-IsJournaled, journal_completions-IsJournaled, complete_triggers-After,
  save_assignment-After, assigned, journal_assignment-cases, journal_assignment-IsJournaled,
}

step-IsJournaled : (s : Store) (call : Call) → IsJournaled s → IsJournaled (step s call)
unfolding step load_pending_triggers mark_attempts
step-IsJournaled s (records_trigger works now ev) j =
    After-IsJournaled (journal_trigger now ev s) s _ (record_trigger-After works now ev s) j
      (journal_trigger-IsJournaled now ev s j)
step-IsJournaled s loads_triggers j =
    IsJournaled-same s _ (λ b. refl)
      (record {
        same_pending = retain-All decodes s.pending_triggers j.decodable;
        same_completed = refl;
        same_hash = refl;
      })
      j
step-IsJournaled s (completes works now ts) j =
    After-IsJournaled (journal_completions now ts s) s _ (complete_triggers-After works now ts s) j
      (journal_completions-IsJournaled now ts s j)
step-IsJournaled s (records parse_ms encodable works now rs) j =
    record_results-IsJournaled parse_ms encodable works now rs s j
step-IsJournaled s (settles works now os) j = mark_outcomes-IsJournaled works now os s j
step-IsJournaled s (attempts seqs) j =
    IsJournaled-same s _ (rebuild_rows-attempt_chunks (length seqs) seqs s.journal)
      (record { same_pending = refl; same_completed = refl; same_hash = refl }) j
step-IsJournaled s (assigns works now hash ps) j =
    After-IsJournaled (journal_assignment now hash ps s) s _
      (save_assignment-After works now hash ps s) j (journal_assignment-IsJournaled now hash ps s j)
step-IsJournaled s (runs ids at_ms) j = mark_probes_run-IsJournaled ids at_ms s j

run-IsJournaled : (s : Store) (calls : List Call) → IsJournaled s → IsJournaled (run s calls)
unfolding run
run-IsJournaled s [] j = j
run-IsJournaled s (call ∷ calls) j = run-IsJournaled (step s call) calls (step-IsJournaled s call j)

fresh-IsJournaled : (origin : String) → IsJournaled (fresh origin)
unfolding fresh rebuild_rows
fresh-IsJournaled origin = record {
  replays = λ b.
      (cleared b, refl, record { same_pending = refl; same_completed = refl; same_hash = refl });
  decodable = tt;
}

-- After any calls on a new database, `Rebuild` succeeds and gives the queue of pending triggers, the
-- completed triggers and the assignment's hash exactly as they were. (Maintenance, which deletes
-- journal rows, is not among these calls.)
pub rebuild_reproduces :
    (origin : String) (calls : List Call)
    → let s = run (fresh origin) calls in
      let (t, answer) = rebuild true s in
      (answer ≡ returned tt)
      × (t.pending_triggers ≡ s.pending_triggers)
      × (t.completed_triggers ≡ s.completed_triggers)
      × (t.probe_hash ≡ s.probe_hash)
unfolding rebuild
rebuild_reproduces origin calls =
    let s = run (fresh origin) calls in
    let (t, e, p) = (run-IsJournaled (fresh origin) calls (fresh-IsJournaled origin)).replays s in
    rw e (refl, p.same_pending, p.same_completed, p.same_hash)
