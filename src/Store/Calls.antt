-- ===== src/Store/Calls.antt =====
-- The methods of internal/store that write, as calls on the store, and what each leaves alone.
use radar_node.Base.{
  ℕ, suc, ◌≡◌, refl, ◌∙◌, ◌⊎◌, inl, inr, String, Bool, List, [], ◌∷◌, Option, none, some, arith,
  any, length, true, false, Bool-cases,
}
use radar_node.Wire.{Event, Result, ProbeSnapshot, Value}
use radar_node.Store.{
  Store, Body, trigger, trigger_done, conflicts, new_row, next_origin_seq, insert_journal,
}
use radar_node.Store.Triggers.{
  PendingTrigger, record_trigger, load_pending_triggers, complete_triggers, journal_trigger,
  queue_trigger, journal_completion, delete_pending, complete_trigger,
}
use radar_node.Store.Results.{
  Outcome, record_results, record_all, record_result, insert_result, mark_outcomes, mark_attempts,
  RecordSummary, empty_summary,
}
use radar_node.Store.Probes.{save_assignment, journal_assignment, apply_assignment, mark_probes_run}
use radar_node.Store.Sequences.{with_row, next_of, next_origin_seq_lem, Reserved}

-- Each call says whether the database accepts its statements, and the time.
pub data Call : Type 0 where
  records_trigger : Bool → ℕ → Event → Call
  loads_triggers : Call
  completes : Bool → ℕ → List PendingTrigger → Call
  records : (String → Option ℕ) → (List (String × Value) → Bool) → Bool → ℕ → List Result → Call
  settles : Bool → ℕ → List Outcome → Call
  attempts : List ℕ → Call
  assigns : Bool → ℕ → String → List ProbeSnapshot → Call
  runs : List String → ℕ → Call

unfoldable pub step : Store → Call → Store
step s (records_trigger works now ev) = (record_trigger works now ev s).0
step s loads_triggers = (load_pending_triggers s).0
step s (completes works now ts) = (complete_triggers works now ts s).0
step s (records parse_ms encodable works now rs) =
    (record_results parse_ms encodable works now rs s).0
step s (settles works now os) = (mark_outcomes works now os s).0
step s (attempts seqs) = mark_attempts seqs s
step s (assigns works now hash ps) = (save_assignment works now hash ps s).0
step s (runs ids at_ms) = mark_probes_run ids at_ms s

unfoldable pub run : Store → List Call → Store
run s [] = s
run s (call ∷ calls) = run (step s call) calls

pub insert_journal-cases :
    (q at : ℕ) (body : Body) (s : Store)
    → (insert_journal q at body s ≡ none)
      ⊎ (insert_journal q at body s ≡ some (with_row q at body s))
unfolding insert_journal
insert_journal-cases q at body s =
    elim (Bool-cases (any (conflicts (new_row q at body s)) s.journal)) [
      | inl clash ↦ inl (rw clash)
      | inr free ↦ inr (rw free)
    ]

-- The journal's part of `RecordTrigger`: refused, or one new row and the queue's.
pub journal_trigger-cases :
    (now : ℕ) (ev : Event) (s : Store)
    → (journal_trigger now ev s ≡ none)
      ⊎ ((t : Store) × (journal_trigger now ev s
            ≡ some (queue_trigger ev t.next_rowid now (with_row (next_of s) now (trigger ev) t)))
          × Reserved 1 s t)
unfolding journal_trigger
journal_trigger-cases now ev s =
    let (t, e, v) = next_origin_seq_lem 1 s (omega arith) in
    elim (insert_journal-cases (next_of s) now (trigger ev) t) [
      | inl no_row ↦ inl (rw (e, no_row, journal_trigger))
      | inr row ↦ inr (t, rw (e, row, journal_trigger), v)
    ]

pub journal_completion-cases :
    (now : ℕ) (probe_id run_id : String) (s : Store)
    → let cleared = delete_pending probe_id run_id s in
      let body = trigger_done probe_id run_id in
      (journal_completion now probe_id run_id s ≡ none)
      ⊎ ((t : Store) × (journal_completion now probe_id run_id s
            ≡ some (complete_trigger probe_id run_id now (with_row (next_of cleared) now body t)))
          × Reserved 1 cleared t)
unfolding journal_completion
journal_completion-cases now probe_id run_id s =
    let cleared = delete_pending probe_id run_id s in
    let (t, e, v) = next_origin_seq_lem 1 cleared (omega arith) in
    elim (insert_journal-cases (next_of cleared) now (trigger_done probe_id run_id) t) [
      | inl no_row ↦ inl (rw (e, no_row, journal_completion))
      | inr row ↦ inr (t, rw (e, row, journal_completion), v)
    ]

-- All that the queue of triggers rests on.
pub record SameTriggers (s t : Store) : Type 0 where
  pub same_pending : t.pending_triggers ≡ s.pending_triggers
  pub same_completed : t.completed_triggers ≡ s.completed_triggers

SameTriggers-trans : {s t u : Store} → SameTriggers s t → SameTriggers t u → SameTriggers s u
SameTriggers-trans p q = record {
  same_pending = q.same_pending ∙ p.same_pending;
  same_completed = q.same_completed ∙ p.same_completed;
}

module _ (parse_ms : String → Option ℕ) (encodable : List (String × Value) → Bool) where
  record_result-SameTriggers :
      (now q : ℕ) (r : Result) (s : Store) (m : RecordSummary)
      → SameTriggers s (record_result parse_ms encodable now q r (s, m)).0
  unfolding record_result insert_result insert_journal
  record_result-SameTriggers now q r s m = ground arith

  record_all-SameTriggers :
      (now q : ℕ) (rs : List Result) (s : Store) (m : RecordSummary)
      → SameTriggers s (record_all parse_ms encodable now q rs (s, m)).0
  unfolding record_all
  record_all-SameTriggers now q [] s m = record { same_pending = refl; same_completed = refl }
  record_all-SameTriggers now q (r ∷ rs) s m =
      let sm = record_result parse_ms encodable now q r (s, m) in
      SameTriggers-trans (record_result-SameTriggers now q r s m)
        (record_all-SameTriggers now (suc q) rs sm.0 sm.1)

  pub record_results-SameTriggers :
      (works : Bool) (now : ℕ) (rs : List Result) (s : Store)
      → SameTriggers s (record_results parse_ms encodable works now rs s).0
  unfolding record_results
  record_results-SameTriggers works now [] s = record { same_pending = refl; same_completed = refl }
  record_results-SameTriggers false now (r ∷ rs) s = record {
    same_pending = refl;
    same_completed = refl;
  }
  record_results-SameTriggers true now (r ∷ rs) s =
      let (t, e, v) = next_origin_seq_lem (length (r ∷ rs)) s (omega arith) in
      let h = record_all-SameTriggers now (next_of s) (r ∷ rs) t empty_summary in
      rw e (record {
        same_pending = h.same_pending ∙ v.same_pending;
        same_completed = h.same_completed ∙ v.same_completed;
      })

pub save_assignment-SameTriggers :
    (works : Bool) (now : ℕ) (hash : String) (ps : List ProbeSnapshot) (s : Store)
    → SameTriggers s (save_assignment works now hash ps s).0
unfolding save_assignment journal_assignment next_origin_seq insert_journal apply_assignment
save_assignment-SameTriggers works now hash ps s = ground arith

pub mark_probes_run-SameTriggers :
    (ids : List String) (at_ms : ℕ) (s : Store) → SameTriggers s (mark_probes_run ids at_ms s)
unfolding mark_probes_run
mark_probes_run-SameTriggers [] at_ms s = record { same_pending = refl; same_completed = refl }
mark_probes_run-SameTriggers (id ∷ ids) at_ms s =
    let h = mark_probes_run-SameTriggers ids at_ms _ in
    record { same_pending = h.same_pending; same_completed = h.same_completed }

pub mark_outcomes-SameTriggers :
    (works : Bool) (now : ℕ) (os : List Outcome) (s : Store)
    → SameTriggers s (mark_outcomes works now os s).0
unfolding mark_outcomes
mark_outcomes-SameTriggers works now [] s = record { same_pending = refl; same_completed = refl }
mark_outcomes-SameTriggers works now (o ∷ os) s = ground arith
